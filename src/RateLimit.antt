-- ===== src/RateLimit.antt =====
-- core/rate_limit.py: counters in fixed windows.
pub mod Bursts
use package.text.Mathlib.Text.{◌==◌ as str_eq}
use ats_onework.Prelude.{
  ℕ, suc, ◌+◌, ◌-◌, String, Bool, Option, none, some, List, [], ◌∷◌, ◌++◌, ◌&&◌, leb, ltb, max,
  if◌then◌else◌, find, update, delete,
}
use ats_onework.Exec.{Exec, Error, pure, raise, gets, modify, ◌>>=◌, ◌>>◌}
use ats_onework.Schema.{Db, RateLimitBucket}
use ats_onework.Auth.Connection.{Conn, on_current, commit}

pub record Limit : Type 0 where
  pub count : ℕ
  pub window_seconds : ℕ

abbrev pub login_per_address : Limit
login_per_address = record { count = 30; window_seconds = 60 }

abbrev pub login_per_address_accounts : Limit
login_per_address_accounts = record { count = 50; window_seconds = 300 }

abbrev pub login_per_account : Limit
login_per_account = record { count = 15; window_seconds = 900 }

abbrev pub register_per_address : Limit
register_per_address = record { count = 20; window_seconds = 3600 }

abbrev pub refresh_per_address : Limit
refresh_per_address = record { count = 120; window_seconds = 60 }

abbrev pub has_bucket_key : String → RateLimitBucket → Bool
has_bucket_key key b = str_eq b.bucket_key key

-- `window_start > CURRENT_TIMESTAMP - window`
abbrev pub is_open : ℕ → ℕ → RateLimitBucket → Bool
is_open now window b = ltb now (b.window_start + window)

unfoldable pub open_bucket : String → ℕ → Db → Option RateLimitBucket
open_bucket key window d =
    find (λ b. has_bucket_key key b && is_open d.now window b) d.rate_limit_buckets

-- `_elapsed`
abbrev pub since : ℕ → Option RateLimitBucket → ℕ
since now none = 0
since now (some b) = now - b.window_start

unfoldable pub elapsed : String → Db → ℕ
elapsed key d = since d.now (find (has_bucket_key key) d.rate_limit_buckets)

-- `ON CONFLICT (bucket_key) DO UPDATE`
abbrev pub count_hit : ℕ → ℕ → RateLimitBucket → RateLimitBucket
count_hit now window b =
    if leb (b.window_start + window) now
    then record b { hits = 1; window_start = now }
    else record b { hits = suc b.hits }

abbrev pub upsert :
    String → ℕ → ℕ → Option RateLimitBucket → List RateLimitBucket → List RateLimitBucket
upsert key now window none rows =
    rows ++ record { bucket_key = key; window_start = now; hits = 1 } ∷ []
upsert key now window (some b) rows = update (has_bucket_key key) (count_hit now window) rows

unfoldable pub add_hit : String → ℕ → Exec Db (Unit {0})
add_hit key window d =
    let rows = d.rate_limit_buckets in
    modify
      (λ x. record x {
        rate_limit_buckets = upsert key d.now window (find (has_bucket_key key) rows) rows;
      })
      d

-- `retry_after`
abbrev pub retry_after : ℕ → ℕ → ℕ
retry_after window passed = max 1 (window - passed)

-- What `hit` does when there are too many attempts in the open window.
unfoldable pub refuse_over : String → Limit → Option RateLimitBucket → Exec Db (Unit {0})
refuse_over key limit none = pure tt
refuse_over key limit (some row) =
    if leb limit.count row.hits
    then (do
      passed ← gets (elapsed key)
      raise (Error.rate_limited (retry_after limit.window_seconds passed)))
    else pure tt

unfoldable pub hit : String → Limit → Exec Conn (Unit {0})
hit key limit = do
  row ← on_current (gets (open_bucket key limit.window_seconds))
  on_current (refuse_over key limit row)
  on_current (add_hit key limit.window_seconds)
  commit

unfoldable pub clear : String → Exec Conn (Unit {0})
clear key = do
  on_current (
      modify
        (λ d. record d { rate_limit_buckets = delete (has_bucket_key key) d.rate_limit_buckets }))
  commit

unfoldable pub purge_stale : ℕ → Exec Db (Unit {0})
purge_stale older_than_seconds d =
    modify
      (λ x. record x {
        rate_limit_buckets =
            delete (λ b. leb (b.window_start + older_than_seconds) d.now) x.rate_limit_buckets;
      })
      d
