-- ===== src/RateLimit/Bursts.antt =====
-- How many attempts a window lets through.
use ats_onework.Prelude.{
  ℕ, suc, ◌+◌, ◌-◌, min, length, ◌≤◌, ◌<◌, String, Bool, true, false, some, List, [], ◌∷◌, ◌≡◌,
  refl, sym, subst, ap, find_sound, ◌&&◌, leb, arith, find, update, find-update-some, All,
  Bool-cases, inl, inr,
}
use ats_onework.Exec.{Result, ok, err}
use ats_onework.Schema.{Db, RateLimitBucket}
use ats_onework.Auth.Connection.{request}
use ats_onework.RateLimit.{
  Limit, has_bucket_key, is_open, open_bucket, count_hit, add_hit, refuse_over, hit,
}

abbrev pub attempt : String → Limit → ℕ → Db → Result (Unit {0}) × Db
attempt key limit now = request now (hit key limit)

abbrev one : Result (Unit {0}) → ℕ
one (ok a) = 1
one (err e) = 0

-- How many of the attempts at these times are let through.
unfoldable pub accepted : String → Limit → List ℕ → Db → ℕ
accepted key limit [] d = 0
accepted key limit (now ∷ later) d =
    one (attempt key limit now d).0 + accepted key limit later (attempt key limit now d).1

find-both :
    {A : Type 0} (p q : A → Bool) (rows : List A) (b : A)
    → find p rows ≡ some b
    → q b ≡ true
    → find (λ x. p x && q x) rows ≡ some b
find-both p q [] b h open_it = cc
find-both p q (x ∷ rows) b h open_it = elim (Bool-cases (p x)) [
  | inl e ↦
      let same : x ≡ b = cc (rw e at h) in
      let now_open = subst (λ y. q y ≡ true) (sym same) open_it in rw (e, now_open) (ap some same)
  | inr e ↦ rw e (find-both p q rows b (rw e at h) open_it)
]

same_key :
    (key : String) (now window : ℕ) (x : RateLimitBucket)
    → has_bucket_key key (count_hit now window x) ≡ has_bucket_key key x
same_key key now window x = elim (Bool-cases (leb (x.window_start + window) now)) [
  | inl e ↦ rw e refl
  | inr e ↦ rw e refl
]

module _ (key : String) (limit : Limit) (now : ℕ) (d : Db) (b : RateLimitBucket)
    (found : find (has_bucket_key key) d.rate_limit_buckets ≡ some b)
    (early : now < b.window_start + limit.window_seconds) where
  is_opened : is_open now limit.window_seconds b ≡ true
  is_opened = ground arith

  found_open : open_bucket key limit.window_seconds (record d { now = now }) ≡ some b
  unfolding open_bucket
  found_open =
      find-both (has_bucket_key key) (is_open now limit.window_seconds) d.rate_limit_buckets b found
        is_opened

  -- The counter after one more attempt.
  counted :
      find
        (has_bucket_key key)
        (update (has_bucket_key key) (count_hit now limit.window_seconds) d.rate_limit_buckets)
      ≡ some (record b { hits = suc b.hits })
  counted =
      let kept =
        find-update-some (has_bucket_key key) (has_bucket_key key)
          (count_hit now limit.window_seconds) d.rate_limit_buckets
          (same_key key now limit.window_seconds) found in
      let own = find_sound (has_bucket_key key) d.rate_limit_buckets found in
      let young : leb (b.window_start + limit.window_seconds) now ≡ false = ground arith in
      rw (kept, own, young) refl

  -- While the window of a key's counter is open and the counter is under the limit, an attempt is let
  -- through, and the counter that it leaves in the database is one higher.
  attempt-under :
      b.hits < limit.count
      → ((attempt key limit now d).0 ≡ ok tt)
        × (find (has_bucket_key key) (attempt key limit now d).1.rate_limit_buckets
            ≡ some (record b { hits = suc b.hits }))
  unfolding request hit refuse_over add_hit
  attempt-under under =
      let below : leb limit.count b.hits ≡ false = ground arith in
      (rw (found_open, below) refl, rw (found_open, below, found) counted)

  -- At the limit it is refused, and the counter stays.
  attempt-over :
      limit.count ≤ b.hits
      → (one (attempt key limit now d).0 ≡ 0)
        × (find (has_bucket_key key) (attempt key limit now d).1.rate_limit_buckets ≡ some b)
  unfolding request hit refuse_over
  attempt-over over =
      let above : leb limit.count b.hits ≡ true = ground arith in
      (rw (found_open, above) refl, rw (found_open, above) found)

-- If a key's counter is within the limit, then of the attempts made while its window is open as many
-- are let through as the counter lacks of the limit, or all of them if they are fewer.
pub accepted-exact :
    (key : String) (limit : Limit) (times : List ℕ) (d : Db) (b : RateLimitBucket)
    → find (has_bucket_key key) d.rate_limit_buckets ≡ some b
    → All (λ now. now < b.window_start + limit.window_seconds) times
    → b.hits ≤ limit.count
    → accepted key limit times d ≡ min (length times) (limit.count - b.hits)
unfolding accepted
accepted-exact key limit [] d b found early within = omega arith
accepted-exact key limit (now ∷ later) d b found early within =
    elim (Bool-cases (leb limit.count b.hits)) [
      | inl over ↦
          let (refused, stays) =
            attempt-over key limit now d b found early.0 (ground (arith, over)) in
          let rest =
            accepted-exact key limit later (attempt key limit now d).1 b stays early.1 within in
          let full : limit.count ≤ b.hits = ground (arith, over) in
          rw refused (omega (arith, rest, full))
      | inr under ↦
          let (passed, more) =
            attempt-under key limit now d b found early.0 (ground (arith, under)) in
          let room : b.hits < limit.count = ground (arith, under) in
          let rest =
            accepted-exact key limit later (attempt key limit now d).1
              (record b { hits = suc b.hits }) more early.1 (omega (arith, room)) in
          rw passed (omega (arith, rest, room))
    ]
