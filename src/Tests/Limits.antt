-- ===== src/Tests/Limits.antt =====
-- The theorem on rate limits at an address that signs in.
use ats_onework.Prelude.{◌-◌, min, [], ◌∷◌, ◌≡◌, refl, arith}
use ats_onework.Schema.{Db, RateLimitBucket}
use ats_onework.RateLimit.{login_per_account}
use ats_onework.RateLimit.Bursts.{accepted, accepted-exact}
use ats_onework.Tests.Office.{office}

abbrev counter : RateLimitBucket
counter = record { bucket_key = "a@x"; window_start = 10; hits = 14 }

abbrev guessed : Db
guessed = record office { rate_limit_buckets = counter ∷ [] }

accepted-exact_example :
    accepted "a@x" login_per_account (20 ∷ 30 ∷ 40 ∷ []) guessed ≡ min 3 (15 - 14)
accepted-exact_example =
    accepted-exact "a@x" login_per_account (20 ∷ 30 ∷ 40 ∷ []) guessed counter refl
      (omega arith, (omega arith, (omega arith, tt))) (omega arith)
