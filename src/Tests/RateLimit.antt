-- ===== src/Tests/RateLimit.antt =====
-- Runs of the in-memory rate limiter.
use file_cheap.Prelude.{ℕ, ◌+◌, ◌-◌, ◌*◌, ◌/◌, ◌≤◌, String, ◌≡◌, refl, List, [], ◌∷◌, arith}
use file_cheap.Prelude.Key.{string_key}
use file_cheap.Prelude.Map.{lookup, insert}
use file_cheap.Api.RateLimit.{RateLimiter, new_rate_limiter, second, allow, cleanup, grants}
use file_cheap.Api.RateLimit.Bounds.{grants-new_le}
use file_cheap.Api.RateLimit.Starvation.{grants-frequent_le}
use file_cheap.Api.RateLimit.Cleanup.{allow-cleanup}

limiter_runs : Unit {0}
unfolding new_rate_limiter allow grants lookup insert
limiter_runs = tt

-- Five calls, 0.9 seconds apart, with a burst of 2 and a rate of 10: two are allowed.
abbrev busy : List (String × ℕ)
busy =
    ("k", 0)
    ∷ ("k", 900_000_000)
    ∷ ("k", 1_800_000_000)
    ∷ ("k", 2_700_000_000)
    ∷ ("k", 3_600_000_000)
    ∷ []

two_allowed : grants "k" (new_rate_limiter 10 2) busy ≡ 2
unfolding limiter_runs
two_allowed = refl

refilled_once :
    grants "k"
      (new_rate_limiter 1 1)
      (("k", 0) ∷ ("k", 1_000_000_000) ∷ ("j", 1_500_000_000) ∷ ("k", 1_500_000_000) ∷ [])
    ≡ 2
unfolding limiter_runs
refilled_once = refl

grants-new_le_example :
    grants "k" (new_rate_limiter 10 2) busy ≤ 2 + 10 * ((3_600_000_000 - 0) / second)
grants-new_le_example = grants-new_le "k" 10 2 0 3_600_000_000 busy (omega arith) (omega arith)

grants-frequent_le_example : grants "k" (new_rate_limiter 10 2) busy ≤ 2
grants-frequent_le_example = grants-frequent_le "k" 10 2 busy (omega arith) (ground arith)

abbrev stale : RateLimiter
stale = record {
  rate = 10;
  burst = 2;
  buckets =
      ("j", record { tokens = 1; last_reset = 0 })
      ∷ ("k", record { tokens = 0; last_reset = 5 })
      ∷ [];
}

allow-cleanup_example :
    ((allow "k" 900_000_000_000 (cleanup 800_000_000_000 stale)).0
      ≡ (allow "k" 900_000_000_000 stale).0)
    × (lookup "k" (allow "k" 900_000_000_000 (cleanup 800_000_000_000 stale)).1.buckets
        ≡ lookup "k" (allow "k" 900_000_000_000 stale).1.buckets)
unfolding lookup
allow-cleanup_example =
    allow-cleanup "k" stale 800_000_000_000 900_000_000_000 (omega arith) (omega arith)
      (refl, (refl, tt)) (omega arith)
