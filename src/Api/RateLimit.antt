-- ===== src/Api/RateLimit.antt =====
-- The in-memory token bucket of internal/api/middleware.go (`RateLimiter`). Times are readings of
-- the clock in nanoseconds, which never runs back; the rate, the burst and the tokens are not
-- negative and stay far below 2^63. `cleanupLoop` calls `cleanup` and is not modelled itself.
pub mod Bounds
pub mod Cleanup
pub mod Starvation
use file_cheap.Prelude.{
  ℕ, ◌+◌, ◌-◌, ◌*◌, ◌/◌, String, Bool, true, false, Option, none, some, List, [], ◌∷◌, ltb,
  if◌then◌else◌, nat_beq,
}
use file_cheap.Prelude.Key.{string_key, ◌==◌}
use file_cheap.Prelude.Map.{Map, lookup, insert}
use file_cheap.Prelude.Map.Retain.{sweep}

pub record Bucket : Type 0 where
  pub tokens : ℕ
  pub last_reset : ℕ

pub record RateLimiter : Type 0 where
  pub rate : ℕ
  pub burst : ℕ
  pub buckets : Map String Bucket

unfoldable pub new_rate_limiter : ℕ → ℕ → RateLimiter
new_rate_limiter rate burst = record { rate = rate; burst = burst; buckets = [] }

abbrev pub second : ℕ
second = 1_000_000_000

-- The tokens after the refill: whole seconds only, and no more than the burst.
unfoldable pub refilled : ℕ → ℕ → ℕ → Bucket → ℕ
refilled rate burst now b =
    let tokens = b.tokens + (now - b.last_reset) / second * rate in
    if ltb burst tokens then burst else tokens

-- The end of `Allow`: one token is taken, if there is one.
unfoldable pub charge : ℕ → ℕ → Bool × Bucket
charge tokens now =
    if ltb 0 tokens
    then (true, record { tokens = tokens - 1; last_reset = now })
    else (false, record { tokens = tokens; last_reset = now })

-- `Allow` on the bucket of the key, for a positive burst.
unfoldable pub allow_bucket : ℕ → ℕ → ℕ → Option Bucket → Bool × Bucket
unfolding refilled charge
allow_bucket rate burst now none = (true, record { tokens = burst - 1; last_reset = now })
allow_bucket rate burst now (some b) = charge (refilled rate burst now b) now

unfoldable pub allow : String → ℕ → RateLimiter → Bool × RateLimiter
unfolding allow_bucket
allow key now rl =
    let (ok, b) = allow_bucket rl.rate rl.burst now (lookup key rl.buckets) in
    if nat_beq rl.burst 0
    then (false, rl)
    else (ok, record rl { buckets = insert key b rl.buckets })

-- `cleanup` drops the buckets whose last use lies more than ten minutes back.
unfoldable pub cleanup : ℕ → RateLimiter → RateLimiter
cleanup now rl = record rl {
  buckets = sweep (λ b. ltb (b.last_reset + 600 * second) now) rl.buckets;
}

-- The calls that clients make one after the other, and how many of a key's calls are allowed.
unfoldable pub grants : String → RateLimiter → List (String × ℕ) → ℕ
grants key rl [] = 0
grants key rl ((k, now) ∷ cs) =
    let (ok, rl') = allow k now rl in
    (if k == key then (if ok then 1 else 0) else 0) + grants key rl' cs
