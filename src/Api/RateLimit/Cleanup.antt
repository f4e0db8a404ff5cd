-- ===== src/Api/RateLimit/Cleanup.antt =====
-- Dropping stale buckets does not change what a client is answered.
use file_cheap.Prelude.{
  ℕ, ◌+◌, ◌-◌, ◌*◌, ◌/◌, ◌≤◌, ◌<◌, String, ◌≡◌, refl, sym, ap, ◌∙◌, inl, inr, Option, none, some,
  arith, Bool-cases, ltb, ltb→lt,
}
use file_cheap.Prelude.Key.{string_key, test_refl}
use file_cheap.Prelude.Map.{lookup}
use file_cheap.Prelude.Map.Retain.{HasUniqueKeys, unless, lookup-sweep}
use file_cheap.Api.RateLimit.{
  Bucket, RateLimiter, second, refilled, charge, allow_bucket, allow, cleanup,
}
use file_cheap.Api.RateLimit.Bounds.{lookup-allow, allow_answer}

mul_le : (a r : ℕ) → 600 ≤ a → 600 * r ≤ a * r
mul_le a r h = grind arith

-- A bucket that is stale at `now` is full again at any later time.
allow_bucket-stale :
    (rate burst now later : ℕ) (b : Bucket)
    → 0 < burst
    → burst ≤ 600 * rate
    → now ≤ later
    → b.last_reset + 600 * second < now
    → allow_bucket rate burst later (some b) ≡ allow_bucket rate burst later none
unfolding allow_bucket refilled charge
allow_bucket-stale rate burst now later b p full l stale =
    let seconds : 600 ≤ (later - b.last_reset) / second = omega arith in
    ground (arith, mul_le ((later - b.last_reset) / second) rate seconds)

allow_bucket-unless :
    (rate burst now later : ℕ) (o : Option Bucket)
    → 0 < burst
    → burst ≤ 600 * rate
    → now ≤ later
    → allow_bucket rate burst later (unless (λ b. ltb (b.last_reset + 600 * second) now) o)
      ≡ allow_bucket rate burst later o
allow_bucket-unless rate burst now later none p full l = refl
allow_bucket-unless rate burst now later (some b) p full l =
    elim (Bool-cases (ltb (b.last_reset + 600 * second) now)) [
      | inl stale ↦
          rw stale (sym (allow_bucket-stale rate burst now later b p full l (ltb→lt _ _ stale)))
      | inr fresh ↦ rw fresh
    ]

lookup-cleanup :
    (key : String) (rl : RateLimiter) (now : ℕ)
    → HasUniqueKeys rl.buckets
    → lookup key (cleanup now rl).buckets
      ≡ unless (λ b. ltb (b.last_reset + 600 * second) now) (lookup key rl.buckets)
unfolding cleanup
lookup-cleanup key rl now u =
    lookup-sweep (λ b. ltb (b.last_reset + 600 * second) now) key rl.buckets u

cleanup_config :
    (rl : RateLimiter) (now : ℕ)
    → ((cleanup now rl).rate ≡ rl.rate) × ((cleanup now rl).burst ≡ rl.burst)
unfolding cleanup
cleanup_config rl now = (refl, refl)

-- What a call answers, and the bucket that it leaves, by the bucket that it finds.
allow_self :
    (key : String) (rl : RateLimiter) (later : ℕ) (rate burst : ℕ) (o : Option Bucket)
    → 0 < rl.burst
    → rl.rate ≡ rate
    → rl.burst ≡ burst
    → lookup key rl.buckets ≡ o
    → ((allow key later rl).0 ≡ (allow_bucket rate burst later o).0)
      × (lookup key (allow key later rl).1.buckets ≡ some (allow_bucket rate burst later o).1)
allow_self key rl later rate burst o p r b e =
    let answer = allow_answer key key later rl p (test_refl key) in
    let entry = (lookup-allow key key later rl p).0 in
    rw (← r, ← b, ← e) (answer, entry ∙ rw (test_refl key))

-- With a burst that ten minutes refill, `cleanup` leaves the answer to every later call, and the
-- bucket after it, as they would have been.
pub allow-cleanup :
    (key : String) (rl : RateLimiter) (now later : ℕ)
    → 0 < rl.burst
    → rl.burst ≤ 600 * rl.rate
    → HasUniqueKeys rl.buckets
    → now ≤ later
    → ((allow key later (cleanup now rl)).0 ≡ (allow key later rl).0)
      × (lookup key (allow key later (cleanup now rl)).1.buckets
          ≡ lookup key (allow key later rl).1.buckets)
allow-cleanup key rl now later p full u l =
    let (same_rate, same_burst) = cleanup_config rl now in
    let (a, b) =
      allow_self key (cleanup now rl) later rl.rate rl.burst _ (rw same_burst p) same_rate
        same_burst (lookup-cleanup key rl now u) in
    let (c, d) = allow_self key rl later rl.rate rl.burst _ p refl refl refl in
    let same = allow_bucket-unless rl.rate rl.burst now later (lookup key rl.buckets) p full l in
    (a ∙ ap (λ r. r.0) same ∙ sym c, b ∙ ap (λ r. some r.1) same ∙ sym d)
