-- ===== src/Webhook/Backoff.antt =====
-- `calculateBackoff` of internal/worker/webhook.go. A duration is an int64 number of nanoseconds.
-- `rand.Float64()` is sample / 2^53 with sample < 2^53, so that the factor 0.5 * it - 0.25 is
-- (sample - 2^52) / 2^54 exactly; the conversion to `time.Duration` cuts its fraction off.
use file_cheap.Prelude.{
  ℕ, ◌-◌, ◌*◌, ◌/◌, ◌^◌, ◌≤◌, ◌<◌, min, ◌≡◌, refl, ◌∙◌, true, arith, leb, if◌then◌else◌,
  holds_below, at_holds_below,
}
use file_cheap.Prelude.Int.{ℤ, pos, ◌+ℤ◌, ◌*ℤ◌, sub_ℕ, ltb_ℤ, wrap64, eq_ℤ, eq_ℤ_iff}

abbrev pub base_delay : ℕ
base_delay = 30 * 1_000_000_000

abbrev pub max_delay : ℕ
max_delay = 4 * 3600 * 1_000_000_000

-- `time.Duration(rand.Float64()*0.5 - 0.25)`.
jitter_factor : ℕ → ℤ
jitter_factor sample =
    if leb (2 ^ 52) sample
    then pos ((sample - 2 ^ 52) / 2 ^ 54)
    else sub_ℕ 0 ((2 ^ 52 - sample) / 2 ^ 54)

-- `base * time.Duration(1<<uint(attempt))`, capped.
capped : ℕ → ℤ
capped attempt =
    let backoff = wrap64 (pos (base_delay * 2 ^ attempt)) in
    if ltb_ℤ (pos max_delay) backoff then pos max_delay else backoff

unfoldable pub calculate_backoff : ℕ → ℕ → ℤ
unfolding jitter_factor capped
calculate_backoff attempt sample =
    let backoff = capped attempt in wrap64 (backoff +ℤ wrap64 (jitter_factor sample *ℤ backoff))

jitter_factor-zero : (sample : ℕ) → sample < 2 ^ 53 → jitter_factor sample ≡ pos 0
unfolding jitter_factor
jitter_factor-zero sample h = ground arith

same_for_samples :
    (attempt a b : ℕ)
    → a < 2 ^ 53
    → b < 2 ^ 53
    → calculate_backoff attempt a ≡ calculate_backoff attempt b
unfolding calculate_backoff
same_for_samples attempt a b h k = rw (jitter_factor-zero a h, jitter_factor-zero b k)

table :
    holds_below
      (λ n. eq_ℤ (calculate_backoff n (2 ^ 52)) (pos (min (base_delay * 2 ^ n) max_delay)))
      29
    ≡ true
unfolding holds_below calculate_backoff
table = refl

-- Up to attempt 28 the delay is 30 seconds doubled for each attempt and cut at four hours, and it
-- is so for every random sample: there is no jitter.
pub calculate_backoff_lem :
    (attempt sample : ℕ)
    → attempt ≤ 28
    → sample < 2 ^ 53
    → calculate_backoff attempt sample ≡ pos (min (base_delay * 2 ^ attempt) max_delay)
calculate_backoff_lem attempt sample h s =
    same_for_samples attempt sample (2 ^ 52) s (omega arith)
    ∙ (eq_ℤ_iff _ _).0 (at_holds_below _ 29 table attempt (omega arith))
