-- ===== src/Api/RateLimit/Bounds.antt =====
-- How many calls of one key the limiter allows.
use text.Mathlib.TextEquality.{eq_iff}
use native.Mathlib.Nat.{le_refl}
use file_cheap.Prelude.{
  ap, ℕ, ◌+◌, ◌-◌, ◌*◌, ◌/◌, ◌≤◌, ◌<◌, String, ◌≡◌, refl, inl, inr, Bool, true, false, Option, none,
  some, List, [], ◌∷◌, arith, if◌then◌else◌, Bool-cases, nat_beq,
}
use file_cheap.Prelude.Key.{string_key, ◌==◌}
use file_cheap.Prelude.Map.{lookup, lookup-insert_by, insert}
use file_cheap.Api.RateLimit.{
  Bucket, RateLimiter, new_rate_limiter, second, refilled, charge, allow_bucket, allow, grants,
}

allow_positive :
    (k : String) (now : ℕ) (rl : RateLimiter)
    → 0 < rl.burst
    → allow k now rl ≡ (
      (allow_bucket rl.rate rl.burst now (lookup k rl.buckets)).0,
      record rl {
        buckets = insert k (allow_bucket rl.rate rl.burst now (lookup k rl.buckets)).1 rl.buckets;
      },
    )
unfolding allow
allow_positive k now rl p = rw (ltb_zero rl.burst p)
  where
    ltb_zero : (n : ℕ) → 0 < n → nat_beq n 0 ≡ false
    ltb_zero n h = ground arith

-- The bucket of `key` after a call of `k`, and the answer if `k` is `key`, for a positive burst.
pub lookup-allow :
    (key k : String) (now : ℕ) (rl : RateLimiter)
    → 0 < rl.burst
    → (lookup key (allow k now rl).1.buckets ≡ (
        if k == key
        then some (allow_bucket rl.rate rl.burst now (lookup key rl.buckets)).1
        else lookup key rl.buckets))
      × ((allow k now rl).1.rate ≡ rl.rate)
      × ((allow k now rl).1.burst ≡ rl.burst)
lookup-allow key k now rl p = rw (allow_positive k now rl p) (
  lookup-insert_by (λ o. some (allow_bucket rl.rate rl.burst now o).1) k key rl.buckets _ refl,
  refl,
  refl,
)

-- What a bucket can still give up to the time `until`; an absent one is made at `from` or later.
abbrev credit : ℕ → ℕ → ℕ → ℕ → Option Bucket → ℕ
credit rate burst from until none = burst + rate * ((until - from) / second)
credit rate burst from until (some b) = b.tokens + rate * ((until - b.last_reset) / second)

abbrev IsBefore : ℕ → Option Bucket → Type 0
IsBefore from none = Unit
IsBefore from (some b) = b.last_reset ≤ from

abbrev one_if : Bool → ℕ
one_if b = if b then 1 else 0

mul_mono : (r a b : ℕ) → a ≤ b → r * a ≤ r * b
mul_mono r a b h = grind arith

spread : (r a b c : ℕ) → a + b ≤ c → a * r + r * b ≤ r * c
spread r a b c h = omega (arith, mul_mono r (a + b) c h)

module _ (rate burst from now until : ℕ) (early : from ≤ now) (late : now ≤ until) where
  credit-allow_bucket :
      (o : Option Bucket)
      → 0 < burst
      → IsBefore from o
      → one_if (allow_bucket rate burst now o).0
          + credit rate burst now until (some (allow_bucket rate burst now o).1)
        ≤ credit rate burst from until o
  unfolding allow_bucket refilled charge
  credit-allow_bucket none p h =
      ground (arith, mul_mono rate ((until - now) / second) ((until - from) / second) (omega arith))
  credit-allow_bucket (some b) p h = ground (
    arith,
    spread rate ((now - b.last_reset) / second) ((until - now) / second)
        ((until - b.last_reset) / second) (omega arith),
  )

  credit-later :
      (o : Option Bucket) → credit rate burst now until o ≤ credit rate burst from until o
  credit-later none =
      omega (arith, mul_mono rate ((until - now) / second) ((until - from) / second) (omega arith))
  credit-later (some b) = omega arith

  IsBefore-later : (o : Option Bucket) → IsBefore from o → IsBefore now o
  IsBefore-later none h = tt
  IsBefore-later (some b) h = omega arith

-- The times of the calls do not run back, and lie between `from` and `until`.
abbrev pub Between : ℕ → ℕ → List (String × ℕ) → Type 0
Between from until [] = Unit
Between from until ((k, now) ∷ cs) = (from ≤ now) × (now ≤ until) × Between now until cs

pub allow_answer :
    (key k : String) (now : ℕ) (rl : RateLimiter)
    → 0 < rl.burst
    → (k == key) ≡ true
    → (allow k now rl).0 ≡ (allow_bucket rl.rate rl.burst now (lookup key rl.buckets)).0
allow_answer key k now rl p same =
    rw (allow_positive k now rl p) (
      ap (λ i. (allow_bucket rl.rate rl.burst now (lookup i rl.buckets)).0) ((eq_iff k key).0 same))

allow_bucket-IsBefore :
    (rate burst now : ℕ) (o : Option Bucket) → IsBefore now (some (allow_bucket rate burst now o).1)
unfolding allow_bucket charge
allow_bucket-IsBefore rate burst now none = le_refl now
allow_bucket-IsBefore rate burst now (some b) = ground arith

-- One call, seen by `key`: what it is given and what it may still get.
credit-allow :
    (key k : String) (rl : RateLimiter) (from now until : ℕ)
    → 0 < rl.burst
    → from ≤ now
    → now ≤ until
    → IsBefore from (lookup key rl.buckets)
    → ((if k == key then one_if (allow k now rl).0 else 0)
          + credit rl.rate rl.burst now until (lookup key (allow k now rl).1.buckets)
        ≤ credit rl.rate rl.burst from until (lookup key rl.buckets))
      × IsBefore now (lookup key (allow k now rl).1.buckets)
credit-allow key k rl from now until p early late h =
    let o = lookup key rl.buckets in
    elim (Bool-cases (k == key)) [
      | inl same ↦
          rw (same, (lookup-allow key k now rl p).0, same, allow_answer key k now rl p same)
            (
              credit-allow_bucket rl.rate rl.burst from now until early late o p h,
              allow_bucket-IsBefore rl.rate rl.burst now o,
            )
      | inr other ↦
          rw (other, (lookup-allow key k now rl p).0, other)
            (
              omega (arith, credit-later rl.rate rl.burst from now until early late o),
              IsBefore-later rl.rate rl.burst from now until early late o h,
            )
    ]

grants-le :
    (key : String) (rl : RateLimiter) (from until : ℕ) (cs : List (String × ℕ))
    → 0 < rl.burst
    → IsBefore from (lookup key rl.buckets)
    → Between from until cs
    → grants key rl cs ≤ credit rl.rate rl.burst from until (lookup key rl.buckets)
unfolding grants
grants-le key rl from until [] p h t = omega arith
grants-le key rl from until ((k, now) ∷ cs) p h (early, late, t) =
    let rl' = (allow k now rl).1 in
    let (_, same_rate, same_burst) = lookup-allow key k now rl p in
    let (step, before) = credit-allow key k rl from now until p early late h in
    let ih = grants-le key rl' now until cs (rw same_burst p) before t in
    omega (arith, step, (rw (same_rate, same_burst) at ih))

-- In any run of calls by any keys between the times `from` and `until`, a new limiter with a
-- positive burst allows one key at most `burst` calls and `rate` more for each full second between.
pub grants-new_le :
    (key : String) (rate burst from until : ℕ) (cs : List (String × ℕ))
    → 0 < burst
    → Between from until cs
    → grants key (new_rate_limiter rate burst) cs ≤ burst + rate * ((until - from) / second)
unfolding new_rate_limiter lookup
grants-new_le key rate burst from until cs p t =
    grants-le key (new_rate_limiter rate burst) from until cs p tt t
