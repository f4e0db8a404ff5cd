-- ===== src/Api/RateLimit/Starvation.antt =====
-- A busy client is never refilled: the fraction of a second that a call finds is thrown away.
use file_cheap.Prelude.{
  ℕ, ◌+◌, ◌-◌, ◌/◌, ◌≤◌, ◌<◌, String, ◌≡◌, inl, inr, true, Option, none, some, List, [], ◌∷◌, arith,
  if◌then◌else◌, Bool-cases,
}
use file_cheap.Prelude.Key.{string_key, ◌==◌}
use file_cheap.Prelude.Map.{lookup}
use file_cheap.Api.RateLimit.{
  Bucket, RateLimiter, new_rate_limiter, second, refilled, charge, allow_bucket, allow, grants,
}
use file_cheap.Api.RateLimit.Bounds.{lookup-allow, allow_answer}

abbrev pub IsGap : Option ℕ → ℕ → Type 0
IsGap none now = Unit
IsGap (some last) now = now < last + second

-- Each call of the key comes less than a second after the key's call before it.
abbrev pub IsFrequent : String → Option ℕ → List (String × ℕ) → Type 0
IsFrequent key last [] = Unit
IsFrequent key last ((k, now) ∷ cs) =
    ((k == key) ≡ true → IsGap last now) × IsFrequent key (if k == key then some now else last) cs

abbrev left : ℕ → Option Bucket → ℕ
left burst none = burst
left burst (some b) = b.tokens

abbrev last_of : Option Bucket → Option ℕ
last_of none = none
last_of (some b) = some b.last_reset

left-allow_bucket :
    (rate burst now : ℕ) (o : Option Bucket)
    → 0 < burst
    → IsGap (last_of o) now
    → ((if (allow_bucket rate burst now o).0 then 1 else 0)
          + left burst (some (allow_bucket rate burst now o).1)
        ≤ left burst o)
      × ((allow_bucket rate burst now o).1.last_reset ≡ now)
unfolding allow_bucket refilled charge
left-allow_bucket rate burst now none p g = ground arith
left-allow_bucket rate burst now (some b) p g =
    let none_back : (now - b.last_reset) / second ≡ 0 = omega arith in ground arith

grants-le-left :
    (key : String) (rl : RateLimiter) (cs : List (String × ℕ))
    → 0 < rl.burst
    → IsFrequent key (last_of (lookup key rl.buckets)) cs
    → grants key rl cs ≤ left rl.burst (lookup key rl.buckets)
unfolding grants
grants-le-left key rl [] p f = omega arith
grants-le-left key rl ((k, now) ∷ cs) p (gap, f) =
    let rl' = (allow k now rl).1 in
    let o = lookup key rl.buckets in
    let (entry, _, same_burst) = lookup-allow key k now rl p in
    elim (Bool-cases (k == key)) [
      | inl same ↦
          let (step, at) = left-allow_bucket rl.rate rl.burst now o p (gap same) in
          let ih =
            grants-le-left key rl' cs (rw same_burst p) (rw (entry, same, at) (rw same at f)) in
          rw (same, allow_answer key k now rl p same)
            (omega (arith, step, (rw (entry, same, same_burst) at ih)))
      | inr other ↦
          let ih =
            grants-le-left key rl' cs (rw same_burst p) (rw (entry, other) (rw other at f)) in
          rw other (omega (arith, (rw (entry, other, same_burst) at ih)))
    ]

-- If each call of a key comes less than a second after its last one, a new limiter with a positive
-- burst allows it `burst` calls in all, for however long this goes on and whatever the rate is.
pub grants-frequent_le :
    (key : String) (rate burst : ℕ) (cs : List (String × ℕ))
    → 0 < burst
    → IsFrequent key none cs
    → grants key (new_rate_limiter rate burst) cs ≤ burst
unfolding new_rate_limiter lookup
grants-frequent_le key rate burst cs p f = grants-le-left key (new_rate_limiter rate burst) cs p f
