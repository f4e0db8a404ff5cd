-- ===== src/Prelude/Decimal.antt =====
-- The decimal digits of a number, as the verb %d prints them.
use Prim.Native.Nat.{ℕ, zero, suc, ◌+◌, ◌-◌, ◌*◌, ◌/◌, ◌%◌, ◌<◌}
use mathlib.Core.Path.{◌≡◌, sym, ap, ◌∙◌}
use mathlib.Core.List.{[], ◌∷◌}
use mathlib.Core.Logic.{inl, inr}
use native.Mathlib.Omega.{arith}
use file_cheap.Prelude.Tests.{ltb, if◌then◌else◌, Bool-cases}
use file_cheap.Prelude.Bytes.{Bytes}

-- The digits of `n` before those in `later`; more fuel than `n` is enough.
unfoldable pub digits_before : ℕ → ℕ → Bytes → Bytes
digits_before zero n later = later
digits_before (suc fuel) n later =
    let more = digits_before fuel (n / 10) ((48 + n % 10) ∷ later) in
    if ltb n 10 then (48 + n) ∷ later else more

unfoldable pub decimal : ℕ → Bytes
unfolding digits_before
decimal n = digits_before (suc n) n []

-- The number that digits stand for, after those that stand for `n`.
abbrev value_after : ℕ → Bytes → ℕ
value_after n [] = n
value_after n (c ∷ s) = value_after (n * 10 + (c - 48)) s

value_after-digits :
    (fuel n : ℕ) (later : Bytes)
    → n < fuel
    → value_after 0 (digits_before fuel n later) ≡ value_after n later
unfolding digits_before
value_after-digits zero n later h = absurd (omega arith)
value_after-digits (suc fuel) n later h = elim (Bool-cases (ltb n 10)) [
  | inl small ↦ rw small (ap (λ k. value_after k later) (omega arith))
  | inr large ↦
      let shorter : n / 10 < fuel = ground arith in
      let whole : n / 10 * 10 + (48 + n % 10 - 48) ≡ n = omega arith in
      rw large (value_after-digits fuel (n / 10) _ shorter ∙ ap (λ k. value_after k later) whole)
]

pub decimal-injective : (i j : ℕ) → decimal i ≡ decimal j → i ≡ j
unfolding decimal
decimal-injective i j e =
    sym (value_after-digits (suc i) i [] (omega arith))
    ∙ ap (value_after 0) e
    ∙ value_after-digits (suc j) j [] (omega arith)
