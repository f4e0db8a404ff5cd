-- ===== src/Prelude/Int.antt =====
-- Signed integers over the native numbers, and the wrap-around of a 64-bit one.
use Prim.Native.Nat.{ℕ, suc, ◌/◌, ◌+◌, ◌-◌, ◌*◌, ◌%◌, ◌^◌, ◌≤◌, ◌<◌}
use mathlib.Core.Path.{◌≡◌}
use mathlib.Core.Bool.{Bool, true}
use mathlib.Core.Logic.{◌↔◌}
use native.Mathlib.Omega.{arith}
use file_cheap.Prelude.Tests.{ltb, leb, nat_beq, if◌then◌else◌}

-- `negsuc n` is -(n + 1).
pub data ℤ : Type 0 where
  pos negsuc : ℕ → ℤ

abbrev pub pos_part : ℤ → ℕ
pos_part (pos n) = n
pos_part (negsuc n) = 0

abbrev pub neg_part : ℤ → ℕ
neg_part (pos n) = 0
neg_part (negsuc n) = suc n

abbrev pub sub_ℕ : ℕ → ℕ → ℤ
sub_ℕ a b = if leb b a then pos (a - b) else negsuc (b - a - 1)

infixl 65 ◌+ℤ◌ ◌-ℤ◌
infix 50 ◌≤ℤ◌ ◌<ℤ◌
abbrev pub ◌+ℤ◌ : ℤ → ℤ → ℤ
a +ℤ b = sub_ℕ (pos_part a + pos_part b) (neg_part a + neg_part b)

abbrev pub ◌-ℤ◌ : ℤ → ℤ → ℤ
a -ℤ b = sub_ℕ (pos_part a + neg_part b) (neg_part a + pos_part b)

abbrev pub ◌≤ℤ◌ : ℤ → ℤ → Type 0
a ≤ℤ b = pos_part a + neg_part b ≤ pos_part b + neg_part a

abbrev pub ◌<ℤ◌ : ℤ → ℤ → Type 0
a <ℤ b = pos_part a + neg_part b < pos_part b + neg_part a

abbrev pub ltb_ℤ : ℤ → ℤ → Bool
ltb_ℤ a b = ltb (pos_part a + neg_part b) (pos_part b + neg_part a)

abbrev pub leb_ℤ : ℤ → ℤ → Bool
leb_ℤ a b = leb (pos_part a + neg_part b) (pos_part b + neg_part a)

-- The bit pattern of a 64-bit word, read as a signed number.
abbrev pub of_word : ℕ → ℤ
of_word n = if ltb n (2 ^ 63) then pos n else negsuc (2 ^ 64 - 1 - n)

-- An int64 result: the exact one, wrapped into -2^63 .. 2^63 - 1.
abbrev pub wrap64 : ℤ → ℤ
wrap64 (pos n) = of_word (n % 2 ^ 64)
wrap64 (negsuc n) = of_word (2 ^ 64 - 1 - n % 2 ^ 64)

infixl 70 ◌*ℤ◌
abbrev pub ◌*ℤ◌ : ℤ → ℤ → ℤ
a *ℤ b =
    sub_ℕ (pos_part a * pos_part b + neg_part a * neg_part b)
      (pos_part a * neg_part b + neg_part a * pos_part b)

abbrev pub eq_ℤ : ℤ → ℤ → Bool
eq_ℤ a b = nat_beq (pos_part a + neg_part b) (pos_part b + neg_part a)

pub eq_ℤ_iff : (a b : ℤ) → (eq_ℤ a b ≡ true) ↔ (a ≡ b)
eq_ℤ_iff a b = ground arith

-- Go's division, which cuts towards zero; its callers rule out the divisor 0.
abbrev pub quot_ℤ : ℤ → ℤ → ℤ
quot_ℤ a b =
    sub_ℕ (pos_part a / pos_part b + neg_part a / neg_part b)
      (pos_part a / neg_part b + neg_part a / pos_part b)

pub wrap64_small : (n : ℕ) → n < 2 ^ 63 → wrap64 (pos n) ≡ pos n
wrap64_small n h = ground arith

pub pos-add : (a b : ℕ) → pos a +ℤ pos b ≡ pos (a + b)
pos-add a b = ground arith

pub pos-sub : (a b : ℕ) → b ≤ a → pos a -ℤ pos b ≡ pos (a - b)
pos-sub a b h = ground arith

pub pos-quot : (a b : ℕ) → quot_ℤ (pos a) (pos b) ≡ pos (a / b)
pos-quot a b = ground arith

-- An int32 result.
abbrev pub wrap32 : ℤ → ℤ
wrap32 (pos n) = let m = n % 2 ^ 32 in if ltb m (2 ^ 31) then pos m else negsuc (2 ^ 32 - 1 - m)
wrap32 (negsuc n) = let m = n % 2 ^ 32 in if ltb m (2 ^ 31) then negsuc m else pos (2 ^ 32 - 1 - m)
