-- ===== src/Prelude/Key.antt =====
-- What the keys of a map need: a Boolean test that decides their equality.
use Prim.Native.Nat.{ℕ}
use Prim.Native.String.{String}
use mathlib.Core.Path.{◌≡◌, refl}
use mathlib.Core.Logic.{◌↔◌}
use mathlib.Core.Bool.{Bool, true}
use text.Mathlib.Text.{◌==◌ as text_test}
use text.Mathlib.TextEquality.{eq_iff}
use file_cheap.Prelude.Tests.{nat_beq, nat_beq_iff}

pub record Key {ℓ} (K : Type ℓ) : Type ℓ where
  pub test : K → K → Bool
  pub test_iff : (k j : K) → (test k j ≡ true) ↔ (k ≡ j)

infix 50 ◌==◌
abbrev pub ◌==◌ {ℓ} : {K : Type ℓ} → ⦃keys : Key K⦄ → K → K → Bool
◌==◌ ⦃keys⦄ k j = keys.test k j

instance abbrev pub string_key : Key String
string_key = record { test = text_test; test_iff = eq_iff }

instance abbrev pub nat_key : Key ℕ
nat_key = record { test = nat_beq; test_iff = nat_beq_iff }

pub test_refl {ℓ} : {K : Type ℓ} ⦃keys : Key K⦄ (k : K) → (k == k) ≡ true
test_refl ⦃keys⦄ k = (keys.test_iff k k).1 refl
