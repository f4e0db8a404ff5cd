-- ===== src/Prelude/Bytes.antt =====
-- Texts as the list of their bytes, for the code that looks into them, with the functions of Go's
-- package strings that the program uses.
use Prim.Native.Char.{code}
use Prim.Native.Nat.{ℕ}
use Prim.Native.String.{String}
use mathlib.Core.Path.{◌≡◌, refl}
use mathlib.Core.Logic.{◌↔◌}
use mathlib.Core.Bool.{Bool, true, false, ◌&&◌}
use mathlib.Core.Option.{Option, none, some}
use mathlib.Core.List.{List, [], ◌∷◌, ◌++◌}
use native.Mathlib.Omega.{arith}
use file_cheap.Prelude.Tests.{nat_beq, if◌then◌else◌}
use file_cheap.Prelude.Key.{Key}

abbrev pub Bytes : Type 0
Bytes = List ℕ

-- The bytes of an ASCII literal.
abbrev pub bytes : String → Bytes
bytes String.[] = []
bytes (String.◌∷◌ c s) = code c ∷ bytes s

abbrev pub bytes_test : Bytes → Bytes → Bool
bytes_test [] [] = true
bytes_test (a ∷ s) (b ∷ t) = nat_beq a b && bytes_test s t
bytes_test _ _ = false

pub bytes_test_iff : (s t : Bytes) → (bytes_test s t ≡ true) ↔ (s ≡ t)
bytes_test_iff [] [] = (λ _. refl, λ _. refl)
bytes_test_iff [] (b ∷ t) = (λ e. cc, λ e. cc)
bytes_test_iff (a ∷ s) [] = (λ e. cc, λ e. cc)
bytes_test_iff (a ∷ s) (b ∷ t) = ground (arith, bytes_test_iff s t)

instance abbrev pub bytes_key : Key Bytes
bytes_key = record { test = bytes_test; test_iff = bytes_test_iff }

-- `strings.CutPrefix`: what follows the prefix, if the text begins with it.
abbrev pub cut_prefix : Bytes → Bytes → Option Bytes
cut_prefix [] s = some s
cut_prefix (p ∷ prefix) [] = none
cut_prefix (p ∷ prefix) (c ∷ s) =
    let rest = cut_prefix prefix s in if nat_beq p c then rest else none

-- `strings.TrimPrefix`.
abbrev pub trim_prefix : Bytes → Bytes → Bytes
trim_prefix prefix s = elim (cut_prefix prefix s) [ none ↦ s | some rest ↦ rest ]

-- `strings.HasPrefix`.
abbrev pub has_prefix : Bytes → Bytes → Bool
has_prefix prefix s = elim (cut_prefix prefix s) [ none ↦ false | some rest ↦ true ]

pub cut_prefix-append : (prefix s : Bytes) → cut_prefix prefix (prefix ++ s) ≡ some s
cut_prefix-append [] s = refl
cut_prefix-append (p ∷ prefix) s = ground (arith, cut_prefix-append prefix s)
