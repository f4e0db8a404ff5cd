-- ===== src/Prelude/Map.antt =====
-- A Go map as an association list: the first entry of a key counts, and a write replaces it.
-- The order of the entries stands for no order of the program: what ranges over a map takes the
-- order as an argument, or does not depend on it.
pub mod Retain
pub mod Count
use mathlib.Core.Path.{◌≡◌, refl, sym, ap, ◌∙◌}
use mathlib.Core.Logic.{inl, inr}
use mathlib.Core.Bool.{Bool, true, false}
use mathlib.Core.Option.{Option, none, some}
use mathlib.Core.List.{List, [], ◌∷◌}
use native.Mathlib.Omega.{arith}
use file_cheap.Prelude.Tests.{if◌then◌else◌, Bool-cases}
use file_cheap.Prelude.Key.{Key, ◌==◌}

abbrev pub Map {ℓ κ} : Type ℓ → Type κ → Type (ℓ ⊔ κ)
Map K V = List (K × V)

module _ {ℓ κ} {K : Type ℓ} {V : Type κ} ⦃keys : Key K⦄ where
  unfoldable pub lookup : K → Map K V → Option V
  lookup key [] = none
  lookup key (entry ∷ rest) = if entry.0 == key then some entry.1 else lookup key rest

  -- `m[key] = value`.
  unfoldable pub insert : K → V → Map K V → Map K V
  insert key value [] = (key, value) ∷ []
  insert key value (entry ∷ rest) =
      if entry.0 == key then (key, value) ∷ rest else entry ∷ insert key value rest

  -- `delete(m, key)`.
  unfoldable pub delete : K → Map K V → Map K V
  delete key [] = []
  delete key (entry ∷ rest) = if entry.0 == key then delete key rest else entry ∷ delete key rest

  -- What the entry of `j` is after the entry of `key` became `o`.
  pub lookup-insert :
      (key j : K) (value : V) (m : Map K V)
      → lookup j (insert key value m) ≡ (if key == j then some value else lookup j m)
  unfolding lookup insert
  lookup-insert key j value [] = refl
  lookup-insert key j value (entry ∷ rest) = ground (
    arith,
    lookup-insert key j value rest,
    keys.test_iff key j,
    keys.test_iff entry.0 key,
    keys.test_iff entry.0 j,
  )

  pub lookup-delete :
      (key j : K) (m : Map K V) → lookup j (delete key m) ≡ (if key == j then none else lookup j m)
  unfolding lookup delete
  lookup-delete key j [] = ground arith
  lookup-delete key j (entry ∷ rest) = ground (
    arith,
    lookup-delete key j rest,
    keys.test_iff key j,
    keys.test_iff entry.0 key,
    keys.test_iff entry.0 j,
  )

-- A change of one key's entry by `f`, made by a write, by a deletion or by leaving the map alone.
module _ {ℓ κ} {K : Type ℓ} {V : Type κ} ⦃keys : Key K⦄ (f : Option V → Option V) (key j : K)
    (m : Map K V) where
  at_key :
      {o : Option V}
      → f (lookup key m) ≡ o
      → (if key == j then o else lookup j m) ≡ (if key == j then f (lookup j m) else lookup j m)
  at_key h = elim (Bool-cases (key == j)) [
    | inl same ↦ rw same (sym h ∙ ap (λ i. f (lookup i m)) ((keys.test_iff key j).0 same))
    | inr other ↦ rw other
  ]

  pub lookup-insert_by :
      (value : V)
      → f (lookup key m) ≡ some value
      → lookup j (insert key value m) ≡ (if key == j then f (lookup j m) else lookup j m)
  lookup-insert_by value h = lookup-insert key j value m ∙ at_key h

  pub lookup_by :
      f (lookup key m) ≡ lookup key m
      → lookup j m ≡ (if key == j then f (lookup j m) else lookup j m)
  lookup_by h = elim (Bool-cases (key == j)) [
    | inl same ↦
        let e = (keys.test_iff key j).0 same in
        rw same (ap (λ i. lookup i m) (sym e) ∙ sym h ∙ ap (λ i. f (lookup i m)) e)
    | inr other ↦ rw other
  ]
