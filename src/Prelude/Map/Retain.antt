-- ===== src/Prelude/Map/Retain.antt =====
-- The loop `for k, v := range m { if drop(v) { delete(m, k) } }`, over a map whose keys are distinct.
use mathlib.Core.Path.{◌≡◌, refl, ap, subst}
use mathlib.Core.Logic.{◌⊎◌, inl, inr}
use mathlib.Core.Bool.{Bool}
use mathlib.Core.Option.{Option, none, some}
use mathlib.Core.List.{[], ◌∷◌}
use native.Mathlib.Omega.{arith}
use Prim.Native.Nat.{◌<◌}
use file_cheap.Prelude.Lists.{length}
use file_cheap.Prelude.Tests.{if◌then◌else◌, Bool-cases}
use file_cheap.Prelude.Key.{Key, ◌==◌}
use file_cheap.Prelude.Map.{Map, lookup, insert, delete, lookup-insert, lookup-delete}

abbrev pub unless {κ} : {V : Type κ} → (V → Bool) → Option V → Option V
unless drop none = none
unless drop (some v) = if drop v then none else some v

module _ {ℓ κ} {K : Type ℓ} {V : Type κ} ⦃keys : Key K⦄ where
  -- The loop removes the entries whose value satisfies `drop`.
  unfoldable pub sweep : (V → Bool) → Map K V → Map K V
  sweep drop [] = []
  sweep drop ((k, v) ∷ m) = if drop v then sweep drop m else (k, v) ∷ sweep drop m

  abbrev pub HasUniqueKeys : Map K V → Type κ
  HasUniqueKeys [] = Unit
  HasUniqueKeys ((k, v) ∷ m) = (lookup k m ≡ none) × HasUniqueKeys m

  pub lookup-sweep :
      (drop : V → Bool) (k : K) (m : Map K V)
      → HasUniqueKeys m
      → lookup k (sweep drop m) ≡ unless drop (lookup k m)
  unfolding lookup sweep
  lookup-sweep drop k [] u = refl
  lookup-sweep drop k ((j, v) ∷ m) (fresh, u) = elim (Bool-cases (j == k)) [
    | inl same ↦
        let known : lookup k m ≡ none =
          subst (λ i. lookup i m ≡ none) ((keys.test_iff j k).0 same) fresh in
        ground (arith, lookup-sweep drop k m u)
    | inr other ↦ ground (arith, lookup-sweep drop k m u)
  ]

  pub insert-HasUniqueKeys :
      (k : K) (v : V) (m : Map K V) → HasUniqueKeys m → HasUniqueKeys (insert k v m)
  unfolding insert lookup
  insert-HasUniqueKeys k v [] u = (refl, tt)
  insert-HasUniqueKeys k v ((j, w) ∷ m) (fresh, u) = ground (
    arith,
    lookup-insert k j v m,
    keys.test_iff j k,
    keys.test_iff k j,
    insert-HasUniqueKeys k v m u,
  )

  pub delete-HasUniqueKeys : (k : K) (m : Map K V) → HasUniqueKeys m → HasUniqueKeys (delete k m)
  unfolding delete
  delete-HasUniqueKeys k [] u = tt
  delete-HasUniqueKeys k ((j, w) ∷ m) (fresh, u) =
      ground (arith, lookup-delete k j m, delete-HasUniqueKeys k m u)

  pub sweep-HasUniqueKeys :
      (drop : V → Bool) (m : Map K V) → HasUniqueKeys m → HasUniqueKeys (sweep drop m)
  unfolding sweep
  sweep-HasUniqueKeys drop [] u = tt
  sweep-HasUniqueKeys drop ((j, w) ∷ m) (fresh, u) =
      ground (arith, lookup-sweep drop j m u, sweep-HasUniqueKeys drop m u)

  -- Either something is removed, or nothing was to be.
  pub length-sweep :
      (drop : V → Bool) (m : Map K V) → (length (sweep drop m) < length m) ⊎ (sweep drop m ≡ m)
  unfolding sweep
  length-sweep drop [] = inr refl
  length-sweep drop ((j, w) ∷ m) = elim (Bool-cases (drop w)) [
    | inl e ↦ rw e (
        inl (elim (length-sweep drop m) [
          | inl less ↦ omega arith
          | inr same ↦ omega (arith, ap (length {A = K × V}) same)
        ]))
    | inr e ↦ rw e (elim (length-sweep drop m) [
      | inl less ↦ inl (omega arith)
      | inr same ↦ inr (ap (λ (r : Map K V). (j, w) ∷ r) same)
    ])
  ]
