-- ===== src/Prelude/Map/Count.antt =====
-- The number of entries of a map, and when the keys are all the numbers below a bound.
use Prim.Native.Nat.{ℕ, zero, suc, ◌≤◌, ◌<◌}
use mathlib.Core.Path.{◌≡◌, refl, sym, ap, subst}
use mathlib.Core.Logic.{◌≢◌, ◌⊎◌, inl, inr}
use mathlib.Core.Option.{none, some}
use mathlib.Core.List.{[], ◌∷◌}
use native.Mathlib.Omega.{arith}
use file_cheap.Prelude.Tests.{Bool-cases, Option-cases, nat_beq_iff}
use file_cheap.Prelude.Lists.{length}
use file_cheap.Prelude.Key.{Key, ◌==◌, nat_key, test_refl}
use file_cheap.Prelude.Map.{Map, lookup, delete, lookup-delete}
use file_cheap.Prelude.Map.Retain.{HasUniqueKeys, delete-HasUniqueKeys}

module _ {ℓ κ} {K : Type ℓ} {V : Type κ} ⦃keys : Key K⦄ where
  pub length-delete_absent :
      (k : K) (m : Map K V) → lookup k m ≡ none → length (delete k m) ≡ length m
  unfolding lookup delete
  length-delete_absent k [] h = refl
  length-delete_absent k (entry ∷ m) h = ground (arith, length-delete_absent k m)

  pub length-delete_present :
      (k : K) (v : V) (m : Map K V)
      → HasUniqueKeys m
      → lookup k m ≡ some v
      → length m ≡ suc (length (delete k m))
  unfolding lookup delete
  length-delete_present k v [] u h = cc
  length-delete_present k v ((j, w) ∷ m) (fresh, u) h = elim (Bool-cases (j == k)) [
    | inl same ↦
        let absent : lookup k m ≡ none =
          subst (λ i. lookup i m ≡ none) ((keys.test_iff j k).0 same) fresh in
        rw same (ap suc (sym (length-delete_absent k m absent)))
    | inr other ↦ rw other (ap suc (length-delete_present k v m u (ground arith)))
  ]

module _ {κ} {V : Type κ} where
  abbrev pub IsBelow : ℕ → Map ℕ V → Type κ
  IsBelow n m = (i : ℕ) (v : V) → lookup i m ≡ some v → i < n

  delete-IsBelow : (n : ℕ) (m : Map ℕ V) → IsBelow (suc n) m → IsBelow n (delete n m)
  delete-IsBelow n m b i v h = ground (arith, lookup-delete n i m, b i v)

  -- The count when the largest key is taken out.
  without_last :
      (n : ℕ) (m : Map ℕ V)
      → HasUniqueKeys m
      → ((lookup n m ≡ none) × (length m ≡ length (delete n m)))
        ⊎ ((lookup n m ≢ none) × (length m ≡ suc (length (delete n m))))
  without_last n m u = elim (Option-cases (lookup n m)) [
    | inl absent ↦ inl (absent, sym (length-delete_absent n m absent))
    | inr (v, present) ↦ inr (ground arith, length-delete_present n v m u present)
  ]

  -- A map whose keys are below a bound has at most as many entries.
  pub count_below : (n : ℕ) (m : Map ℕ V) → HasUniqueKeys m → IsBelow n m → length m ≤ n
  unfolding lookup
  count_below zero [] u b = omega arith
  count_below zero ((k, v) ∷ m) u b = absurd (omega (arith, b k v (rw (test_refl k))))
  count_below (suc n) m u b = ground (
    arith,
    without_last n m u,
    count_below n (delete n m) (delete-HasUniqueKeys n m u) (delete-IsBelow n m b),
  )

  -- A map whose keys are below a bound, and not all the numbers below it, has fewer entries.
  pub count_missing :
      (n i : ℕ) (m : Map ℕ V)
      → HasUniqueKeys m
      → IsBelow n m
      → i < n
      → lookup i m ≡ none
      → length m < n
  count_missing zero i m u b l h = absurd (omega arith)
  count_missing (suc n) i m u b l h =
      let fewer = count_below n (delete n m) (delete-HasUniqueKeys n m u) (delete-IsBelow n m b) in
      let ih : (i < n → length (delete n m) < n) = λ s.
        count_missing n i (delete n m) (delete-HasUniqueKeys n m u) (delete-IsBelow n m b) s
          (ground (arith, lookup-delete n i m, h)) in
      ground (arith, without_last n m u, fewer, ih, h, nat_beq_iff i n)

  -- A map that has all the numbers below a bound has as many entries.
  pub count_full :
      (n : ℕ) (m : Map ℕ V) → HasUniqueKeys m → ((i : ℕ) → i < n → lookup i m ≢ none) → n ≤ length m
  count_full zero m u full = omega arith
  count_full (suc n) m u full =
      let ih =
        count_full n (delete n m) (delete-HasUniqueKeys n m u)
          (λ i l e. full i (omega arith) (ground (arith, lookup-delete n i m, e))) in
      ground (arith, without_last n m u, ih, full n (omega arith))
