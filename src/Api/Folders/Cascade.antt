-- ===== src/Api/Folders/Cascade.antt =====
-- What the cascades of a deletion leave of the folders (sql/schema.sql).
use file_cheap.Prelude.{
  ◌≡◌, refl, sym, ap, ◌∙◌, ℕ, zero, suc, ◌≤◌, Bool, true, false, Option, none, some, [], ◌∷◌, arith,
  Option-cases, inl, inr, length,
}
use file_cheap.Prelude.Key.{◌==◌, nat_key}
use file_cheap.Prelude.Map.{lookup}
use file_cheap.Prelude.Map.Retain.{
  HasUniqueKeys, sweep, lookup-sweep, length-sweep, sweep-HasUniqueKeys,
}
use file_cheap.Api.Folders.{Folder, Folders, is_orphan, cascade}

-- No folder, or one of the user.
abbrev pub belongs : Folders → ℕ → Option ℕ → Bool
belongs folders user_id none = true
belongs folders user_id (some p) = elim (lookup p folders) [
  | none ↦ false
  | some folder ↦ folder.user_id == user_id
]

-- The rows of the first are rows of the second.
abbrev pub Within : Folders → Folders → Type 0
Within left folders = (j : ℕ) (f : Folder) → lookup j left ≡ some f → lookup j folders ≡ some f

-- The rows of a user are still there.
abbrev pub Holds : ℕ → Folders → Folders → Type 0
Holds v folders left =
    (j : ℕ) (f : Folder) → lookup j folders ≡ some f → f.user_id ≡ v → lookup j left ≡ some f

-- No row's parent is missing.
abbrev pub Closed : Folders → Type 0
Closed left = (j : ℕ) (f : Folder) → lookup j left ≡ some f → is_orphan left f ≡ false

sweep-Within :
    (drop : Folder → Bool) (folders : Folders)
    → HasUniqueKeys folders
    → Within (sweep drop folders) folders
sweep-Within drop folders u j f h = ground (arith, h, lookup-sweep drop j folders u)

pub cascade-Within : (n : ℕ) (left : Folders) → HasUniqueKeys left → Within (cascade n left) left
unfolding cascade
cascade-Within zero left u j f h = h
cascade-Within (suc n) left u j f h = sweep-Within (is_orphan left) left u j f (
    cascade-Within n (sweep (is_orphan left) left) (sweep-HasUniqueKeys (is_orphan left) left u) j f
      h)

pub cascade-HasUniqueKeys :
    (n : ℕ) (left : Folders) → HasUniqueKeys left → HasUniqueKeys (cascade n left)
unfolding cascade
cascade-HasUniqueKeys zero left u = u
cascade-HasUniqueKeys (suc n) left u =
    cascade-HasUniqueKeys n (sweep (is_orphan left) left)
      (sweep-HasUniqueKeys (is_orphan left) left u)

cascade-fixed :
    (n : ℕ) (left : Folders) → sweep (is_orphan left) left ≡ left → cascade n left ≡ left
unfolding cascade
cascade-fixed zero left h = refl
cascade-fixed (suc n) left h = ap (cascade n) h ∙ cascade-fixed n left h

-- Enough rounds leave no orphan.
pub cascade-Closed :
    (n : ℕ) (left : Folders) → HasUniqueKeys left → length left ≤ n → Closed (cascade n left)
unfolding cascade lookup
cascade-Closed zero [] u few j f h = cc
cascade-Closed zero (entry ∷ left) u few j f h = absurd (omega arith)
cascade-Closed (suc n) left u few j f h = elim (length-sweep (is_orphan left) left) [
  | inl less ↦
      cascade-Closed n (sweep (is_orphan left) left) (sweep-HasUniqueKeys (is_orphan left) left u)
        (omega arith) j f h
  | inr same ↦
      let fixed = cascade-fixed (suc n) left same in
      let there : lookup j left ≡ some f = sym (ap (lookup j) fixed) ∙ h in
      let swept : lookup j (sweep (is_orphan left) left) ≡ some f = ap (lookup j) same ∙ there in
      let kept : is_orphan left f ≡ false =
        ground (arith, there, swept, lookup-sweep (is_orphan left) j left u) in
      ap (λ r. is_orphan r f) fixed ∙ kept
]

-- Where another user's rows are still there, their parents are.
module _ (v : ℕ) (folders : Folders)
    (owned : (j : ℕ) (f : Folder)
      → lookup j folders ≡ some f
      → belongs folders f.user_id f.parent_id ≡ true) where
  not_orphan :
      (left : Folders)
      → Holds v folders left
      → (f : Folder) → belongs folders f.user_id f.parent_id ≡ true
      → f.user_id ≡ v
      → is_orphan left f ≡ false
  unfolding is_orphan
  not_orphan left holds f b mine = elim (Option-cases f.parent_id) [
    | inl e ↦ ground (arith, e)
    | inr (p, e) ↦ elim (Option-cases (lookup p folders)) [
      | inl q ↦ absurd (ground (arith, e, q, b))
      | inr (g, q) ↦
          let its : g.user_id ≡ v =
            ground (arith, e, q, b, mine, nat_key.test_iff g.user_id f.user_id) in
          ground (arith, e, holds p g q its)
    ]
  ]

  sweep-Holds :
      (left : Folders)
      → HasUniqueKeys left
      → Holds v folders left
      → Holds v folders (sweep (is_orphan left) left)
  sweep-Holds left u holds j f h mine =
      let there = holds j f h mine in
      let kept : is_orphan left f ≡ false = not_orphan left holds f (owned j f h) mine in
      ground (arith, there, kept, lookup-sweep (is_orphan left) j left u)

  pub cascade-Holds :
      (n : ℕ) (left : Folders)
      → HasUniqueKeys left
      → Holds v folders left
      → Holds v folders (cascade n left)
  unfolding cascade
  cascade-Holds zero left u holds = holds
  cascade-Holds (suc n) left u holds =
      cascade-Holds n (sweep (is_orphan left) left) (sweep-HasUniqueKeys (is_orphan left) left u)
        (sweep-Holds left u holds)
