-- ===== src/Api/Cdn/Access.antt =====
-- What a request must satisfy for the CDN to serve it (internal/api/cdn.go).
use mathlib.Core.Option.{some-injective}
use file_cheap.Prelude.{
  ◌≡◌, ◌≢◌, refl, subst, sym, ap, ◌∙◌, ℕ, true, false, Option, none, some, [], ◌∷◌, if◌then◌else◌,
  arith, Bool-cases, Option-cases, inl, inr,
}
use file_cheap.Prelude.Key.{◌==◌, nat_key, test_refl}
use file_cheap.Prelude.Bytes.{Bytes, bytes_key, bytes_test_iff}
use file_cheap.Prelude.Int.{ℤ, ◌<ℤ◌}
use file_cheap.Prelude.Map.{Map, lookup}
use file_cheap.Prelude.Map.Retain.{HasUniqueKeys}
use file_cheap.Prelude.Action.{ok, ◌>>=◌, answer, or_refuse, require, look}
use file_cheap.Api.Cdn.{
  SharedFile, Share, Cdn, CdnEnv, limit_query, shared_file, get_file_share_by_token,
  is_share_download_limit_reached,
}
use file_cheap.Api.Cdn.Same.{Same, same_rules}
use file_cheap.Api.Cdn.Handler.{CdnRequest, open_share, allowed_options}

-- The rows that a token leads to.
pub record IsFound (now : ℕ) (token : Bytes) (files : Map ℕ SharedFile) (shares : Map ℕ Share)
    (id : ℕ) (share : Share) (file : SharedFile) : Type 0 where
  pub row : lookup id shares ≡ some share
  pub its_token : share.token ≡ token
  pub unexpired : (t : ℤ) → share.expires_at ≡ some t → ℤ.pos now <ℤ t
  pub its_file : lookup share.file_id files ≡ some file
  pub alive : file.is_deleted ≡ false

shared_file_lem :
    (now : ℕ) (files : Map ℕ SharedFile) (share : Share) (file : SharedFile)
    → shared_file now files share ≡ some file
    → ((t : ℤ) → share.expires_at ≡ some t → ℤ.pos now <ℤ t)
      × (lookup share.file_id files ≡ some file)
      × (file.is_deleted ≡ false)
unfolding shared_file
shared_file_lem now files share file h = (λ t e. ground arith, ground arith, ground arith)

IsFound-first :
    (now : ℕ) (token : Bytes) (files : Map ℕ SharedFile) (rest : Map ℕ Share) (id : ℕ)
    (share : Share) (file : SharedFile)
    → (if share.token == token then shared_file now files share else none) ≡ some file
    → IsFound now token files ((id, share) ∷ rest) id share file
unfolding lookup
IsFound-first now token files rest id share file h =
    let shared : shared_file now files share ≡ some file = ground arith in
    let (unexpired, its_file, alive) = shared_file_lem now files share file shared in
    record {
      row = rw (test_refl {K = ℕ} id) refl;
      its_token = ground (arith, bytes_test_iff share.token token);
      unexpired = unexpired;
      its_file = its_file;
      alive = alive;
    }

IsFound-later :
    (now : ℕ) (token : Bytes) (files : Map ℕ SharedFile) (rest : Map ℕ Share) (j : ℕ)
    (other : Share) (id : ℕ) (share : Share) (file : SharedFile)
    → lookup j rest ≡ none
    → IsFound now token files rest id share file
    → IsFound now token files ((j, other) ∷ rest) id share file
unfolding lookup
IsFound-later now token files rest j other id share file fresh later = record {
  row = elim (Bool-cases (j == id)) [
    | inl same ↦
        let e = (nat_key.test_iff j id).0 same in
        let absent : lookup id rest ≡ none = subst (λ i. lookup i rest ≡ none) e fresh in
        ground (arith, later.row, absent)
    | inr different ↦ rw different later.row
  ];
  its_token = later.its_token;
  unexpired = later.unexpired;
  its_file = later.its_file;
  alive = later.alive;
}

pub get_file_share_by_token-IsFound :
    (now : ℕ) (token : Bytes) (files : Map ℕ SharedFile) (shares : Map ℕ Share) (id : ℕ)
    (share : Share) (file : SharedFile)
    → HasUniqueKeys shares
    → get_file_share_by_token now token files shares ≡ some (id, share, file)
    → IsFound now token files shares id share file
unfolding get_file_share_by_token
get_file_share_by_token-IsFound now token files [] id share file u h = cc
get_file_share_by_token-IsFound now token files ((j, other) ∷ rest) id share file (fresh, u) h =
    let after : Option SharedFile → Option (ℕ × Share × SharedFile) = λ o. elim o [
      | none ↦ get_file_share_by_token now token files rest
      | some file' ↦ some (j, other, file')
    ] in
    elim (Option-cases (if other.token == token then shared_file now files other else none)) [
      | inl e ↦ IsFound-later now token files rest j other id share file fresh (
          get_file_share_by_token-IsFound now token files rest id share file u
            (sym (ap after e) ∙ h))
      | inr (file', e) ↦
          let same = some-injective _ _ (sym (ap after e) ∙ h) in
          subst
            (λ (r : ℕ × Share × SharedFile).
              IsFound now token files ((j, other) ∷ rest) r.0 r.1 r.2)
            same (IsFound-first now token files rest j other file' e)
    ]

module _ {S : Type 0} (env : CdnEnv S) (req : CdnRequest) where
  open_share-Same : Same (λ s. s) (open_share env req)
  unfolding open_share
  open_share-Same = search same_rules depth 30

  pub open_share-same : (s : Cdn S) → (open_share env req s).1 ≡ s
  open_share-same s = open_share-Same.same s

  allowed_options-Same : (share : Share) → Same (λ s. s) (allowed_options env req share)
  unfolding allowed_options
  allowed_options-Same share = search same_rules depth 30

  pub allowed_options-same : (share : Share) (s : Cdn S) → (allowed_options env req share s).1 ≡ s
  allowed_options-same share s = (allowed_options-Same share).same s

  pub open_share_found :
      (s : Cdn S) (id : ℕ) (share : Share) (file : SharedFile)
      → (open_share env req s).0 ≡ ok (id, share, file)
      → get_file_share_by_token req.now req.token s.files s.shares ≡ some (id, share, file)
        × ((hash : Bytes)
            → share.password_hash ≡ some hash
            → hash ≢ []
            → env.matches req.password hash ≡ true)
        × ((m : ℤ)
            → share.max_downloads ≡ some m
            → req.fails limit_query ≡ false
            → is_share_download_limit_reached id s.shares ≢ some true)
  unfolding open_share ◌>>=◌ answer or_refuse require look
  open_share_found s id share file h = (
    ground (arith, h),
    λ hash e ne. ground (arith, h, e, ne, bytes_test_iff hash []),
    λ m e f. ground (arith, h, e, f),
  )
