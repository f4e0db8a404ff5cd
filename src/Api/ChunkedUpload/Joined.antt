-- ===== src/Api/ChunkedUpload/Joined.antt =====
-- The chunks of a session as a function, and the bytes that they make together.
use file_cheap.Prelude.{
  ℕ, zero, suc, ◌+◌, ◌≤◌, ◌<◌, ◌≡◌, ◌≢◌, refl, sym, ap, ◌∙◌, Option, none, some, [], ◌++◌, arith,
  length, length-append, nat_beq, nat_beq_iff, if◌then◌else◌, Option-cases, inl, inr,
}
use file_cheap.Prelude.Bytes.{Bytes, bytes, cut_prefix, cut_prefix-append}
use file_cheap.Prelude.Decimal.{decimal, decimal-injective}
use file_cheap.Storage.{Storage, StorageLaws}
use file_cheap.Api.ChunkedUpload.{chunk_key}
use file_cheap.Api.ChunkedUpload.Chunks.{gather, delete_chunks}

-- The chunks sent so far, each under its number.
abbrev pub Contents : Type 0
Contents = ℕ → Option Bytes

abbrev pub with_content : ℕ → Bytes → Contents → Contents
with_content i content c j = if nat_beq i j then some content else c j

-- The chunks `i` to `i + n - 1` in their order, if they are all there.
unfoldable pub joined : ℕ → ℕ → Contents → Option Bytes
joined zero i c = some []
joined (suc n) i c =
    let rest = joined n (suc i) c in
    elim (c i) [
      | none ↦ none
      | some chunk ↦ elim rest [ none ↦ none | some more ↦ some (chunk ++ more) ]
    ]

pub joined-all :
    (n i : ℕ) (c : Contents) (whole : Bytes) (k : ℕ)
    → joined n i c ≡ some whole
    → i ≤ k
    → k < i + n
    → c k ≢ none
unfolding joined
joined-all zero i c whole k e l h missing = absurd (omega arith)
joined-all (suc n) i c whole k e l h missing = elim (Option-cases (c i)) [
  | inl absent ↦ cc (rw (absent, joined) at e)
  | inr (chunk, there) ↦ elim (Option-cases (joined n (suc i) c)) [
    | inl absent ↦ ground arith
    | inr (more, rest) ↦ ground (arith, joined-all n (suc i) c more k rest, nat_beq_iff i k)
  ]
]

pub chunk_key-injective : (key : Bytes) (i j : ℕ) → chunk_key key i ≡ chunk_key key j → i ≡ j
chunk_key-injective key i j e =
    let suffixes : some (bytes ".chunk." ++ decimal i) ≡ some (bytes ".chunk." ++ decimal j) =
      sym (cut_prefix-append key _) ∙ ap (cut_prefix key) e ∙ cut_prefix-append key _ in
    let digits : decimal i ≡ decimal j = cc suffixes in decimal-injective i j digits

pub storage_key-chunk_key : (key : Bytes) (i : ℕ) → key ≢ chunk_key key i
storage_key-chunk_key key i e =
    omega (arith, ap (λ s. length s) e, length-append key (bytes ".chunk." ++ decimal i))

pub chunk_key_not_empty : (key : Bytes) (i : ℕ) → chunk_key key i ≢ []
chunk_key_not_empty key i e =
    omega (arith, ap (λ s. length s) e, length-append key (bytes ".chunk." ++ decimal i))

module _ {S : Type 0} (storage : Storage S) where
  pub gather-joined :
      (n i : ℕ) (key : Bytes) (s : S) (c : Contents)
      → ((k : ℕ) → i ≤ k → k < i + n → storage.download (chunk_key key k) s ≡ c k)
      → gather storage n i key s ≡ joined n i c
  unfolding gather joined
  gather-joined zero i key s c same = refl
  gather-joined (suc n) i key s c same =
      let here = same i (omega arith) (omega arith) in
      let ih = gather-joined n (suc i) key s c (λ k a b. same k (omega arith) (omega arith)) in
      ground (arith, here, ih)

  pub delete_chunks-keeps :
      StorageLaws storage
      → (n i : ℕ) (key : Bytes) (s : S) (j : Bytes) → ((k : ℕ) → j ≢ chunk_key key k)
      → storage.download j (delete_chunks storage n i key s) ≡ storage.download j s
  unfolding delete_chunks
  delete_chunks-keeps laws zero i key s j other = refl
  delete_chunks-keeps laws (suc n) i key s j other =
      delete_chunks-keeps laws n (suc i) key _ j other
      ∙ laws.others_kept (chunk_key key i) s j (other i)
