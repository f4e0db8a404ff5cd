-- ===== src/Worker/FileJob/Keeps.antt =====
-- Steps that leave the key of every row of variants with an object (internal/worker/handlers.go).
use file_cheap.Prelude.{
  sym, ap, ◌∙◌, subst, Bool, false, nat_beq, ◌&&◌, Option-cases, if◌then◌else◌, ◌≡◌, ◌≢◌, refl, ℕ,
  true, Option, none, some, List, [], ◌∷◌, ◌||◌, not, arith, Bool-cases, inl, inr, All,
}
use file_cheap.Prelude.Bytes.{bytes, Bytes, bytes_key, bytes_test_iff}
use file_cheap.Prelude.Int.{ℤ}
use file_cheap.Storage.{Storage, StorageLaws}
use file_cheap.Worker.FileJob.{
  Failure, File, Job, Variant, Event, World, Options, Processed, Processor, Query,
  update_status_query, create_variant_query, Env,
}
use file_cheap.Prelude.Key.{◌==◌, nat_key}
use file_cheap.Prelude.Map.{Map, lookup, lookup-insert}
use file_cheap.Worker.FileJob.Action.{
  Stop, Reply, Action, ◌>>=◌, ◌>>◌, go_on, ok, refused, answer, refuse, or_stop,
}
use file_cheap.Worker.FileJob.Steps.{
  build_variant_key, update, complete_row, is_variant_type, get_or_error, mark, dispatch, get_file,
  download, must_get, process, upload, create_variant, complete_file,
}

abbrev pub IsStored : {S : Type 0} → Storage S → S → Variant → Type 0
IsStored storage objects v = storage.download v.storage_key objects ≢ none

unfoldable pub begins : Bytes → Bytes → Bool
begins [] s = true
begins (c ∷ p) [] = false
begins (c ∷ p) (d ∷ s) = nat_beq c d && begins p s

-- A key as `buildVariantKey` makes them.
pub record IsVariantKey (key : Bytes) : Type 0 where
  pub begun : begins (bytes "processed/") key ≡ true

pub build_variant_key-IsVariantKey :
    (show_id : ℕ → Bytes) (file_id : ℕ) (variant_type filename : Bytes)
    → IsVariantKey (build_variant_key show_id file_id variant_type filename)
unfolding begins
build_variant_key-IsVariantKey show_id file_id variant_type filename = record { begun = refl }

-- A key as uploads have them, or none.
pub record IsOriginalKey (key : Bytes) : Type 0 where
  pub other : begins (bytes "processed/") key ≡ false

pub originals_apart : (j key : Bytes) → IsVariantKey j → IsOriginalKey key → j ≢ key
originals_apart j key v o same =
    let both : true ≡ false = sym v.begun ∙ ap (begins (bytes "processed/")) same ∙ o.other in cc

-- The key of every row of variants holds an object and is one of a variant, and that of no file is.
pub record AllStored {S : Type 0} (storage : Storage S) (w : World S) : Type 0 where
  pub at : All (IsStored storage w.objects) w.variants
  pub keyed : All (λ (v : Variant). IsVariantKey v.storage_key) w.variants
  pub apart : (i : ℕ) (f : File) → lookup i w.files ≡ some f → IsOriginalKey f.storage_key

pub AllStored-same :
    {S : Type 0} (storage : Storage S) (w w' : World S)
    → w'.variants ≡ w.variants
    → w'.objects ≡ w.objects
    → w'.files ≡ w.files
    → AllStored storage w
    → AllStored storage w'
AllStored-same storage w w' variants objects files h =
    let at : All (IsStored storage w.objects) w'.variants =
      subst (All (IsStored storage w.objects)) (sym variants) h.at in
    record {
      at = subst (λ s. All (IsStored storage s) w'.variants) (sym objects) at;
      keyed = subst (All (λ (v : Variant). IsVariantKey v.storage_key)) (sym variants) h.keyed;
      apart = λ i f e. h.apart i f (sym (ap (lookup i) files) ∙ e);
    }

-- The update of a row keeps the keys of originals, if it does so for the row.
pub update_apart :
    (change : File → File) (id : ℕ) (files : Map ℕ File)
    → ((f : File) → IsOriginalKey f.storage_key → IsOriginalKey (change f).storage_key)
    → ((i : ℕ) (f : File) → lookup i files ≡ some f → IsOriginalKey f.storage_key)
    → (i : ℕ) (f : File) → lookup i (update change id files) ≡ some f
    → IsOriginalKey f.storage_key
update_apart change id files keeps apart i f e = elim (Option-cases (lookup id files)) [
  | inl missing ↦ apart i f (ground (arith, e, missing))
  | inr (g, found) ↦
      let after : (if id == i then some (change g) else lookup i files) ≡ some f =
        sym (lookup-insert id i (change g) files) ∙ ground (arith, e, found) in
      elim (Bool-cases (id == i)) [
        | inl same ↦
            let changed : change g ≡ f = ground (arith, after, same) in
            subst (λ (x : File). IsOriginalKey x.storage_key) changed (keeps g (apart id g found))
        | inr other ↦ apart i f (ground (arith, after, other))
      ]
]

All-map :
    {A : Type 0} {P Q : A → Type 0} (xs : List A) → ((a : A) → P a → Q a) → All P xs → All Q xs
All-map [] f h = tt
All-map (x ∷ xs) f (h, hs) = (f x h, All-map xs f hs)

module _ {S : Type 0} {storage : Storage S} (laws : StorageLaws storage) where
  -- An upload leaves no key without its object that had one.
  upload_keeps :
      (key : Bytes) (reader : Option Bytes) (content_type : Bytes) (size : ℤ) (s : S) (j : Bytes)
      → storage.download j s ≢ none
      → storage.download j (storage.upload key reader content_type size s).1 ≢ none
  upload_keeps key none content_type size s j h =
      ground
        (arith, laws.failed key none content_type size s j, laws.unread key content_type size s)
  upload_keeps key (some content) content_type size s j h = ground (
    arith,
    laws.failed key (some content) content_type size s j,
    laws.stored key content content_type size s,
    laws.others_stay key (some content) content_type size s j,
    bytes_test_iff j key,
  )

module _ {S : Type 0} {storage : Storage S} (laws : StorageLaws storage) where
  upload_stored :
      (key : Bytes) (reader : Option Bytes) (content_type : Bytes) (size : ℤ) (s : S)
      → (storage.upload key reader content_type size s).0 ≡ true
      → storage.download key (storage.upload key reader content_type size s).1 ≢ none
  upload_stored key none content_type size s h = ground (arith, laws.unread key content_type size s)
  upload_stored key (some content) content_type size s h =
      ground (arith, laws.stored key content content_type size s)

-- `m` keeps the rows stored, however it ends.
pub record Keeps {S A : Type 0} (storage : Storage S) (m : Action S A) : Type 0 where
  pub at : (w : World S) → AllStored storage w → AllStored storage (m w).1

module _ {S : Type 0} {storage : Storage S} where
  pub Keeps-go_on :
      {A B : Type 0} (r : Reply Stop A) (f : A → Action S B)
      → ((a : A) → Keeps storage (f a))
      → Keeps storage (go_on r f)
  Keeps-go_on (ok a) f k = k a
  Keeps-go_on (refused s) f k = record { at = λ w h. h }

  pub Keeps-bind :
      {A B : Type 0} (m : Action S A) (f : A → Action S B)
      → Keeps storage m
      → ((a : A) → Keeps storage (f a))
      → Keeps storage (m >>= f)
  unfolding ◌>>=◌
  Keeps-bind m f k l = record {
    at = λ w h. let (r, w') = m w in (Keeps-go_on r f l).at w' (k.at w h);
  }

  pub Keeps-answer : {A : Type 0} (a : A) → Keeps storage (answer {W = World S} {E = Stop} a)
  unfolding answer
  Keeps-answer a = record { at = λ w h. h }

  pub Keeps-refuse :
      {A : Type 0} (s : Stop) → Keeps storage (refuse {W = World S} {E = Stop} {A = A} s)
  unfolding refuse
  Keeps-refuse s = record { at = λ w h. h }

  pub Keeps-or_stop :
      {A : Type 0} (o : Option A) (failure : Failure) (kind : Failure → Stop)
      (clean : Failure → Action S (Unit {0}))
      → ((f : Failure) → Keeps storage (clean f))
      → Keeps storage (or_stop o failure kind clean)
  unfolding or_stop
  Keeps-or_stop none failure kind clean k =
      Keeps-bind (clean failure) (λ _. refuse (kind failure)) (k failure)
        (λ _. Keeps-refuse (kind failure))
  Keeps-or_stop (some a) failure kind clean k = Keeps-answer a

  pub Keeps-mark :
      (env : Env S) (query : Query) (f : Job → Job) (id : Option ℕ)
      → Keeps storage (mark env query f id)
  unfolding mark
  Keeps-mark env query f none = record { at = λ w h. h }
  Keeps-mark env query f (some id) = record {
    at = λ w h. AllStored-same storage w _ (ground arith) (ground arith) (ground arith) h;
  }

  pub Keeps-dispatch :
      (env : Env S) (file : File) (event : ℕ → Event) → Keeps storage (dispatch env file event)
  unfolding dispatch
  Keeps-dispatch env file event = record {
    at = λ w h. AllStored-same storage w _ (ground arith) (ground arith) (ground arith) h;
  }

pub Keeps-must_get :
    {S : Type 0} (env : Env S) (name : Bytes) → Keeps env.storage (must_get env name)
unfolding must_get
Keeps-must_get env name = Keeps-or_stop _ _ _ (λ _. answer tt) (λ _. Keeps-answer tt)

module _ {S : Type 0} (env : Env S) (clean : Failure → Action S (Unit {0}))
    (k : (f : Failure) → Keeps env.storage (clean f)) where
  pub Keeps-get_file : (file_id : ℕ) → Keeps env.storage (get_file env clean file_id)
  unfolding get_file
  Keeps-get_file file_id = record { at = λ w h. (Keeps-or_stop _ _ _ clean k).at w h }

  pub Keeps-download : (key : Bytes) → Keeps env.storage (download env clean key)
  unfolding download
  Keeps-download key = record { at = λ w h. (Keeps-or_stop _ _ _ clean k).at w h }

  pub Keeps-get_or_error : (name : Bytes) → Keeps env.storage (get_or_error env clean name)
  unfolding get_or_error
  Keeps-get_or_error name = Keeps-or_stop _ _ _ clean k

  pub Keeps-process :
      (processor : Processor) (options : Option Options) (content : Bytes)
      → Keeps env.storage (process processor options content clean)
  unfolding process
  Keeps-process processor options content = Keeps-or_stop _ _ _ clean k

  pub Keeps-complete_file : (file_id : ℕ) → Keeps env.storage (complete_file env clean file_id)
  unfolding complete_file
  Keeps-complete_file file_id = record {
    at = λ w h. elim (Bool-cases (env.fails update_status_query)) [
      | inl e ↦ rw e ((Keeps-or_stop none _ _ clean k).at w h)
      | inr e ↦ rw e (record {
        at = h.at;
        keyed = h.keyed;
        apart =
            update_apart complete_row file_id w.files (λ f o. record { other = o.other }) h.apart;
      })
    ];
  }

  -- After an upload that succeeds, the key of the next row holds an object.
  pub Keeps-create_variant :
      (file_id : ℕ) (variant_type key : Bytes) (result : Processed) (w : World S)
      → IsVariantKey key
      → AllStored env.storage w
      → env.storage.download key w.objects ≢ none
      → AllStored env.storage (create_variant env clean file_id variant_type key result w).1
  unfolding create_variant
  Keeps-create_variant file_id variant_type key result w v h g =
      elim (Bool-cases (env.fails create_variant_query || not (is_variant_type variant_type))) [
        | inl e ↦ rw e ((Keeps-or_stop none _ _ clean k).at w h)
        | inr e ↦ rw e (record { at = (g, h.at); keyed = (v, h.keyed); apart = h.apart })
      ]

module _ {S : Type 0} where
  pub or_stop_fails :
      {A B : Type 0} (r : Reply Stop A) (f : Stop) (w : World S) {b : B}
      → (go_on r (λ _. refuse {W = World S} {E = Stop} {A = B} f) w).0 ≢ ok b
  unfolding refuse
  or_stop_fails (ok a) f w h = cc
  or_stop_fails (refused s) f w h = cc

module _ {S : Type 0} (env : Env S) (laws : StorageLaws env.storage)
    (clean : Failure → Action S (Unit {0})) (k : (f : Failure) → Keeps env.storage (clean f)) where
  pub Keeps-upload :
      (key : Bytes) (result : Processed) → Keeps env.storage (upload env clean key result)
  unfolding upload
  Keeps-upload key result = record {
    at = λ w h. (Keeps-or_stop _ _ _ clean k).at _ (record {
      at =
          All-map w.variants
            (λ v.
              upload_keeps laws key result.content result.content_type result.size w.objects
                v.storage_key)
            h.at;
      keyed = h.keyed;
      apart = h.apart;
    });
  }

  upload_stores :
      (key : Bytes) (result : Processed) (w : World S)
      → (upload env clean key result w).0 ≡ ok tt
      → env.storage.download key (upload env clean key result w).1.objects ≢ none
  unfolding upload or_stop answer ◌>>=◌
  upload_stores key result w h =
      elim (Bool-cases
        (env.storage.upload key result.content result.content_type result.size w.objects).0) [
          | inl e ↦
              rw e
                (upload_stored laws key result.content result.content_type result.size w.objects e)
          | inr e ↦ absurd (or_stop_fails _ _ _ (rw e at h))
        ]

  after_upload :
      (file_id : ℕ) (variant_type key : Bytes) (result : Processed) {A : Type 0} (rest : Action S A)
      → IsVariantKey key
      → Keeps env.storage rest
      → (r : Reply Stop (Unit {0})) (w : World S) → AllStored env.storage w
      → (r ≡ ok tt → env.storage.download key w.objects ≢ none)
      → AllStored env.storage
          (go_on r (λ _. create_variant env clean file_id variant_type key result >> rest) w).1
  unfolding ◌>>=◌
  after_upload file_id variant_type key result rest v l (refused s) w h g = h
  after_upload file_id variant_type key result rest v l (ok u) w h g =
      let (r, w') = create_variant env clean file_id variant_type key result w in
      (Keeps-go_on r (λ _. rest) (λ _. l)).at w'
        (Keeps-create_variant env clean k file_id variant_type key result w v h (g refl))

  -- An upload and the row for it.
  pub Keeps-upload-create_variant :
      (file_id : ℕ) (variant_type key : Bytes) (result : Processed) {A : Type 0} (rest : Action S A)
      → IsVariantKey key
      → Keeps env.storage rest
      → Keeps env.storage (
          upload env clean key result
          >> (create_variant env clean file_id variant_type key result >> rest))
  unfolding ◌>>=◌
  Keeps-upload-create_variant file_id variant_type key result rest v l = record {
    at = λ w h.
        let (r, w') = upload env clean key result w in
        after_upload file_id variant_type key result rest v l r w'
          ((Keeps-upload key result).at w h) (upload_stores key result w);
  }

pub ruleset keeps_rules = (
  Keeps-bind, Keeps-answer, Keeps-or_stop, Keeps-mark, Keeps-dispatch, Keeps-get_file,
  Keeps-download, Keeps-must_get, Keeps-process, Keeps-complete_file, Keeps-upload-create_variant,
  Keeps-upload, build_variant_key-IsVariantKey,
)
