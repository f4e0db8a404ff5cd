-- ===== src/Worker/FileJob/Originals.antt =====
-- A job that may delete the original of a file leaves the objects of its variants
-- (internal/worker/handlers.go).
use file_cheap.Prelude.{
  sym, ◌∙◌, Bool, false, Option-cases, if◌then◌else◌, ◌≡◌, refl, ℕ, true, Option, none, some, List,
  [], ◌∷◌, arith, Bool-cases, inl, inr, All,
}
use file_cheap.Prelude.Bytes.{Bytes, bytes_key}
use file_cheap.Prelude.Int.{ℤ}
use file_cheap.Storage.{StorageLaws}
use file_cheap.Worker.FileJob.{mark_deleted_query, Failure, File, World, Env}
use file_cheap.Prelude.Key.{◌==◌, nat_key}
use file_cheap.Prelude.Map.{Map, lookup}
use file_cheap.Worker.FileJob.Transcode.{
  track_usage, delete_original, remove_original, without_original,
}
use file_cheap.Worker.FileJob.Action.{
  Stop, Reply, Action, ◌>>=◌, go_on, ok, refused, answer, or_stop,
}
use file_cheap.Worker.FileJob.Steps.{update, get_file}
use file_cheap.Worker.FileJob.Keeps.{
  AllStored, IsOriginalKey, originals_apart, update_apart, AllStored-same, begins, or_stop_fails,
  Keeps, Keeps-bind, Keeps-answer, Keeps-or_stop, Keeps-mark, Keeps-dispatch, Keeps-get_file,
  Keeps-download, Keeps-must_get, Keeps-process, Keeps-complete_file, Keeps-upload-create_variant,
  Keeps-upload, build_variant_key-IsVariantKey,
}

All-both :
    {A : Type 0} {P Q R : A → Type 0} (xs : List A)
    → ((a : A) → P a → Q a → R a)
    → All P xs
    → All Q xs
    → All R xs
All-both [] f p q = tt
All-both (x ∷ xs) f (p, ps) (q, qs) = (f x p q, All-both xs f ps qs)

module _ {S : Type 0} (env : Env S) where
  or_stop-ok :
      {A : Type 0} (o : Option A) (failure : Failure) (kind : Failure → Stop)
      (clean : Failure → Action S (Unit {0})) (w : World S) {a : A}
      → (or_stop o failure kind clean w).0 ≡ ok a
      → o ≡ some a
  unfolding or_stop ◌>>=◌ answer
  or_stop-ok none failure kind clean w h =
      absurd (or_stop_fails (clean failure w).0 (kind failure) (clean failure w).1 h)
  or_stop-ok (some b) failure kind clean w h = ground (arith, h)

  get_file_found :
      (clean : Failure → Action S (Unit {0})) (file_id : ℕ) (w : World S) (file : File)
      → (get_file env clean file_id w).0 ≡ ok file
      → lookup file_id w.files ≡ some file
  unfolding get_file
  get_file_found clean file_id w file h =
      let found = or_stop-ok _ _ _ clean w h in ground (arith, found)

  found_file :
      {A : Type 0} (r : Reply Stop File) (f : File → Action S A) (w : World S)
      → AllStored env.storage w
      → ((file : File) → r ≡ ok file → IsOriginalKey file.storage_key)
      → ((file : File) → IsOriginalKey file.storage_key → Keeps env.storage (f file))
      → AllStored env.storage (go_on r f w).1
  found_file (ok file) f w h o l = (l file (o file refl)).at w h
  found_file (refused e) f w h o l = h

  -- The file that is found has the key of an original.
  pub Keeps-get_file-bind :
      {A : Type 0} (clean : Failure → Action S (Unit {0})) (file_id : ℕ) (f : File → Action S A)
      → ((failure : Failure) → Keeps env.storage (clean failure))
      → ((file : File) → IsOriginalKey file.storage_key → Keeps env.storage (f file))
      → Keeps env.storage (get_file env clean file_id >>= f)
  unfolding ◌>>=◌
  Keeps-get_file-bind clean file_id f k l = record {
    at = λ w h.
        let (r, w') = get_file env clean file_id w in
        found_file r f w' ((Keeps-get_file env clean k file_id).at w h)
          (λ file e. h.apart file_id file (get_file_found clean file_id w file e)) l;
  }

  pub Keeps-track_usage :
      (user : Option ℕ) (seconds : ℤ) → Keeps env.storage (track_usage env user seconds)
  unfolding track_usage
  Keeps-track_usage user seconds = record {
    at = λ w h. AllStored-same env.storage w _ refl refl refl h;
  }

  files_apart :
      (is_removed is_lost : Bool) (file_id : ℕ) (files : Map ℕ File)
      → ((i : ℕ) (f : File) → lookup i files ≡ some f → IsOriginalKey f.storage_key)
      → (i : ℕ) (f : File)
      → lookup i (
          if is_removed
          then (if is_lost then files else update without_original file_id files)
          else files)
        ≡ some f
      → IsOriginalKey f.storage_key
  unfolding begins
  files_apart true true file_id files apart = apart
  files_apart true false file_id files apart =
      update_apart without_original file_id files (λ f o. record { other = refl }) apart
  files_apart false is_lost file_id files apart = apart

  module _ (laws : StorageLaws env.storage) where
    remove_original-AllStored :
        (file_id : ℕ) (key : Bytes)
        → IsOriginalKey key
        → (w : World S) → AllStored env.storage w
        → AllStored env.storage (remove_original env file_id key w)
    unfolding remove_original
    remove_original-AllStored file_id key o w h = record {
      at =
          All-both w.variants
            (λ v stored keyed e. stored (
              sym (
                laws.others_kept key w.objects v.storage_key
                  (originals_apart v.storage_key key keyed o))
              ∙ e))
            h.at h.keyed;
      keyed = h.keyed;
      apart =
          files_apart (env.storage.remove key w.objects).0 (env.fails mark_deleted_query) file_id
            w.files h.apart;
    }

    -- The original that goes is the object of no variant.
    pub Keeps-delete_original :
        (file_id : ℕ) (file : File)
        → IsOriginalKey file.storage_key
        → Keeps env.storage (delete_original env file_id file)
    unfolding delete_original
    Keeps-delete_original file_id file o = record {
      at = λ w h. elim (Option-cases (env.deletes_originals file.user_id)) [
        | inl e ↦ rw e h
        | inr (false, e) ↦ rw e h
        | inr (true, e) ↦ rw e (elim (Bool-cases (file.storage_key == [])) [
          | inl q ↦ rw q h
          | inr q ↦ rw q (remove_original-AllStored file_id file.storage_key o w h)
        ])
      ];
    }

pub ruleset originals_rules = (
  Keeps-bind, Keeps-answer, Keeps-or_stop, Keeps-mark, Keeps-dispatch, Keeps-get_file-bind,
  Keeps-download, Keeps-must_get, Keeps-process, Keeps-complete_file, Keeps-upload-create_variant,
  Keeps-upload, build_variant_key-IsVariantKey, Keeps-track_usage, Keeps-delete_original,
)
