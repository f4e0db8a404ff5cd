-- ===== src/Api/Cdn/Uncached.antt =====
-- The cache of transforms (internal/api/cdn.go).
use file_cheap.Prelude.{
  ◌≡◌, refl, ◌∙◌, ap, ℕ, Bool, false, Option, none, some, List, [], ◌∷◌, arith, Option-cases, inl,
  inr, All,
}
use file_cheap.Prelude.Bytes.{Bytes, bytes_key}
use file_cheap.Prelude.Key.{nat_key}
use file_cheap.Prelude.Action.{◌>>=◌, answer, or_refuse, modify, look, act}
use file_cheap.Api.Transforms.{TransformOptions}
use file_cheap.Api.Cdn.{
  SharedFile, Share, CacheRow, Task, count_access, count_download, count_cached, Cdn, CdnEnv,
  get_cache_query, get_transform_cache, get_transform_request_count,
  increment_transform_cache_count,
}
use file_cheap.Api.Cdn.Handler.{
  CdnError, CdnRequest, start, open_share, allowed_options, serve_original, serve_cached,
  serve_result, serve_processed, serve_row, serve_transform, serve, cdn_handler,
}
use file_cheap.Api.Cdn.Tasks.{run_task, pick, CdnEvent, request, finish, finish_task, step, run}
use file_cheap.Api.Cdn.Same.{Same, Same-bind, Same-if, same_rules}

abbrev part : {S : Type 0} → Cdn S → List CacheRow × S
part s = (s.cache, s.objects)

module _ {S : Type 0} (env : CdnEnv S) (req : CdnRequest) where
  start-Same : (task : Task) → Same part (start env {E = CdnError} task)
  unfolding start modify
  start-Same task = record { same = λ s. refl }

  open_share-Same : Same part (open_share env req)
  unfolding open_share
  open_share-Same = search same_rules depth 30

  allowed_options-Same : (share : Share) → Same part (allowed_options env req share)
  unfolding allowed_options
  allowed_options-Same share = search same_rules depth 30

  serve_original-Same :
      (key content_type : Bytes) → Same part (serve_original env req key content_type)
  unfolding serve_original
  serve_original-Same key content_type = search same_rules depth 30

  serve_cached-Same : (row : CacheRow) (etag : Bytes) → Same part (serve_cached env req row etag)
  unfolding serve_cached
  serve_cached-Same row etag = search same_rules depth 30

  -- A transform without a row in the cache has no requests in it, so it is not put there.
  serve_processed-same :
      (id : ℕ) (share : Share) (file : SharedFile) (opts : TransformOptions) (key : Bytes)
      (s : Cdn S)
      → get_transform_cache share.file_id key s.cache ≡ none
      → part (serve_processed env req id share file opts key s).1 ≡ part s
  unfolding serve_processed ◌>>=◌ look or_refuse act start modify serve_result answer
      get_transform_request_count
  serve_processed-same id share file opts key s h = ground (arith, h)

  serve_row-same :
      (id : ℕ) (share : Share) (file : SharedFile) (opts : TransformOptions) (key : Bytes)
      (cached : Option CacheRow) (s : Cdn S)
      → get_transform_cache share.file_id key s.cache ≡ cached
      → part (serve_row env req id share file opts key cached s).1 ≡ part s
  unfolding serve_row
  serve_row-same id share file opts key none s e = serve_processed-same id share file opts key s e
  serve_row-same id share file opts key (some row) s e =
      (Same-bind _ _ (start-Same (count_cached share.file_id key id))
          (λ _. serve_cached-Same row _)).same
        s

  serve_transform-Same :
      (id : ℕ) (share : Share) (file : SharedFile) (opts : TransformOptions)
      → req.fails get_cache_query ≡ false
      → Same part (serve_transform env req id share file opts)
  unfolding serve_transform look ◌>>=◌
  serve_transform-Same id share file opts f = record {
    same = λ s. serve_row-same id share file opts _ _ s (rw f refl);
  }

  cdn_handler-Same : req.fails get_cache_query ≡ false → Same part (cdn_handler env req)
  unfolding cdn_handler serve
  cdn_handler-Same f = Same-bind _ _ open_share-Same (λ (found : ℕ × Share × SharedFile).
      Same-bind _ _ (start-Same (count_access found.0)) (λ _.
        Same-bind _ _ (allowed_options-Same found.1) (λ opts.
          Same-if _ _ _ (serve_transform-Same found.0 found.1 found.2 opts f)
            (Same-bind _ _ (start-Same (count_download found.0)) (λ _. serve_original-Same _ _)))))

-- No request's look into the cache fails.
abbrev pub Finds : CdnEvent → Type 0
Finds (request req) = req.fails get_cache_query ≡ false
Finds (finish i c d) = Unit

increment-none :
    (file_id : ℕ) (key : Bytes) (j : ℕ) (other : Bytes) (rows : List CacheRow)
    → get_transform_cache file_id key rows ≡ none
    → get_transform_cache file_id key (increment_transform_cache_count j other rows) ≡ none
unfolding get_transform_cache increment_transform_cache_count
increment-none file_id key j other [] h = refl
increment-none file_id key j other (row ∷ rows) h =
    ground (arith, h, increment-none file_id key j other rows)

run_task-none :
    {S : Type 0} (task : Task) (c d : Bool) (file_id : ℕ) (key : Bytes) (s : Cdn S)
    → get_transform_cache file_id key s.cache ≡ none
    → (get_transform_cache file_id key (run_task task c d s).cache ≡ none)
      × ((run_task task c d s).objects ≡ s.objects)
unfolding run_task
run_task-none (count_access j) c d file_id key s h = ground (arith, h)
run_task-none (count_download j) c d file_id key s h = ground (arith, h)
run_task-none (count_cached i other j) c d file_id key s h =
    ground (arith, h, increment-none file_id key i other s.cache h)

module _ {S : Type 0} (env : CdnEnv S) (file_id : ℕ) (key : Bytes) where
  step-none :
      (e : CdnEvent) (s : Cdn S)
      → Finds e
      → get_transform_cache file_id key s.cache ≡ none
      → (get_transform_cache file_id key (step env e s).cache ≡ none)
        × ((step env e s).objects ≡ s.objects)
  unfolding step finish_task
  step-none (request req) s f h =
      let same = (cdn_handler-Same env req f).same s in
      (
        ap (λ (r : List CacheRow × S). get_transform_cache file_id key r.0) same ∙ h,
        ap (λ (r : List CacheRow × S). r.1) same,
      )
  step-none (finish i c d) s f h = elim (Option-cases (pick i s.tasks)) [
    | inl e ↦ rw (e, finish_task) (h, refl)
    | inr ((task, rest), e) ↦
        rw (e, finish_task) (run_task-none task c d file_id key (record s { tasks = rest }) h)
  ]

  -- The cache of transforms is never filled: a transform of a file that has no row in the cache has
  -- none after any requests and goroutines, and no object is written, as long as no request's look into
  -- the cache fails. The number of requests from which on a transform is to be cached is read from
  -- the row that only the caching creates.
  pub cache_never_filled :
      (es : List CdnEvent) (s : Cdn S)
      → All Finds es
      → get_transform_cache file_id key s.cache ≡ none
      → (get_transform_cache file_id key (run env es s).cache ≡ none)
        × ((run env es s).objects ≡ s.objects)
  unfolding run
  cache_never_filled [] s f h = (h, refl)
  cache_never_filled (e ∷ es) s (f, fs) h =
      let (absent, same) = step-none e s f h in
      let (absent', same') = cache_never_filled es (step env e s) fs absent in
      (absent', same' ∙ same)
