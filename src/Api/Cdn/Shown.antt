-- ===== src/Api/Cdn/Shown.antt =====
-- What the CDN serves, and under which conditions (internal/api/cdn.go).
use file_cheap.Prelude.{
  ◌≡◌, ◌≢◌, refl, sym, ap, subst, ◌∙◌, ◌⊎◌, inl, inr, ℕ, Bool, true, false, Option, none, some,
  List, [], arith, if◌then◌else◌, Bool-cases, Option-cases, leb,
}
use file_cheap.Prelude.Bytes.{Bytes, bytes_key}
use file_cheap.Prelude.Int.{ℤ, ◌<ℤ◌}
use file_cheap.Prelude.Key.{nat_key}
use file_cheap.Prelude.Map.{lookup}
use file_cheap.Prelude.Map.Retain.{HasUniqueKeys}
use file_cheap.Prelude.Action.{
  Reply, ok, ◌>>=◌, ◌>>◌, answer, or_refuse, require, modify, look, act, >>=-eq-ok,
}
use file_cheap.Api.Transforms.{
  TransformOptions, parse_transforms, validate_transforms, requires_processing, cache_key,
}
use file_cheap.Api.Cdn.{
  SharedFile, Share, CacheRow, Task, count_access, count_download, Cdn, CdnEnv, limit_query,
  request_count_query, TransformResult, get_transform_cache, get_transform_request_count,
  is_share_download_limit_reached,
}
use file_cheap.Api.Cdn.Handler.{
  Answer, not_modified, redirect, content, CdnError, CdnRequest, cache_threshold,
  is_transform_allowed, start, open_share, allowed_options, serve_original, serve_cached,
  process_transform, cache_result, serve_result, serve_processed, serve_row, serve_transform, serve,
  cdn_handler,
}
use file_cheap.Api.Cdn.Access.{
  IsFound, get_file_share_by_token-IsFound, open_share_found, open_share-same, allowed_options-same,
}

-- The number of requests for a transform that are counted, or 0 if the query for it fails.
abbrev pub counted_requests : {S : Type 0} → CdnEnv S → CdnRequest → Cdn S → Bytes → Share → ℕ
counted_requests env req s key share =
    if req.fails request_count_query
    then 0
    else get_transform_request_count share.file_id key s.cache

-- The file of the share itself, a cached transform of it, or a transform of it just made.
abbrev pub Shows :
    {S : Type 0}
    → CdnEnv S
    → CdnRequest
    → Cdn S
    → TransformOptions
    → Share
    → SharedFile
    → Answer
    → Type 0
Shows env req s opts share file not_modified = Unit
Shows env req s opts share file (redirect url headers) =
    ((requires_processing opts ≡ false) × (env.presigned_url file.storage_key ≡ some url))
    ⊎ ((row : CacheRow) × (get_transform_cache share.file_id (cache_key env.sha256 opts) s.cache
          ≡ some row)
        × (env.presigned_url row.storage_key ≡ some url))
Shows env req s opts share file (content octets content_type headers) =
    (result : TransformResult) × (process_transform env file opts s ≡ some result)
    × (content_type ≡ result.content_type)
    × ((octets ≡ result.content)
        ⊎ ((octets ≡ some [])
            × (leb cache_threshold (counted_requests env req s (cache_key env.sha256 opts) share)
                ≡ true)))

module _ {S : Type 0} (env : CdnEnv S) (req : CdnRequest) (id : ℕ) (share : Share)
    (file : SharedFile) (opts : TransformOptions) (s : Cdn S) where
  serve_original-Shows :
      (a : Answer)
      → requires_processing opts ≡ false
      → (serve_original env req file.storage_key file.content_type s).0 ≡ ok a
      → Shows env req s opts share file a
  unfolding serve_original answer ◌>>=◌ or_refuse
  serve_original-Shows not_modified plain h = tt
  serve_original-Shows (redirect url hs) plain h = inl (plain, ground (arith, h))
  serve_original-Shows (content octets content_type hs) plain h = absurd (ground (arith, h))

  serve_cached-Shows :
      (row : CacheRow) (etag : Bytes) (a : Answer)
      → get_transform_cache share.file_id (cache_key env.sha256 opts) s.cache ≡ some row
      → (s' : Cdn S) → (serve_cached env req row etag s').0 ≡ ok a
      → Shows env req s opts share file a
  unfolding serve_cached answer ◌>>=◌ or_refuse
  serve_cached-Shows row etag not_modified e s' h = tt
  serve_cached-Shows row etag (redirect url hs) e s' h = inr (row, e, ground (arith, h))
  serve_cached-Shows row etag (content octets content_type hs) e s' h = absurd (ground (arith, h))

  -- The reader of a result may be at its end.
  drained :
      (b : Bool) (key : Bytes) (result : TransformResult)
      → let (result', s') =
          if b then cache_result env req share.file_id key result s else (result, s) in
        (result'.content_type ≡ result.content_type)
        × ((result'.content ≡ result.content) ⊎ ((result'.content ≡ some []) × (b ≡ true)))
  unfolding cache_result
  drained false key result = (refl, inl refl)
  drained true key result = elim (Option-cases result.content) [
    | inl e ↦ (ground arith, inl (ground arith))
    | inr (octets, e) ↦ (ground arith, inr (ground arith, refl))
  ]

  serve_processed-Shows :
      (a : Answer)
      → (serve_processed env req id share file opts (cache_key env.sha256 opts) s).0 ≡ ok a
      → Shows env req s opts share file a
  unfolding serve_processed answer ◌>>=◌ or_refuse look act start modify serve_result
  serve_processed-Shows not_modified h = tt
  serve_processed-Shows (redirect url hs) h = absurd (ground (arith, h))
  serve_processed-Shows (content octets content_type hs) h =
      elim (Option-cases (process_transform env file opts s)) [
        | inl e ↦ absurd (ground (arith, h))
        | inr (result, e) ↦
            let key : Bytes = cache_key env.sha256 opts in
            let count : ℕ = counted_requests env req s key share in
            let (typed, read) = drained (leb cache_threshold count) key result in
            let result' : TransformResult =
              (if leb cache_threshold count
                then cache_result env req share.file_id key result s
                else (result, s)).0 in
            let same : octets ≡ result'.content = ground (arith, h, e) in
            (
              result,
              e,
              ground (arith, h, typed),
              elim read [ inl r ↦ inl (same ∙ r) | inr (r, often) ↦ inr (same ∙ r, often) ],
            )
      ]

  serve_row-Shows :
      (a : Answer) (cached : Option CacheRow)
      → ((row : CacheRow)
          → cached ≡ some row
          → get_transform_cache share.file_id (cache_key env.sha256 opts) s.cache ≡ some row)
      → (serve_row env req id share file opts (cache_key env.sha256 opts) cached s).0 ≡ ok a
      → Shows env req s opts share file a
  unfolding serve_row ◌>>=◌ start modify
  serve_row-Shows a none is_row h = serve_processed-Shows a h
  serve_row-Shows a (some row) is_row h = serve_cached-Shows row _ a (is_row row refl) _ h

  serve_transform-Shows :
      (a : Answer)
      → (serve_transform env req id share file opts s).0 ≡ ok a
      → Shows env req s opts share file a
  unfolding serve_transform look ◌>>=◌
  serve_transform-Shows a h = serve_row-Shows a _ (λ row e. ground (arith, e)) h

-- The conditions on the share, and on the transforms.
pub record IsOpen {S : Type 0} (env : CdnEnv S) (req : CdnRequest) (s : Cdn S) (id : ℕ)
    (share : Share) (file : SharedFile) (opts : TransformOptions) : Type 0 where
  pub found : IsFound req.now req.token s.files s.shares id share file
  pub password :
      (hash : Bytes)
      → share.password_hash ≡ some hash
      → hash ≢ []
      → env.matches req.password hash ≡ true
  pub limit :
      (m : ℤ)
      → share.max_downloads ≡ some m
      → req.fails limit_query ≡ false
      → ℤ.pos share.download_count <ℤ m
  pub parsed : parse_transforms req.transforms ≡ some opts
  pub valid : validate_transforms opts ≡ true
  pub allowed :
      share.allowed_transforms ≢ []
      → is_transform_allowed req.transforms share.allowed_transforms ≡ true

module _ {S : Type 0} (env : CdnEnv S) (req : CdnRequest) (s : Cdn S) where
  pub limit_below :
      (id : ℕ) (share : Share) (m : ℤ)
      → lookup id s.shares ≡ some share
      → share.max_downloads ≡ some m
      → is_share_download_limit_reached id s.shares ≢ some true
      → ℤ.pos share.download_count <ℤ m
  unfolding is_share_download_limit_reached
  limit_below id share m row e below = ground (arith, row, e, below)

  allowed_options_found :
      (share : Share) (s' : Cdn S) (opts : TransformOptions)
      → (allowed_options env req share s').0 ≡ ok opts
      → (parse_transforms req.transforms ≡ some opts)
        × (validate_transforms opts ≡ true)
        × (share.allowed_transforms ≢ []
            → is_transform_allowed req.transforms share.allowed_transforms ≡ true)
  unfolding allowed_options ◌>>=◌ or_refuse require answer
  allowed_options_found share s' opts h =
      (ground (arith, h), ground (arith, h), λ some_allowed. ground (arith, h, some_allowed))

  -- The tasks do not matter.
  Shows-tasks :
      (tasks : List Task) (opts : TransformOptions) (share : Share) (file : SharedFile) (a : Answer)
      → Shows env req (record s { tasks = tasks }) opts share file a
      → Shows env req s opts share file a
  unfolding process_transform
  Shows-tasks tasks opts share file not_modified h = h
  Shows-tasks tasks opts share file (redirect url hs) h = h
  Shows-tasks tasks opts share file (content octets content_type hs) h = h

  chosen-Shows :
      (id : ℕ) (share : Share) (file : SharedFile) (opts : TransformOptions) (a : Answer)
      (tasks : List Task)
      → ((if requires_processing opts then serve_transform env req id share file opts else do
        start env (count_download id)
        serve_original env req file.storage_key file.content_type)
          (record s { tasks = tasks })).0
        ≡ ok a
      → Shows env req s opts share file a
  unfolding start modify ◌>>=◌
  chosen-Shows id share file opts a tasks h = elim (Bool-cases (requires_processing opts)) [
    | inl e ↦
        Shows-tasks tasks opts share file a
          (serve_transform-Shows env req id share file opts _ a (rw e at h))
    | inr e ↦
        Shows-tasks _ opts share file a
          (serve_original-Shows env req id share file opts _ a e (rw e at h))
  ]

  serve-Shows :
      (id : ℕ) (share : Share) (file : SharedFile) (a : Answer)
      → (serve env req (id, share, file) s).0 ≡ ok a
      → (opts : TransformOptions) × ((allowed_options env req share
            (start env {E = CdnError} (count_access id) s).1).0
          ≡ ok opts)
        × Shows env req s opts share file a
  unfolding serve start modify
  serve-Shows id share file a h =
      let (_, started, h₁) = >>=-eq-ok (start env (count_access id)) _ s h in
      let (opts, e, h₂) = >>=-eq-ok (allowed_options env req share) _ _ h₁ in
      let same =
        allowed_options-same env req share (start env {E = CdnError} (count_access id) s).1 in
      let chosen : Cdn S → Reply CdnError Answer = λ s'.
        ((if requires_processing opts then serve_transform env req id share file opts else do
          start env (count_download id)
          serve_original env req file.storage_key file.content_type)
          s').0 in
      (opts, e, chosen-Shows id share file opts a _ (sym (ap chosen same) ∙ h₂))

  -- Served is only what a share shows: where the CDN answers with a redirection, with content or with
  -- "not modified", the token of the request is that of a share that has not expired, of a file that
  -- is not deleted; the password of the request matches that of the share, if it has one; the limit of
  -- downloads is not reached, unless the query for it fails; the transforms are valid, and allowed if
  -- the share restricts them. A redirection leads to the object of that file, if no processing is
  -- asked for, or to a cached transform of that file. Content is the transform of that file with these
  -- options; only where at least as many requests for it are counted as the cache asks for, it may be
  -- empty instead.
  pub cdn_handler-IsOpen :
      (a : Answer)
      → HasUniqueKeys s.shares
      → (cdn_handler env req s).0 ≡ ok a
      → (id : ℕ) × (share : Share) × (file : SharedFile) × (opts : TransformOptions) × IsOpen env
          req s id share file opts
        × Shows env req s opts share file a
  unfolding cdn_handler
  cdn_handler-IsOpen a u h =
      let ((id, share, file), e, h₁) = >>=-eq-ok (open_share env req) (serve env req) s h in
      let (row, matching, below) = open_share_found env req s id share file e in
      let found = get_file_share_by_token-IsFound _ _ _ _ id share file u row in
      let (opts, e', shows) = serve-Shows id share file a (
        subst (λ s'. (serve env req (id, share, file) s').0 ≡ ok a) (open_share-same env req s)
          h₁) in
      let (parsed, valid, allowed) = allowed_options_found share _ opts e' in
      (
        id,
        share,
        file,
        opts,
        record {
          found = found;
          password = matching;
          limit = λ m e f. limit_below id share m found.row e (below m e f);
          parsed = parsed;
          valid = valid;
          allowed = allowed;
        },
        shows,
      )
