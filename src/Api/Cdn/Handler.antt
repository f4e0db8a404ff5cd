-- ===== src/Api/Cdn/Handler.antt =====
-- `CDNHandler` of internal/api/cdn.go, with what it calls. What it answers early is an error of the
-- step.
use file_cheap.Prelude.{
  ℕ, ◌/◌, ◌^◌, Bool, true, false, ◌&&◌, ◌||◌, not, Option, none, some, List, [], ◌∷◌, ◌++◌,
  if◌then◌else◌, leb, length, take,
}
use file_cheap.Prelude.Key.{◌==◌, nat_key}
use file_cheap.Prelude.Bytes.{Bytes, bytes, bytes_key, has_prefix}
use file_cheap.Prelude.Decimal.{decimal}
use file_cheap.Prelude.Int.{ℤ, ltb_ℤ, wrap32}
use file_cheap.Prelude.Action.{Step, ◌>>=◌, ◌>>◌, answer, or_refuse, require, modify, look, act}
use file_cheap.Encoding.{hex}
use file_cheap.Api.Transforms.Text.{is_named}
use file_cheap.Api.Transforms.{
  TransformOptions, parse_transforms, validate_transforms, requires_processing,
  processor_name_for_content_type, to_processor_options, cache_key,
}
use file_cheap.Api.Cdn.{
  SharedFile, Share, CacheRow, Task, count_access, count_download, count_cached, Cdn, CdnQuery,
  get_share_query, limit_query, get_cache_query, request_count_query, create_cache_query,
  get_file_share_by_token, is_share_download_limit_reached, get_transform_cache,
  get_transform_request_count, create_transform_cache, TransformResult, CdnEnv,
}

pub data CdnError : Type 0 where
  bad_request not_found password_required invalid_password download_limit_reached : CdnError
  forbidden processing_error internal : CdnError

pub record Headers : Type 0 where
  pub cache_control : Bytes
  pub content_disposition : Bytes
  pub etag : Option Bytes

-- A redirection to a URL of the storage, or the content itself with its type.
pub data Answer : Type 0 where
  not_modified : Answer
  redirect : Bytes → Headers → Answer
  content : Option Bytes → Bytes → Headers → Answer

-- A request, with the clock and the queries that fail in it. A header that is not there is empty.
pub record CdnRequest : Type 0 where
  pub token : Bytes
  pub transforms : Bytes
  pub filename : Bytes
  pub password : Bytes
  pub if_none_match : Bytes
  pub now : ℕ
  pub fails : CdnQuery → Bool

abbrev pub cache_threshold : ℕ
cache_threshold = 3

-- `getCacheControl`.
unfoldable pub get_cache_control : Bytes → Bytes
get_cache_control content_type =
    if has_prefix (bytes "application/x-mpegURL") content_type
      || has_prefix (bytes "video/mp2t") content_type
    then bytes "public, max-age=31536000, immutable"
    else if has_prefix (bytes "video/") content_type
    then bytes "public, max-age=604800"
    else if has_prefix (bytes "image/") content_type
    then bytes "public, max-age=2592000, immutable"
    else bytes "public, max-age=3600"

-- `generateETag`.
unfoldable pub generate_etag : (Bytes → Bytes) → Bytes → ℕ → Bytes
generate_etag sha256 key now =
    b'"' ∷ hex (take 8 (sha256 (key ++ b'-' ∷ decimal (now / 10 ^ 9)))) ++ b'"' ∷ []

-- `checkETag`.
unfoldable pub check_etag : Bytes → Bytes → Bool
check_etag if_none_match etag =
    not (if_none_match == []) && (if_none_match == etag || if_none_match == bytes "*")

-- `isTransformAllowed`.
unfoldable pub is_transform_allowed : Bytes → List Bytes → Bool
unfolding is_named
is_transform_allowed requested allowed =
    requested == []
    || requested == bytes "_"
    || requested == bytes "original"
    || is_named (bytes "*") allowed
    || is_named requested allowed

abbrev pub headers : Bytes → Bytes → Option Bytes → Headers
headers content_type filename etag = record {
  cache_control = get_cache_control content_type;
  content_disposition = bytes "inline; filename=" ++ b'"' ∷ filename ++ b'"' ∷ [];
  etag = etag;
}

abbrev pub is_protected : Share → Bool
is_protected share = elim share.password_hash [ none ↦ false | some hash ↦ not (hash == []) ]

-- An int32 of the size, if it is positive.
abbrev pub dimension : ℤ → Option ℤ
dimension n = if ltb_ℤ (ℤ.pos 0) n then some (wrap32 n) else none

module _ {S : Type 0} (env : CdnEnv S) where
  -- `go func() { ... }()`.
  unfoldable pub start : {E : Type 0} → Task → Step (Cdn S) E (Unit {0})
  start task = modify (λ cdn. record cdn { tasks = cdn.tasks ++ task ∷ [] })

  -- The share of the token, if it may be used.
  unfoldable pub open_share : CdnRequest → Step (Cdn S) CdnError (ℕ × Share × SharedFile)
  open_share req = do
    require (not (req.token == [])) bad_request
    found ← look (λ cdn.
        if req.fails get_share_query
        then none
        else get_file_share_by_token req.now req.token cdn.files cdn.shares)
    (id, share, file) ← or_refuse found not_found
    require (not (is_protected share) || not (req.password == [])) password_required
    require
        (elim share.password_hash [
          | none ↦ true
          | some hash ↦ hash == [] || env.matches req.password hash
        ])
        invalid_password
    reached ← look (λ cdn. elim share.max_downloads [
      | none ↦ false
      | some limit ↦
          if req.fails limit_query
          then false
          else elim (is_share_download_limit_reached id cdn.shares) [
            | none ↦ false
            | some reached ↦ reached
          ]
    ])
    require (not reached) download_limit_reached
    answer (id, share, file)

  -- The transforms of the request, if the share allows them.
  unfoldable pub allowed_options : CdnRequest → Share → Step (Cdn S) CdnError TransformOptions
  allowed_options req share = do
    opts ← or_refuse (parse_transforms req.transforms) bad_request
    require (validate_transforms opts) bad_request
    require
        (elim share.allowed_transforms [
          | [] ↦ true
          | a ∷ more ↦ is_transform_allowed req.transforms (a ∷ more)
        ])
        forbidden
    answer opts

  -- `serveOriginal`.
  unfoldable pub serve_original : CdnRequest → Bytes → Bytes → Step (Cdn S) CdnError Answer
  serve_original req storage_key content_type = do
    url ← or_refuse (env.presigned_url storage_key) internal
    answer (redirect url (headers content_type req.filename none))

  -- `serveCached`, whose tag is never empty.
  unfoldable pub serve_cached : CdnRequest → CacheRow → Bytes → Step (Cdn S) CdnError Answer
  serve_cached req cached etag =
      if check_etag req.if_none_match etag then answer not_modified else do
        url ← or_refuse (env.presigned_url cached.storage_key) internal
        answer (redirect url (headers cached.content_type req.filename (some etag)))

  -- `processTransform`.
  unfoldable pub process_transform : SharedFile → TransformOptions → Cdn S → Option TransformResult
  process_transform file opts cdn = elim (env.storage.download file.storage_key cdn.objects) [
    | none ↦ none
    | some object ↦
        let named = processor_name_for_content_type opts file.content_type in
        elim (env.registry (if named == [] then bytes "resize" else named)) [
          | none ↦ none
          | some processor ↦ processor (to_processor_options opts) object
        ]
  ]

  -- `cacheResult`: afterwards the reader of the result is at its end.
  unfoldable pub cache_result :
      CdnRequest → ℕ → Bytes → TransformResult → Cdn S → TransformResult × Cdn S
  cache_result req file_id key result cdn = elim result.content [
    | none ↦ (result, cdn)
    | some octets ↦
        let storage_key =
          bytes "cache/" ++ env.show_id file_id ++ b'/' ∷ key ++ b'/' ∷ result.filename in
        let (uploaded, objects) =
          env.storage.upload storage_key (some octets) result.content_type (ℤ.pos (length octets))
            cdn.objects in
        let row : CacheRow = record {
          file_id = file_id;
          cache_key = key;
          transform_params = req.transforms;
          storage_key = storage_key;
          content_type = result.content_type;
          size_bytes = ℤ.pos (length octets);
          width = dimension result.width;
          height = dimension result.height;
          request_count = 1;
          created_at = req.now;
        } in
        (
          record result { content = some [] },
          if uploaded && not (req.fails create_cache_query)
              then record cdn { objects = objects; cache = create_transform_cache row cdn.cache }
              else record cdn { objects = objects },
        )
  ]

  -- `serveResult`.
  unfoldable pub serve_result : CdnRequest → TransformResult → Bytes → Step (Cdn S) CdnError Answer
  serve_result req result etag =
      if check_etag req.if_none_match etag
      then answer not_modified
      else answer (
          content result.content result.content_type
            (headers result.content_type req.filename (some etag)))

  -- A transform that is not in the cache.
  unfoldable pub serve_processed :
      CdnRequest → ℕ → Share → SharedFile → TransformOptions → Bytes → Step (Cdn S) CdnError Answer
  serve_processed req id share file opts key = do
    count ← look (λ cdn.
        if req.fails request_count_query
        then 0
        else get_transform_request_count share.file_id key cdn.cache)
    processed ← look (process_transform file opts)
    result ← or_refuse processed processing_error
    result' ← act (λ cdn.
        if leb cache_threshold count
        then cache_result req share.file_id key result cdn
        else (result, cdn))
    start (count_download id)
    serve_result req result' (generate_etag env.sha256 key req.now)

  -- A transform, by what is in the cache.
  unfoldable pub serve_row :
      CdnRequest
      → ℕ
      → Share
      → SharedFile
      → TransformOptions
      → Bytes
      → Option CacheRow
      → Step (Cdn S) CdnError Answer
  serve_row req id share file opts key none = serve_processed req id share file opts key
  serve_row req id share file opts key (some row) = do
    start (count_cached share.file_id key id)
    serve_cached req row (generate_etag env.sha256 key row.created_at)

  unfoldable pub serve_transform :
      CdnRequest → ℕ → Share → SharedFile → TransformOptions → Step (Cdn S) CdnError Answer
  serve_transform req id share file opts = do
    let key = cache_key env.sha256 opts
    cached ← look (λ cdn.
        if req.fails get_cache_query then none else get_transform_cache share.file_id key cdn.cache)
    serve_row req id share file opts key cached

  -- `CDNHandler`, after the share was found.
  unfoldable pub serve : CdnRequest → ℕ × Share × SharedFile → Step (Cdn S) CdnError Answer
  serve req (id, share, file) = do
    start (count_access id)
    opts ← allowed_options req share
    if requires_processing opts
        then serve_transform req id share file opts
        else do start (count_download id); serve_original req file.storage_key file.content_type

  -- `CDNHandler`.
  unfoldable pub cdn_handler : CdnRequest → Step (Cdn S) CdnError Answer
  cdn_handler req = open_share req >>= serve req
