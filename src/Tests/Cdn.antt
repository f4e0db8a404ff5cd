-- ===== src/Tests/Cdn.antt =====
-- Requests for shared files.
use file_cheap.Prelude.{ℕ, ◌+◌, ◌≡◌, ◌≤◌, refl, true, false, none, some, List, [], ◌∷◌, arith}
use file_cheap.Prelude.Bytes.{bytes, bytes_key}
use file_cheap.Prelude.Int.{ℤ}
use file_cheap.Prelude.Key.{nat_key}
use file_cheap.Prelude.Map.{lookup, insert}
use file_cheap.Prelude.Action.{ok, refused, ◌>>=◌, answer, or_refuse, require, modify, look}
use file_cheap.Storage.Memory.{Files, memory_storage}
use file_cheap.Api.Transforms.{TransformOptions, parse_transforms, validate_transforms}
use file_cheap.Api.Cdn.{
  SharedFile, Share, Cdn, CdnEnv, has_token, shared_file, get_file_share_by_token,
  is_share_download_limit_reached, get_transform_cache, increment, increment_share_download_count,
}
use file_cheap.Api.Cdn.Handler.{
  Answer, redirect, headers, CdnRequest, download_limit_reached, start, open_share, allowed_options,
  serve_original, serve, cdn_handler, get_cache_control,
}
use file_cheap.Api.Cdn.Shares.{
  ShareRequest, create_share_handler, generate_share_token, get_shared_file, create_file_share,
}
use file_cheap.Encoding.{raw_url}
use file_cheap.Api.Cdn.Tasks.{CdnEvent, request, finish, run_task, pick, finish_task, step, run}
use file_cheap.Api.Cdn.Adds.{pending}
use file_cheap.Api.Cdn.Downloads.{downloads, MostWaiting, faults, downloads_bounded}
use file_cheap.Api.Cdn.Shown.{IsOpen, Shows, cdn_handler-IsOpen}
use file_cheap.Api.Cdn.Uncached.{cache_never_filled}

abbrev an_env : CdnEnv Files
an_env = record {
  storage = memory_storage false;
  presigned_url = λ key. some key;
  registry = λ name. some (λ opts object. some (record {
    content = some object;
    content_type = bytes "image/webp";
    filename = bytes "out.webp";
    width = ℤ.pos 100;
    height = ℤ.pos 100;
  }));
  sha256 = λ s. s;
  matches = λ password hash. true;
  show_id = λ id. id ∷ [];
}

abbrev a_share : Share
a_share = record {
  file_id = 3;
  token = bytes "t";
  expires_at = some (ℤ.pos 100);
  allowed_transforms = [];
  access_count = 0;
  password_hash = none;
  max_downloads = some (ℤ.pos 1);
  download_count = 0;
}

abbrev a_file : SharedFile
a_file = record {
  user_id = 9;
  filename = bytes "a.png";
  content_type = bytes "image/png";
  storage_key = bytes "uploads/a";
  is_deleted = false;
}

abbrev a_cdn : Cdn Files
a_cdn = record {
  files = (3, a_file) ∷ [];
  shares = (7, a_share) ∷ [];
  cache = [];
  objects = [];
  tasks = [];
}

abbrev a_request : CdnRequest
a_request = record {
  token = bytes "t";
  transforms = bytes "_";
  filename = bytes "a.png";
  password = [];
  if_none_match = [];
  now = 50;
  fails = λ q. false;
}

-- Two requests whose goroutines come after both.
abbrev two_requests : List CdnEvent
two_requests = request a_request ∷ request a_request ∷ []

-- One download more than the limit.
one_too_many : downloads an_env 7 two_requests a_cdn ≡ 2
unfolding downloads step cdn_handler serve open_share allowed_options serve_original start ◌>>=◌
    answer or_refuse require modify look parse_transforms validate_transforms
    get_file_share_by_token shared_file is_share_download_limit_reached lookup
one_too_many = refl

two_waiting : MostWaiting an_env 1 7 two_requests a_cdn
unfolding MostWaiting pending step cdn_handler serve open_share allowed_options serve_original start
    ◌>>=◌ answer or_refuse require modify look parse_transforms validate_transforms
    get_file_share_by_token shared_file is_share_download_limit_reached lookup
two_waiting = (omega arith, (omega arith, tt))

downloads_bounded_example :
    a_share.download_count + downloads an_env 7 two_requests a_cdn ≤ 1 + 1 + faults two_requests
unfolding lookup
downloads_bounded_example =
    downloads_bounded an_env 7 1 1 a_share two_requests a_cdn (omega arith) (refl, tt) refl refl
      (omega arith) two_waiting

-- With the goroutine between them, the second is refused.
refused_later :
    (cdn_handler an_env a_request
      (run an_env (request a_request ∷ finish 1 false false ∷ []) a_cdn)).0
    ≡ refused download_limit_reached
unfolding run pick finish_task run_task increment_share_download_count increment step cdn_handler
    serve open_share allowed_options serve_original start ◌>>=◌ answer or_refuse require modify look
    parse_transforms validate_transforms get_file_share_by_token shared_file
    is_share_download_limit_reached lookup insert
refused_later = refl

abbrev the_answer : Answer
the_answer = redirect (bytes "uploads/a") (headers (bytes "image/png") (bytes "a.png") none)

answered_whole : (cdn_handler an_env a_request a_cdn).0 ≡ ok the_answer
unfolding cdn_handler serve open_share allowed_options serve_original start ◌>>=◌ answer or_refuse
    require modify look parse_transforms validate_transforms get_file_share_by_token shared_file
    is_share_download_limit_reached lookup get_cache_control
answered_whole = refl

cdn_handler-IsOpen_example :
    (id : ℕ) × (share : Share) × (file : SharedFile) × (opts : TransformOptions) × IsOpen an_env
      a_request a_cdn id share file opts
    × Shows an_env a_request a_cdn opts share file the_answer
unfolding lookup
cdn_handler-IsOpen_example =
    cdn_handler-IsOpen an_env a_request a_cdn the_answer (refl, tt) answered_whole

-- The same transform four times.
abbrev four_transforms : List CdnEvent
four_transforms =
    let e = request (record a_request { transforms = bytes "w_100" }) in e ∷ e ∷ e ∷ e ∷ []

cache_never_filled_example :
    (get_transform_cache 3 (bytes "k") (run an_env four_transforms a_cdn).cache ≡ none)
    × ((run an_env four_transforms a_cdn).objects ≡ a_cdn.objects)
unfolding get_transform_cache
cache_never_filled_example =
    cache_never_filled an_env 3 (bytes "k") four_transforms a_cdn (refl, (refl, (refl, (refl, tt))))
      refl

abbrev a_share_request : ShareRequest
a_share_request = record {
  user_id = some 9;
  file_id = some 3;
  password = [];
  max_downloads = none;
  expires = none;
  now = 50;
  fails = λ q. false;
  random = some (1 ∷ 2 ∷ 3 ∷ []);
  hashed = none;
  new_id = 8;
}

-- A share that was just made, without a password, is served.
shared_then_served :
    (cdn_handler an_env
      (record a_request { token = bytes "AQID" })
      (create_share_handler (bytes "https://file.cheap") a_share_request a_cdn).1).0
    ≡ ok the_answer
unfolding create_share_handler generate_share_token raw_url get_shared_file create_file_share
    has_token insert cdn_handler serve open_share allowed_options serve_original start ◌>>=◌ answer
    or_refuse require modify look parse_transforms validate_transforms get_file_share_by_token
    shared_file is_share_download_limit_reached lookup get_cache_control
shared_then_served = refl
