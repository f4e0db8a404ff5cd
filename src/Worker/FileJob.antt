-- ===== src/Worker/FileJob.antt =====
-- What a job on a file works with (internal/worker/handlers.go, internal/worker/middleware.go): the
-- rows of the file, of the job and of its variants, a storage, and the events for webhooks. A
-- handler is an action on them (FileJob/Action.antt), made of the steps of FileJob/Steps.antt.
pub mod Action
pub mod Steps
pub mod Payloads
pub mod Handlers
pub mod Transcode
pub mod Builder
pub mod Configs
pub mod Registry
pub mod Equivalence
pub mod Keeps
pub mod Originals
pub mod Stored
pub mod Leaves
pub mod Outcome
pub mod UnknownType
pub mod Success
use file_cheap.Prelude.{
  ℕ, zero, suc, ◌+◌, Bool, true, false, ◌||◌, Option, none, some, List, [], ◌∷◌, ◌++◌,
  if◌then◌else◌,
}
use file_cheap.Prelude.Key.{◌==◌, nat_key}
use file_cheap.Prelude.Bytes.{Bytes, bytes, bytes_key}
use file_cheap.Prelude.Int.{ℤ, wrap32}
use file_cheap.Prelude.Map.{Map, lookup, insert}
use file_cheap.Storage.{Storage}

-- The steps that fail, in place of their messages.
pub data Failure : Type 0 where
  invalid_payload no_file invalid_file no_object no_processor not_processed : Failure
  not_uploaded not_recorded status_not_updated : Failure

-- `db.FileStatus`.
pub data FileStatus : Type 0 where
  pending processing completed failed : FileStatus

-- `db.JobStatus`.
pub data JobStatus : Type 0 where
  pending running completed failed : JobStatus

-- A row of `files` that is not deleted: the columns that a job reads or writes.
pub record File : Type 0 where
  pub user_id : Option ℕ
  pub content_type : Bytes
  pub storage_key : Bytes
  pub status : FileStatus

-- A row of `processing_jobs`, without its times and what the run does not touch.
pub record Job : Type 0 where
  pub status : JobStatus
  pub attempts : ℕ
  pub error_message : Option Failure

-- A row of `file_variants`, without its own id, its time, and the duration and the resolution of a
-- video, which are only shown.
pub record Variant : Type 0 where
  pub file_id : ℕ
  pub variant_type : Bytes
  pub content_type : Bytes
  pub size_bytes : ℤ
  pub storage_key : Bytes
  pub width : ℤ
  pub height : ℤ

-- An event that is handed to the dispatcher of webhooks, for a user.
pub data Event : Type 0 where
  processing_completed : ℕ → ℕ → Bytes → Bytes → Event
  processing_failed : ℕ → ℕ → Bytes → Failure → Event

pub record World (S : Type 0) : Type 0 where
  pub files : Map ℕ File
  pub jobs : Map ℕ Job
  pub variants : List Variant
  pub objects : S
  pub events : List Event
  -- The seconds of video of this month, by user.
  pub usage : Map ℕ ℤ

-- `processor.Options`.
pub record Options : Type 0 where
  pub width : ℤ
  pub height : ℤ
  pub quality : ℤ
  pub fit : Bytes
  pub format : Bytes
  pub variant_type : Bytes
  pub page : ℤ
  pub position : Bytes

-- The options that are not set.
abbrev pub no_options : Options
no_options = record {
  width = ℤ.pos 0;
  height = ℤ.pos 0;
  quality = ℤ.pos 0;
  fit = [];
  format = [];
  variant_type = [];
  page = ℤ.pos 0;
  position = [];
}

-- `processor.Result`, with the reader read to its end (`none` if that fails), and the duration in
-- whole seconds.
pub record Processed : Type 0 where
  pub content : Option Bytes
  pub content_type : Bytes
  pub size : ℤ
  pub width : ℤ
  pub height : ℤ
  pub seconds : ℤ

-- A processor of the registry; `none` are options that are nil, or the answer of an error.
abbrev pub Processor : Type 0
Processor = Option Options → Bytes → Option Processed

pub data Query : Type 0 where
  get_file_query mark_running_query mark_completed_query mark_failed_query : Query
  create_variant_query update_status_query ensure_usage_query increment_usage_query
        mark_deleted_query :
      Query

-- What is around a run: the queries that fail, the registry, whether there is a dispatcher, and what
-- the settings of a user say on deleting originals (`none` if their query fails).
pub record Env (S : Type 0) : Type 0 where
  pub fails : Query → Bool
  pub storage : Storage S
  pub registry : Bytes → Option Processor
  pub has_dispatcher : Bool
  pub deletes_originals : Option ℕ → Option Bool
