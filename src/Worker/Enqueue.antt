-- ===== src/Worker/Enqueue.antt =====
-- internal/worker/enqueue.go: a job is a row of processing_jobs and a message to the broker. What
-- the database and the broker answer are arguments.
use file_cheap.Prelude.{ℕ, Option, none, some, List, ◌∷◌}
use file_cheap.Prelude.Bytes.{Bytes}

-- `db.JobType`.
pub data JobType : Type 0 where
  thumbnail resize webp watermark pdf_thumbnail metadata optimize : JobType
  video_thumbnail video_transcode video_hls video_watermark zip_download : JobType

pub record JobRow : Type 0 where
  pub id : ℕ
  pub file_id : ℕ
  pub job_type : JobType
  pub priority : ℕ

-- A message in the queue, by the job and the file that its payload names.
pub record Message : Type 0 where
  pub job_type : JobType
  pub job_id : ℕ
  pub file_id : ℕ

pub record Tasks : Type 0 where
  pub jobs : List JobRow
  pub queue : List Message

-- The id that `CreateJob` gives, and the one of the broker's `Enqueue`; `none` is an error.
pub record Answers : Type 0 where
  pub job_id : Option ℕ
  pub queue_id : Option Bytes

-- `EnqueueWithTracking`.
unfoldable pub enqueue_with_tracking : Answers → JobType → ℕ → Tasks → Option Bytes × Tasks
enqueue_with_tracking a job_type file_id tasks = elim a.job_id [
  | none ↦ (none, tasks)
  | some id ↦
      let row : JobRow = record { id = id; file_id = file_id; job_type = job_type; priority = 0 } in
      let jobs = row ∷ tasks.jobs in
      elim a.queue_id [
        | none ↦ (none, record tasks { jobs = jobs })
        | some queue_id ↦ (
          some queue_id,
          record {
            jobs = jobs;
            queue = record { job_type = job_type; job_id = id; file_id = file_id } ∷ tasks.queue;
          },
        )
      ]
]
