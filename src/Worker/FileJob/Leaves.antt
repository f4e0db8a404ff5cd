-- ===== src/Worker/FileJob/Leaves.antt =====
-- What the steps of a handler leave in the row of the job (internal/worker/handlers.go).
use file_cheap.Prelude.{
  ◌≡◌, refl, ℕ, ◌+◌, Bool, false, Option, none, some, arith, Bool-cases, Option-cases, ◌||◌, not,
  ◌⊎◌, inl, inr,
}
use file_cheap.Prelude.Bytes.{Bytes}
use file_cheap.Prelude.Int.{ℤ}
use file_cheap.Prelude.Key.{test_refl, nat_key}
use file_cheap.Prelude.Map.{Map, lookup, lookup-insert}
use file_cheap.Worker.FileJob.{
  Failure, JobStatus, File, Job, Event, World, Options, Processed, Processor, Query,
  mark_running_query, mark_completed_query, mark_failed_query, create_variant_query,
  update_status_query, Env,
}
use file_cheap.Worker.FileJob.Action.{
  Stop, retryable, permanent, panicked, Reply, ok, refused, Action, ◌>>=◌, ◌>>◌, go_on, answer,
  refuse, or_stop,
}
use file_cheap.Worker.FileJob.Steps.{
  is_variant_type, update, mark, mark_job_running, mark_job_completed, mark_job_failed, dispatch,
  get_file, download, must_get, process, upload, create_variant, complete_file,
}
use file_cheap.Worker.FileJob.Transcode.{track_usage, delete_original, remove_original}
use file_cheap.Worker.FileJob.Handlers.{unmarshal, check_file, fail_loudly}

-- The row of a job that runs, of one that is done, and of one that failed.
abbrev pub started : Job → Job
started job = record job { status = JobStatus.running; attempts = job.attempts + 1 }

abbrev pub completed_job : Job → Job
completed_job job = record job { status = JobStatus.completed }

abbrev pub failed_job : Failure → Job → Job
failed_job f job = record job { status = JobStatus.failed; error_message = some f }

-- The row after a run that ended so, from the row of the running job: `target` if nothing failed. A
-- panic leaves the row.
abbrev pub row_after : {A : Type 0} → Job → Job → Reply Stop A → Job
row_after target job (ok a) = target
row_after target job (refused (retryable f)) = failed_job f job
row_after target job (refused (permanent f)) = failed_job f job
row_after target job (refused panicked) = job

pub lookup-update :
    {V : Type 0} (f : V → V) (n : ℕ) (rows : Map ℕ V) {v : V}
    → lookup n rows ≡ some v
    → lookup n (update f n rows) ≡ some (f v)
lookup-update f n rows {v} e =
    rw (e, update) (ground (arith, lookup-insert n n (f v) rows, test_refl n))

module _ {S : Type 0} where
  pub mark_lem :
      (env : Env S) (query : Query) (f : Job → Job) (n : ℕ) (w : World S) {job : Job}
      → env.fails query ≡ false
      → lookup n w.jobs ≡ some job
      → lookup n (mark env query f (some n) w).1.jobs ≡ some (f job)
  unfolding mark
  mark_lem env query f n w h e = rw h (lookup-update f n w.jobs e)

  pub mark_done :
      (env : Env S) (query : Query) (f : Job → Job) (id : Option ℕ) (w : World S)
      → (mark env query f id w).0 ≡ ok tt
  unfolding mark
  mark_done env query f none w = refl
  mark_done env query f (some n) w = refl

module _ {S : Type 0} (n : ℕ) (job : Job) where
  -- `m`, run while the job runs, leaves the row as its end says: `target` if nothing failed.
  pub record Leaves {A : Type 0} (target : Job) (m : Action S A) : Type 0 where
    pub at :
        (w : World S)
        → lookup n w.jobs ≡ some job
        → lookup n (m w).1.jobs ≡ some (row_after target job (m w).0)

  -- What is done about a failure marks the row.
  pub record MarksFailed (clean : Failure → Action S (Unit {0})) : Type 0 where
    pub at :
        (f : Failure) (w : World S)
        → lookup n w.jobs ≡ some job
        → lookup n (clean f w).1.jobs ≡ some (failed_job f job)
    pub ends : (f : Failure) (w : World S) → (clean f w).0 ≡ ok tt

module _ {S : Type 0} {n : ℕ} {job : Job} where
  Leaves-go_on :
      {A B : Type 0} (target : Job) (r : Reply Stop A) (f : A → Action S B) (w : World S)
      → lookup n w.jobs ≡ some (row_after job job r)
      → ((a : A) → Leaves n job target (f a))
      → lookup n (go_on r f w).1.jobs ≡ some (row_after target job (go_on r f w).0)
  Leaves-go_on target (ok a) f w h k = (k a).at w h
  Leaves-go_on target (refused (retryable x)) f w h k = h
  Leaves-go_on target (refused (permanent x)) f w h k = h
  Leaves-go_on target (refused panicked) f w h k = h

  pub Leaves-bind :
      {A B : Type 0} (target : Job) (m : Action S A) (f : A → Action S B)
      → Leaves n job job m
      → ((a : A) → Leaves n job target (f a))
      → Leaves n job target (m >>= f)
  unfolding ◌>>=◌
  Leaves-bind target m f k l = record {
    at = λ w h. let (r, w') = m w in Leaves-go_on target r f w' (k.at w h) l;
  }

  pub Leaves-answer : {A : Type 0} (a : A) → Leaves n job job (answer {W = World S} {E = Stop} a)
  unfolding answer
  Leaves-answer a = record { at = λ w h. h }

  -- A failure that is marked, and stops the run with an error.
  stop_marked :
      (A : Type 0) (target : Job) (f : Failure) (kind : Failure → Stop)
      (clean : Failure → Action S (Unit {0})) (w : World S)
      → MarksFailed n job clean
      → kind f ≡ retryable f ⊎ kind f ≡ permanent f
      → lookup n w.jobs ≡ some job
      → lookup n (or_stop {A = A} none f kind clean w).1.jobs
        ≡ some (row_after target job (or_stop {A = A} none f kind clean w).0)
  unfolding or_stop ◌>>=◌ refuse
  stop_marked A target f kind clean w k (inl e) h = rw (k.ends f w, e) (k.at f w h)
  stop_marked A target f kind clean w k (inr e) h = rw (k.ends f w, e) (k.at f w h)

  Leaves-or_stop :
      {A : Type 0} (o : Option A) (f : Failure) (kind : Failure → Stop)
      (clean : Failure → Action S (Unit {0}))
      → MarksFailed n job clean
      → kind f ≡ retryable f ⊎ kind f ≡ permanent f
      → Leaves n job job (or_stop o f kind clean)
  unfolding or_stop
  Leaves-or_stop {A} none f kind clean k e = record {
    at = λ w h. stop_marked A job f kind clean w k e h;
  }
  Leaves-or_stop (some a) f kind clean k e = Leaves-answer a

  pub Leaves-dispatch :
      (env : Env S) (file : File) (event : ℕ → Event) → Leaves n job job (dispatch env file event)
  unfolding dispatch
  Leaves-dispatch env file event = record { at = λ w h. ground (arith, h) }

  pub Leaves-track_usage :
      (env : Env S) (user : Option ℕ) (seconds : ℤ)
      → Leaves n job job (track_usage env user seconds)
  unfolding track_usage
  Leaves-track_usage env user seconds = record { at = λ w h. h }

  pub Leaves-delete_original :
      (env : Env S) (file_id : ℕ) (file : File)
      → Leaves n job job (delete_original env file_id file)
  unfolding delete_original remove_original
  Leaves-delete_original env file_id file = record { at = λ w h. ground (arith, h) }

  pub Leaves-check_file :
      (is_right : Bool) (clean : Failure → Action S (Unit {0}))
      → MarksFailed n job clean
      → Leaves n job job (check_file is_right clean)
  Leaves-check_file is_right clean k = Leaves-or_stop _ _ _ clean k (inr refl)

  pub Leaves-must_get : (env : Env S) (name : Bytes) → Leaves n job job (must_get env name)
  unfolding must_get or_stop answer refuse ◌>>=◌
  Leaves-must_get env name = record {
    at = λ w h. elim (Option-cases (env.registry name)) [ inl e ↦ rw e h | inr (p, e) ↦ rw e h ];
  }

  pub Leaves-process :
      (processor : Processor) (options : Option Options) (content : Bytes)
      (clean : Failure → Action S (Unit {0}))
      → MarksFailed n job clean
      → Leaves n job job (process processor options content clean)
  unfolding process
  Leaves-process processor options content clean k = Leaves-or_stop _ _ _ clean k (inr refl)

module _ {S : Type 0} {n : ℕ} {job : Job} (env : Env S) (clean : Failure → Action S (Unit {0}))
    (k : MarksFailed n job clean) where
  pub Leaves-get_file : (file_id : ℕ) → Leaves n job job (get_file env clean file_id)
  unfolding get_file
  Leaves-get_file file_id = record { at = λ w h. (Leaves-or_stop _ _ _ clean k (inl refl)).at w h }

  pub Leaves-download : (key : Bytes) → Leaves n job job (download env clean key)
  unfolding download
  Leaves-download key = record { at = λ w h. (Leaves-or_stop _ _ _ clean k (inl refl)).at w h }

  pub Leaves-upload :
      (key : Bytes) (result : Processed) → Leaves n job job (upload env clean key result)
  unfolding upload
  Leaves-upload key result = record { at = λ w h. (Leaves-or_stop _ _ _ clean k (inl refl)).at _ h }

  pub Leaves-complete_file : (file_id : ℕ) → Leaves n job job (complete_file env clean file_id)
  unfolding complete_file
  Leaves-complete_file file_id = record {
    at = λ w h. elim (Bool-cases (env.fails update_status_query)) [
      | inl e ↦ rw e ((Leaves-or_stop none _ _ clean k (inl refl)).at w h)
      | inr e ↦ rw e h
    ];
  }

  pub Leaves-create_variant :
      (file_id : ℕ) (variant_type key : Bytes) (result : Processed)
      → Leaves n job job (create_variant env clean file_id variant_type key result)
  unfolding create_variant
  Leaves-create_variant file_id variant_type key result = record {
    at = λ w h.
        elim (Bool-cases (env.fails create_variant_query || not (is_variant_type variant_type))) [
          | inl e ↦ rw e ((Leaves-or_stop none _ _ clean k (inl refl)).at w h)
          | inr e ↦ rw e h
        ];
  }

-- The marks, where their queries do not fail.
module _ {S : Type 0} {n : ℕ} {job : Job} (env : Env S) (id : Option ℕ) (e : id ≡ some n) where
  pub MarksFailed-mark_job_failed :
      env.fails mark_failed_query ≡ false → MarksFailed n job (mark_job_failed env id)
  MarksFailed-mark_job_failed h = record {
    at = λ f w j. rw e (mark_lem env mark_failed_query (failed_job f) n w h j);
    ends = λ f w. mark_done env mark_failed_query (failed_job f) id w;
  }

  pub MarksFailed-fail_loudly :
      env.fails mark_failed_query ≡ false
      → (file : File) (file_id : ℕ) (job_type : Bytes)
      → MarksFailed n job (fail_loudly env id file file_id job_type)
  unfolding ◌>>=◌ mark dispatch
  MarksFailed-fail_loudly h file file_id job_type = record {
    at = λ f w j. rw e (ground (arith, h, lookup-update (failed_job f) n w.jobs j));
    ends = λ f w. rw e refl;
  }

  pub Leaves-mark_job_completed :
      env.fails mark_completed_query ≡ false
      → Leaves n job (completed_job job) (mark_job_completed env id)
  unfolding mark
  Leaves-mark_job_completed h = record {
    at = λ w j. rw e (rw h (lookup-update completed_job n w.jobs j));
  }

  pub Leaves-completed_dispatch :
      env.fails mark_completed_query ≡ false
      → (file : File) (event : ℕ → Event)
      → Leaves n job (completed_job job) (mark_job_completed env id >> dispatch env file event)
  unfolding ◌>>=◌ mark dispatch
  Leaves-completed_dispatch h file event = record {
    at = λ w j. rw e (ground (arith, h, lookup-update completed_job n w.jobs j));
  }

-- `m` leaves the row of a job as its end says.
pub record Ends {S A : Type 0} (n : ℕ) (job : Job) (m : Action S A) : Type 0 where
  pub at :
      (w : World S)
      → lookup n w.jobs ≡ some job
      → lookup n (m w).1.jobs ≡ some (row_after (completed_job (started job)) (started job) (m w).0)

module _ {S : Type 0} {n : ℕ} {job : Job} where
  pub Ends-unmarshal :
      {P A : Type 0} (p : P) (f : P → Action S A)
      → Ends n job (f p)
      → Ends n job (unmarshal (some p) >>= f)
  unfolding ◌>>=◌ or_stop answer
  Ends-unmarshal p f k = record { at = λ w h. k.at w h }

  pub Ends-mark_job_running :
      {A : Type 0} (env : Env S) (id : Option ℕ) (rest : Action S A)
      → id ≡ some n
      → env.fails mark_running_query ≡ false
      → Leaves n (started job) (completed_job (started job)) rest
      → Ends n job (mark_job_running env id >> rest)
  unfolding ◌>>=◌
  Ends-mark_job_running env id rest e h k = record {
    at = λ w j.
        rw (mark_done env mark_running_query started id w)
          (k.at _ (rw e (mark_lem env mark_running_query started n w h j)));
  }

pub ruleset leaves_rules = (
  Ends-unmarshal, Ends-mark_job_running, Leaves-track_usage, Leaves-delete_original, Leaves-bind,
  Leaves-answer, Leaves-dispatch, Leaves-check_file, Leaves-must_get, Leaves-process,
  Leaves-get_file, Leaves-download, Leaves-upload, Leaves-create_variant, Leaves-complete_file,
  Leaves-mark_job_completed, Leaves-completed_dispatch, MarksFailed-mark_job_failed,
  MarksFailed-fail_loudly,
)
