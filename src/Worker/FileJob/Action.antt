-- ===== src/Worker/FileJob/Action.antt =====
-- Actions on the rows, the objects and the events, which may stop with an error for the queue.
pub use file_cheap.Prelude.Action.{Reply, ok, refused, go_on, ◌>>◌}
unfoldable pub use file_cheap.Prelude.Action.{◌>>=◌, answer, refuse}
use mathlib.Core.Path.{fun_ext}
use file_cheap.Prelude.{◌≡◌, refl, Option, none, some}
use file_cheap.Prelude.Action.{Step}
use file_cheap.Worker.FileJob.{Failure, World}

-- How a run ends early: an error that is to be tried again, one that is not, or a panic.
pub data Stop : Type 0 where
  retryable permanent : Failure → Stop
  panicked : Stop

abbrev pub Action : Type 0 → Type 0 → Type 0
Action S A = Step (World S) Stop A

module _ {S A : Type 0} where
  -- The value; or what is to be done about the failure, and its error.
  unfoldable pub or_stop :
      Option A → Failure → (Failure → Stop) → (Failure → Action S (Unit {0})) → Action S A
  or_stop none failure kind clean = do clean failure; refuse (kind failure)
  or_stop (some a) failure kind clean = answer a

  pub or_stop-some :
      (a : A) (failure : Failure) (kind : Failure → Stop) (clean : Failure → Action S (Unit {0}))
      → or_stop (some a) failure kind clean ≡ answer a
  unfolding or_stop
  or_stop-some a failure kind clean = refl

  go_on-answer : (r : Reply Stop A) (w : World S) → go_on r answer w ≡ (r, w)
  unfolding answer
  go_on-answer (ok a) w = refl
  go_on-answer (refused e) w = refl

  pub bind-answer : (m : Action S A) → (m >>= answer) ≡ m
  unfolding ◌>>=◌
  bind-answer m = fun_ext λ w. let (r, w') = m w in go_on-answer r w'

module _ {S A B : Type 0} where
  pub answer-bind : (a : A) (f : A → Action S B) → (answer a >>= f) ≡ f a
  unfolding ◌>>=◌ answer
  answer-bind a f = refl

pub then-answer : {S : Type 0} (m : Action S (Unit {0})) → (m >> answer tt) ≡ m
then-answer m = bind-answer m
