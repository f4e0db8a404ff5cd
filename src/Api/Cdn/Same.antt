-- ===== src/Api/Cdn/Same.antt =====
-- Steps of the CDN that leave a part of its state (internal/api/cdn.go).
use file_cheap.Prelude.{◌≡◌, refl, ◌∙◌, Bool, true, false, Option, none, some, if◌then◌else◌}
use file_cheap.Prelude.Action.{
  Reply, ok, refused, Step, go_on, ◌>>=◌, answer, or_refuse, require, look,
}
use file_cheap.Api.Cdn.{Cdn}
use file_cheap.Api.Cdn.Handler.{CdnError}

-- The step leaves what `part` reads.
pub record Same {S X A : Type 0} (part : Cdn S → X) (m : Step (Cdn S) CdnError A) : Type 0 where
  pub same : (s : Cdn S) → part (m s).1 ≡ part s

module _ {S X : Type 0} {part : Cdn S → X} where
  Same-go_on :
      {A B : Type 0} (r : Reply CdnError A) (f : A → Step (Cdn S) CdnError B)
      → ((a : A) → Same part (f a))
      → Same part (go_on r f)
  Same-go_on (ok a) f k = k a
  Same-go_on (refused e) f k = record { same = λ s. refl }

  pub Same-bind :
      {A B : Type 0} (m : Step (Cdn S) CdnError A) (f : A → Step (Cdn S) CdnError B)
      → Same part m
      → ((a : A) → Same part (f a))
      → Same part (m >>= f)
  unfolding ◌>>=◌
  Same-bind m f k l = record { same = λ s. (Same-go_on (m s).0 f l).same (m s).1 ∙ k.same s }

  pub Same-answer : {A : Type 0} (a : A) → Same part (answer a)
  unfolding answer
  Same-answer a = record { same = λ s. refl }

  pub Same-or_refuse : {A : Type 0} (o : Option A) (e : CdnError) → Same part (or_refuse o e)
  unfolding or_refuse
  Same-or_refuse none e = record { same = λ s. refl }
  Same-or_refuse (some a) e = record { same = λ s. refl }

  pub Same-require : (b : Bool) (e : CdnError) → Same part (require b e)
  unfolding require
  Same-require true e = record { same = λ s. refl }
  Same-require false e = record { same = λ s. refl }

  pub Same-look : {A : Type 0} (f : Cdn S → A) → Same part (look f)
  unfolding look
  Same-look f = record { same = λ s. refl }

  pub Same-if :
      {A : Type 0} (b : Bool) (m m' : Step (Cdn S) CdnError A)
      → Same part m
      → Same part m'
      → Same part (if b then m else m')
  Same-if true m m' k k' = k
  Same-if false m m' k k' = k'

pub ruleset same_rules = (Same-bind, Same-answer, Same-or_refuse, Same-require, Same-look, Same-if)
