-- ===== src/Prelude/Action.antt =====
-- Actions on a state that may stop with an error: what was written before stays written.
pub mod Leads
use mathlib.Core.Path.{◌≡◌, refl}
use mathlib.Core.Logic.{◌⊎◌, inl, inr}
use mathlib.Core.Bool.{Bool, true, false}
use mathlib.Core.Option.{Option, none, some}

pub data Reply (E A : Type 0) : Type 0 where
  ok : A → Reply E A
  refused : E → Reply E A

abbrev pub Step : Type 0 → Type 0 → Type 0 → Type 0
Step W E A = W → Reply E A × W

module _ {W E A B : Type 0} where
  abbrev pub go_on : Reply E A → (A → Step W E B) → Step W E B
  go_on (ok a) f w = f a w
  go_on (refused e) f w = (refused e, w)

  infixl 5 ◌>>=◌ ◌>>◌
  unfoldable pub ◌>>=◌ : Step W E A → (A → Step W E B) → Step W E B
  ◌>>=◌ m f w = let (r, w') = m w in go_on r f w'

  abbrev pub ◌>>◌ : Step W E A → Step W E B → Step W E B
  m >> k = m >>= λ _. k

module _ {W E A : Type 0} where
  unfoldable pub answer : A → Step W E A
  answer a w = (ok a, w)

  unfoldable pub refuse : E → Step W E A
  refuse e w = (refused e, w)

  -- The value, or the error.
  unfoldable pub or_refuse : Option A → E → Step W E A
  or_refuse none e w = (refused e, w)
  or_refuse (some a) e w = (ok a, w)

module _ {W E : Type 0} where
  unfoldable pub require : Bool → E → Step W E (Unit {0})
  require true e w = (ok tt, w)
  require false e w = (refused e, w)

  unfoldable pub modify : (W → W) → Step W E (Unit {0})
  modify f w = (ok tt, f w)

unfoldable pub look : {W E A : Type 0} → (W → A) → Step W E A
look f w = (ok (f w), w)

-- A step that never fails.
unfoldable pub act : {W E A : Type 0} → (W → A × W) → Step W E A
act f w = let (a, w') = f w in (ok a, w')

go_on-eq-ok :
    {W E A B : Type 0} (r : Reply E A) (f : A → Step W E B) (w : W) {b : B}
    → (go_on r f w).0 ≡ ok b
    → (a : A) × (r ≡ ok a) × ((f a w).0 ≡ ok b)
go_on-eq-ok (ok a) f w h = (a, refl, h)
go_on-eq-ok (refused e) f w h = cc

-- What a step that succeeds did: its first part succeeded, and then its second.
pub >>=-eq-ok :
    {W E A B : Type 0} (m : Step W E A) (f : A → Step W E B) (w : W) {b : B}
    → ((m >>= f) w).0 ≡ ok b
    → (a : A) × ((m w).0 ≡ ok a) × ((f a (m w).1).0 ≡ ok b)
unfolding ◌>>=◌
>>=-eq-ok m f w h = go_on-eq-ok (m w).0 f (m w).1 h

pub or_refuse-eq-ok :
    {W E A : Type 0} (o : Option A) (e : E) (w : W) {a : A}
    → (or_refuse o e w).0 ≡ ok a
    → o ≡ some a
unfolding or_refuse
or_refuse-eq-ok none e w h = cc
or_refuse-eq-ok (some b) e w h = cc

go_on-ok :
    {W E A B : Type 0} (r : Reply E A) (f : A → Step W E B) (w : W) {a : A}
    → r ≡ ok a
    → go_on r f w ≡ f a w
go_on-ok (ok a) f w h = cc
go_on-ok (refused e) f w h = cc

pub >>=-ok :
    {W E A B : Type 0} (m : Step W E A) (f : A → Step W E B) (w : W) {a : A}
    → (m w).0 ≡ ok a
    → (m >>= f) w ≡ f a (m w).1
unfolding ◌>>=◌
>>=-ok m f w h = go_on-ok (m w).0 f (m w).1 h

pub Reply-cases :
    {E A : Type 0} (r : Reply E A) → ((e : E) × (r ≡ refused e)) ⊎ ((a : A) × (r ≡ ok a))
Reply-cases (ok a) = inr (a, refl)
Reply-cases (refused e) = inl (e, refl)
