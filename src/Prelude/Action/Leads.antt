-- ===== src/Prelude/Action/Leads.antt =====
-- Where a step leaves its state: a predicate of the state that the step ends in.
use file_cheap.Prelude.{◌≡◌, refl, sym, subst, Bool, true, false, Option, none, some}
use file_cheap.Prelude.Action.{
  Reply, ok, refused, Step, go_on, ◌>>=◌, ◌>>◌, or_refuse, require, look,
}

abbrev pub Leads {κ} : {W E A : Type 0} → (W → Type κ) → W → Step W E A → Type κ
Leads P w m = P (m w).1

module _ {κ} {W E A B : Type 0} (P : W → Type κ) (f : A → Step W E B) where
  Leads-go_on :
      (r : Reply E A) (w : W) → P w → ((a : A) → r ≡ ok a → Leads P w (f a)) → P (go_on r f w).1
  Leads-go_on (ok a) w p k = k a refl
  Leads-go_on (refused e) w p k = p

module _ {κ} {W E : Type 0} (P : W → Type κ) {w : W} where
  pub Leads-or_refuse :
      {A B : Type 0} (o : Option A) (e : E) (f : A → Step W E B)
      → P w
      → ((a : A) → o ≡ some a → Leads P w (f a))
      → Leads P w (or_refuse o e >>= f)
  unfolding or_refuse ◌>>=◌
  Leads-or_refuse none e f p k = p
  Leads-or_refuse (some a) e f p k = k a refl

  pub Leads-require :
      {B : Type 0} (b : Bool) (e : E) (m : Step W E B)
      → P w
      → (b ≡ true → Leads P w m)
      → Leads P w (require b e >> m)
  unfolding require ◌>>=◌
  Leads-require true e m p k = k refl
  Leads-require false e m p k = p

  pub Leads-look :
      {A B : Type 0} (f : W → A) (g : A → Step W E B)
      → Leads P w (g (f w))
      → Leads P w (look f >>= g)
  unfolding look ◌>>=◌
  Leads-look f g p = p

  -- A first part that leads there, and a second that stays.
  pub Leads->>= :
      {A B : Type 0} (m : Step W E A) (f : A → Step W E B)
      → Leads P w m
      → ((a : A) → Leads P (m w).1 (f a))
      → Leads P w (m >>= f)
  unfolding ◌>>=◌
  Leads->>= m f p k = Leads-go_on P f (m w).0 (m w).1 p (λ a h. k a)

  -- A first part that only reads.
  pub Leads-reads :
      {A B : Type 0} (m : Step W E A) (f : A → Step W E B)
      → P w
      → (m w).1 ≡ w
      → ((a : A) → (m w).0 ≡ ok a → Leads P w (f a))
      → Leads P w (m >>= f)
  unfolding ◌>>=◌
  Leads-reads m f p same k =
      Leads-go_on P f (m w).0 (m w).1 (subst P (sym same) p)
        (λ a h. subst (λ v. Leads P v (f a)) (sym same) (k a h))

  -- A last part that only reads.
  pub Leads-ask : {A : Type 0} (o : Option A) (e : E) → P w → Leads P w (or_refuse o e)
  unfolding or_refuse
  Leads-ask none e p = p
  Leads-ask (some a) e p = p

  pub Leads-test : (b : Bool) (e : E) → P w → Leads P w (require b e)
  unfolding require
  Leads-test true e p = p
  Leads-test false e p = p
