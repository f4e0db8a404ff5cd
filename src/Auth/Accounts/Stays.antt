-- ===== src/Auth/Accounts/Stays.antt =====
-- Steps that open no token for a new password again (internal/auth/auth.go).
use file_cheap.Prelude.{
  ◌≡◌, ◌≢◌, refl, ℕ, Bool, true, false, Option, none, some, arith, if◌then◌else◌,
}
use file_cheap.Prelude.Action.{
  Reply, ok, refused, Step, go_on, ◌>>=◌, answer, refuse, or_refuse, require, modify, look,
}
use file_cheap.Prelude.Key.{nat_key}
use file_cheap.Prelude.Bytes.{Bytes, bytes_key, bytes_test_iff}
use file_cheap.Auth.Accounts.{
  AccountError, User, Ticket, Accounts, AccountQuery, Call, use_ticket, drop_tickets,
}
use file_cheap.Auth.Accounts.Service.{query, find, create_user, create_reset, create_verification}

-- No row of this hash is open.
abbrev pub is_spent : Bytes → Accounts → Bool
is_spent hash s = elim (s.resets hash) [
  | none ↦ true
  | some ticket ↦ elim ticket.used_at [ none ↦ false | some t ↦ true ]
]

-- `m` opens no row of the hash.
pub record Stays {A : Type 0} (hash : Bytes) (m : Step Accounts AccountError A) : Type 0 where
  pub at : (s : Accounts) → is_spent hash s ≡ true → is_spent hash (m s).1 ≡ true

module _ {hash : Bytes} where
  pub Stays-go_on :
      {A B : Type 0} (r : Reply AccountError A) (f : A → Step Accounts AccountError B)
      → ((a : A) → Stays hash (f a))
      → Stays hash (go_on r f)
  Stays-go_on (ok a) f k = k a
  Stays-go_on (refused e) f k = record { at = λ s h. h }

  pub Stays-bind :
      {A B : Type 0} (m : Step Accounts AccountError A) (f : A → Step Accounts AccountError B)
      → Stays hash m
      → ((a : A) → Stays hash (f a))
      → Stays hash (m >>= f)
  unfolding ◌>>=◌
  Stays-bind m f k l = record {
    at = λ s h. let (r, s') = m s in (Stays-go_on r f l).at s' (k.at s h);
  }

  pub Stays-answer : {A : Type 0} (a : A) → Stays hash (answer a)
  unfolding answer
  Stays-answer a = record { at = λ s h. h }

  pub Stays-or_refuse : {A : Type 0} (o : Option A) (e : AccountError) → Stays hash (or_refuse o e)
  unfolding or_refuse
  Stays-or_refuse none e = record { at = λ s h. h }
  Stays-or_refuse (some a) e = record { at = λ s h. h }

  pub Stays-require : (b : Bool) (e : AccountError) → Stays hash (require b e)
  unfolding require
  Stays-require true e = record { at = λ s h. h }
  Stays-require false e = record { at = λ s h. h }

  pub Stays-look : {A : Type 0} (f : Accounts → A) → Stays hash (look f)
  unfolding look
  Stays-look f = record { at = λ s h. h }

  -- A change that leaves the rows of the tokens, or marks or drops some.
  pub Stays-users :
      (f : Accounts → Accounts) → ((s : Accounts) → (f s).resets ≡ s.resets) → Stays hash (modify f)
  unfolding modify
  Stays-users f e = record { at = λ s h. rw (e s) h }

  pub Stays-drop :
      (id : ℕ) → Stays hash (modify (λ s. record s { resets = drop_tickets id s.resets }))
  unfolding modify
  Stays-drop id = record { at = λ s h. ground (arith, h) }

  pub Stays-use :
      (now : ℕ) (hash' : Bytes)
      → Stays hash (modify (λ s. record s { resets = use_ticket now hash' s.resets }))
  unfolding modify
  Stays-use now hash' = record { at = λ s h. ground (arith, h, bytes_test_iff hash hash') }

  pub Stays-find :
      {A : Type 0} (fails : Bool) (f : Accounts → Option A) (e : AccountError)
      → Stays hash (find fails f e)
  unfolding find
  Stays-find fails f e = record { at = λ s. (Stays-or_refuse (if fails then none else f s) e).at s }

  pub Stays-query : (call : Call) (q : AccountQuery) → Stays hash (query call q)
  unfolding query
  Stays-query call q = Stays-require _ _

  pub Stays-create_user : (call : Call) (user : User) → Stays hash (create_user call user)
  unfolding create_user answer refuse
  Stays-create_user call user = record { at = λ s h. ground (arith, h) }

  pub Stays-create_verification :
      (call : Call) (h : Bytes) (ticket : Ticket) → Stays hash (create_verification call h ticket)
  unfolding create_verification answer refuse
  Stays-create_verification call hash' ticket = record { at = λ s h. ground (arith, h) }

  pub Stays-create_reset :
      (call : Call) (hash' : Bytes) (ticket : Ticket)
      → hash' ≢ hash
      → Stays hash (create_reset call hash' ticket)
  unfolding create_reset answer refuse
  Stays-create_reset call hash' ticket d = record {
    at = λ s h. ground (arith, h, d, bytes_test_iff hash hash');
  }

  -- The rest of a block may use what an option was.
  pub Stays-bind-or_refuse :
      {A B : Type 0} (o : Option A) (e : AccountError) (f : A → Step Accounts AccountError B)
      → ((a : A) → o ≡ some a → Stays hash (f a))
      → Stays hash (or_refuse o e >>= f)
  unfolding or_refuse ◌>>=◌
  Stays-bind-or_refuse none e f k = record { at = λ s h. h }
  Stays-bind-or_refuse (some a) e f k = record { at = (k a refl).at }

pub ruleset stays_rules = (
  Stays-bind, Stays-answer, Stays-or_refuse, Stays-require, Stays-users, Stays-drop, Stays-use,
  Stays-find, Stays-query, Stays-create_user, Stays-create_verification,
)
