-- ===== src/Billing/Subscriptions/Turns.antt =====
-- Every handler turns each account as its event allows (internal/billing/service.go,
-- internal/billing/webhook.go, internal/web/billing_handlers.go).
use file_cheap.Prelude.{
  ◌≡◌, refl, ap, ◌∙◌, inl, inr, ℕ, Option, some, arith, if◌then◌else◌, Bool-cases, Option-cases,
}
use file_cheap.Prelude.Key.{◌==◌, nat_key}
use file_cheap.Prelude.Map.{lookup, insert, lookup-insert}
use file_cheap.Prelude.Action.{ok, ◌>>=◌, or_refuse, look, modify}
use file_cheap.Prelude.Action.Leads.{Leads, Leads-reads}
use file_cheap.Billing.Subscriptions.{Account, Book, get_user, change_user}
use file_cheap.Billing.Subscriptions.Service.{
  BillingError, BillingQuery, BillingCall, BillingStep, find_user, write,
}
use file_cheap.Billing.Subscriptions.Life.{BillingEvent, Turn, stays}

get_user-eq :
    (id : ℕ) (book : Book) {a : Account} → get_user id book ≡ some a → lookup id book ≡ some a
unfolding get_user
get_user-eq id book h = ground arith

-- What an update did.
change_user-eq :
    (set : Account → Account) (id : ℕ) (book book' : Book)
    → change_user set id book ≡ some book'
    → (x : Account) × (lookup id book ≡ some x) × (book' ≡ insert id (set x) book)
unfolding change_user
change_user-eq set id book book' h = elim (Option-cases (get_user id book)) [
  | inl missing ↦ absurd (ground arith)
  | inr (x, found) ↦ (x, get_user-eq id book found, ground arith)
]

find_user_same :
    (call : BillingCall) (query : BillingQuery) (id : ℕ) (e : BillingError) (book : Book)
    → (find_user call query id e book).1 ≡ book
unfolding find_user look ◌>>=◌ or_refuse
find_user_same call query id e book = ground arith

find_user-eq-ok :
    (call : BillingCall) (query : BillingQuery) (id : ℕ) (e : BillingError) (book : Book)
    {a : Account}
    → (find_user call query id e book).0 ≡ ok a
    → get_user id book ≡ some a
unfolding find_user look ◌>>=◌ or_refuse
find_user-eq-ok call query id e book h = ground arith

module _ (P : Book → Type 0) {book : Book} (start : P book) (call : BillingCall)
    (query : BillingQuery) where
  pub Leads-find_user :
      {B : Type 0} (id : ℕ) (e : BillingError) (f : Account → BillingStep B)
      → ((a : Account) → lookup id book ≡ some a → Leads P book (f a))
      → Leads P book (find_user call query id e >>= f)
  Leads-find_user id e f k =
      Leads-reads P (find_user call query id e) f start (find_user_same call query id e book)
        (λ a h. k a (get_user-eq id book (find_user-eq-ok call query id e book h)))

  pub Leads-write :
      (change : Book → Option Book) (e : BillingError)
      → ((book' : Book) → change book ≡ some book' → P book')
      → Leads P book (write call query change e)
  unfolding write look ◌>>=◌ or_refuse modify
  Leads-write change e k = elim (Bool-cases (call.fails query)) [
    | inl fails ↦ rw fails start
    | inr works ↦ rw works elim (Option-cases (change book)) [
      | inl refused ↦ rw refused start
      | inr (book', h) ↦ rw h (k book' h)
    ]
  ]

-- Where an account ends.
module _ (call : BillingCall) (book : Book) (j : ℕ) (a : Account) (e : BillingEvent) where
  abbrev pub Ends : Book → Type 0
  Ends book' = (b : Account) × (lookup j book' ≡ some b) × Turn call book j a e b

module _ {call : BillingCall} {book : Book} {j : ℕ} {a : Account} {e : BillingEvent}
    (start : lookup j book ≡ some a) where
  pub Ends-same : Ends call book j a e book
  Ends-same = (a, start, stays refl)

  pub Ends-update :
      (set : Account → Account) (id : ℕ) (book' : Book)
      → change_user set id book ≡ some book'
      → (id ≡ j → Turn call book j a e (set a))
      → Ends call book j a e book'
  Ends-update set id book' h turn =
      let (x, found, same) = change_user-eq set id book book' h in
      let after : lookup j book' ≡ (if id == j then some (set x) else lookup j book) =
        ap (lookup j) same ∙ lookup-insert id j (set x) book in
      elim (Bool-cases (id == j)) [
        | inl equal ↦
            let same_id : id ≡ j = (nat_key.test_iff id j).0 equal in
            let held : x ≡ a = ground arith in (set a, ground arith, turn same_id)
        | inr other ↦ (a, ground arith, stays refl)
      ]

  pub Ends-write :
      (query : BillingQuery) (set : Account → Account) (id : ℕ) (err : BillingError)
      → (id ≡ j → Turn call book j a e (set a))
      → Leads (Ends call book j a e) book (write call query (change_user set id) err)
  Ends-write query set id err turn =
      Leads-write (Ends call book j a e) Ends-same call query (change_user set id) err
        (λ book' h. Ends-update set id book' h turn)
