-- ===== src/Billing/Subscriptions/Requests.antt =====
-- What the requests of a user and of an administrator make of each account
-- (internal/web/billing_handlers.go, internal/web/enterprise_handlers.go).
use file_cheap.Prelude.{
  ◌≡◌, refl, sym, ap, ◌∙◌, inl, inr, ℕ, String, Option, none, some, arith, Bool-cases, subst,
}
use file_cheap.Prelude.Key.{nat_key, string_key}
use file_cheap.Prelude.Map.{lookup}
use file_cheap.Prelude.Action.{modify, ok, ◌>>=◌, or_refuse, look, require, answer}
use file_cheap.Prelude.Action.Leads.{
  Leads, Leads-or_refuse, Leads-require, Leads->>=, Leads-reads, Leads-ask,
}
use file_cheap.Billing.Limits.{SubscriptionTier, SubscriptionInfo}
use file_cheap.Billing.Subscriptions.{
  Account, Book, get_user, change_user, update_customer, update_user_to_enterprise,
}
use file_cheap.Billing.Subscriptions.Service.{
  InquiryAction, approved, rejected, upgrade, process_inquiry_handler, enterprise_query,
  BillingCall, find_user, info_of, get_subscription_info, start_trial, start_trial_handler,
  find_or_create_customer, write, customer_query, checkout_failed, customer_of, create_checkout,
  create_portal, is_over, expire_if, check_trial_expiration, update_tier_handler,
}
use file_cheap.Billing.Subscriptions.Life.{
  inquiry, upgraded, tried, known, expired, chosen, trial, checkout, portal, expiration, new_tier,
}
use file_cheap.Billing.Subscriptions.Turns.{
  Leads-find_user, Leads-write, Ends, Ends-same, Ends-update, Ends-write,
}

info_same :
    (call : BillingCall) (user : ℕ) (book : Book) → (get_subscription_info call user book).1 ≡ book
unfolding get_subscription_info find_user look ◌>>=◌ or_refuse require answer
info_same call user book = ground arith

-- The information is that of the user's row.
info_found :
    (call : BillingCall) (user : ℕ) (book : Book) {info : SubscriptionInfo} {a : Account}
    → (get_subscription_info call user book).0 ≡ ok info
    → lookup user book ≡ some a
    → info ≡ info_of call.files_count a
unfolding get_subscription_info find_user look ◌>>=◌ or_refuse require answer get_user
info_found call user book h found = ground arith

update_customer-eq :
    (customer : String) (id : ℕ) (book book' : Book)
    → update_customer customer id book ≡ some book'
    → change_user (λ account. record account { customer_id = some customer }) id book ≡ some book'
unfolding update_customer
update_customer-eq customer id book book' h = ground arith

module _ (call : BillingCall) {book : Book} {j : ℕ} {a : Account}
    (start : lookup j book ≡ some a) where
  pub start_trial_handler-Ends :
      (user : Option ℕ)
      → Leads (Ends call book j a (trial user)) book (start_trial_handler call user)
  unfolding start_trial_handler start_trial info_of
  start_trial_handler-Ends user =
      let P : Book → Type 0 = Ends call book j a (trial user) in
      let same : P book = Ends-same start in
      Leads-or_refuse P user _ _ same (λ u named. Leads-require P _ _ _ same (λ served.
        Leads-reads P (get_subscription_info call u) _ same (info_same call u book) (λ info got.
          Leads-require P _ _ _ same (λ not_pro. Leads-require P _ _ _ same (λ not_tried.
            Ends-write start _ _ u _ (λ u_j.
              let row : info ≡ info_of call.files_count a =
                info_found call u book got (subst (λ k. lookup k book ≡ some a) (sym u_j) start) in
              tried (ap trial (named ∙ ap some u_j)) (ground arith) (ground arith) refl))))))

  pub update_tier_handler-Ends :
      (id : Option ℕ) (form : Option SubscriptionTier)
      → Leads (Ends call book j a (new_tier id form)) book (update_tier_handler call id form)
  unfolding update_tier_handler
  update_tier_handler-Ends id form =
      let P : Book → Type 0 = Ends call book j a (new_tier id form) in
      let same : P book = Ends-same start in
      Leads-or_refuse P id _ _ same (λ i named. Leads-or_refuse P form _ _ same (λ tier given.
        Ends-write start _ _ i _ (λ i_j.
          chosen tier
            (ap (λ k. new_tier k form) (named ∙ ap some i_j) ∙ ap (new_tier (some j)) given) refl)))

  pub create_portal-Ends :
      (user : Option ℕ) → Leads (Ends call book j a (portal user)) book (create_portal call user)
  unfolding create_portal
  create_portal-Ends user =
      let P : Book → Type 0 = Ends call book j a (portal user) in
      let same : P book = Ends-same start in
      Leads-or_refuse P user _ _ same (λ u named. Leads-require P _ _ _ same (λ served.
        Leads-require P _ _ _ same (λ configured.
          Leads-find_user P same call _ u _ _ (λ account found.
            Leads-or_refuse P (customer_of account) _ _ same
              (λ customer known. Leads-ask P call.new_session _ same)))))

  pub check_trial_expiration-Ends :
      (user : ℕ)
      → Leads (Ends call book j a (expiration user)) book (check_trial_expiration call user)
  unfolding check_trial_expiration expire_if answer
  check_trial_expiration-Ends user =
      let P : Book → Type 0 = Ends call book j a (expiration user) in
      let same : P book = Ends-same start in
      Leads-find_user P same call _ user _ _ (λ account found.
        elim (Bool-cases (is_over call.now account)) [
          | inl over ↦ rw over (
              Ends-write start _ _ user _
                (λ same_id. expired (ap expiration same_id) (ground arith) refl))
          | inr not_over ↦ rw not_over same
        ])

  find_or_create_customer-Ends :
      (user : Option ℕ) (u : ℕ) (account : Account) (customer : Option String)
      → user ≡ some u
      → lookup u book ≡ some account
      → customer_of account ≡ customer
      → Leads (Ends call book j a (checkout user)) book (find_or_create_customer call u customer)
  unfolding find_or_create_customer answer
  find_or_create_customer-Ends user u account (some c) named found h = Ends-same start
  find_or_create_customer-Ends user u account none named found h =
      let P : Book → Type 0 = Ends call book j a (checkout user) in
      let same : P book = Ends-same start in
      Leads-or_refuse P call.new_customer _ _ same (λ c made.
        let recorded : Leads P book
            (write call customer_query (update_customer c u) checkout_failed) =
          Leads-write P same call _ _ _ (λ book' written.
            Ends-update start _ u book' (update_customer-eq c u book book' written)
              (λ u_j. known c (ap checkout (named ∙ ap some u_j)) (ground arith) refl)) in
        Leads->>= P (write call customer_query (update_customer c u) checkout_failed) _ recorded
          (λ done. recorded))

  pub create_checkout-Ends :
      (user : Option ℕ)
      → Leads (Ends call book j a (checkout user)) book (create_checkout call user)
  unfolding create_checkout
  create_checkout-Ends user =
      let P : Book → Type 0 = Ends call book j a (checkout user) in
      let same : P book = Ends-same start in
      Leads-or_refuse P user _ _ same (λ u named. Leads-require P _ _ _ same (λ served.
        Leads-require P _ _ _ same (λ configured.
          Leads-find_user P same call _ u _ _ (λ account found.
            let ends : Leads P book (find_or_create_customer call u (customer_of account)) =
              find_or_create_customer-Ends user u account (customer_of account) named found refl in
            Leads->>= P (find_or_create_customer call u (customer_of account)) _ ends
              (λ c. Leads-ask P call.new_session _ ends)))))

  upgraded-Ends :
      (user : ℕ) (o : Option Book)
      → o ≡ change_user update_user_to_enterprise user book
      → Ends call book j a
          (inquiry (some approved) (some user))
          (elim o [ none ↦ book | some book' ↦ book' ])
  upgraded-Ends user none h = Ends-same start
  upgraded-Ends user (some book') h =
      Ends-update start update_user_to_enterprise user book' (sym h)
        (λ same. upgraded (ap (λ u. inquiry (some approved) (some u)) same) refl)

  upgrade-Ends :
      (action : InquiryAction) (user : ℕ)
      → Leads
          (Ends call book j a (inquiry (some action) (some user)))
          book
          (upgrade call action user)
  unfolding upgrade answer modify
  upgrade-Ends rejected user = Ends-same start
  upgrade-Ends approved user = elim (Bool-cases (call.fails enterprise_query)) [
    | inl fails ↦ rw fails (Ends-same start)
    | inr works ↦ rw works (upgraded-Ends user _ refl)
  ]

  pub process_inquiry_handler-Ends :
      (form : Option InquiryAction) (user : Option ℕ)
      → Leads (Ends call book j a (inquiry form user)) book (process_inquiry_handler call form user)
  unfolding process_inquiry_handler or_refuse ◌>>=◌
  process_inquiry_handler-Ends none user = Ends-same start
  process_inquiry_handler-Ends (some action) none = Ends-same start
  process_inquiry_handler-Ends (some action) (some user) = upgrade-Ends action user
