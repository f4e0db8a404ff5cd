-- ===== src/Billing/Subscriptions/Life.antt =====
-- What may become of an account (internal/billing/service.go, internal/billing/webhook.go).
use file_cheap.Prelude.{
  ◌≡◌, ◌≢◌, refl, sym, subst, ◌∙◌, ℕ, ◌+◌, String, true, false, Option, none, some,
}
use file_cheap.Billing.Limits.{SubscriptionTier, free, pro, enterprise, get_tier_limits, is_pro}
use file_cheap.Billing.Subscriptions.{
  Account, Book, cancel_subscription, start_user_trial, update_user_tier, update_user_to_enterprise,
  tier_files_limit, tier_max_file_size,
}
use file_cheap.Billing.Subscriptions.Service.{
  BillingCall, info_of, trial_duration, is_tried, customer_of, is_over, start_trial_handler,
  create_checkout, create_portal, check_trial_expiration, update_tier_handler, InquiryAction,
  approved, process_inquiry_handler,
}
use file_cheap.Billing.Subscriptions.Events.{
  subscription_created, subscription_updated, subscription_deleted, WebhookRequest, Subscription,
  owner_of, subscribe, renew, handle_webhook,
}

-- A request of a user, of an administrator or of Stripe, or the test of a trial.
pub data BillingEvent : Type 0 where
  trial checkout portal : Option ℕ → BillingEvent
  expiration : ℕ → BillingEvent
  new_tier : Option ℕ → Option SubscriptionTier → BillingEvent
  inquiry : Option InquiryAction → Option ℕ → BillingEvent
  stripe : WebhookRequest → BillingEvent

-- The accounts after it.
unfoldable pub serve_billing : BillingCall → BillingEvent → Book → Book
serve_billing call (trial user) book = (start_trial_handler call user book).1
serve_billing call (checkout user) book = (create_checkout call user book).1
serve_billing call (portal user) book = (create_portal call user book).1
serve_billing call (expiration user) book = (check_trial_expiration call user book).1
serve_billing call (new_tier id form) book = (update_tier_handler call id form book).1
serve_billing call (inquiry form user) book = (process_inquiry_handler call form user book).1
serve_billing call (stripe req) book = (handle_webhook call req book).1

-- What an event may make of the account of `j`: nothing, if it is not for `j`.
pub data Turn (call : BillingCall) (book : Book) (j : ℕ) (a : Account) (e : BillingEvent)
    (b : Account) : Type 0 where
  stays : b ≡ a → Turn call book j a e b
  tried :
      e ≡ trial (some j)
      → is_pro call.now (info_of call.files_count a) ≡ false
      → is_tried a.status ≡ false
      → b ≡ start_user_trial (call.now + trial_duration) a
      → Turn call book j a e b
  known :
      (customer : String)
      → e ≡ checkout (some j)
      → customer_of a ≡ none
      → b ≡ record a { customer_id = some customer }
      → Turn call book j a e b
  expired :
      e ≡ expiration j
      → is_over call.now a ≡ true
      → b ≡ cancel_subscription a
      → Turn call book j a e b
  chosen :
      (tier : SubscriptionTier)
      → e ≡ new_tier (some j) (some tier)
      → b ≡ update_user_tier tier a
      → Turn call book j a e b
  upgraded :
      e ≡ inquiry (some approved) (some j)
      → b ≡ update_user_to_enterprise a
      → Turn call book j a e b
  created :
      (req : WebhookRequest) (sub : Subscription)
      → e ≡ stripe req
      → req.is_signed ≡ true
      → req.event ≡ some (subscription_created (some sub))
      → owner_of call sub book ≡ some j
      → b ≡ subscribe sub a
      → Turn call book j a e b
  updated :
      (req : WebhookRequest) (sub : Subscription)
      → e ≡ stripe req
      → req.is_signed ≡ true
      → req.event ≡ some (subscription_updated (some sub))
      → owner_of call sub book ≡ some j
      → b ≡ renew sub a
      → Turn call book j a e b
  deleted :
      (req : WebhookRequest) (sub : Subscription)
      → e ≡ stripe req
      → req.is_signed ≡ true
      → req.event ≡ some (subscription_deleted (some sub))
      → owner_of call sub book ≡ some j
      → b ≡ cancel_subscription a
      → Turn call book j a e b

-- An account has the limits on files that are written for its tier.
abbrev pub IsFair : Account → Type 0
IsFair a = (a.files_limit ≡ tier_files_limit a.tier) × (a.max_file_size ≡ tier_max_file_size a.tier)

-- The limits on files of the program's table.
abbrev pub IsTabled : Account → Type 0
IsTabled a =
    (a.files_limit ≡ (get_tier_limits a.tier).files_limit)
    × (a.max_file_size ≡ (get_tier_limits a.tier).max_file_size)

tabled :
    (tier : SubscriptionTier)
    → tier ≢ enterprise
    → (tier_files_limit tier ≡ (get_tier_limits tier).files_limit)
      × (tier_max_file_size tier ≡ (get_tier_limits tier).max_file_size)
unfolding tier_files_limit tier_max_file_size get_tier_limits
tabled free h = (refl, refl)
tabled pro h = (refl, refl)
tabled enterprise h = absurd (h refl)

pub IsFair-IsTabled : (a : Account) → IsFair a → a.tier ≢ enterprise → IsTabled a
IsFair-IsTabled a (files, size) h =
    let (files', size') = tabled a.tier h in (files ∙ files', size ∙ size')

update_user_tier-IsFair : (tier : SubscriptionTier) (a : Account) → IsFair (update_user_tier tier a)
unfolding update_user_tier
update_user_tier-IsFair tier a = (refl, refl)

update_user_to_enterprise-IsFair : (a : Account) → IsFair (update_user_to_enterprise a)
unfolding update_user_to_enterprise tier_files_limit tier_max_file_size
update_user_to_enterprise-IsFair a = (refl, refl)

start_user_trial-IsFair : (ends : ℕ) (a : Account) → IsFair (start_user_trial ends a)
unfolding start_user_trial tier_files_limit tier_max_file_size
start_user_trial-IsFair ends a = (refl, refl)

cancel_subscription-IsFair : (a : Account) → IsFair (cancel_subscription a)
unfolding cancel_subscription tier_files_limit tier_max_file_size
cancel_subscription-IsFair a = (refl, refl)

subscribe-IsFair : (sub : Subscription) (a : Account) → IsFair (subscribe sub a)
unfolding subscribe tier_files_limit tier_max_file_size
subscribe-IsFair sub a = (refl, refl)

renew-IsFair : (sub : Subscription) (a : Account) → IsFair a → IsFair (renew sub a)
unfolding renew
renew-IsFair sub a h = h

by : {a b : Account} → b ≡ a → IsFair a → IsFair b
by h = subst IsFair (sym h)

pub Turn-IsFair :
    {call : BillingCall} {book : Book} {j : ℕ} {a b : Account} {e : BillingEvent}
    → Turn call book j a e b
    → IsFair a
    → IsFair b
Turn-IsFair {a} (stays h) fair = by h fair
Turn-IsFair {a} (tried _ _ _ h) fair = by h (start_user_trial-IsFair _ a)
Turn-IsFair {a} (known customer _ _ h) fair = by h fair
Turn-IsFair {a} (expired _ _ h) fair = by h (cancel_subscription-IsFair a)
Turn-IsFair {a} (chosen tier _ h) fair = by h (update_user_tier-IsFair tier a)
Turn-IsFair {a} (upgraded _ h) fair = by h (update_user_to_enterprise-IsFair a)
Turn-IsFair {a} (created _ sub _ _ _ _ h) fair = by h (subscribe-IsFair sub a)
Turn-IsFair {a} (updated _ sub _ _ _ _ h) fair = by h (renew-IsFair sub a fair)
Turn-IsFair {a} (deleted _ sub _ _ _ _ h) fair = by h (cancel_subscription-IsFair a)
