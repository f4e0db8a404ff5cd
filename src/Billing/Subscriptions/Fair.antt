-- ===== src/Billing/Subscriptions/Fair.antt =====
-- Accounts keep to their life and to the limits of their tier (internal/billing/service.go,
-- internal/billing/webhook.go, internal/web/billing_handlers.go).
use file_cheap.Prelude.{◌≡◌, ◌≢◌, ℕ, some}
use file_cheap.Prelude.Key.{nat_key}
use file_cheap.Prelude.Map.{lookup}
use file_cheap.Billing.Limits.{enterprise}
use file_cheap.Billing.Subscriptions.{Account, Book}
use file_cheap.Billing.Subscriptions.Service.{BillingCall}
use file_cheap.Billing.Subscriptions.Life.{
  BillingEvent, trial, checkout, portal, expiration, new_tier, inquiry, stripe, serve_billing, Turn,
  IsFair, Turn-IsFair, IsTabled, IsFair-IsTabled,
}
use file_cheap.Billing.Subscriptions.Turns.{Ends}
use file_cheap.Billing.Subscriptions.Requests.{
  start_trial_handler-Ends, create_checkout-Ends, create_portal-Ends, check_trial_expiration-Ends,
  update_tier_handler-Ends, process_inquiry_handler-Ends,
}
use file_cheap.Billing.Subscriptions.Notices.{handle_webhook-Ends}

serve_billing-Ends :
    (call : BillingCall) (event : BillingEvent) (book : Book) (j : ℕ) {a : Account}
    → lookup j book ≡ some a
    → Ends call book j a event (serve_billing call event book)
unfolding serve_billing
serve_billing-Ends call (trial user) book j start = start_trial_handler-Ends call start user
serve_billing-Ends call (checkout user) book j start = create_checkout-Ends call start user
serve_billing-Ends call (portal user) book j start = create_portal-Ends call start user
serve_billing-Ends call (expiration user) book j start = check_trial_expiration-Ends call start user
serve_billing-Ends call (new_tier id form) book j start =
    update_tier_handler-Ends call start id form
serve_billing-Ends call (inquiry form user) book j start =
    process_inquiry_handler-Ends call start form user
serve_billing-Ends call (stripe req) book j start = handle_webhook-Ends call start req

-- Every request or event of the model turns an account as is allowed: a trial starts for its own user
-- only, who is on no paid tier in force and whose status is neither trialing nor canceled; an event of
-- Stripe needs a signature and has the account's user as its owner; nothing else changes it but the end
-- of its trial, a customer's id that was missing, a tier that an administrator sets, and an approved
-- inquiry of its user. An account that has the limits on files which the queries write for its tier has
-- them after it, whatever queries fail; below the tier enterprise they are those of GetTierLimits.
pub serve_billing-IsFair :
    (call : BillingCall) (event : BillingEvent) (book : Book) (j : ℕ) (a : Account)
    → lookup j book ≡ some a
    → IsFair a
    → (b : Account) × (lookup j (serve_billing call event book) ≡ some b)
      × Turn call book j a event b
      × IsFair b
      × (b.tier ≢ enterprise → IsTabled b)
serve_billing-IsFair call event book j a start fair =
    let (b, after, turn) = serve_billing-Ends call event book j start in
    let fair_after : IsFair b = Turn-IsFair turn fair in
    (b, after, turn, fair_after, IsFair-IsTabled b fair_after)
