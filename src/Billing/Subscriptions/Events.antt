-- ===== src/Billing/Subscriptions/Events.antt =====
-- The events of Stripe: internal/billing/webhook.go and the part of internal/billing/service.go
-- that it calls. That a payload is JSON of its type is part of an event; its signature is checked
-- by Stripe's library.
use file_cheap.Prelude.{
  ℕ, zero, suc, ◌*◌, String, Bool, ◌&&◌, Option, none, some, List, [], ◌∷◌, if◌then◌else◌,
}
use file_cheap.Prelude.Int.{ℤ, pos, negsuc}
use file_cheap.Prelude.Key.{◌==◌, string_key}
use file_cheap.Prelude.Action.{◌>>=◌, ◌>>◌, answer, or_refuse, require, look}
use file_cheap.Billing.Limits.{
  pro, SubscriptionStatus, without, trialing, active, past_due, canceled, unpaid,
}
use file_cheap.Billing.Subscriptions.{
  Account, Book, change_user, find_customer, cancel_subscription,
}
use file_cheap.Billing.Subscriptions.Service.{
  not_found, unavailable, bad_request, event_failed, panicked, by_customer_query,
  subscription_query, status_query, cancel_query, BillingCall, BillingStep, write,
}

-- `stripe.SubscriptionStatus`; the incomplete and the paused are `unmapped`.
pub data StripeStatus : Type 0 where
  is_trialing is_active is_past_due is_canceled is_unpaid unmapped : StripeStatus

-- The fields of `stripe.Subscription` that are read: the ends of the items' periods, and the user
-- of the metadata.
pub record Subscription : Type 0 where
  pub id : String
  pub status : StripeStatus
  pub period_ends : List ℤ
  pub trial_end : ℤ
  pub user_id : Option String
  pub customer_id : Option String

-- The pointers that a log line follows.
pub record CheckoutSession : Type 0 where
  pub has_customer : Bool
  pub has_subscription : Bool

pub data StripeEvent : Type 0 where
  checkout_completed : Option CheckoutSession → StripeEvent
  subscription_created subscription_updated subscription_deleted : Option Subscription → StripeEvent
  payment_failed payment_succeeded : Option Bool → StripeEvent
  unhandled : StripeEvent

unfoldable pub map_stripe_status : StripeStatus → SubscriptionStatus
map_stripe_status is_trialing = trialing
map_stripe_status is_active = active
map_stripe_status is_past_due = past_due
map_stripe_status is_canceled = canceled
map_stripe_status is_unpaid = unpaid
map_stripe_status unmapped = without

-- `time.Unix(t, 0)` of a positive number.
unfoldable pub unix : ℤ → Option ℕ
unix (pos zero) = none
unix (pos (suc n)) = some (suc n * 1_000_000_000)
unix (negsuc n) = none

unfoldable pub period_end_of : Subscription → Option ℕ
period_end_of sub = elim sub.period_ends [ [] ↦ none | t ∷ more ↦ unix t ]

-- The user of the metadata, if it is not empty.
unfoldable pub named_user : Subscription → Option String
named_user sub = elim sub.user_id [
  | none ↦ none
  | some name ↦ if name == "" then none else some name
]

-- `getUserIDFromSubscription`.
unfoldable pub owner_of : BillingCall → Subscription → Book → Option ℕ
owner_of call sub book = elim (named_user sub) [
  | some name ↦ call.parse_uuid name
  | none ↦ elim sub.customer_id [
    | none ↦ none
    | some customer ↦ if call.fails by_customer_query then none else find_customer customer book
  ]
]

-- `UpdateUserSubscription` with the arguments of `HandleSubscriptionCreated`.
unfoldable pub subscribe : Subscription → Account → Account
subscribe sub account = record account {
  subscription_id = some sub.id;
  status = map_stripe_status sub.status;
  tier = pro;
  period_end = period_end_of sub;
  trial_ends_at = unix sub.trial_end;
  files_limit = pos 2000;
  max_file_size = pos (100 * 1024 * 1024);
}

-- `UpdateUserSubscriptionStatus` with the arguments of `HandleSubscriptionUpdated`.
unfoldable pub renew : Subscription → Account → Account
renew sub account = record account {
  status = map_stripe_status sub.status;
  period_end = period_end_of sub;
}

unfoldable pub handle_subscription_created : BillingCall → Subscription → BillingStep (Unit {0})
handle_subscription_created call sub = do
  owner ← look (owner_of call sub)
  user ← or_refuse owner event_failed
  write call subscription_query (change_user (subscribe sub) user) event_failed

unfoldable pub handle_subscription_updated : BillingCall → Subscription → BillingStep (Unit {0})
handle_subscription_updated call sub = do
  owner ← look (owner_of call sub)
  user ← or_refuse owner event_failed
  write call status_query (change_user (renew sub) user) event_failed

unfoldable pub handle_subscription_deleted : BillingCall → Subscription → BillingStep (Unit {0})
handle_subscription_deleted call sub = do
  owner ← look (owner_of call sub)
  user ← or_refuse owner event_failed
  write call cancel_query (change_user cancel_subscription user) event_failed

-- `handleEvent` with the handlers of webhook.go.
unfoldable pub handle_event : BillingCall → StripeEvent → BillingStep (Unit {0})
handle_event call (checkout_completed object) = do
  session ← or_refuse object event_failed
  require (session.has_customer && session.has_subscription) panicked
handle_event call (subscription_created object) = do
  sub ← or_refuse object event_failed
  handle_subscription_created call sub
handle_event call (subscription_updated object) = do
  sub ← or_refuse object event_failed
  handle_subscription_updated call sub
handle_event call (subscription_deleted object) = do
  sub ← or_refuse object event_failed
  handle_subscription_deleted call sub
handle_event call (payment_failed object) = do
  has_customer ← or_refuse object event_failed
  require has_customer panicked
handle_event call (payment_succeeded object) = do
  has_customer ← or_refuse object event_failed
  require has_customer panicked
handle_event call unhandled = answer tt

-- A request to the webhook: whether its body is read, whether it has a signature, and what
-- `webhook.ConstructEvent` makes of the two.
pub record WebhookRequest : Type 0 where
  pub is_read : Bool
  pub is_signed : Bool
  pub event : Option StripeEvent

-- `BillingHandlers.Webhook` with `HandleWebhook`.
unfoldable pub handle_webhook : BillingCall → WebhookRequest → BillingStep (Unit {0})
handle_webhook call req = do
  require call.has_webhook not_found
  require req.is_read unavailable
  require req.is_signed bad_request
  event ← or_refuse req.event bad_request
  handle_event call event
