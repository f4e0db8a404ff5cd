-- ===== src/Tests/Subscriptions.antt =====
-- Requests and events of billing.
use file_cheap.Prelude.{◌≢◌, ◌≡◌, refl, true, false, none, some, [], ◌∷◌}
use file_cheap.Prelude.Int.{pos}
use file_cheap.Prelude.Key.{nat_key, string_key}
use file_cheap.Prelude.Map.{lookup, insert}
use file_cheap.Prelude.Action.{refused, ◌>>=◌, answer, or_refuse, require, modify, look}
use file_cheap.Billing.Limits.{enterprise, free, pro, without, trialing, active, canceled, is_pro}
use file_cheap.Billing.Subscriptions.{
  tier_files_limit, tier_max_file_size, Account, Book, get_user, change_user, is_customer,
  find_customer, cancel_subscription, start_user_trial,
}
use file_cheap.Billing.Subscriptions.Service.{
  BillingCall, trial_used, panicked, find_user, write, info_of, get_subscription_info, start_trial,
  is_tried, start_trial_handler,
}
use file_cheap.Billing.Subscriptions.Events.{
  is_active, is_canceled, StripeStatus, Subscription, StripeEvent, subscription_created,
  subscription_updated, subscription_deleted, checkout_completed, map_stripe_status, unix,
  period_end_of, named_user, owner_of, subscribe, renew, handle_subscription_created,
  handle_subscription_updated, handle_subscription_deleted, handle_event, WebhookRequest,
  handle_webhook,
}
use file_cheap.Billing.Subscriptions.Life.{Turn, IsFair, IsTabled, stripe, trial, serve_billing}
use file_cheap.Billing.Subscriptions.Fair.{serve_billing-IsFair}

abbrev a_call : BillingCall
a_call = record {
  fails = λ q. false;
  now = 5_000_000_000;
  files_count = 3;
  has_service = true;
  has_webhook = true;
  is_configured = true;
  new_customer = none;
  new_session = none;
  parse_uuid = λ s. none;
}

abbrev customer_account : Account
customer_account = record {
  tier = free;
  status = without;
  customer_id = some "cus_1";
  subscription_id = none;
  period_end = none;
  trial_ends_at = none;
  files_limit = pos 100;
  max_file_size = pos 10485760;
  storage_limit_bytes = pos 1073741824;
  transformations_limit = pos 100;
  is_deleted = false;
}

abbrev a_book : Book
a_book = (1, record customer_account { customer_id = none }) ∷ (2, customer_account) ∷ []

abbrev subscription_with : StripeStatus → Subscription
subscription_with status = record {
  id = "sub_1";
  status = status;
  period_ends = pos 9 ∷ [];
  trial_end = pos 0;
  user_id = none;
  customer_id = some "cus_1";
}

abbrev delivered : StripeEvent → WebhookRequest
delivered event = record { is_read = true; is_signed = true; event = some event }

abbrev paid_account : Account
paid_account = record customer_account {
  tier = pro;
  status = active;
  subscription_id = some "sub_1";
  period_end = some 9_000_000_000;
  files_limit = pos 2000;
  max_file_size = pos 104857600;
}

-- The subscription is found by the customer. The number of transformations and the storage stay
-- those of the free tier.
subscribed_by_customer :
    lookup 2 (
      serve_billing a_call
        (stripe (delivered (subscription_created (some (subscription_with is_active)))))
        a_book)
    ≡ some paid_account
unfolding serve_billing handle_webhook handle_event handle_subscription_created write owner_of
    named_user find_customer is_customer change_user get_user lookup insert subscribe
    map_stripe_status unix period_end_of ◌>>=◌ or_refuse require look modify
subscribed_by_customer = refl

customer_account-IsFair : IsFair customer_account
unfolding tier_files_limit tier_max_file_size
customer_account-IsFair = (refl, refl)

a_book-customer : lookup 2 a_book ≡ some customer_account
unfolding lookup
a_book-customer = refl

serve_billing-IsFair_example :
    (b : Account) × (lookup 2 (
        serve_billing a_call
          (stripe (delivered (subscription_created (some (subscription_with is_active)))))
          a_book)
      ≡ some b)
    × Turn a_call a_book 2 customer_account
        (stripe (delivered (subscription_created (some (subscription_with is_active)))))
        b
    × IsFair b
    × (b.tier ≢ enterprise → IsTabled b)
serve_billing-IsFair_example =
    serve_billing-IsFair a_call
      (stripe (delivered (subscription_created (some (subscription_with is_active))))) a_book 2
      customer_account a_book-customer customer_account-IsFair

-- An update to a canceled subscription leaves the tier and its limits.
canceled_keeps_pro :
    serve_billing a_call
      (stripe (delivered (subscription_updated (some (subscription_with is_canceled)))))
      ((2, paid_account) ∷ [])
    ≡ (2, record paid_account { status = canceled }) ∷ []
unfolding serve_billing handle_webhook handle_event handle_subscription_updated write owner_of
    named_user find_customer is_customer change_user get_user lookup insert renew map_stripe_status
    unix period_end_of ◌>>=◌ or_refuse require look modify
canceled_keeps_pro = refl

-- A deletion that comes before the late notice of the creation is undone by it.
created_after_deleted :
    serve_billing a_call
      (stripe (delivered (subscription_created (some (subscription_with is_active)))))
      (serve_billing a_call
        (stripe (delivered (subscription_deleted (some (subscription_with is_canceled)))))
        ((2, customer_account) ∷ []))
    ≡ (2, paid_account) ∷ []
unfolding serve_billing handle_webhook handle_event handle_subscription_created
    handle_subscription_deleted cancel_subscription write owner_of named_user find_customer
    is_customer change_user get_user lookup insert subscribe map_stripe_status unix period_end_of
    ◌>>=◌ or_refuse require look modify
created_after_deleted = refl

abbrev tried_account : Account
tried_account = record customer_account {
  tier = pro;
  status = trialing;
  trial_ends_at = some 604_805_000_000_000;
  files_limit = pos 2000;
  max_file_size = pos 104857600;
}

one_trial :
    (serve_billing a_call (trial (some 2)) ((2, customer_account) ∷ []) ≡ (2, tried_account) ∷ [])
    × ((start_trial_handler a_call
          (some 2)
          ((2, record tried_account { status = canceled; tier = free }) ∷ [])).0
        ≡ refused trial_used)
unfolding serve_billing start_trial_handler get_subscription_info find_user start_trial write
    info_of is_pro is_tried start_user_trial change_user get_user lookup insert ◌>>=◌ answer
    or_refuse require look modify
one_trial = (refl, refl)

-- A payment that is no subscription stops the handler.
checkout_without_subscription :
    (handle_webhook a_call
      (delivered
        (checkout_completed (some (record { has_customer = true; has_subscription = false }))))
      a_book).0
    ≡ refused panicked
unfolding handle_webhook handle_event ◌>>=◌ or_refuse require
checkout_without_subscription = refl
