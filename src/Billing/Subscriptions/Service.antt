-- ===== src/Billing/Subscriptions/Service.antt =====
-- internal/billing/service.go on the side of the user, with the handlers of
-- internal/web/billing_handlers.go that call it, and the tier set by an administrator
-- (internal/web/enterprise_handlers.go). What Stripe answers is part of a call.
use file_cheap.Prelude.{
  ℕ, ◌+◌, ◌*◌, String, Bool, true, false, not, Option, none, some, ltb, if◌then◌else◌,
}
use file_cheap.Prelude.Int.{pos}
use file_cheap.Prelude.Key.{◌==◌, string_key}
use file_cheap.Prelude.Action.{Step, ◌>>=◌, ◌>>◌, answer, or_refuse, require, modify, look}
use file_cheap.Billing.Limits.{
  SubscriptionTier, SubscriptionStatus, trialing, canceled, SubscriptionInfo, is_pro,
}
use file_cheap.Billing.Subscriptions.{
  Account, Book, get_user, change_user, update_customer, cancel_subscription, start_user_trial,
  update_user_tier, update_user_to_enterprise,
}

pub data BillingError : Type 0 where
  to_login not_configured internal already_pro trial_used trial_failed : BillingError
  checkout_failed portal_failed invalid_form : BillingError
  not_found unavailable bad_request event_failed panicked : BillingError

pub data BillingQuery : Type 0 where
  info_query files_query trial_query user_query customer_query cancel_query tier_query
        enterprise_query :
      BillingQuery
  by_customer_query subscription_query status_query : BillingQuery

-- What a call meets: the queries that fail, the time in nanoseconds, the count of the user's files,
-- whether the service, the webhook and Stripe's client are there, the customer and the session that
-- Stripe creates, if it does, and `uuid.Parse`.
pub record BillingCall : Type 0 where
  pub fails : BillingQuery → Bool
  pub now : ℕ
  pub files_count : ℕ
  pub has_service : Bool
  pub has_webhook : Bool
  pub is_configured : Bool
  pub new_customer : Option String
  pub new_session : Option String
  pub parse_uuid : String → Option ℕ

abbrev pub BillingStep : Type 0 → Type 0
BillingStep A = Step Book BillingError A

unfoldable pub find_user : BillingCall → BillingQuery → ℕ → BillingError → BillingStep Account
find_user call query id e = do
  found ← look (λ book. if call.fails query then none else get_user id book)
  or_refuse found e

-- A query that writes, and fails without a row.
unfoldable pub write :
    BillingCall → BillingQuery → (Book → Option Book) → BillingError → BillingStep (Unit {0})
write call query change e = do
  written ← look (λ book. if call.fails query then none else change book)
  book ← or_refuse written e
  modify (λ old. book)

-- The `SubscriptionInfo` of a row: its storage and its transformations stay zero.
unfoldable pub info_of : ℕ → Account → SubscriptionInfo
info_of files_count account = record {
  tier = account.tier;
  status = account.status;
  period_end = account.period_end;
  files_limit = account.files_limit;
  max_file_size = account.max_file_size;
  files_used = pos files_count;
  storage_limit_bytes = pos 0;
  storage_used_bytes = pos 0;
  transformations_limit = pos 0;
  transformations_used = pos 0;
}

-- `GetSubscriptionInfo`.
unfoldable pub get_subscription_info : BillingCall → ℕ → BillingStep SubscriptionInfo
get_subscription_info call user = do
  account ← find_user call info_query user internal
  require (not (call.fails files_query)) internal
  answer (info_of call.files_count account)

abbrev pub trial_duration : ℕ
trial_duration = 7 * 24 * 60 * 60 * 1_000_000_000

-- `Service.StartTrial`.
unfoldable pub start_trial : BillingCall → ℕ → BillingStep (Unit {0})
start_trial call user =
    write call trial_query (change_user (start_user_trial (call.now + trial_duration)) user)
      trial_failed

unfoldable pub is_tried : SubscriptionStatus → Bool
is_tried status = elim status [ trialing ↦ true | canceled ↦ true | _ ↦ false ]

-- `BillingHandlers.StartTrial`.
unfoldable pub start_trial_handler : BillingCall → Option ℕ → BillingStep (Unit {0})
start_trial_handler call user = do
  user ← or_refuse user to_login
  require call.has_service not_configured
  info ← get_subscription_info call user
  require (not (is_pro call.now info)) already_pro
  require (not (is_tried info.status)) trial_used
  start_trial call user

-- The customer that a row has already.
unfoldable pub customer_of : Account → Option String
customer_of account = elim account.customer_id [
  | none ↦ none
  | some c ↦ if c == "" then none else some c
]

unfoldable pub find_or_create_customer : BillingCall → ℕ → Option String → BillingStep String
find_or_create_customer call user (some customer) = answer customer
find_or_create_customer call user none = do
  customer ← or_refuse call.new_customer checkout_failed
  write call customer_query (update_customer customer user) checkout_failed
  answer customer

-- `CreateCheckout` with `CreateCheckoutSession`.
unfoldable pub create_checkout : BillingCall → Option ℕ → BillingStep String
create_checkout call user = do
  user ← or_refuse user to_login
  require call.has_service not_configured
  require call.is_configured not_configured
  account ← find_user call user_query user checkout_failed
  customer ← find_or_create_customer call user (customer_of account)
  or_refuse call.new_session checkout_failed

-- `CreatePortal` with `CreatePortalSession`.
unfoldable pub create_portal : BillingCall → Option ℕ → BillingStep String
create_portal call user = do
  user ← or_refuse user to_login
  require call.has_service not_configured
  require call.is_configured not_configured
  account ← find_user call user_query user portal_failed
  customer ← or_refuse (customer_of account) portal_failed
  or_refuse call.new_session portal_failed

unfoldable pub is_over : ℕ → Account → Bool
is_over now account = elim account.status [
  | trialing ↦ elim account.trial_ends_at [ none ↦ false | some ends ↦ ltb ends now ]
  | _ ↦ false
]

unfoldable pub expire_if : BillingCall → ℕ → Bool → BillingStep (Unit {0})
expire_if call user true = write call cancel_query (change_user cancel_subscription user) internal
expire_if call user false = answer tt

-- `CheckTrialExpiration`.
unfoldable pub check_trial_expiration : BillingCall → ℕ → BillingStep (Unit {0})
check_trial_expiration call user = do
  account ← find_user call info_query user internal
  expire_if call user (is_over call.now account)

-- `AdminHandlers.UpdateUserTier`, after the test for an administrator.
unfoldable pub update_tier_handler :
    BillingCall → Option ℕ → Option SubscriptionTier → BillingStep (Unit {0})
update_tier_handler call id_value form = do
  id ← or_refuse id_value invalid_form
  tier ← or_refuse form invalid_form
  write call tier_query (change_user (update_user_tier tier) id) internal

pub data InquiryAction : Type 0 where
  approved rejected : InquiryAction

-- An approval, whose error is logged.
unfoldable pub upgrade : BillingCall → InquiryAction → ℕ → BillingStep (Unit {0})
upgrade call rejected user = answer tt
upgrade call approved user = modify (λ book.
    elim (if call.fails enterprise_query
      then none
      else change_user update_user_to_enterprise user book) [ none ↦ book | some book' ↦ book' ])

-- `AdminHandlers.ProcessInquiry`, after the test for an administrator: the action of its form, and
-- the user of the inquiry whose row was updated. The rows of inquiries are read by nothing else here.
unfoldable pub process_inquiry_handler :
    BillingCall → Option InquiryAction → Option ℕ → BillingStep (Unit {0})
process_inquiry_handler call form inquiry = do
  action ← or_refuse form invalid_form
  user ← or_refuse inquiry internal
  upgrade call action user
