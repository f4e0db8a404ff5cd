-- ===== src/Billing/Subscriptions.antt =====
-- Subscriptions: the billing columns of `users` (sql/schema.sql) and the queries on them
-- (sql/queries/users.sql), for internal/billing/service.go.
pub mod Service
pub mod Events
pub mod Life
pub mod Turns
pub mod Requests
pub mod Notices
pub mod Fair
use file_cheap.Prelude.{
  ℕ, ◌*◌, String, Bool, true, false, not, ◌&&◌, ◌||◌, Option, none, some, [], ◌∷◌, if◌then◌else◌,
}
use file_cheap.Prelude.Int.{ℤ, pos, negsuc}
use file_cheap.Prelude.Key.{◌==◌, nat_key, string_key}
use file_cheap.Prelude.Map.{Map, lookup, insert}
use file_cheap.Billing.Limits.{
  SubscriptionTier, free, pro, enterprise, SubscriptionStatus, without, trialing, active, canceled,
}

pub record Account : Type 0 where
  pub tier : SubscriptionTier
  pub status : SubscriptionStatus
  pub customer_id : Option String
  pub subscription_id : Option String
  pub period_end : Option ℕ
  pub trial_ends_at : Option ℕ
  pub files_limit : ℤ
  pub max_file_size : ℤ
  pub storage_limit_bytes : ℤ
  pub transformations_limit : ℤ
  pub is_deleted : Bool

abbrev pub Book : Type 0
Book = Map ℕ Account

-- WHERE id = $1 AND deleted_at IS NULL.
unfoldable pub get_user : ℕ → Book → Option Account
get_user id book = elim (lookup id book) [
  | none ↦ none
  | some account ↦ if account.is_deleted then none else some account
]

-- UPDATE users SET .. WHERE id = $1 AND deleted_at IS NULL RETURNING *.
unfoldable pub change_user : (Account → Account) → ℕ → Book → Option Book
change_user set id book = elim (get_user id book) [
  | none ↦ none
  | some account ↦ some (insert id (set account) book)
]

unfoldable pub is_customer : String → Account → Bool
is_customer customer account = elim account.customer_id [ none ↦ false | some c ↦ c == customer ]

-- `GetUserByStripeCustomerID`.
unfoldable pub find_customer : String → Book → Option ℕ
find_customer customer [] = none
find_customer customer ((id, account) ∷ rest) =
    if is_customer customer account && not account.is_deleted
    then some id
    else find_customer customer rest

-- The unique index on `stripe_customer_id`.
unfoldable pub is_customer_taken : String → ℕ → Book → Bool
is_customer_taken customer id [] = false
is_customer_taken customer id ((j, account) ∷ rest) =
    (is_customer customer account && not (j == id)) || is_customer_taken customer id rest

-- `UpdateUserStripeCustomer`.
unfoldable pub update_customer : String → ℕ → Book → Option Book
update_customer customer id book =
    if is_customer_taken customer id book
    then none
    else change_user (λ account. record account { customer_id = some customer }) id book

-- `CancelUserSubscription`.
unfoldable pub cancel_subscription : Account → Account
cancel_subscription account = record account {
  subscription_id = none;
  status = canceled;
  tier = free;
  files_limit = pos 100;
  max_file_size = pos 10485760;
}

-- `StartUserTrial`.
unfoldable pub start_user_trial : ℕ → Account → Account
start_user_trial ends account = record account {
  tier = pro;
  status = trialing;
  trial_ends_at = some ends;
  files_limit = pos 2000;
  max_file_size = pos 104857600;
}

-- The limits on files that `UpdateUserTier` writes for a tier.
unfoldable pub tier_files_limit : SubscriptionTier → ℤ
tier_files_limit free = pos 100
tier_files_limit pro = pos 2000
tier_files_limit enterprise = negsuc 0

unfoldable pub tier_max_file_size : SubscriptionTier → ℤ
tier_max_file_size free = pos 10485760
tier_max_file_size pro = pos 104857600
tier_max_file_size enterprise = pos 10737418240

-- `UpdateUserTier`.
unfoldable pub update_user_tier : SubscriptionTier → Account → Account
unfolding tier_files_limit tier_max_file_size
update_user_tier tier account = record account {
  tier = tier;
  status = elim tier [ free ↦ without | _ ↦ active ];
  files_limit = tier_files_limit tier;
  max_file_size = tier_max_file_size tier;
  storage_limit_bytes = elim tier [
    | free ↦ pos 1073741824
    | pro ↦ pos 107374182400
    | enterprise ↦ pos 1099511627776
  ];
  transformations_limit = elim tier [ free ↦ pos 100 | pro ↦ pos 10000 | enterprise ↦ negsuc 0 ];
}

-- `UpdateUserToEnterprise`.
unfoldable pub update_user_to_enterprise : Account → Account
update_user_to_enterprise account = record account {
  tier = enterprise;
  status = active;
  files_limit = negsuc 0;
  max_file_size = pos 10737418240;
  storage_limit_bytes = pos 1099511627776;
  transformations_limit = negsuc 0;
}
