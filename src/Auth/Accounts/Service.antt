-- ===== src/Auth/Accounts/Service.antt =====
-- The operations of internal/auth/auth.go on accounts. SHA-256 and bcrypt are arguments.
use file_cheap.Prelude.{ℕ, ◌+◌, ◌*◌, ◌^◌, Bool, true, false, not, Option, none, some, if◌then◌else◌}
use file_cheap.Prelude.Action.{Step, ◌>>=◌, ◌>>◌, answer, refuse, or_refuse, require, modify, look}
use file_cheap.Prelude.Key.{nat_key}
use file_cheap.Prelude.Bytes.{Bytes, bytes_key}
use file_cheap.Prelude.Map.{lookup, insert}
use file_cheap.Auth.ApiToken.{hash_token}
use file_cheap.Auth.Password.{validate_password}
use file_cheap.Auth.Accounts.{
  AccountError, weak_password, email_taken, invalid_credentials, oauth_only, invalid_token,
  not_found, internal, Accounts, User, Ticket, AccountQuery, get_user_by_email_query,
  get_user_by_id_query, create_user_query, update_user_password_query, create_verification_query,
  get_verification_query, mark_verified_query, verify_email_query, create_reset_query,
  get_reset_query, mark_used_query, delete_resets_query, delete_verifications_query, Call,
  user_by_email, has_email, user_by_id, update_user, open_ticket, use_ticket, add_ticket,
  drop_tickets,
}
use file_cheap.Encoding.{raw_url}

-- An hour and a day, in nanoseconds.
abbrev pub password_reset_expiry : ℕ
password_reset_expiry = 3600 * 10 ^ 9

abbrev pub email_verification_expiry : ℕ
email_verification_expiry = 24 * 3600 * 10 ^ 9

-- What bcrypt is to the service: the hash of a password under a salt, `none` if it refuses the
-- password, and the comparison.
pub record Bcrypt : Type 0 where
  pub generate : Bytes → Bytes → Option Bytes
  pub matches : Bytes → Bytes → Bool

-- `GenerateToken`: the token and its hash.
unfoldable pub generate_token : (Bytes → Bytes) → Call → Option (Bytes × Bytes)
generate_token sha256 call = elim call.random [
  | none ↦ none
  | some octets ↦ some (raw_url octets, hash_token sha256 (raw_url octets))
]

abbrev pub Operation : Type 0 → Type 0
Operation A = Step Accounts AccountError A

-- A query that may fail.
unfoldable pub query : Call → AccountQuery → Operation (Unit {0})
query call q = require (not (call.fails q)) internal

-- What a query reads, or an error.
unfoldable pub find : {A : Type 0} → Bool → (Accounts → Option A) → AccountError → Operation A
find fails f error s = or_refuse (if fails then none else f s) error s

unfoldable pub create_user : Call → User → Operation (Unit {0})
create_user call user s =
    if call.fails create_user_query then refuse internal s else elim (lookup call.new_id s.users) [
      | some taken ↦ refuse email_taken s
      | none ↦
          if has_email user.email s.users
          then refuse email_taken s
          else answer tt (record s { users = insert call.new_id user s.users })
    ]

unfoldable pub create_reset : Call → Bytes → Ticket → Operation (Unit {0})
create_reset call hash ticket s = elim (add_ticket hash ticket s.resets) [
  | none ↦ refuse internal s
  | some resets ↦
      if call.fails create_reset_query
      then refuse internal s
      else answer tt (record s { resets = resets })
]

unfoldable pub create_verification : Call → Bytes → Ticket → Operation (Unit {0})
create_verification call hash ticket s = elim (add_ticket hash ticket s.verifications) [
  | none ↦ refuse internal s
  | some verifications ↦
      if call.fails create_verification_query
      then refuse internal s
      else answer tt (record s { verifications = verifications })
]

abbrev pub is_strong : Bytes → Bool
is_strong password = elim (validate_password password) [ none ↦ true | some weakness ↦ false ]

-- The row of a new user.
abbrev pub new_user : Bytes → Bytes → Bytes → User
new_user email hash name = record {
  email = email;
  password_hash = some hash;
  name = name;
  email_verified_at = none;
  is_deleted = false;
}

module _ (sha256 : Bytes → Bytes) (bcrypt : Bcrypt) where
  -- `Register`: the id of the new user and the token for the e-mail.
  unfoldable pub register : Call → Bytes → Bytes → Bytes → Operation (ℕ × Bytes)
  register call email password name = do
    require (is_strong password) weak_password
    hash ← or_refuse (bcrypt.generate call.salt password) internal
    create_user call (new_user email hash name)
    (token, token_hash) ← or_refuse (generate_token sha256 call) internal
    create_verification call token_hash (record {
      user_id = call.new_id;
      expires_at = call.now + email_verification_expiry;
      used_at = none;
    })
    answer (call.new_id, token)

  -- `Login`.
  unfoldable pub login : Call → Bytes → Bytes → Operation (ℕ × User)
  login call email password = do
    (id, user) ←
        find (call.fails get_user_by_email_query) (λ s. user_by_email email s.users)
          invalid_credentials
    hash ← or_refuse user.password_hash oauth_only
    require (bcrypt.matches password hash) invalid_credentials
    answer (id, user)

  -- `VerifyEmail`.
  unfoldable pub verify_email : Call → Bytes → Operation (Unit {0})
  verify_email call token = do
    let hash = hash_token sha256 token
    ticket ←
        find (call.fails get_verification_query)
          (λ s. open_ticket call.now hash s.users s.verifications) invalid_token
    query call mark_verified_query
    modify (λ s. record s { verifications = use_ticket call.now hash s.verifications })
    query call verify_email_query
    modify (λ s. record s {
      users =
          update_user (λ u. record u { email_verified_at = some call.now }) ticket.user_id s.users;
    })

  -- `RequestPasswordReset`: nothing for an unknown address, and a token otherwise.
  unfoldable pub reset_for : Call → Option (ℕ × User) → Operation (Option Bytes)
  reset_for call none = answer none
  reset_for call (some (id, user)) = do
    query call delete_resets_query
    modify (λ s. record s { resets = drop_tickets id s.resets })
    (token, token_hash) ← or_refuse (generate_token sha256 call) internal
    create_reset call token_hash
        (record { user_id = id; expires_at = call.now + password_reset_expiry; used_at = none })
    answer (some token)

  unfoldable pub request_password_reset : Call → Bytes → Operation (Option Bytes)
  request_password_reset call email = do
    found ←
        look (λ s. if call.fails get_user_by_email_query then none else user_by_email email s.users)
    reset_for call found

  -- `ResetPassword`.
  unfoldable pub reset_password : Call → Bytes → Bytes → Operation (Unit {0})
  reset_password call token new_password = do
    require (is_strong new_password) weak_password
    let hash = hash_token sha256 token
    ticket ←
        find (call.fails get_reset_query) (λ s. open_ticket call.now hash s.users s.resets)
          invalid_token
    password_hash ← or_refuse (bcrypt.generate call.salt new_password) internal
    query call update_user_password_query
    modify (λ s. record s {
      users =
          update_user (λ u. record u { password_hash = some password_hash }) ticket.user_id s.users;
    })
    query call mark_used_query
    modify (λ s. record s { resets = use_ticket call.now hash s.resets })

  -- `ValidatePasswordResetToken`.
  unfoldable pub validate_password_reset_token : Call → Bytes → Accounts → Bool
  validate_password_reset_token call token s =
      elim (open_ticket call.now (hash_token sha256 token) s.users s.resets) [
        | none ↦ false
        | some ticket ↦ not (call.fails get_reset_query)
      ]

  -- `CreateVerificationToken`; an error of the deletion is passed over.
  unfoldable pub verification_for : Call → Option (ℕ × User) → Operation (Option Bytes)
  verification_for call none = answer none
  verification_for call (some (id, user)) = do
    modify (λ s.
        if call.fails delete_verifications_query
        then s
        else record s { verifications = drop_tickets id s.verifications })
    (token, token_hash) ← or_refuse (generate_token sha256 call) internal
    create_verification call token_hash
        (record { user_id = id; expires_at = call.now + email_verification_expiry; used_at = none })
    answer (some token)

  unfoldable pub create_verification_token : Call → Bytes → Operation (Option Bytes)
  create_verification_token call email = do
    found ←
        look (λ s. if call.fails get_user_by_email_query then none else user_by_email email s.users)
    verification_for call found

  -- `VerifyPassword`.
  unfoldable pub verify_password : Call → ℕ → Bytes → Operation (Unit {0})
  verify_password call id password = do
    user ← find (call.fails get_user_by_id_query) (λ s. user_by_id id s.users) not_found
    hash ← or_refuse user.password_hash oauth_only
    require (bcrypt.matches password hash) invalid_credentials

  -- `ChangePassword`.
  unfoldable pub change_password : Call → ℕ → Bytes → Bytes → Operation (Unit {0})
  change_password call id current_password new_password = do
    user ← find (call.fails get_user_by_id_query) (λ s. user_by_id id s.users) not_found
    hash ← or_refuse user.password_hash oauth_only
    require (bcrypt.matches current_password hash) invalid_credentials
    require (is_strong new_password) weak_password
    password_hash ← or_refuse (bcrypt.generate call.salt new_password) internal
    query call update_user_password_query
    modify (λ s. record s {
      users = update_user (λ u. record u { password_hash = some password_hash }) id s.users;
    })
