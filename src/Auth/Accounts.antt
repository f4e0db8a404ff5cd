-- ===== src/Auth/Accounts.antt =====
-- The rows that the operations of internal/auth/auth.go on accounts read and write, and the queries on
-- them (sql/queries/users.sql, sql/queries/password_resets.sql,
-- sql/queries/email_verifications.sql).
pub mod Service
pub mod Stays
pub mod Reset
pub mod Login
use file_cheap.Prelude.{
  ℕ, ◌+◌, ◌*◌, ◌^◌, Bool, true, false, ◌&&◌, ◌||◌, not, Option, none, some, List, [], ◌∷◌,
  if◌then◌else◌, ltb,
}
use file_cheap.Prelude.Action.{Step, ◌>>=◌, ◌>>◌, answer, refuse, or_refuse, require, modify}
use file_cheap.Prelude.Key.{◌==◌, nat_key}
use file_cheap.Prelude.Bytes.{Bytes, bytes_key}
use file_cheap.Prelude.Map.{Map, lookup, insert}
use file_cheap.Auth.ApiToken.{hash_token}
use file_cheap.Auth.Password.{validate_password}
use file_cheap.Encoding.{raw_url}

-- The errors of internal/apperror that the service answers with.
pub data AccountError : Type 0 where
  weak_password email_taken invalid_credentials oauth_only invalid_token not_found internal :
      AccountError

-- A row of `users`, the columns that the operations on accounts read or write.
pub record User : Type 0 where
  pub email : Bytes
  pub password_hash : Option Bytes
  pub name : Bytes
  pub email_verified_at : Option ℕ
  pub is_deleted : Bool

-- A row of `password_resets` or of `email_verifications`, whose `verified_at` is `used_at` here.
pub record Ticket : Type 0 where
  pub user_id : ℕ
  pub expires_at : ℕ
  pub used_at : Option ℕ

-- The rows by their hash, which is a unique column.
abbrev pub Tickets : Type 0
Tickets = Bytes → Option Ticket

abbrev pub put : Bytes → Ticket → Tickets → Tickets
put hash ticket tickets h = if h == hash then some ticket else tickets h

pub record Accounts : Type 0 where
  pub users : Map ℕ User
  pub resets : Tickets
  pub verifications : Tickets

pub data AccountQuery : Type 0 where
  get_user_by_email_query get_user_by_id_query create_user_query update_user_password_query :
      AccountQuery
  create_verification_query get_verification_query mark_verified_query verify_email_query :
      AccountQuery
  create_reset_query get_reset_query mark_used_query delete_resets_query
        delete_verifications_query :
      AccountQuery

-- What a call meets: the clock, the queries that fail, the random bytes for a token (`none` is an
-- error), the salt of bcrypt and the id of a new row.
pub record Call : Type 0 where
  pub now : ℕ
  pub fails : AccountQuery → Bool
  pub random : Option Bytes
  pub salt : Bytes
  pub new_id : ℕ

-- `GetUserByEmail`.
unfoldable pub user_by_email : Bytes → Map ℕ User → Option (ℕ × User)
user_by_email email [] = none
user_by_email email ((id, user) ∷ rest) =
    if user.email == email && not user.is_deleted then some (id, user) else user_by_email email rest

-- Whether the unique column holds the address already, also for a user that is deleted.
unfoldable pub has_email : Bytes → Map ℕ User → Bool
has_email email [] = false
has_email email ((id, user) ∷ rest) = user.email == email || has_email email rest

-- `GetUserByID`: the row, if the user is not deleted.
unfoldable pub user_by_id : ℕ → Map ℕ User → Option User
user_by_id id users = elim (lookup id users) [
  | none ↦ none
  | some user ↦ if user.is_deleted then none else some user
]

-- `UpdateUserPassword` and `VerifyUserEmail` change the row of a user that is not deleted.
unfoldable pub update_user : (User → User) → ℕ → Map ℕ User → Map ℕ User
update_user f id users = elim (user_by_id id users) [
  | none ↦ users
  | some user ↦ insert id (f user) users
]

-- `GetPasswordResetByTokenHash` and `GetEmailVerificationByTokenHash`: the row of a hash that has not
-- expired and was not used, of a user that is not deleted.
abbrev pub open_ticket : ℕ → Bytes → Map ℕ User → Tickets → Option Ticket
open_ticket now hash users tickets = elim (tickets hash) [
  | none ↦ none
  | some ticket ↦ elim (user_by_id ticket.user_id users) [
    | none ↦ none
    | some user ↦ elim ticket.used_at [
      | none ↦ if ltb now ticket.expires_at then some ticket else none
      | some t ↦ none
    ]
  ]
]

-- `MarkPasswordResetUsed` and `MarkEmailVerified`.
abbrev pub use_ticket : ℕ → Bytes → Tickets → Tickets
use_ticket now hash tickets = elim (tickets hash) [
  | none ↦ tickets
  | some ticket ↦ put hash (record ticket { used_at = some now }) tickets
]

-- The INSERT of a row, which fails on a hash that is there.
abbrev pub add_ticket : Bytes → Ticket → Tickets → Option (Tickets)
add_ticket hash ticket tickets = elim (tickets hash) [
  | none ↦ some (put hash ticket tickets)
  | some taken ↦ none
]

-- `DeleteUserPasswordResets` and `DeleteUserEmailVerifications`.
abbrev pub drop_tickets : ℕ → Tickets → Tickets
drop_tickets id tickets h = elim (tickets h) [
  | none ↦ none
  | some ticket ↦ if ticket.user_id == id then none else some ticket
]
