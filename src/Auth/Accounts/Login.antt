-- ===== src/Auth/Accounts/Login.antt =====
-- Who can log in, after an account is made and after its password is set (internal/auth/auth.go).
use file_cheap.Prelude.{
  ◌≡◌, refl, ℕ, true, false, none, some, [], ◌∷◌, arith, Bool-cases, inl, inr, if◌then◌else◌,
  nat_beq_iff,
}
use file_cheap.Prelude.Action.{ok, refused, ◌>>=◌, answer, refuse, or_refuse, require, modify}
use file_cheap.Prelude.Key.{nat_key}
use file_cheap.Prelude.Bytes.{Bytes, bytes_key, bytes_test_iff}
use file_cheap.Prelude.Map.{Map, lookup, insert}
use file_cheap.Auth.ApiToken.{hash_token}
use file_cheap.Encoding.{raw_url}
use file_cheap.Auth.Accounts.{
  invalid_credentials, User, Ticket, Accounts, AccountQuery, create_user_query,
  create_verification_query, get_reset_query, update_user_password_query, mark_used_query,
  get_user_by_email_query, Call, user_by_email, user_by_id, update_user, has_email, open_ticket,
}
use file_cheap.Auth.Accounts.Service.{
  Bcrypt, query, find, generate_token, new_user, create_verification, create_user, is_strong,
  register, login, reset_password,
}

-- The row that an address finds has that address, and is not deleted.
user_by_email_found :
    (email : Bytes) (users : Map ℕ User) (id : ℕ) (user : User)
    → user_by_email email users ≡ some (id, user)
    → (user.email ≡ email) × (user.is_deleted ≡ false)
unfolding user_by_email
user_by_email_found email [] id user h = cc
user_by_email_found email ((id', user') ∷ users) id user h =
    ground (arith, h, user_by_email_found email users id user, bytes_test_iff user'.email email)

-- A new row for the same user is found where the old one was.
user_by_email-insert :
    (email : Bytes) (users : Map ℕ User) (id : ℕ) (user new : User)
    → user_by_email email users ≡ some (id, user)
    → lookup id users ≡ some user
    → new.email ≡ email
    → new.is_deleted ≡ false
    → user_by_email email (insert id new users) ≡ some (id, new)
unfolding user_by_email lookup insert
user_by_email-insert email [] id user new h e a b = cc
user_by_email-insert email ((id', user') ∷ users) id user new h e a b = ground (
  arith,
  user_by_email-insert email users id user new,
  bytes_test_iff user'.email email,
  bytes_test_iff new.email email,
  nat_beq_iff id' id,
  user_by_email_found email ((id', user') ∷ users) id user h,
)

-- A new row with a new address is found by it.
user_by_email-insert_new :
    (email : Bytes) (users : Map ℕ User) (id : ℕ) (new : User)
    → has_email email users ≡ false
    → lookup id users ≡ none
    → new.email ≡ email
    → new.is_deleted ≡ false
    → user_by_email email (insert id new users) ≡ some (id, new)
unfolding user_by_email has_email lookup insert
user_by_email-insert_new email [] id new h e a b =
    ground (arith, a, b, bytes_test_iff new.email email)
user_by_email-insert_new email ((id', user') ∷ users) id new h e a b = ground (
  arith,
  user_by_email-insert_new email users id new,
  bytes_test_iff user'.email email,
  nat_beq_iff id' id,
)

module _ (sha256 : Bytes → Bytes) (bcrypt : Bcrypt) where
  login_lem :
      (call : Call) (email password : Bytes) (s : Accounts) (id : ℕ) (user : User) (hash : Bytes)
      → call.fails get_user_by_email_query ≡ false
      → user_by_email email s.users ≡ some (id, user)
      → user.password_hash ≡ some hash
      → login sha256 bcrypt call email password s ≡ (
          if bcrypt.matches password hash
          then (ok (id, user), s)
          else (refused invalid_credentials, s))
  unfolding login ◌>>=◌ find or_refuse require answer
  login_lem call email password s id user hash h₁ h₂ h₃ =
      rw (h₁, h₂, h₃)
        (elim (Bool-cases (bcrypt.matches password hash)) [ inl e ↦ rw e | inr e ↦ rw e ])

  register_done :
      (call : Call) (email password name hash octets : Bytes) (s : Accounts)
      → ((q : AccountQuery) → call.fails q ≡ false)
      → is_strong password ≡ true
      → bcrypt.generate call.salt password ≡ some hash
      → call.random ≡ some octets
      → has_email email s.users ≡ false
      → lookup call.new_id s.users ≡ none
      → s.verifications (hash_token sha256 (raw_url octets)) ≡ none
      → ((register sha256 bcrypt call email password name s).0 ≡ ok (call.new_id, raw_url octets))
        × ((register sha256 bcrypt call email password name s).1.users
            ≡ insert call.new_id (new_user email hash name) s.users)
  unfolding register ◌>>=◌ find or_refuse require answer create_user create_verification refuse
      generate_token
  register_done call email password name hash octets s fails strong h r fresh free unused =
      rw (strong, h, r)
        (ground
          (arith, fresh, free, unused, fails create_user_query, fails create_verification_query))

  -- After a registration with an unused address and a strong password that bcrypt takes, in which
  -- nothing fails, the new user has the id of the answer, and a login with that address, at any later time
  -- and whatever the salt, accepts exactly the passwords that match the hash that was stored.
  pub register-login :
      (call : Call) (email password name hash octets : Bytes) (s : Accounts)
      → ((q : AccountQuery) → call.fails q ≡ false)
      → is_strong password ≡ true
      → bcrypt.generate call.salt password ≡ some hash
      → call.random ≡ some octets
      → has_email email s.users ≡ false
      → lookup call.new_id s.users ≡ none
      → s.verifications (hash_token sha256 (raw_url octets)) ≡ none
      → (call' : Call) (attempt : Bytes) → call'.fails get_user_by_email_query ≡ false
      → let (reply, s') = register sha256 bcrypt call email password name s in
        (reply ≡ ok (call.new_id, raw_url octets))
        × (login sha256 bcrypt call' email attempt s' ≡ (
            if bcrypt.matches attempt hash
            then (ok (call.new_id, new_user email hash name), s')
            else (refused invalid_credentials, s')))
  register-login call email password name hash octets s fails strong h r fresh free unused call'
        attempt f =
      let (e, u) =
        register_done call email password name hash octets s fails strong h r fresh free unused in
      (
        e,
        login_lem call' email attempt (register sha256 bcrypt call email password name s).1
            call.new_id (new_user email hash name) hash f
            (rw u (
              user_by_email-insert_new email s.users call.new_id (new_user email hash name) fresh
                free refl refl))
            refl,
      )

  reset_done :
      (call : Call) (token password hash : Bytes) (s : Accounts) (ticket : Ticket) (user : User)
      → ((q : AccountQuery) → call.fails q ≡ false)
      → is_strong password ≡ true
      → bcrypt.generate call.salt password ≡ some hash
      → open_ticket call.now (hash_token sha256 token) s.users s.resets ≡ some ticket
      → lookup ticket.user_id s.users ≡ some user
      → user.is_deleted ≡ false
      → ((reset_password sha256 bcrypt call token password s).0 ≡ ok tt)
        × ((reset_password sha256 bcrypt call token password s).1.users
            ≡ insert ticket.user_id (record user { password_hash = some hash }) s.users)
  unfolding reset_password ◌>>=◌ find or_refuse require modify query update_user user_by_id lookup
      insert
  reset_done call token password hash s ticket user fails strong h o l d =
      rw
        (
          strong,
          fails get_reset_query,
          o,
          h,
          fails update_user_password_query,
          fails mark_used_query,
        )
        (refl, rw (l, d) refl)

  -- An open token of a user sets a new password that is strong and that bcrypt takes, if nothing
  -- fails. From then on a login with the user's address accepts exactly the passwords that match the
  -- new hash.
  pub reset_password-login :
      (call : Call) (token password hash email : Bytes) (s : Accounts) (ticket : Ticket)
      (user : User)
      → ((q : AccountQuery) → call.fails q ≡ false)
      → is_strong password ≡ true
      → bcrypt.generate call.salt password ≡ some hash
      → open_ticket call.now (hash_token sha256 token) s.users s.resets ≡ some ticket
      → lookup ticket.user_id s.users ≡ some user
      → user_by_email email s.users ≡ some (ticket.user_id, user)
      → (call' : Call) (attempt : Bytes) → call'.fails get_user_by_email_query ≡ false
      → let (reply, s') = reset_password sha256 bcrypt call token password s in
        (reply ≡ ok tt)
        × (login sha256 bcrypt call' email attempt s' ≡ (
            if bcrypt.matches attempt hash
            then (ok (ticket.user_id, record user { password_hash = some hash }), s')
            else (refused invalid_credentials, s')))
  reset_password-login call token password hash email s ticket user fails strong h o l b call'
        attempt f =
      let (e₁, e₂) = user_by_email_found email s.users ticket.user_id user b in
      let new : User = record user { password_hash = some hash } in
      let (e, u) = reset_done call token password hash s ticket user fails strong h o l e₂ in
      (
        e,
        login_lem call' email attempt (reset_password sha256 bcrypt call token password s).1
            ticket.user_id new hash f
            (rw u (user_by_email-insert email s.users ticket.user_id user new b l e₁ e₂)) refl,
      )
