-- ===== src/Tests/Accounts.antt =====
-- Runs of the accounts and the sessions.
use file_cheap.Prelude.{
  ℕ, ◌≡◌, refl, true, false, none, some, List, [], ◌∷◌, ◌++◌, arith, if◌then◌else◌, ltb, length,
  ◌↔◌, ◌≤◌, take, leb, ◌+◌,
}
use file_cheap.Prelude.Action.{ok, refused}
use file_cheap.Prelude.Bytes.{Bytes, bytes, bytes_key, bytes_test}
use file_cheap.Prelude.Key.{nat_key}
use file_cheap.Prelude.Map.{lookup}
use file_cheap.Encoding.{raw_url}
use file_cheap.Auth.ApiToken.{hash_token}
use file_cheap.Auth.Password.{
  validate_password, any, is_upper, is_lower, is_digit, is_special_char, scan, note_char, occurs,
  validate_password_lem,
}
use file_cheap.Auth.Accounts.{
  User, Ticket, Accounts, Call, invalid_credentials, user_by_email, user_by_id, has_email,
  open_ticket,
}
use file_cheap.Auth.Accounts.Service.{Bcrypt, is_strong, new_user, register, login, reset_password}
use file_cheap.Auth.Accounts.Reset.{Request, requests_reset, resets}
use file_cheap.Auth.Accounts.Login.{register-login, reset_password-login}
use file_cheap.Auth.Session.{
  create_session, get_session, delete_session, SessionCall, creates, cleans_up, run_calls,
  session_duration, session_lives,
}

validate_password_lem_example : (validate_password (bytes "Abcdef1!") ≡ none) ↔ (
    (8 ≤ length (bytes "Abcdef1!"))
    × (length (bytes "Abcdef1!") ≤ 128)
    × (any is_upper (bytes "Abcdef1!") ≡ true)
    × (any is_lower (bytes "Abcdef1!") ≡ true)
    × (any is_digit (bytes "Abcdef1!") ≡ true)
    × (any is_special_char (bytes "Abcdef1!") ≡ true))
validate_password_lem_example = validate_password_lem (bytes "Abcdef1!")

-- Stand-ins for SHA-256 and bcrypt: the first bytes, and the salt before the password.
abbrev digest : Bytes → Bytes
digest s = take 4 s

abbrev salted : Bcrypt
salted = record {
  generate = λ salt password. if leb (length password) 72 then some (salt ++ password) else none;
  matches = λ password hash. bytes_test hash ((7 ∷ []) ++ password);
}

abbrev a_call : ℕ → Call
a_call now = record {
  now = now;
  fails = λ _. false;
  random = some (1 ∷ 2 ∷ 3 ∷ []);
  salt = 7 ∷ [];
  new_id = 5;
}

abbrev other_call : Call
other_call = record {
  now = 9;
  fails = λ _. false;
  random = some (9 ∷ 9 ∷ 9 ∷ []);
  salt = 7 ∷ [];
  new_id = 6;
}

abbrev first_password : Bytes
first_password = bytes "Abcdef1!"

abbrev second_password : Bytes
second_password = bytes "Xyzxyz2?"

abbrev an_address : Bytes
an_address = bytes "a@b.c"

abbrev no_accounts : Accounts
no_accounts = record { users = []; resets = λ _. none; verifications = λ _. none }

abbrev a_user : User
a_user = new_user an_address (7 ∷ first_password) (bytes "A")

abbrev a_token : Bytes
a_token = bytes "token"

abbrev a_ticket : Ticket
a_ticket = record { user_id = 5; expires_at = 100; used_at = none }

-- One user, with an open token.
abbrev one_user : Accounts
one_user = record {
  users = (5, a_user) ∷ [];
  resets = λ h. if bytes_test h (hash_token digest a_token) then some a_ticket else none;
  verifications = λ _. none;
}

first_is_strong : is_strong first_password ≡ true
unfolding validate_password scan note_char is_special_char occurs
first_is_strong = refl

second_is_strong : is_strong second_password ≡ true
unfolding validate_password scan note_char is_special_char occurs
second_is_strong = refl

no_email : has_email an_address no_accounts.users ≡ false
unfolding has_email
no_email = refl

no_id : lookup 5 no_accounts.users ≡ none
unfolding lookup
no_id = refl

register-login_example :
    ((register digest salted (a_call 3) an_address first_password (bytes "A") no_accounts).0
      ≡ ok (5, raw_url (1 ∷ 2 ∷ 3 ∷ [])))
    × (login digest salted
          (a_call 8)
          an_address
          first_password
          (register digest salted (a_call 3) an_address first_password (bytes "A") no_accounts).1
        ≡ (if salted.matches first_password (7 ∷ first_password)
            then (
              ok (5, a_user),
              (register digest salted
                  (a_call 3)
                  an_address
                  first_password
                  (bytes "A")
                  no_accounts).1,
            )
            else (
              refused invalid_credentials,
              (register digest salted
                  (a_call 3)
                  an_address
                  first_password
                  (bytes "A")
                  no_accounts).1,
            )))
register-login_example =
    register-login digest salted (a_call 3) an_address first_password (bytes "A")
      (7 ∷ first_password) (1 ∷ 2 ∷ 3 ∷ []) no_accounts (λ q. refl) first_is_strong refl refl
      no_email no_id refl (a_call 8) first_password refl

the_ticket :
    open_ticket 9 (hash_token digest a_token) one_user.users one_user.resets ≡ some a_ticket
unfolding user_by_id lookup hash_token raw_url
the_ticket = refl

the_user : lookup 5 one_user.users ≡ some a_user
unfolding lookup
the_user = refl

found_user : user_by_email an_address one_user.users ≡ some (5, a_user)
unfolding user_by_email
found_user = refl

abbrev after_reset : Accounts
after_reset = (reset_password digest salted (a_call 9) a_token second_password one_user).1

reset_password-login_example :
    ((reset_password digest salted (a_call 9) a_token second_password one_user).0 ≡ ok tt)
    × (login digest salted (a_call 10) an_address first_password after_reset ≡ (
        if salted.matches first_password (7 ∷ second_password)
        then (ok (5, record a_user { password_hash = some (7 ∷ second_password) }), after_reset)
        else (refused invalid_credentials, after_reset)))
reset_password-login_example =
    reset_password-login digest salted (a_call 9) a_token second_password (7 ∷ second_password)
      an_address one_user a_ticket a_user (λ q. refl) second_is_strong refl the_ticket the_user
      found_user (a_call 10) first_password refl

abbrev later : List Request
later = requests_reset other_call an_address ∷ resets (a_call 11) a_token first_password ∷ []

abbrev calls : List SessionCall
calls = creates 20 false (some (4 ∷ 5 ∷ 6 ∷ [])) 6 ∷ cleans_up false 30 ∷ []

alive_user : user_by_id 5 one_user.users ≡ some a_user
unfolding user_by_id lookup
alive_user = refl

session_lives_example :
    (get_session digest 40 false
        (create_session digest 10 false (some (1 ∷ 2 ∷ 3 ∷ [])) 5 (λ _. none)).0
        one_user.users
        (run_calls digest calls
          (create_session digest 10 false (some (1 ∷ 2 ∷ 3 ∷ [])) 5 (λ _. none)).1)
      ≡ (if ltb 40 (10 + session_duration) then some 5 else none))
    × (get_session digest 40 false
          (create_session digest 10 false (some (1 ∷ 2 ∷ 3 ∷ [])) 5 (λ _. none)).0
          one_user.users
          (delete_session digest false
            (create_session digest 10 false (some (1 ∷ 2 ∷ 3 ∷ [])) 5 (λ _. none)).0
            (run_calls digest calls
              (create_session digest 10 false (some (1 ∷ 2 ∷ 3 ∷ [])) 5 (λ _. none)).1))
        ≡ none)
session_lives_example =
    session_lives digest 10 (1 ∷ 2 ∷ 3 ∷ []) 5 (λ _. none) refl calls (tt, (omega arith, tt)) 40
      one_user.users alive_user
