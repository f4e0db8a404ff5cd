-- ===== src/Auth/Accounts/Reset.antt =====
-- The tokens for new passwords (internal/auth/auth.go): each works once.
use file_cheap.Prelude.{◌≡◌, ◌≢◌, ℕ, true, some, List, [], ◌∷◌}
use file_cheap.Prelude.Action.{ok}
use file_cheap.Prelude.Key.{nat_key}
use file_cheap.Prelude.Bytes.{Bytes, bytes_key}
use file_cheap.Auth.Accounts.{Accounts, Call}
use file_cheap.Auth.Accounts.Service.{
  Bcrypt, generate_token, Operation, register, verify_email, request_password_reset, reset_password,
  create_verification_token, change_password,
}
use file_cheap.Auth.Accounts.Stays.{is_spent, Stays}

-- The calls of the service that may change the accounts.
pub data Request : Type 0 where
  registers : Call → Bytes → Bytes → Bytes → Request
  verifies : Call → Bytes → Request
  requests_reset : Call → Bytes → Request
  resets : Call → Bytes → Bytes → Request
  requests_verification : Call → Bytes → Request
  changes : Call → ℕ → Bytes → Bytes → Request

module _ (sha256 : Bytes → Bytes) (bcrypt : Bcrypt) where
  abbrev pub serve : Request → Accounts → Accounts
  serve (registers call email password name) s =
      (register sha256 bcrypt call email password name s).1
  serve (verifies call token) s = (verify_email sha256 bcrypt call token s).1
  serve (requests_reset call email) s = (request_password_reset sha256 bcrypt call email s).1
  serve (resets call token password) s = (reset_password sha256 bcrypt call token password s).1
  serve (requests_verification call email) s =
      (create_verification_token sha256 bcrypt call email s).1
  serve (changes call id current password) s =
      (change_password sha256 bcrypt call id current password s).1

  abbrev pub serve_all : List Request → Accounts → Accounts
  serve_all [] s = s
  serve_all (r ∷ rs) s = serve_all rs (serve r s)

  -- The request does not draw a token with this hash.
  abbrev pub DrawsOther : Bytes → Request → Type 0
  DrawsOther hash (requests_reset call email) =
      (p : Bytes × Bytes) → generate_token sha256 call ≡ some p → p.1 ≢ hash
  DrawsOther hash request = Unit

-- Where `m` ends without an error, no row of the hash is open.
record Spends (hash : Bytes) (m : Operation (Unit {0})) : Type 0 where
  at : (s : Accounts) → (m s).0 ≡ ok tt → is_spent hash (m s).1 ≡ true
