-- ===== src/Api/DeviceAuth.antt =====
-- The device authorization of internal/api/device_auth.go: the store of codes, and the handlers that
-- start a flow, poll for its key and approve it. Random bytes are arguments (`none` is an error of
-- `rand.Read`), and so is the clock. `order` is the order in which `range` visits the keys.
pub mod Flow
pub mod Keys
use file_cheap.Prelude.{
  ℕ, ◌+◌, ◌*◌, ◌-◌, Bool, true, false, Option, none, some, List, [], ◌∷◌, ◌++◌, ◌&&◌, leb, ltb, map,
  if◌then◌else◌, take, drop,
}
use file_cheap.Prelude.Key.{◌==◌}
use file_cheap.Prelude.Bytes.{Bytes, bytes, bytes_key}
use file_cheap.Prelude.Map.{Map, lookup, insert, delete}
use file_cheap.Prelude.Map.Retain.{sweep}
use file_cheap.Encoding.{hex, padded_url}
use file_cheap.Auth.ApiToken.{TokenRow, insert_token}

pub record DeviceCode : Type 0 where
  pub user_code : Bytes
  pub device_code : Bytes
  pub expires_at : ℕ
  pub approved : Bool
  pub api_key : Bytes
  pub user_id : Option ℕ

abbrev pub Store : Type 0
Store = Map Bytes DeviceCode

abbrev pub fifteen_minutes : ℕ
fifteen_minutes = 15 * 60 * 1_000_000_000

-- `strings.ToUpper` on the hexadecimal digits.
to_upper : Bytes → Bytes
to_upper s = map (λ c. if leb b'a' c && leb c b'z' then c - 32 else c) s

new_user_code : Bytes → Bytes
unfolding to_upper
new_user_code random = let digits = to_upper (hex random) in take 4 digits ++ (b'-' ∷ drop 4 digits)

unfoldable pub new_code : ℕ → Bytes → Bytes → DeviceCode
unfolding new_user_code
new_code now random user_random = record {
  user_code = new_user_code user_random;
  device_code = padded_url random;
  expires_at = now + fifteen_minutes;
  approved = false;
  api_key = [];
  user_id = none;
}

-- `Create`, from 32 and 4 random bytes.
unfoldable pub create : ℕ → Option Bytes → Option Bytes → Store → Option (DeviceCode × Store)
unfolding new_code
create now none user_random store = none
create now (some random) none store = none
create now (some random) (some user_random) store =
    let code = new_code now random user_random in some (code, insert code.device_code code store)

-- `GetByUserCode`.
unfoldable pub get_by_user_code : List Bytes → Bytes → Store → Option DeviceCode
get_by_user_code [] user_code store = none
get_by_user_code (key ∷ order) user_code store =
    let rest = get_by_user_code order user_code store in
    elim (lookup key store) [
      | none ↦ rest
      | some code ↦ if code.user_code == user_code then some code else rest
    ]

unfoldable pub approve : Bytes → ℕ → Bytes → Store → Store
approve device_code user_id api_key store = elim (lookup device_code store) [
  | none ↦ store
  | some code ↦
      insert device_code
        (record code { approved = true; user_id = some user_id; api_key = api_key }) store
]

-- The answer that starts a flow.
pub record DeviceAuthResponse : Type 0 where
  pub device_code : Bytes
  pub user_code : Bytes
  pub verification_uri : Bytes
  pub expires_in : ℕ
  pub interval : ℕ

-- `DeviceAuthHandler`; `none` is the answer of an internal error.
unfoldable pub device_auth_handler :
    Bytes → ℕ → Option Bytes → Option Bytes → Store → Option DeviceAuthResponse × Store
unfolding create
device_auth_handler base_url now random user_random store =
    elim (create now random user_random store) [
      | none ↦ (none, store)
      | some (code, store') ↦ (
        some record {
          device_code = code.device_code;
          user_code = code.user_code;
          verification_uri = base_url ++ bytes "/auth/device";
          expires_in = 900;
          interval = 5;
        },
        store',
      )
    ]

-- One round of `cleanup`.
unfoldable pub cleanup : ℕ → Store → Store
cleanup now store = sweep (λ code. ltb code.expires_at now) store

-- The answers of `DeviceTokenHandler`, by the field `error`.
pub data TokenReply : Type 0 where
  invalid_request invalid_grant expired_token authorization_pending : TokenReply
  issued : Bytes → TokenReply

poll : ℕ → Bytes → Store → Option DeviceCode → TokenReply × Store
poll now device_code store none = (invalid_grant, store)
poll now device_code store (some code) =
    if ltb code.expires_at now
    then (expired_token, delete device_code store)
    else if code.approved
    then (issued code.api_key, delete device_code store)
    else (authorization_pending, store)

-- `DeviceTokenHandler`; the request is `none` where its body does not decode.
unfoldable pub device_token_handler : ℕ → Option Bytes → Store → TokenReply × Store
unfolding poll
device_token_handler now none store = (invalid_request, store)
device_token_handler now (some device_code) store =
    poll now device_code store (lookup device_code store)

pub data ApproveReply : Type 0 where
  unauthorized missing_code invalid_code internal approved_reply : ApproveReply

-- A request to approve: the user of the context, the code of the query and that of the body.
pub record ApproveRequest : Type 0 where
  pub user_id : Option ℕ
  pub query_code : Bytes
  pub body_code : Option Bytes

-- The code of the query, or if that is empty, of a body that decodes.
abbrev pub requested_code : ApproveRequest → Bytes
requested_code r = elim r.query_code [
  | c ∷ s ↦ c ∷ s
  | [] ↦ elim r.body_code [ none ↦ [] | some code ↦ code ]
]

abbrev pub new_api_key : Bytes → Bytes
new_api_key random = bytes "fp_" ++ padded_url random

module _ (sha256 : Bytes → Bytes) where
  -- The row of `CreateAPIToken`, which is given no permissions (a nil slice), no prefix and no expiry.
  unfoldable pub device_row : ℕ → Bytes → TokenRow
  device_row user_id api_key = record {
    user_id = user_id;
    name = "fc CLI";
    token_hash = hex (sha256 api_key);
    token_prefix = [];
    permissions = [];
    expires_at = none;
  }

  -- From the random bytes on, for a code that was found. `fails` is an error of the query.
  grant :
      Bool
      → ℕ
      → DeviceCode
      → Option Bytes
      → Store
      → List TokenRow
      → ApproveReply × Store × List TokenRow
  unfolding device_row
  grant fails user_id code none store rows = (internal, store, rows)
  grant fails user_id code (some random) store rows =
      let key = new_api_key random in
      elim (if fails then none else insert_token (device_row user_id key) rows) [
        | none ↦ (internal, store, rows)
        | some rows' ↦ (approved_reply, approve code.device_code user_id key store, rows')
      ]

  -- `DeviceApproveHandler`, with a token table.
  unfoldable pub device_approve_handler :
      Bool
      → ℕ
      → List Bytes
      → ApproveRequest
      → Option Bytes
      → Store
      → List TokenRow
      → ApproveReply × Store × List TokenRow
  unfolding grant
  device_approve_handler fails now order request random store rows = elim request.user_id [
    | none ↦ (unauthorized, store, rows)
    | some user_id ↦ elim (requested_code request) [
      | [] ↦ (missing_code, store, rows)
      | c ∷ user_code ↦ elim (get_by_user_code order (c ∷ user_code) store) [
        | none ↦ (invalid_code, store, rows)
        | some code ↦
            if ltb code.expires_at now
            then (invalid_code, store, rows)
            else grant fails user_id code random store rows
      ]
    ]
  ]
