-- ===== src/Api/DeviceAuth/Flow.antt =====
-- The flow from its start to the key, and what a poll may answer.
use file_cheap.Prelude.{
  ℕ, ◌+◌, ◌≤◌, ◌≡◌, ◌≢◌, refl, ap, subst, ◌∙◌, ◌⊎◌, inl, inr, Bool, true, false, Option, none, some,
  List, [], ◌∷◌, arith, if◌then◌else◌, Bool-cases, Option-cases,
}
use file_cheap.Prelude.Key.{◌==◌, test_refl}
use file_cheap.Prelude.Bytes.{Bytes, bytes_key, bytes_test_iff}
use file_cheap.Prelude.Map.{lookup, insert, delete, lookup-insert, lookup-delete}
use file_cheap.Auth.ApiToken.{TokenRow, insert_token}
use file_cheap.Api.DeviceAuth.{
  DeviceCode, Store, fifteen_minutes, new_code, create, get_by_user_code, approve, issued,
  invalid_grant, authorization_pending, device_token_handler, approved_reply, ApproveRequest,
  requested_code, new_api_key, device_row, device_approve_handler,
}

lookup-delete_self : (key : Bytes) (store : Store) → lookup key (delete key store) ≡ none
lookup-delete_self key store =
    lookup-delete key key store
    ∙ ap (λ (b : Bool). if b then none else lookup key store) (test_refl key)

gone :
    (later : ℕ) (key : Bytes) (store : Store)
    → (device_token_handler later (some key) (delete key store)).0 ≡ invalid_grant
unfolding device_token_handler
gone later key store = rw (lookup-delete_self key store)

module _ (now : ℕ) (key : Bytes) (store : Store) where
  poll_facts :
      (code : DeviceCode)
      → lookup key store ≡ some code
      → (api_key : Bytes) (store' : Store)
      → device_token_handler now (some key) store ≡ (issued api_key, store')
      → (code.approved ≡ true)
        × (now ≤ code.expires_at)
        × (code.api_key ≡ api_key)
        × (delete key store ≡ store')
  unfolding device_token_handler
  poll_facts code found api_key store' e = ground arith

  -- What holds of a poll that hands out a key.
  pub record Issues (api_key : Bytes) (store' : Store) : Type 0 where
    pub code : DeviceCode
    pub found : lookup key store ≡ some code
    pub approved : code.approved ≡ true
    pub same_key : code.api_key ≡ api_key
    pub in_time : now ≤ code.expires_at
    pub once : (later : ℕ) → (device_token_handler later (some key) store').0 ≡ invalid_grant
    pub others : (j : Bytes) → j ≢ key → lookup j store' ≡ lookup j store

  -- A poll hands out a key only for a code that is in the store, approved with this key and not
  -- expired; the code is then used up, so that every later poll for it is refused, and no other code
  -- changes.
  pub device_token_handler-Issues :
      (api_key : Bytes) (store' : Store)
      → device_token_handler now (some key) store ≡ (issued api_key, store')
      → Issues api_key store'
  unfolding device_token_handler
  device_token_handler-Issues api_key store' e = elim (Option-cases (lookup key store)) [
    | inl missing ↦ cc (rw (missing, device_token_handler) at e)
    | inr (code, found) ↦
        let (approved, in_time, same_key, left) = poll_facts code found api_key store' e in
        record {
          code = code;
          found = found;
          approved = approved;
          same_key = same_key;
          in_time = in_time;
          once = λ later. rw (← left) (gone later key store);
          others =
              λ j h. rw (← left) (ground (arith, lookup-delete key j store, bytes_test_iff key j));
        }
  ]

-- The code's user code belongs to no other code of the store.
abbrev pub IsDistinctive : DeviceCode → Store → Type 0
IsDistinctive code store =
    (k : Bytes) (c : DeviceCode) → lookup k store ≡ some c → c.user_code ≡ code.user_code → c ≡ code

abbrev pub Visits : Bytes → List Bytes → Type 0
Visits key [] = ⊥
Visits key (k ∷ order) = (k ≡ key) ⊎ Visits key order

get_by_user_code-distinctive :
    (code : DeviceCode) (order : List Bytes) (store : Store)
    → lookup code.device_code store ≡ some code
    → IsDistinctive code store
    → Visits code.device_code order
    → get_by_user_code order code.user_code store ≡ some code
unfolding get_by_user_code
get_by_user_code-distinctive code [] store found only v = elim v [ ]
get_by_user_code-distinctive code (k ∷ order) store found only (inl here) =
    rw (here, found, get_by_user_code) (rw (test_refl code.user_code))
get_by_user_code-distinctive code (k ∷ order) store found only (inr later) =
    let ih = get_by_user_code-distinctive code order store found only later in
    elim (Option-cases (lookup k store)) [
      | inl missing ↦ rw (missing, get_by_user_code) ih
      | inr (c, there) ↦
          rw (there, get_by_user_code)
            (elim (Bool-cases (c.user_code == code.user_code)) [
              | inl same ↦ rw same (ap some (only k c there ((bytes_test_iff _ _).0 same)))
              | inr other ↦ rw other ih
            ])
    ]

-- The state of a started flow: its code is stored as it was made.
record IsStarted (code : DeviceCode) (store : Store) : Type 0 where
  stored : lookup code.device_code store ≡ some code
  fresh : code.approved ≡ false

create-IsStarted :
    (now : ℕ) (random user_random : Option Bytes) (store store' : Store) (code : DeviceCode)
    → create now random user_random store ≡ some (code, store')
    → IsStarted code store' × (code.expires_at ≡ now + fifteen_minutes)
unfolding create
create-IsStarted now none user_random store store' code e = cc
create-IsStarted now (some random) none store store' code e = cc
create-IsStarted now (some random) (some user_random) store store' code e =
    let c = new_code now random user_random in
    let stored : lookup c.device_code (insert c.device_code c store) ≡ some c =
      lookup-insert c.device_code c.device_code c store ∙ rw (test_refl c.device_code) in
    let same : c ≡ code = ground arith in
    let same_store : insert c.device_code c store ≡ store' = ground arith in
    subst (λ d. IsStarted d store' × (d.expires_at ≡ now + fifteen_minutes)) same
      (record { stored = rw (← same_store) stored; fresh = refl }, refl)

approve-stored :
    (code : DeviceCode) (user_id : ℕ) (key : Bytes) (store : Store)
    → lookup code.device_code store ≡ some code
    → lookup code.device_code (approve code.device_code user_id key store)
      ≡ some (record code { approved = true; user_id = some user_id; api_key = key })
unfolding approve
approve-stored code user_id key store found =
    rw (found, approve)
      (lookup-insert code.device_code code.device_code _ store ∙ rw (test_refl code.device_code))

-- A request to approve the code: by a signed-in user, with the code in the query, in time, with
-- random bytes at hand and a token table that takes the row.
pub record Approves (sha256 : Bytes → Bytes) (code : DeviceCode) (store : Store)
    (rows : List TokenRow) (now : ℕ) (order : List Bytes) (request : ApproveRequest) (user_id : ℕ)
    (random : Bytes) : Type 0 where
  pub signed_in : request.user_id ≡ some user_id
  pub names : requested_code request ≡ code.user_code
  pub not_empty : code.user_code ≢ []
  pub distinctive : IsDistinctive code store
  pub visited : Visits code.device_code order
  pub in_time : now ≤ code.expires_at
  pub accepted :
      insert_token (device_row sha256 user_id (new_api_key random)) rows
      ≡ some (device_row sha256 user_id (new_api_key random) ∷ rows)

module _ (sha256 : Bytes → Bytes) where
  device_approve_handler-Approves :
      (code : DeviceCode) (store : Store) (rows : List TokenRow) (now : ℕ) (order : List Bytes)
      (request : ApproveRequest) (user_id : ℕ) (random : Bytes)
      → lookup code.device_code store ≡ some code
      → Approves sha256 code store rows now order request user_id random
      → device_approve_handler sha256 false now order request (some random) store rows ≡ (
        approved_reply,
        approve code.device_code user_id (new_api_key random) store,
        device_row sha256 user_id (new_api_key random) ∷ rows,
      )
  unfolding device_approve_handler
  device_approve_handler-Approves code store rows now order request user_id random found a =
      let seen = get_by_user_code-distinctive code order store found a.distinctive a.visited in
      ground (arith, seen, a.accepted, a.names, a.signed_in, a.in_time, a.not_empty)

-- A flow whose user code is not empty and is that of no other stored code, which a signed-in user
-- approves in time with that code, with working random bytes and a token table that takes the row,
-- and in which the device polls within fifteen minutes: a poll before the approval is told to wait and
-- changes nothing; the approval succeeds and adds one row; a poll after it is given the new key; every
-- later poll is refused.
pub device_flow :
    (sha256 : Bytes → Bytes) (started at early late user_id : ℕ) (random user_random : Option Bytes)
    (key_random : Bytes) (order : List Bytes) (request : ApproveRequest) (store store' : Store)
    (code : DeviceCode) (rows : List TokenRow)
    → create started random user_random store ≡ some (code, store')
    → Approves sha256 code store' rows at order request user_id key_random
    → early ≤ started + fifteen_minutes
    → late ≤ started + fifteen_minutes
    → let (reply, approved_store, rows') =
        device_approve_handler sha256 false at order request (some key_random) store' rows in
      let (answer, final) = device_token_handler late (some code.device_code) approved_store in
      (device_token_handler early (some code.device_code) store' ≡ (authorization_pending, store'))
      × (reply ≡ approved_reply)
      × (rows' ≡ device_row sha256 user_id (new_api_key key_random) ∷ rows)
      × (answer ≡ issued (new_api_key key_random))
      × ((later : ℕ) → (device_token_handler later (some code.device_code) final).0 ≡ invalid_grant)
unfolding device_token_handler
device_flow sha256 started at early late user_id random user_random key_random order request store
      store' code rows e a he hl =
    let (s, expiry) = create-IsStarted started random user_random store store' code e in
    let approved =
      device_approve_handler-Approves sha256 code store' rows at order request user_id key_random
        s.stored a in
    let key = new_api_key key_random in
    let entry = approve-stored code user_id key store' s.stored in
    let handed : device_token_handler late (some code.device_code)
          (approve code.device_code user_id key store')
        ≡ (issued key, delete code.device_code (approve code.device_code user_id key store')) =
      ground (arith, entry, expiry) in
    (
      ground (arith, s.stored, s.fresh, expiry),
      ap (λ r. r.0) approved,
      ap (λ r. r.2) approved,
      rw approved (ap (λ r. r.0) handed),
      λ later. rw approved (rw handed (gone later code.device_code _)),
    )
