-- ===== src/Tests/DeviceAuth.antt =====
-- Runs of the device flow.
use file_cheap.Prelude.{
  ℕ, ◌≡◌, refl, inl, true, false, none, some, [], ◌∷◌, arith, length, replicate,
}
use file_cheap.Prelude.Bytes.{Bytes, bytes, bytes_key}
use file_cheap.Prelude.Map.{lookup, insert, delete}
use file_cheap.Encoding.{hex, padded_url}
use file_cheap.Auth.ApiToken.{handle_api_key_auth, insert_token, has_hash}
use file_cheap.Api.DeviceAuth.{
  DeviceCode, Store, new_code, create, get_by_user_code, approve, issued, invalid_grant,
  authorization_pending, device_token_handler, approved_reply, ApproveRequest, new_api_key,
  device_row, device_approve_handler,
}
use file_cheap.Api.DeviceAuth.Flow.{Issues, device_token_handler-Issues, Approves, device_flow}
use file_cheap.Api.DeviceAuth.Keys.{handle_api_key_auth-device_row}

-- A stand-in for SHA-256.
abbrev digest : Bytes → Bytes
digest s = length s ∷ replicate 31 7

flow_runs : Unit {0}
unfolding lookup insert delete hex padded_url new_code create get_by_user_code approve
    device_token_handler device_approve_handler insert_token has_hash handle_api_key_auth
flow_runs = tt

-- Made at 1000.
abbrev code : DeviceCode
code = new_code 1000 (replicate 32 5) (1 ∷ 2 ∷ 3 ∷ 171 ∷ [])

the_user_code : code.user_code ≡ bytes "0102-03AB"
unfolding flow_runs
the_user_code = refl

abbrev request : ApproveRequest
request = record { user_id = some 9; query_code = code.user_code; body_code = none }

abbrev store : Store
store = (code.device_code, code) ∷ []

abbrev approved_store : Store
approved_store = approve code.device_code 9 (bytes "fp_x") store

device_token_handler-Issues_example : Issues 2000 code.device_code approved_store (bytes "fp_x") []
unfolding flow_runs
device_token_handler-Issues_example =
    device_token_handler-Issues 2000 code.device_code approved_store (bytes "fp_x") [] refl

handle_api_key_auth-device_row_example :
    handle_api_key_auth digest
      (λ u. true)
      5
      (device_row digest 9 (bytes "fp_x") ∷ [])
      (bytes "fp_x")
    ≡ handle_api_key_auth digest (λ u. true) 5 [] (bytes "fp_x")
handle_api_key_auth-device_row_example =
    handle_api_key_auth-device_row digest (λ s. refl) (λ u. true) 5 9 (bytes "fp_x") (bytes "fp_x")
      []

single : (k j : Bytes) (v c : DeviceCode) → lookup k ((j, v) ∷ []) ≡ some c → c ≡ v
unfolding lookup
single k j v c e = ground arith

abbrev key_random : Bytes
key_random = replicate 32 6

is_approved : Approves digest code store [] 3000 (code.device_code ∷ []) request 9 key_random
unfolding flow_runs
is_approved = record {
  signed_in = refl;
  names = refl;
  not_empty = λ e. cc;
  distinctive = λ k c found same. single k code.device_code code c found;
  visited = inl refl;
  in_time = omega arith;
  accepted = refl;
}

device_flow_example :
    let (reply, approved_store, rows) =
      device_approve_handler digest false 3000
        (code.device_code ∷ [])
        request
        (some key_random)
        store
        [] in
    let (answer, final) = device_token_handler 4000 (some code.device_code) approved_store in
    (device_token_handler 2000 (some code.device_code) store ≡ (authorization_pending, store))
    × (reply ≡ approved_reply)
    × (rows ≡ device_row digest 9 (new_api_key key_random) ∷ [])
    × (answer ≡ issued (new_api_key key_random))
    × ((later : ℕ) → (device_token_handler later (some code.device_code) final).0 ≡ invalid_grant)
unfolding flow_runs
device_flow_example =
    device_flow digest 1000 3000 2000 4000 9 (some (replicate 32 5)) (some (1 ∷ 2 ∷ 3 ∷ 171 ∷ []))
      key_random (code.device_code ∷ []) request [] store code [] refl is_approved (omega arith)
      (omega arith)
