-- ===== src/Tests/Webhook.antt =====
-- Runs of the circuit breaker, the backoff and the delivery handler.
use text.Mathlib.TextEquality.{eq_iff}
use file_cheap.Prelude.{
  ◌*◌, ◌^◌, ◌<◌, min, String, ◌≡◌, refl, ◌↔◌, inl, inr, true, false, none, some, List, [], ◌∷◌,
  arith, ltb, replicate, All-replicate,
}
use file_cheap.Prelude.Key.{string_key, nat_key}
use file_cheap.Prelude.Map.{lookup, insert, delete}
use file_cheap.Prelude.Int.{pos}
use file_cheap.Webhook.Backoff.{base_delay, max_delay, calculate_backoff, calculate_backoff_lem}
use file_cheap.Webhook.CircuitBreaker.{
  CircuitBreaker, state_open, new_circuit_breaker_with_config, new_circuit_breaker, allow,
  record_success, record_failure, is_open, get_state, reset, Call, allows, fails, succeeds, step,
  run,
}
use file_cheap.Webhook.CircuitBreaker.History.{consecutive, get_state-run}
use file_cheap.Webhook.CircuitBreaker.Recovery.{allow-record_failure, probe-decides}
use file_cheap.Webhook.Delivery.{
  Delivery, Tables, Response, refused, Env, permanent, retryable, pending, failed as failed_status,
  DlqEntry, response_code, response_body, webhook_delivery_handler,
}
use file_cheap.Webhook.Delivery.Outcomes.{Settled, handler-Settled}
use file_cheap.Webhook.Delivery.Lifecycle.{runs, IsFailing, IsQueued, ten_failures}

breaker_runs : Unit {0}
unfolding allow record_success record_failure is_open get_state reset step run
    new_circuit_breaker_with_config new_circuit_breaker lookup insert delete
breaker_runs = tt

abbrev calls : List (String × Call)
calls =
    ("a", fails 1)
    ∷ ("b", fails 2)
    ∷ ("a", succeeds)
    ∷ ("a", fails 3)
    ∷ ("a", fails 4)
    ∷ ("a", allows 5)
    ∷ []

opens_at_two :
    (get_state "a" (run (new_circuit_breaker_with_config 2 10) calls) ≡ "open")
    × (get_state "b" (run (new_circuit_breaker_with_config 2 10) calls) ≡ "closed")
unfolding breaker_runs
opens_at_two = (refl, refl)

half_opens :
    get_state "a" (
      run
        (new_circuit_breaker_with_config 2 10)
        (("a", fails 3) ∷ ("a", fails 4) ∷ ("a", allows 15) ∷ []))
    ≡ "half_open"
unfolding breaker_runs
half_opens = refl

default_threshold : new_circuit_breaker.failure_threshold ≡ 5
unfolding breaker_runs
default_threshold = refl

get_state-run_example :
    (get_state "a" (run (new_circuit_breaker_with_config 2 10) calls) ≡ "closed")
    ↔ (consecutive 0 "a" calls < 2)
get_state-run_example = get_state-run 2 10 "a" calls (omega arith)

abbrev one_failure : CircuitBreaker
one_failure = run (new_circuit_breaker_with_config 2 10) (("a", fails 3) ∷ [])

allow-record_failure_example :
    (allow "a" 12
      (run (record_failure "a" 4 one_failure) (("b", succeeds) ∷ ("a", allows 9) ∷ []))).0
    ≡ ltb 14 12
unfolding breaker_runs
allow-record_failure_example =
    allow-record_failure "a" 4 12 one_failure (("b", succeeds) ∷ ("a", allows 9) ∷ []) refl
      (inl (λ e. cc ((eq_iff "b" "a").1 e)), (inr (9, refl, omega arith), tt))

abbrev tripped : CircuitBreaker
tripped = record {
  endpoints = ("a", record { failures = 2; last_failure = 4; state = state_open }) ∷ [];
  failure_threshold = 2;
  recovery_time = 10;
}

probe-decides_example :
    let cb' = (allow "a" 15 tripped).1 in
    (get_state "a" cb' ≡ "half_open")
    × (is_open "a" (record_failure "a" 16 cb') ≡ true)
    × (get_state "a" (record_success "a" cb') ≡ "closed")
unfolding lookup
probe-decides_example = probe-decides "a" 15 16 tripped _ refl refl (omega arith)

calculate_backoff_lem_example : calculate_backoff 3 12345 ≡ pos (min (base_delay * 2 ^ 3) max_delay)
calculate_backoff_lem_example = calculate_backoff_lem 3 12345 (omega arith) (omega arith)

abbrev delivery : Delivery
delivery = record {
  webhook_id = 7;
  event_type = "file.uploaded";
  payload = 1 ∷ 2 ∷ [];
  status = pending;
  attempts = 0;
  last_attempt_at = none;
  next_retry_at = none;
  response_code = none;
  response_body = [];
}

abbrev tables : Tables
tables = record {
  deliveries = (3, delivery) ∷ [];
  webhooks = (7, record { url = "http://x"; secret = "s" }) ∷ [];
  dlq = [];
}

abbrev env : Response → Env
env r = record {
  payload = some "3";
  parse_uuid = λ s. some 3;
  fails = λ q. false;
  new_request = λ u. true;
  response = r;
  now = 1000;
  database_now = 1000;
  sample = 0;
}

abbrev down : Env
down = env (refused (101 ∷ []))

down_fails : IsFailing 3 down
unfolding response_code
down_fails = record {
  text = "3";
  queued = refl;
  parsed = refl;
  works = λ q. refl;
  makes = λ u. refl;
  no_success = λ h. omega arith;
}

is_queued : IsQueued tables 3 delivery
unfolding lookup
is_queued = record { row = refl; webhook = _; owned = refl }

handler-Settled_example :
    Settled tables 3 delivery
      (response_code down.response)
      (response_body down.response)
      (webhook_delivery_handler down tables)
unfolding lookup
handler-Settled_example = handler-Settled down tables 3 delivery (record {
  text = "3";
  queued = refl;
  parsed = refl;
  works = λ q. refl;
  makes = λ u. refl;
  row = refl;
  webhook = _;
  owned = refl;
})

abbrev nine : List Env
nine = replicate 9 down

ten_failures_example :
    let (os, db') = runs tables nine in
    let (o, final) = webhook_delivery_handler down db' in
    (os ≡ replicate 9 retryable)
    × (db'.dlq ≡ [])
    × (o ≡ permanent)
    × ((row : Delivery) × (lookup 3 final.deliveries ≡ some row)
        × (row.status ≡ failed_status)
        × (row.attempts ≡ 10))
    × ((entry : DlqEntry) × (final.dlq ≡ entry ∷ [])
        × (entry.delivery_id ≡ 3)
        × (entry.attempts ≡ 10)
        × (entry.payload ≡ 1 ∷ 2 ∷ []))
ten_failures_example =
    ten_failures 3 nine down tables delivery refl refl (All-replicate (IsFailing 3) 9 down_fails)
      down_fails is_queued
