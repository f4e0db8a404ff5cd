-- ===== src/Webhook/CircuitBreaker.antt =====
-- internal/webhook/circuit_breaker.go. The endpoints map is the state; a method under the mutex
-- returns the new breaker with its result, and the clock is read by the argument `now`, in
-- nanoseconds. A failure count stays below 2^63, so `failures++` does not wrap.
pub mod History
pub mod Recovery
use file_cheap.Prelude.{
  ℕ, ◌+◌, ◌*◌, String, Bool, true, false, Option, none, some, List, [], ◌∷◌, ltb, leb,
  if◌then◌else◌,
}
use file_cheap.Prelude.Key.{string_key}
use file_cheap.Prelude.Map.{Map, lookup, insert, delete}

pub data CircuitState : Type 0 where
  state_closed state_open state_half_open : CircuitState

pub record EndpointHealth : Type 0 where
  pub failures : ℕ
  pub last_failure : ℕ
  pub state : CircuitState

pub record CircuitBreaker : Type 0 where
  pub endpoints : Map String EndpointHealth
  pub failure_threshold : ℕ
  pub recovery_time : ℕ

unfoldable pub new_circuit_breaker_with_config : ℕ → ℕ → CircuitBreaker
new_circuit_breaker_with_config threshold recovery = record {
  endpoints = [];
  failure_threshold = threshold;
  recovery_time = recovery;
}

-- `NewCircuitBreaker`: 5 failures, 30 minutes.
unfoldable pub new_circuit_breaker : CircuitBreaker
new_circuit_breaker = record {
  endpoints = [];
  failure_threshold = 5;
  recovery_time = 30 * 60 * 1_000_000_000;
}

abbrev with_health : CircuitBreaker → String → EndpointHealth → CircuitBreaker
with_health cb endpoint h = record cb { endpoints = insert endpoint h cb.endpoints }

-- The state that `Allow` leaves an entry in, and its answer.
unfoldable pub probed : ℕ → ℕ → EndpointHealth → CircuitState → EndpointHealth
probed recovery now h state_closed = h
probed recovery now h state_open =
    if ltb (h.last_failure + recovery) now then record h { state = state_half_open } else h
probed recovery now h state_half_open = h

permitted : ℕ → ℕ → EndpointHealth → CircuitState → Bool
permitted recovery now h state_closed = true
permitted recovery now h state_open = ltb (h.last_failure + recovery) now
permitted recovery now h state_half_open = true

-- `Allow`: the entry is shared with the map, so what it is left in is written back.
unfoldable pub allow : String → ℕ → CircuitBreaker → Bool × CircuitBreaker
unfolding probed permitted
allow endpoint now cb = elim (lookup endpoint cb.endpoints) [
  | none ↦ (true, cb)
  | some h ↦ (
    permitted cb.recovery_time now h h.state,
    with_health cb endpoint (probed cb.recovery_time now h h.state),
  )
]

unfoldable pub record_success : String → CircuitBreaker → CircuitBreaker
record_success endpoint cb = elim (lookup endpoint cb.endpoints) [
  | none ↦ cb
  | some h ↦ with_health cb endpoint (record h { failures = 0; state = state_closed })
]

abbrev pub fresh_health : EndpointHealth
fresh_health = record { failures = 0; last_failure = 0; state = state_closed }

abbrev pub or_fresh : Option EndpointHealth → EndpointHealth
or_fresh none = fresh_health
or_fresh (some h) = h

abbrev is_half_open : CircuitState → Bool
is_half_open state_half_open = true
is_half_open _ = false

abbrev pub is_state_open : CircuitState → Bool
is_state_open state_open = true
is_state_open _ = false

-- What a failure does to an entry.
unfoldable pub after_failure : ℕ → ℕ → EndpointHealth → EndpointHealth
after_failure threshold now h =
    let h' : EndpointHealth = record h { failures = h.failures + 1; last_failure = now } in
    if is_half_open h.state
    then record h' { state = state_open }
    else if leb threshold (h.failures + 1)
    then record h' { state = state_open }
    else h'

unfoldable pub record_failure : String → ℕ → CircuitBreaker → CircuitBreaker
unfolding after_failure
record_failure endpoint now cb =
    with_health cb endpoint
      (after_failure cb.failure_threshold now (or_fresh (lookup endpoint cb.endpoints)))

unfoldable pub is_open : String → CircuitBreaker → Bool
is_open endpoint cb = elim (lookup endpoint cb.endpoints) [
  | none ↦ false
  | some h ↦ is_state_open h.state
]

abbrev pub state_name : Option EndpointHealth → String
state_name none = "closed"
state_name (some h) = elim h.state [
  | state_closed ↦ "closed"
  | state_open ↦ "open"
  | state_half_open ↦ "half_open"
]

unfoldable pub get_state : String → CircuitBreaker → String
get_state endpoint cb = state_name (lookup endpoint cb.endpoints)

unfoldable pub reset : String → CircuitBreaker → CircuitBreaker
reset endpoint cb = record cb { endpoints = delete endpoint cb.endpoints }

-- One call on a breaker by one of its clients; the clients' calls are ordered by the mutex.
pub data Call : Type 0 where
  allows fails : ℕ → Call
  succeeds resets : Call

unfoldable pub step : CircuitBreaker → String × Call → CircuitBreaker
step cb (endpoint, allows now) = (allow endpoint now cb).1
step cb (endpoint, fails now) = record_failure endpoint now cb
step cb (endpoint, succeeds) = record_success endpoint cb
step cb (endpoint, resets) = reset endpoint cb

unfoldable pub run : CircuitBreaker → List (String × Call) → CircuitBreaker
run cb [] = cb
run cb (c ∷ cs) = run (step cb c) cs
