-- ===== src/Webhook/CircuitBreaker/History.antt =====
-- The breaker against the history of the calls made on it.
use file_cheap.Prelude.{
  ℕ, ◌+◌, ◌≤◌, ◌<◌, String, ◌≡◌, refl, sym, ap, subst, ◌∙◌, ◌↔◌, inl, inr, Option, none, some, List,
  [], ◌∷◌, arith, if◌then◌else◌, Bool-cases, Option-cases,
}
use file_cheap.Prelude.Key.{string_key, ◌==◌}
use text.Mathlib.TextEquality.{eq_iff}
use file_cheap.Prelude.Map.{lookup, lookup-delete, lookup_by, lookup-insert_by}
use file_cheap.Webhook.CircuitBreaker.{
  CircuitState, state_closed, state_open, state_half_open, EndpointHealth, CircuitBreaker,
  new_circuit_breaker_with_config, allow, after_failure, fresh_health, state_name, probed,
  record_success, record_failure, get_state, reset, Call, allows, fails, succeeds, resets, step,
  run,
}

-- What one call does to the entry of its own endpoint.
abbrev pub entry_step : ℕ → ℕ → Call → Option EndpointHealth → Option EndpointHealth
entry_step threshold recovery (allows now) none = none
entry_step threshold recovery (allows now) (some h) = some (probed recovery now h h.state)
entry_step threshold recovery (fails now) none = some (after_failure threshold now fresh_health)
entry_step threshold recovery (fails now) (some h) = some (after_failure threshold now h)
entry_step threshold recovery succeeds none = none
entry_step threshold recovery succeeds (some h) =
    some (record h { failures = 0; state = state_closed })
entry_step threshold recovery resets o = none

-- The endpoints are independent, and the configuration stays.
pub step_lem :
    (cb : CircuitBreaker) (endpoint e : String) (c : Call)
    → (lookup endpoint (step cb (e, c)).endpoints ≡ (
        if e == endpoint
        then entry_step cb.failure_threshold cb.recovery_time c (lookup endpoint cb.endpoints)
        else lookup endpoint cb.endpoints))
      × ((step cb (e, c)).failure_threshold ≡ cb.failure_threshold)
      × ((step cb (e, c)).recovery_time ≡ cb.recovery_time)
unfolding step allow record_failure record_success reset
step_lem cb endpoint e (allows now) = elim (Option-cases (lookup e cb.endpoints)) [
  | inl p ↦ rw (p, step, allow) (lookup_by f e endpoint _ (rw p), refl, refl)
  | inr (h, p) ↦ rw (p, step, allow) (lookup-insert_by f e endpoint _ _ (rw p), refl, refl)
]
  where
    f : Option EndpointHealth → Option EndpointHealth
    f = entry_step cb.failure_threshold cb.recovery_time (allows now)
step_lem cb endpoint e (fails now) = elim (Option-cases (lookup e cb.endpoints)) [
  | inl p ↦ rw (p, step, record_failure) (lookup-insert_by f e endpoint _ _ (rw p), refl, refl)
  | inr (h, p) ↦ rw (p, step, record_failure) (lookup-insert_by f e endpoint _ _ (rw p), refl, refl)
]
  where
    f : Option EndpointHealth → Option EndpointHealth
    f = entry_step cb.failure_threshold cb.recovery_time (fails now)
step_lem cb endpoint e succeeds = elim (Option-cases (lookup e cb.endpoints)) [
  | inl p ↦ rw (p, step, record_success) (lookup_by f e endpoint _ (rw p), refl, refl)
  | inr (h, p) ↦ rw (p, step, record_success) (lookup-insert_by f e endpoint _ _ (rw p), refl, refl)
]
  where
    f : Option EndpointHealth → Option EndpointHealth
    f = entry_step cb.failure_threshold cb.recovery_time succeeds
step_lem cb endpoint e resets = (lookup-delete e endpoint cb.endpoints, refl, refl)

abbrev failures_of : Option EndpointHealth → ℕ
failures_of none = 0
failures_of (some h) = h.failures

-- The state of an entry tells whether the threshold is reached.
abbrev Agrees : ℕ → CircuitState → ℕ → Type 0
Agrees threshold state_closed n = n < threshold
Agrees threshold state_open n = threshold ≤ n
Agrees threshold state_half_open n = threshold ≤ n

abbrev EntryInv : ℕ → Option EndpointHealth → Type 0
EntryInv threshold none = Unit
EntryInv threshold (some h) = Agrees threshold h.state h.failures

-- The failures of an endpoint since its last success or reset, read off the calls alone.
abbrev after_call : ℕ → Call → ℕ
after_call n (allows now) = n
after_call n (fails now) = n + 1
after_call n succeeds = 0
after_call n resets = 0

unfoldable pub consecutive : ℕ → String → List (String × Call) → ℕ
consecutive n endpoint [] = n
consecutive n endpoint ((e, c) ∷ cs) =
    consecutive (if e == endpoint then after_call n c else n) endpoint cs

entry_step-failures :
    (threshold recovery : ℕ) (c : Call) (o : Option EndpointHealth)
    → failures_of (entry_step threshold recovery c o) ≡ after_call (failures_of o) c
unfolding probed after_failure
entry_step-failures threshold recovery (allows now) none = refl
entry_step-failures threshold recovery (allows now) (some h) = ground arith
entry_step-failures threshold recovery (fails now) none = ground arith
entry_step-failures threshold recovery (fails now) (some h) = ground arith
entry_step-failures threshold recovery succeeds none = refl
entry_step-failures threshold recovery succeeds (some h) = refl
entry_step-failures threshold recovery resets o = refl

entry_step-EntryInv :
    (threshold recovery : ℕ) (c : Call) (o : Option EndpointHealth)
    → 0 < threshold
    → EntryInv threshold o
    → EntryInv threshold (entry_step threshold recovery c o)
unfolding probed after_failure
entry_step-EntryInv threshold recovery (allows now) none p h = tt
entry_step-EntryInv threshold recovery (allows now) (some h) p q = ground arith
entry_step-EntryInv threshold recovery (fails now) none p h = ground arith
entry_step-EntryInv threshold recovery (fails now) (some h) p q = ground arith
entry_step-EntryInv threshold recovery succeeds none p h = tt
entry_step-EntryInv threshold recovery succeeds (some h) p q = p
entry_step-EntryInv threshold recovery resets o p q = tt

-- The two facts about one endpoint's entry, kept by every call.
record Tracks (cb : CircuitBreaker) (endpoint : String) (n : ℕ) : Type 0 where
  counted : failures_of (lookup endpoint cb.endpoints) ≡ n
  agrees : EntryInv cb.failure_threshold (lookup endpoint cb.endpoints)

step-Tracks :
    (cb : CircuitBreaker) (endpoint e : String) (c : Call) (n : ℕ)
    → 0 < cb.failure_threshold
    → Tracks cb endpoint n
    → Tracks (step cb (e, c)) endpoint (if e == endpoint then after_call n c else n)
step-Tracks cb endpoint e c n p t =
    let (entry, same, _) = step_lem cb endpoint e c in
    elim (Bool-cases (e == endpoint)) [
      | inl q ↦ rw q (record {
        counted =
            rw (entry, q)
              (entry_step-failures cb.failure_threshold cb.recovery_time c _
                ∙ ap (λ k. after_call k c) t.counted);
        agrees =
            rw (entry, q, same)
              (entry_step-EntryInv cb.failure_threshold cb.recovery_time c _ p t.agrees);
      })
      | inr q ↦
          rw q (record { counted = rw (entry, q) t.counted; agrees = rw (entry, q, same) t.agrees })
    ]

run-Tracks :
    (cb : CircuitBreaker) (endpoint : String) (cs : List (String × Call)) (n : ℕ)
    → 0 < cb.failure_threshold
    → Tracks cb endpoint n
    → Tracks (run cb cs) endpoint (consecutive n endpoint cs)
unfolding run consecutive
run-Tracks cb endpoint [] n p t = t
run-Tracks cb endpoint ((e, c) ∷ cs) n p t =
    run-Tracks (step cb (e, c)) endpoint cs _ (rw (step_lem cb endpoint e c).1 p)
      (step-Tracks cb endpoint e c n p t)

run-threshold :
    (cb : CircuitBreaker) (cs : List (String × Call))
    → (run cb cs).failure_threshold ≡ cb.failure_threshold
unfolding run
run-threshold cb [] = refl
run-threshold cb ((e, c) ∷ cs) = run-threshold (step cb (e, c)) cs ∙ (step_lem cb e e c).1

state_name-EntryInv :
    (threshold : ℕ) (o : Option EndpointHealth)
    → 0 < threshold
    → EntryInv threshold o
    → (state_name o ≡ "closed") ↔ (failures_of o < threshold)
state_name-EntryInv threshold none p h = (λ _. p, λ _. refl)
state_name-EntryInv threshold (some h) p q =
    ground (arith, eq_iff "open" "closed", eq_iff "half_open" "closed")

get_state-Tracks :
    (cb : CircuitBreaker) (endpoint : String) (n : ℕ)
    → 0 < cb.failure_threshold
    → Tracks cb endpoint n
    → (get_state endpoint cb ≡ "closed") ↔ (n < cb.failure_threshold)
unfolding get_state
get_state-Tracks cb endpoint n p t =
    rw (← t.counted) (state_name-EntryInv cb.failure_threshold _ p t.agrees)

new-Tracks :
    (threshold recovery : ℕ) (endpoint : String)
    → Tracks (new_circuit_breaker_with_config threshold recovery) endpoint 0
unfolding new_circuit_breaker_with_config lookup
new-Tracks threshold recovery endpoint = record { counted = refl; agrees = tt }

new-threshold :
    (threshold recovery : ℕ)
    → (new_circuit_breaker_with_config threshold recovery).failure_threshold ≡ threshold
unfolding new_circuit_breaker_with_config
new-threshold threshold recovery = refl

-- After any calls on a new breaker, an endpoint's reported state is "closed" exactly when its
-- failures since its last success or reset are fewer than the (positive) threshold, whatever was
-- called on other endpoints and whenever.
pub get_state-run :
    (threshold recovery : ℕ) (endpoint : String) (cs : List (String × Call))
    → 0 < threshold
    → (get_state endpoint (run (new_circuit_breaker_with_config threshold recovery) cs) ≡ "closed")
      ↔ (consecutive 0 endpoint cs < threshold)
get_state-run threshold recovery endpoint cs p =
    let cb = new_circuit_breaker_with_config threshold recovery in
    let same = run-threshold cb cs ∙ new-threshold threshold recovery in
    let positive = subst (λ k. 0 < k) (sym (new-threshold threshold recovery)) p in
    let final = run-Tracks cb endpoint cs 0 positive (new-Tracks threshold recovery endpoint) in
    subst (λ k. (get_state endpoint (run cb cs) ≡ "closed") ↔ (consecutive 0 endpoint cs < k)) same
      (get_state-Tracks (run cb cs) endpoint _ (subst (λ k. 0 < k) (sym same) p) final)
