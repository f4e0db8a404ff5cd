-- ===== src/Webhook/CircuitBreaker/Recovery.antt =====
-- An open circuit refuses calls until the recovery time is over, and the probe then decides.
use text.Mathlib.TextEquality.{eq_iff}
use file_cheap.Prelude.{
  ℕ, ◌+◌, ◌≤◌, ◌<◌, String, ◌≡◌, refl, ◌∙◌, ◌≢◌, ◌⊎◌, inl, inr, true, some, List, [], ◌∷◌, arith,
  ltb, lt→ltb, All,
}
use file_cheap.Prelude.Key.{string_key, test_refl}
use file_cheap.Prelude.Map.{lookup, lookup-insert}
use file_cheap.Webhook.CircuitBreaker.{
  state_open, state_half_open, EndpointHealth, CircuitBreaker, probed, after_failure, or_fresh,
  allow, record_success, record_failure, is_open, is_state_open, get_state, Call, allows, step, run,
}
use file_cheap.Webhook.CircuitBreaker.History.{entry_step, step_lem}

-- The call is on another endpoint, or asks for leave within the recovery time.
abbrev pub IsQuiet : String → ℕ → String × Call → Type 0
IsQuiet endpoint until (e, c) = (e ≢ endpoint) ⊎ ((now : ℕ) × (c ≡ allows now) × (now ≤ until))

quiet_entry :
    (threshold recovery now until : ℕ) (h : EndpointHealth)
    → h.state ≡ state_open
    → h.last_failure + recovery ≡ until
    → now ≤ until
    → entry_step threshold recovery (allows now) (some h) ≡ some h
unfolding probed
quiet_entry threshold recovery now until h s u l = ground arith

module _ (endpoint : String) (h : EndpointHealth) (opened : h.state ≡ state_open) where
  step-quiet :
      (cb : CircuitBreaker) (until : ℕ) (e : String) (c : Call)
      → h.last_failure + cb.recovery_time ≡ until
      → lookup endpoint cb.endpoints ≡ some h
      → IsQuiet endpoint until (e, c)
      → lookup endpoint (step cb (e, c)).endpoints ≡ some h
  step-quiet cb until e c u found (inl other) =
      ground (arith, (step_lem cb endpoint e c).0, eq_iff e endpoint)
  step-quiet cb until e c u found (inr (now, call, early)) = ground (
    arith,
    (step_lem cb endpoint e c).0,
    quiet_entry cb.failure_threshold cb.recovery_time now until h opened u early,
  )

  run-quiet :
      (cb : CircuitBreaker) (until : ℕ) (cs : List (String × Call))
      → h.last_failure + cb.recovery_time ≡ until
      → lookup endpoint cb.endpoints ≡ some h
      → All (IsQuiet endpoint until) cs
      → (lookup endpoint (run cb cs).endpoints ≡ some h)
        × ((run cb cs).recovery_time ≡ cb.recovery_time)
  unfolding run
  run-quiet cb until [] u found q = (found, refl)
  run-quiet cb until ((e, c) ∷ cs) u found (q, qs) =
      let same = (step_lem cb endpoint e c).2 in
      let (later, kept) =
        run-quiet (step cb (e, c)) until cs (rw same u) (step-quiet cb until e c u found q) qs in
      (later, kept ∙ same)

lookup-record_failure :
    (endpoint : String) (t : ℕ) (cb : CircuitBreaker)
    → lookup endpoint (record_failure endpoint t cb).endpoints
      ≡ some (after_failure cb.failure_threshold t (or_fresh (lookup endpoint cb.endpoints)))
unfolding record_failure
lookup-record_failure endpoint t cb =
    lookup-insert endpoint endpoint _ cb.endpoints ∙ rw (test_refl endpoint)

record_failure-recovery :
    (endpoint : String) (t : ℕ) (cb : CircuitBreaker)
    → (record_failure endpoint t cb).recovery_time ≡ cb.recovery_time
unfolding record_failure
record_failure-recovery endpoint t cb = refl

after_failure_at :
    (threshold t : ℕ) (h : EndpointHealth) → (after_failure threshold t h).last_failure ≡ t
unfolding after_failure
after_failure_at threshold t h = ground arith

is_open_entry :
    (endpoint : String) (cb : CircuitBreaker) {h : EndpointHealth}
    → lookup endpoint cb.endpoints ≡ some h
    → is_open endpoint cb ≡ true
    → h.state ≡ state_open
unfolding is_open
is_open_entry endpoint cb found o = ground arith

allow_open :
    (endpoint : String) (now : ℕ) (cb : CircuitBreaker) (h : EndpointHealth)
    → lookup endpoint cb.endpoints ≡ some h
    → h.state ≡ state_open
    → (allow endpoint now cb).0 ≡ ltb (h.last_failure + cb.recovery_time) now
unfolding allow
allow_open endpoint now cb h found opened = rw (found, allow) (rw opened)

-- Once a failure at time `t` has opened the circuit, `Allow` refuses up to the end of the recovery
-- time and permits after it, if in between the endpoint saw no call but `Allow` within that time,
-- whatever was called on the other endpoints.
pub allow-record_failure :
    (endpoint : String) (t now : ℕ) (cb : CircuitBreaker) (cs : List (String × Call))
    → is_open endpoint (record_failure endpoint t cb) ≡ true
    → All (IsQuiet endpoint (t + cb.recovery_time)) cs
    → (allow endpoint now (run (record_failure endpoint t cb) cs)).0
      ≡ ltb (t + cb.recovery_time) now
allow-record_failure endpoint t now cb cs o q =
    let first = record_failure endpoint t cb in
    let found = lookup-record_failure endpoint t cb in
    let opened = is_open_entry endpoint first found o in
    let at = after_failure_at cb.failure_threshold t (or_fresh (lookup endpoint cb.endpoints)) in
    let same = record_failure-recovery endpoint t cb in
    let (still, kept) =
      run-quiet endpoint _ opened first (t + cb.recovery_time) cs (rw (at, same)) found q in
    allow_open endpoint now (run first cs) _ still opened ∙ rw (at, kept, same)

lookup-allow_late :
    (endpoint : String) (now : ℕ) (cb : CircuitBreaker) (h : EndpointHealth)
    → lookup endpoint cb.endpoints ≡ some h
    → h.state ≡ state_open
    → h.last_failure + cb.recovery_time < now
    → lookup endpoint (allow endpoint now cb).1.endpoints
      ≡ some (record h { state = state_half_open })
unfolding allow probed
lookup-allow_late endpoint now cb h found opened late =
    rw (found, allow)
      (lookup-insert endpoint endpoint _ cb.endpoints
        ∙ rw (test_refl endpoint, opened, lt→ltb _ _ late))

get_state-record_success :
    (endpoint : String) (cb : CircuitBreaker) {h : EndpointHealth}
    → lookup endpoint cb.endpoints ≡ some h
    → get_state endpoint (record_success endpoint cb) ≡ "closed"
unfolding get_state record_success
get_state-record_success endpoint cb found =
    rw (found, record_success)
      (rw (lookup-insert endpoint endpoint _ cb.endpoints, test_refl endpoint))

is_open_lem :
    (endpoint : String) (cb : CircuitBreaker) {h : EndpointHealth}
    → lookup endpoint cb.endpoints ≡ some h
    → is_open endpoint cb ≡ is_state_open h.state
unfolding is_open
is_open_lem endpoint cb found = rw (found, is_open)

after_failure-half_open :
    (threshold t : ℕ) (h : EndpointHealth)
    → h.state ≡ state_half_open
    → (after_failure threshold t h).state ≡ state_open
unfolding after_failure
after_failure-half_open threshold t h e = ground arith

-- After the recovery time an open circuit goes half open on `Allow`; then one failure opens it
-- again, however high the threshold, and one success closes it.
pub probe-decides :
    (endpoint : String) (now later : ℕ) (cb : CircuitBreaker) (h : EndpointHealth)
    → lookup endpoint cb.endpoints ≡ some h
    → h.state ≡ state_open
    → h.last_failure + cb.recovery_time < now
    → let cb' = (allow endpoint now cb).1 in
      (get_state endpoint cb' ≡ "half_open")
      × (is_open endpoint (record_failure endpoint later cb') ≡ true)
      × (get_state endpoint (record_success endpoint cb') ≡ "closed")
unfolding get_state
probe-decides endpoint now later cb h found opened late =
    let probing = lookup-allow_late endpoint now cb h found opened late in
    let cb' = (allow endpoint now cb).1 in
    (
      rw (probing, get_state),
      is_open_lem endpoint (record_failure endpoint later cb')
            (lookup-record_failure endpoint later cb')
          ∙ rw (probing, after_failure-half_open),
      get_state-record_success endpoint cb' probing,
    )
