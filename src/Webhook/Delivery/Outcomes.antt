-- ===== src/Webhook/Delivery/Outcomes.antt =====
-- One run of the delivery handler: its outcome and the row that it leaves.
use native.Mathlib.Decide.{dec_le}
use file_cheap.Prelude.Int.{pos, ◌+ℤ◌}
use file_cheap.Webhook.Backoff.{calculate_backoff}
use file_cheap.Prelude.{
  ℕ, ◌+◌, ◌≤◌, ◌<◌, String, ◌≡◌, ◌≢◌, refl, ◌∙◌, ◌↔◌, ◌⊎◌, inl, inr, true, false, some, List, ◌∷◌,
  arith, leb, ltb, Bool-cases, ◌&&◌,
}
use file_cheap.Prelude.Key.{nat_key, test_refl}
use file_cheap.Prelude.Map.{lookup, lookup-insert}
use file_cheap.Webhook.Delivery.{
  DeliveryStatus, Delivery, Webhook, Tables, Query, get_webhook_delivery,
  get_webhook_by_delivery_id, mark_delivery_success, mark_delivery_failed, update_delivery_retry,
  create_webhook_dlq_entry, Env, Outcome, delivered, permanent, retryable, success, failed,
  retrying, max_retries, response_code, response_body, with_row, answered, DlqEntry, dead_letter,
  settle, webhook_of, webhook_delivery_handler,
}

abbrev pub IsSuccess : ℕ → Type 0
IsSuccess code = (200 ≤ code) × (code < 300)

-- The job names the delivery, and everything but the endpoint works.
pub record Targets (env : Env) (db : Tables) (id : ℕ) (d : Delivery) : Type 0 where
  pub text : String
  pub queued : env.payload ≡ some text
  pub parsed : env.parse_uuid text ≡ some id
  pub works : (q : Query) → env.fails q ≡ false
  pub makes : (url : String) → env.new_request url ≡ true
  pub row : lookup id db.deliveries ≡ some d
  pub webhook : Webhook
  pub owned : webhook_of db d ≡ some webhook

handler-settle :
    (env : Env) (db : Tables) (id : ℕ) (d : Delivery)
    → Targets env db id d
    → webhook_delivery_handler env db
      ≡ settle env db id d (response_code env.response) (response_body env.response)
unfolding webhook_delivery_handler
handler-settle env db id d t = ground (
  arith,
  t.queued,
  t.parsed,
  t.row,
  t.owned,
  t.works get_webhook_delivery,
  t.works get_webhook_by_delivery_id,
  t.makes t.webhook.url,
)

abbrev pub status_of : Outcome → DeliveryStatus
status_of delivered = success
status_of permanent = failed
status_of retryable = retrying

abbrev pub letters_of : Outcome → DlqEntry → List DlqEntry → List DlqEntry
letters_of permanent entry dlq = entry ∷ dlq
letters_of _ entry dlq = dlq

-- What one run leaves, by its outcome.
pub record Settled (db : Tables) (id : ℕ) (d : Delivery) (code : ℕ) (body : List ℕ)
    (run : Outcome × Tables) : Type 0 where
  pub delivered_iff : (run.0 ≡ delivered) ↔ IsSuccess code
  pub permanent_iff : (run.0 ≡ permanent) ↔ ((IsSuccess code → ⊥) × (max_retries ≤ d.attempts + 1))
  pub row : Delivery
  pub stored : lookup id run.1.deliveries ≡ some row
  pub counted : row.attempts ≡ d.attempts + 1
  pub status : row.status ≡ status_of run.0
  pub answer : row.response_code ≡ some code
  pub same_webhook : row.webhook_id ≡ d.webhook_id
  pub same_payload : row.payload ≡ d.payload
  pub others : (j : ℕ) → j ≢ id → lookup j run.1.deliveries ≡ lookup j db.deliveries
  pub letters : run.1.dlq ≡ letters_of run.0 (dead_letter id d code body) db.dlq
  pub webhooks : run.1.webhooks ≡ db.webhooks

IsSuccess-or_not : (code : ℕ) → IsSuccess code ⊎ (IsSuccess code → ⊥)
IsSuccess-or_not code = elim (Bool-cases (leb 200 code && ltb code 300)) [
  | inl ok ↦ inl (ground arith)
  | inr bad ↦ inr (λ h. ground arith)
]

lookup-with_row_self :
    (db : Tables) (id : ℕ) (d : Delivery) → lookup id (with_row db id d).deliveries ≡ some d
lookup-with_row_self db id d = lookup-insert id id d db.deliveries ∙ rw (test_refl id)

lookup-with_row_ne :
    (db : Tables) (id j : ℕ) (d : Delivery)
    → j ≢ id
    → lookup j (with_row db id d).deliveries ≡ lookup j db.deliveries
lookup-with_row_ne db id j d h = ground (arith, lookup-insert id j d db.deliveries)

-- The row that an UPDATE of the three leaves, and the tables with it.
record IsAnswered (d : Delivery) (o : Outcome) (code : ℕ) (row : Delivery) : Type 0 where
  counted : row.attempts ≡ d.attempts + 1
  status : row.status ≡ status_of o
  answer : row.response_code ≡ some code
  same_webhook : row.webhook_id ≡ d.webhook_id
  same_payload : row.payload ≡ d.payload

module _ (env : Env) (db : Tables) (id : ℕ) (d : Delivery) (code : ℕ) (body : List ℕ) where
  left_by : Outcome → Delivery → Outcome × Tables
  left_by o row =
      (o, record (with_row db id row) { dlq = letters_of o (dead_letter id d code body) db.dlq })

  left_by-Settled :
      (o : Outcome) (row : Delivery)
      → (o ≡ delivered) ↔ IsSuccess code
      → (o ≡ permanent) ↔ ((IsSuccess code → ⊥) × (max_retries ≤ d.attempts + 1))
      → IsAnswered d o code row
      → Settled db id d code body (left_by o row)
  unfolding left_by
  left_by-Settled o row iff iff' r = record {
    delivered_iff = iff;
    permanent_iff = iff';
    row = row;
    stored = lookup-with_row_self db id row;
    counted = r.counted;
    status = r.status;
    answer = r.answer;
    same_webhook = r.same_webhook;
    same_payload = r.same_payload;
    others = λ j h. lookup-with_row_ne db id j row h;
    letters = refl;
    webhooks = refl;
  }

  module _ (works : (q : Query) → env.fails q ≡ false) where
    settle-success :
        IsSuccess code
        → settle env db id d code body
          ≡ left_by delivered (answered success env.database_now code body d)
    unfolding settle left_by
    settle-success ok = ground (arith, works mark_delivery_success)

    settle-failed :
        (IsSuccess code → ⊥)
        → max_retries ≤ d.attempts + 1
        → settle env db id d code body
          ≡ left_by permanent (answered failed env.database_now code body d)
    unfolding settle left_by
    settle-failed bad over =
        ground (arith, works mark_delivery_failed, works create_webhook_dlq_entry)

    settle-retrying :
        (IsSuccess code → ⊥)
        → d.attempts + 1 < max_retries
        → settle env db id d code body
          ≡ left_by retryable (record (answered retrying env.database_now code body d) {
            next_retry_at = some (pos env.now +ℤ calculate_backoff d.attempts env.sample);
          })
    unfolding settle left_by
    settle-retrying bad under = ground (arith, works update_delivery_retry)

    settle-Settled : Settled db id d code body (settle env db id d code body)
    unfolding answered
    settle-Settled = elim (IsSuccess-or_not code) [
      | inl ok ↦ rw (settle-success ok) (
          left_by-Settled delivered _ (λ _. ok, λ _. refl) (λ e. cc, λ q. absurd (q.0 ok))
            (record {
              counted = refl;
              status = refl;
              answer = refl;
              same_webhook = refl;
              same_payload = refl;
            }))
      | inr bad ↦ elim (dec_le max_retries (d.attempts + 1)) [
        | yes over ↦ rw (settle-failed bad over) (
            left_by-Settled permanent _ (λ e. cc, λ q. absurd (bad q)) (λ _. (bad, over), λ _. refl)
              (record {
                counted = refl;
                status = refl;
                answer = refl;
                same_webhook = refl;
                same_payload = refl;
              }))
        | no under ↦ rw (settle-retrying bad (omega arith)) (
            left_by-Settled retryable _ (λ e. cc, λ q. absurd (bad q))
              (λ e. cc, λ q. absurd (under q.1))
              (record {
                counted = refl;
                status = refl;
                answer = refl;
                same_webhook = refl;
                same_payload = refl;
              }))
      ]
    ]

-- One run of the handler for a delivery whose row and webhook exist, when every query works and a
-- request can be made for each URL: the delivery succeeds exactly on a 2xx answer; the job ends for
-- good exactly when there was none and this was at least the tenth attempt, and only then one dead
-- letter is added; the row's attempts grow by one, its status is that of the outcome and its response
-- code that of the answer, its webhook and payload stay; no other row and no webhook changes.
pub handler-Settled :
    (env : Env) (db : Tables) (id : ℕ) (d : Delivery)
    → Targets env db id d
    → Settled db id d
        (response_code env.response)
        (response_body env.response)
        (webhook_delivery_handler env db)
handler-Settled env db id d t =
    rw (handler-settle env db id d t) (settle-Settled env db id d _ _ t.works)
