-- ===== src/Webhook/Delivery/Lifecycle.antt =====
-- The life of one delivery over its runs: nine failures are retried, the tenth is final.
use mathlib.Core.Path.{ap₂}
use file_cheap.Prelude.{
  ℕ, ◌+◌, ◌≤◌, ◌<◌, String, ◌≡◌, refl, ap, ◌∙◌, ◌↔◌, true, false, some, List, [], ◌∷◌, arith,
  length, replicate, All,
}
use file_cheap.Prelude.Key.{nat_key}
use file_cheap.Prelude.Map.{lookup}
use file_cheap.Webhook.Delivery.{
  Delivery, Webhook, Tables, Query, Env, Outcome, permanent, retryable, delivered, failed, DlqEntry,
  max_retries, response_code, response_body, dead_letter, webhook_of, webhook_delivery_handler,
}
use file_cheap.Webhook.Delivery.Outcomes.{
  IsSuccess, Targets, Settled, handler-Settled, letters_of, status_of,
}

-- The queue runs the job again and again.
unfoldable pub runs : Tables → List Env → List Outcome × Tables
runs db [] = ([], db)
runs db (env ∷ envs) =
    let (o, db') = webhook_delivery_handler env db in
    let (os, final) = runs db' envs in (o ∷ os, final)

-- A run for the delivery `id` that reaches the endpoint and gets no 2xx answer.
pub record IsFailing (id : ℕ) (env : Env) : Type 0 where
  pub text : String
  pub queued : env.payload ≡ some text
  pub parsed : env.parse_uuid text ≡ some id
  pub works : (q : Query) → env.fails q ≡ false
  pub makes : (url : String) → env.new_request url ≡ true
  pub no_success : IsSuccess (response_code env.response) → ⊥

-- The delivery's row and its webhook are there.
pub record IsQueued (db : Tables) (id : ℕ) (d : Delivery) : Type 0 where
  pub row : lookup id db.deliveries ≡ some d
  pub webhook : Webhook
  pub owned : webhook_of db d ≡ some webhook

targets :
    {env : Env} {db : Tables} {id : ℕ} {d : Delivery}
    → IsFailing id env
    → IsQueued db id d
    → Targets env db id d
targets f q = record {
  text = f.text;
  queued = f.queued;
  parsed = f.parsed;
  works = f.works;
  makes = f.makes;
  row = q.row;
  webhook = q.webhook;
  owned = q.owned;
}

module _ {env : Env} {db : Tables} {id : ℕ} {d : Delivery} (f : IsFailing id env)
    (q : IsQueued db id d) where
  after-IsQueued :
      (s : Settled db id d
        (response_code env.response)
        (response_body env.response)
        (webhook_delivery_handler env db))
      → IsQueued (webhook_delivery_handler env db).1 id s.row
  after-IsQueued s = record {
    row = s.stored;
    webhook = q.webhook;
    owned = rw (s.webhooks, s.same_webhook) q.owned;
  }

-- The outcome of a failing run is settled by the attempts before it.
outcome_under :
    (o : Outcome) (a : ℕ) {P : Type 0}
    → (P → ⊥)
    → ((o ≡ delivered) ↔ P)
    → ((o ≡ permanent) ↔ ((P → ⊥) × (max_retries ≤ a + 1)))
    → a + 1 < max_retries
    → o ≡ retryable
outcome_under delivered a bad iff iff' h = absurd (bad (iff.0 refl))
outcome_under permanent a bad iff iff' h = absurd (omega (arith, (iff'.0 refl).1))
outcome_under retryable a bad iff iff' h = refl

runs_under :
    (id : ℕ) (envs : List Env) (db : Tables) (d : Delivery)
    → All (IsFailing id) envs
    → IsQueued db id d
    → d.attempts + length envs < max_retries
    → (d' : Delivery) × IsQueued (runs db envs).1 id d'
      × (d'.attempts ≡ d.attempts + length envs)
      × (d'.payload ≡ d.payload)
      × ((runs db envs).0 ≡ replicate (length envs) retryable)
      × ((runs db envs).1.dlq ≡ db.dlq)
unfolding runs
runs_under id [] db d fs q h = (d, q, omega arith, refl, refl, refl)
runs_under id (env ∷ envs) db d (f, fs) q h =
    let s = handler-Settled env db id d (targets f q) in
    let o = outcome_under _ d.attempts f.no_success s.delivered_iff s.permanent_iff (omega arith) in
    let (d', q', counted, same, os, letters) =
      runs_under id envs (webhook_delivery_handler env db).1 s.row fs (after-IsQueued f q s)
        (omega (arith, s.counted)) in
    (
      d',
      q',
      omega (arith, counted, s.counted),
      same ∙ s.same_payload,
      ap₂ (λ x xs. x ∷ xs) o os,
      letters
          ∙ s.letters
          ∙ ap
              (λ x.
                letters_of x
                  (dead_letter id d (response_code env.response) (response_body env.response))
                  db.dlq)
              o,
    )

-- A fresh delivery whose endpoint never answers 2xx, when every query works and a request can be made
-- for each URL: nine runs end in a retry and leave no dead letter; the tenth run ends for good, marks the row failed with 10 attempts and adds exactly one
-- dead letter, which names the delivery, its payload and 10 attempts.
pub ten_failures :
    (id : ℕ) (envs : List Env) (last : Env) (db : Tables) (d : Delivery)
    → d.attempts ≡ 0
    → length envs ≡ 9
    → All (IsFailing id) envs
    → IsFailing id last
    → IsQueued db id d
    → let (os, db') = runs db envs in
      let (o, final) = webhook_delivery_handler last db' in
      (os ≡ replicate 9 retryable)
      × (db'.dlq ≡ db.dlq)
      × (o ≡ permanent)
      × ((row : Delivery) × (lookup id final.deliveries ≡ some row)
          × (row.status ≡ failed)
          × (row.attempts ≡ 10))
      × ((entry : DlqEntry) × (final.dlq ≡ entry ∷ db.dlq)
          × (entry.delivery_id ≡ id)
          × (entry.attempts ≡ 10)
          × (entry.payload ≡ d.payload))
ten_failures id envs last db d fresh nine fs f q =
    let (d', q', counted, same, os, letters) = runs_under id envs db d fs q (omega arith) in
    let db' = (runs db envs).1 in
    let s = handler-Settled last db' id d' (targets f q') in
    let over = s.permanent_iff.1 (f.no_success, omega arith) in
    (
      os ∙ ap (λ n. replicate n retryable) nine,
      letters,
      over,
      (s.row, s.stored, s.status ∙ ap status_of over, omega (arith, s.counted)),
      (
        dead_letter id d' (response_code last.response) (response_body last.response),
        s.letters
            ∙ ap₂
                (λ o l.
                  letters_of o
                    (dead_letter id d' (response_code last.response) (response_body last.response))
                    l)
                over letters,
        refl,
        omega arith,
        same,
      ),
    )
