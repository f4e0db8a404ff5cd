-- ===== src/Webhook/Delivery.antt =====
-- `WebhookDeliveryHandler` of internal/worker/webhook.go, with the rows that its queries change
-- (sql/queries/webhooks.sql, sql/queries/webhook_dlq.sql). A uuid is a number. What the handler
-- meets outside the tables is in `Env`: the queued payload, the clock, the random sample, the
-- answer of the endpoint and which queries fail. Logs and metrics are left out.
pub mod Outcomes
pub mod Lifecycle
use file_cheap.Prelude.{
  ℕ, ◌+◌, String, Bool, true, false, Option, none, some, List, [], ◌∷◌, leb, ltb, if◌then◌else◌,
  take, ◌&&◌,
}
use file_cheap.Prelude.Key.{nat_key}
use file_cheap.Prelude.Map.{Map, lookup, insert}
use file_cheap.Prelude.Int.{ℤ, pos, ◌+ℤ◌}
use file_cheap.Webhook.Backoff.{calculate_backoff}

pub data DeliveryStatus : Type 0 where
  pending success failed retrying : DeliveryStatus

pub record Delivery : Type 0 where
  pub webhook_id : ℕ
  pub event_type : String
  pub payload : List ℕ
  pub status : DeliveryStatus
  pub attempts : ℕ
  pub last_attempt_at : Option ℕ
  pub next_retry_at : Option ℤ
  pub response_code : Option ℕ
  pub response_body : List ℕ

pub record Webhook : Type 0 where
  pub url : String
  pub secret : String

-- The text of the final error, by its two formats.
pub data FinalError : Type 0 where
  last_response : ℕ → ℕ → FinalError
  connection_error : ℕ → List ℕ → FinalError

pub record DlqEntry : Type 0 where
  pub webhook_id : ℕ
  pub delivery_id : ℕ
  pub event_type : String
  pub payload : List ℕ
  pub final_error : FinalError
  pub attempts : ℕ
  pub last_response_code : ℕ
  pub last_response_body : List ℕ

pub record Tables : Type 0 where
  pub deliveries : Map ℕ Delivery
  pub webhooks : Map ℕ Webhook
  pub dlq : List DlqEntry

pub data Query : Type 0 where
  get_webhook_delivery get_webhook_by_delivery_id mark_delivery_success : Query
  mark_delivery_failed update_delivery_retry create_webhook_dlq_entry : Query

-- What `client.Do` gives: an error's text, or a status code with a body.
pub data Response : Type 0 where
  refused : List ℕ → Response
  responded : ℕ → List ℕ → Response

pub record Env : Type 0 where
  pub payload : Option String  -- the queued `DeliveryPayload`, unless it does not unmarshal
  pub parse_uuid : String → Option ℕ
  pub fails : Query → Bool
  pub new_request : String → Bool  -- whether a request to the url can be made
  pub response : Response
  pub now : ℕ
  pub database_now : ℕ
  pub sample : ℕ

pub data Outcome : Type 0 where
  delivered : Outcome  -- nil
  permanent : Outcome  -- an error that the queue does not retry
  retryable : Outcome  -- an error that it does

abbrev pub max_retries : ℕ
max_retries = 10

abbrev pub max_response_body : ℕ
max_response_body = 1024

unfoldable pub response_code : Response → ℕ
response_code (refused message) = 0
response_code (responded code body) = code

unfoldable pub response_body : Response → List ℕ
response_body (refused message) = message
response_body (responded code body) = take max_response_body body

-- The UPDATE statements: the new row of the delivery.
abbrev pub with_row : Tables → ℕ → Delivery → Tables
with_row db id d = record db { deliveries = insert id d db.deliveries }

unfoldable pub answered : DeliveryStatus → ℕ → ℕ → List ℕ → Delivery → Delivery
answered status now code body d = record d {
  status = status;
  attempts = d.attempts + 1;
  last_attempt_at = some now;
  response_code = some code;
  response_body = body;
}

unfoldable pub final_error : ℕ → ℕ → List ℕ → FinalError
final_error attempts code body =
    if leb 1 code then last_response attempts code else connection_error attempts body

abbrev pub dead_letter : ℕ → Delivery → ℕ → List ℕ → DlqEntry
dead_letter id d code body = record {
  webhook_id = d.webhook_id;
  delivery_id = id;
  event_type = d.event_type;
  payload = d.payload;
  final_error = final_error (d.attempts + 1) code body;
  attempts = d.attempts + 1;
  last_response_code = code;
  last_response_body = body;
}

-- The handler from the response on.
unfoldable pub settle : Env → Tables → ℕ → Delivery → ℕ → List ℕ → Outcome × Tables
unfolding answered
settle env db id d code body =
    if leb 200 code && ltb code 300
    then (
      delivered,
      if env.fails mark_delivery_success
          then db
          else with_row db id (answered success env.database_now code body d),
    )
    else if leb max_retries (d.attempts + 1)
    then (
      permanent,
      let db' =
            if env.fails mark_delivery_failed
            then db
            else with_row db id (answered failed env.database_now code body d) in
          if env.fails create_webhook_dlq_entry
          then db'
          else record db' { dlq = dead_letter id d code body ∷ db'.dlq },
    )
    else (
      retryable,
      if env.fails update_delivery_retry
          then db
          else with_row db id (record (answered retrying env.database_now code body d) {
            next_retry_at = some (pos env.now +ℤ calculate_backoff d.attempts env.sample);
          }),
    )

-- A query for one row: none on an error and when there is no row.
abbrev fetched {ℓ} : {A : Type ℓ} → Bool → Option A → Option A
fetched true o = none
fetched false o = o

-- `GetWebhookByDeliveryID` joins the delivery to its webhook.
abbrev pub webhook_of : Tables → Delivery → Option Webhook
webhook_of db d = lookup d.webhook_id db.webhooks

handle_delivery : Env → Tables → ℕ → Outcome × Tables
unfolding settle response_code response_body
handle_delivery env db id =
    elim (fetched (env.fails get_webhook_delivery) (lookup id db.deliveries)) [
      | none ↦ (retryable, db)
      | some d ↦ elim (fetched (env.fails get_webhook_by_delivery_id) (webhook_of db d)) [
        | none ↦ (retryable, db)
        | some w ↦
            if env.new_request w.url
            then settle env db id d (response_code env.response) (response_body env.response)
            else (permanent, db)
      ]
    ]

unfoldable pub webhook_delivery_handler : Env → Tables → Outcome × Tables
unfolding handle_delivery
webhook_delivery_handler env db = elim env.payload [
  | none ↦ (permanent, db)
  | some text ↦ elim (env.parse_uuid text) [
    | none ↦ (permanent, db)
    | some id ↦ handle_delivery env db id
  ]
]
