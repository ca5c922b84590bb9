-- ===== src/Jobs/Webhook.antt =====
-- apps/jobs-worker/src/handlers/webhook.ts: the delivery of a webhook, and what it writes into the
-- tables webhook_endpoints and webhook_deliveries. The consumer's calls of the channel are those of
-- Jobs.Workers. `parse` stands for JSON.parse of a message, `hmac` for the signature, `number` and
-- `host` for the texts of a number and of the host of an address; how the request ends, and which of
-- the two statements answers, are arguments. The delay of a retry is left out.
pub mod Callback
pub mod Log
pub mod Requests
pub mod Health
mod Tests
use grain_guard.Prelude.{
  ℕ, ◌+◌, ◌≤◌, String, Bool, true, false, ◌&&◌, ◌||◌, Option, none, some, ◌⊎◌, inl, inr, List, [],
  ◌∷◌, ◌++◌, ltb, leb, is_empty, update, or_else, take, if◌then◌else◌, ◌==◌,
}
use grain_guard.Dashboard.ExportCsv.{Text, units}
use grain_guard.Jobs.Workers.{
  Message, attempt, Result, malformed, done, failed, Action, webhook, last_attempt,
  start_webhook_worker,
}

-- `payload` is its JSON text.
pub record DeliveryJob : Type 0 where
  pub url : String
  pub payload : String
  pub tenant_id : String
  pub secret : String
  pub event_type : String
  pub endpoint_id : Option String

-- webhook_endpoints, the columns of the last error.
pub record EndpointStatus : Type 0 where
  pub id : String
  pub last_error : Option Text
  pub last_error_at : Option ℕ

-- webhook_deliveries
pub record DeliveryRow : Type 0 where
  pub endpoint_id : String
  pub tenant_id : String
  pub event_type : String
  pub attempt : ℕ
  pub status_code : Option ℕ
  pub success : Bool
  pub duration_ms : Option ℕ

-- What an INSERT into webhook_deliveries gives: nothing for a column that it does not name.
pub record DeliveryColumns : Type 0 where
  pub endpoint_id : Option String
  pub tenant_id : Option String
  pub event_type : Option String
  pub attempt : Option ℕ
  pub status_code : Option ℕ
  pub success : Option Bool
  pub duration_ms : Option ℕ

pub record SentWebhook : Type 0 where
  pub url : String
  pub body : String
  pub signature : String
  pub event_type : String

pub record WebhookTables : Type 0 where
  pub endpoints : List EndpointStatus
  pub deliveries : List DeliveryRow
  pub sent : List SentWebhook

-- How the request ends: with a status after some milliseconds, or with the message of an error.
pub data Fetch : Type 0 where
  answered : ℕ → ℕ → Fetch
  threw : Text → Fetch

pub record DeliveryAnswers : Type 0 where
  pub fetch : Fetch
  pub now : ℕ
  pub log_answers : Bool
  pub status_answers : Bool

-- The constraints of the table: endpoint_id, tenant_id and event_type are NOT NULL without a default.
abbrev pub insert_delivery : DeliveryColumns → List DeliveryRow → Option (List DeliveryRow)
insert_delivery c rows = elim c.endpoint_id [
  | none ↦ none
  | some endpoint ↦ elim c.tenant_id [
    | none ↦ none
    | some tenant ↦ elim c.event_type [
      | none ↦ none
      | some event ↦ some (
          record {
            endpoint_id = endpoint;
            tenant_id = tenant;
            event_type = event;
            attempt = or_else c.attempt 1;
            status_code = c.status_code;
            success = or_else c.success false;
            duration_ms = c.duration_ms;
          }
          ∷ rows)
    ]
  ]
]

-- An error of the statement is caught.
abbrev pub inserted : Bool → DeliveryColumns → List DeliveryRow → List DeliveryRow
inserted false c rows = rows
inserted true c rows = elim (insert_delivery c rows) [ none ↦ rows | some added ↦ added ]

-- An identifier that is not falsy.
abbrev pub endpoint_of : DeliveryJob → Option String
endpoint_of j = elim j.endpoint_id [ none ↦ none | some i ↦ if is_empty i then none else some i ]

abbrev pub record_delivery : Bool → DeliveryJob → ℕ → ℕ → Bool → ℕ → WebhookTables → WebhookTables
record_delivery answers j n status success ms db = elim (endpoint_of j) [
  | none ↦ db
  | some i ↦ record db {
    deliveries =
        inserted answers
          (record {
            endpoint_id = some i;
            tenant_id = none;
            event_type = some j.event_type;
            attempt = some (n + 1);
            status_code = some status;
            success = some success;
            duration_ms = some ms;
          })
          db.deliveries;
  }
]

abbrev pub is_endpoint : String → EndpointStatus → Bool
is_endpoint i r = r.id == i

abbrev pub cleared : EndpointStatus → EndpointStatus
cleared r = record r { last_error = none; last_error_at = none }

abbrev pub with_error : Text → ℕ → EndpointStatus → EndpointStatus
with_error message now r = record r {
  last_error = some (take 500 message);
  last_error_at = some now;
}

-- last_error_at IS NULL OR last_error_at < NOW() - INTERVAL '1 second'
abbrev pub is_due : ℕ → EndpointStatus → Bool
is_due now r = elim r.last_error_at [ none ↦ true | some at ↦ ltb (at + 1000) now ]

-- The status of an endpoint after a success, or after the error of a message.
abbrev pub updated : String → ℕ → Option Text → List EndpointStatus → List EndpointStatus
updated i now none rows = update (is_endpoint i) cleared rows
updated i now (some message) rows =
    update (λ r. is_endpoint i r && is_due now r) (with_error message now) rows

abbrev pub update_endpoint_status :
    Bool → DeliveryJob → ℕ → Option Text → WebhookTables → WebhookTables
update_endpoint_status false j now error db = db
update_endpoint_status true j now error db = elim (endpoint_of j) [
  | none ↦ db
  | some i ↦ record db { endpoints = updated i now error db.endpoints }
]

-- `err.message || "Max retries exceeded"`
abbrev pub error_text : Text → Text
error_text [] = units "Max retries exceeded"
error_text (c ∷ cs) = c ∷ cs

abbrev pub is_ok : ℕ → Bool
is_ok status = leb 200 status && leb status 299

-- What the consumer learns of a failed delivery: statusCode, durationMs and message of the error.
pub record DeliveryError : Type 0 where
  pub status_code : ℕ
  pub duration_ms : ℕ
  pub message : Text

-- The rest of the callback, after the request.
abbrev pub on_delivered :
    Message → DeliveryAnswers → DeliveryJob → ℕ → ℕ → WebhookTables → WebhookTables
on_delivered m a j status ms db =
    update_endpoint_status a.status_answers j a.now none
      (record_delivery a.log_answers j (attempt m) status true ms db)

abbrev pub on_failed :
    Message → DeliveryAnswers → DeliveryJob → DeliveryError → WebhookTables → WebhookTables
on_failed m a j e db =
    let logged = record_delivery a.log_answers j (attempt m) e.status_code false e.duration_ms db in
    if last_attempt webhook m
    then update_endpoint_status a.status_answers j a.now (some (error_text e.message)) logged
    else logged

abbrev pub after_fetch :
    Message
    → DeliveryAnswers
    → DeliveryJob
    → DeliveryError ⊎ (ℕ × ℕ)
    → WebhookTables
    → Result × WebhookTables
after_fetch m a j (inl e) db = (failed (some e.status_code), on_failed m a j e db)
after_fetch m a j (inr d) db = (done, on_delivered m a j d.0 d.1 db)

module _ (parse : String → Option DeliveryJob) (hmac : String → String → String) (number : ℕ → Text)
    (host : String → Text) where
  abbrev pub request_of : DeliveryJob → SentWebhook
  request_of j = record {
    url = j.url;
    body = j.payload;
    signature = hmac j.payload j.secret;
    event_type = j.event_type;
  }

  abbrev pub http_error : DeliveryJob → ℕ → Text
  http_error j status =
      units "Webhook delivery failed: HTTP " ++ (number status ++ (units " from " ++ host j.url))

  -- The error, or the status and the duration.
  abbrev pub deliver_webhook : DeliveryJob → Fetch → DeliveryError ⊎ (ℕ × ℕ)
  deliver_webhook j (threw message) =
      inl (record { status_code = 0; duration_ms = 0; message = message })
  deliver_webhook j (answered status ms) =
      if is_ok status
      then inr (status, ms)
      else inl (record { status_code = status; duration_ms = ms; message = http_error j status })

  -- The processing of what a message is parsed as: how it ends, and the tables after it.
  abbrev pub process_webhook :
      Option DeliveryJob → Message → DeliveryAnswers → WebhookTables → Result × WebhookTables
  process_webhook none m a db = (malformed, db)
  process_webhook (some j) m a db =
      after_fetch m a j (deliver_webhook j a.fetch) (record db { sent = request_of j ∷ db.sent })

  -- The callback of channel.consume.
  unfoldable pub consume_webhook :
      Message → DeliveryAnswers → WebhookTables → List Action × WebhookTables
  unfolding start_webhook_worker
  consume_webhook m a db =
      let r = process_webhook (parse m.content) m a db in (start_webhook_worker m r.0, r.1)

  -- Messages that are consumed one after the other.
  abbrev pub run_webhook_worker : List (Message × DeliveryAnswers) → WebhookTables → WebhookTables
  run_webhook_worker [] db = db
  run_webhook_worker ((m, a) ∷ rest) db = run_webhook_worker rest (consume_webhook m a db).1
