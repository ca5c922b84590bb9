-- ===== src/Jobs/Webhook/Tests.antt =====
-- Deliveries to two endpoints.
use grain_guard.Prelude.{
  length, ◌≤◌, ◌+◌, ◌*◌, ◌≡◌, refl, ℕ, String, true, false, none, some, Option, List, [], ◌∷◌, ◌==◌,
  if◌then◌else◌,
}
use grain_guard.Dashboard.ExportCsv.{Text, units}
use grain_guard.Jobs.Webhook.Requests.{run_queue, run_queue-sent_le}
use grain_guard.Jobs.Workers.{Broker, perform, Message, max_retries}
use grain_guard.Jobs.Webhook.{
  DeliveryJob, DeliveryAnswers, EndpointStatus, WebhookTables, Fetch, answered, threw,
  consume_webhook, run_webhook_worker,
}
use grain_guard.Jobs.Webhook.Log.{run_webhook_worker-deliveries}
use grain_guard.Jobs.Webhook.Health.Rows.{shows_error}
use grain_guard.Jobs.Webhook.Health.{run_webhook_worker-shows_error}

abbrev job_for : String → DeliveryJob
job_for i = record {
  url = "https://silo.org";
  payload = "{}";
  tenant_id = "t1";
  secret = "s";
  event_type = "telemetry.alert";
  endpoint_id = some i;
}

-- The content "?" is no JSON.
abbrev parse : String → Option DeliveryJob
parse s = if s == "?" then none else some (job_for s)

abbrev hmac : String → String → String
hmac body secret = secret

abbrev number : ℕ → Text
number n = units "500"

abbrev host : String → Text
host url = units "silo.org"

abbrev endpoint : String → EndpointStatus
endpoint i = record { id = i; last_error = none; last_error_at = none }

abbrev two_endpoints : WebhookTables
two_endpoints = record {
  endpoints = endpoint "w1" ∷ endpoint "w2" ∷ [];
  deliveries = [];
  sent = [];
}

abbrev at_attempt : String → ℕ → Fetch → Message × DeliveryAnswers
at_attempt content n f = (
  record { content = content; retry_count = some n },
  record { fetch = f; now = 9000; log_answers = true; status_answers = true },
)

-- The last attempt for w1 fails, and so does the first one for w2.
abbrev deliveries : List (Message × DeliveryAnswers)
deliveries =
    at_attempt "w1" 0 (answered 200 12)
    ∷ at_attempt "?" 0 (threw [])
    ∷ at_attempt "w1" 4 (answered 500 30)
    ∷ at_attempt "w2" 0 (threw [])
    ∷ []

run_webhook_worker-deliveries_example :
    (run_webhook_worker parse hmac number host deliveries two_endpoints).deliveries ≡ []
run_webhook_worker-deliveries_example =
    run_webhook_worker-deliveries parse hmac number host deliveries two_endpoints

run_webhook_worker-shows_error_example :
    shows_error "w1" (run_webhook_worker parse hmac number host deliveries two_endpoints) ≡ true
unfolding max_retries
run_webhook_worker-shows_error_example =
    run_webhook_worker-shows_error parse hmac number host "w1" deliveries two_endpoints
      (refl, (refl, (refl, (refl, tt)))) refl ((λ e. refl), ((λ e. refl), tt))

run_shows :
    shows_error "w2" (run_webhook_worker parse hmac number host deliveries two_endpoints) ≡ false
unfolding consume_webhook max_retries
run_shows = refl

-- Two messages, and six deliveries of which the last succeeds.
abbrev two_queued : Broker
two_queued = record {
  queue =
      record { content = "w1"; retry_count = none }
      ∷ record { content = "?"; retry_count = none }
      ∷ [];
  dlq = [];
  acked = [];
}

abbrev failing : DeliveryAnswers
failing = record { fetch = threw []; now = 9000; log_answers = false; status_answers = true }

abbrev answers : List DeliveryAnswers
answers =
    failing
    ∷ failing
    ∷ failing
    ∷ failing
    ∷ failing
    ∷ record failing { fetch = answered 204 10 }
    ∷ []

run_queue-sent_le_example :
    length (run_queue parse hmac number host answers (two_queued, two_endpoints)).1.sent ≤ 0 + 5 * 2
run_queue-sent_le_example =
    run_queue-sent_le parse hmac number host answers two_queued two_endpoints (refl, (refl, tt))

sends_five :
    length (run_queue parse hmac number host answers (two_queued, two_endpoints)).1.sent ≡ 5
unfolding consume_webhook perform max_retries
sends_five = refl
