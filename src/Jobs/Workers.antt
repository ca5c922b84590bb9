-- ===== src/Jobs/Workers.antt =====
-- The five queue consumers of apps/jobs-worker/src/handlers (email.ts, webhook.ts, alert.ts,
-- stripe.ts and export.ts): what each does with a message once it has been processed. A queue is declared with a
-- dead-letter queue (connection.ts), to which `nack(msg, false, false)` sends the message.
pub mod Conservation
pub mod Draining
mod Tests
use grain_guard.Prelude.{
  ℕ, zero, suc, ◌+◌, ◌-◌, String, Bool, true, false, ◌&&◌, ◌||◌, Option, none, some, List, [], ◌∷◌,
  ◌++◌, ltb, leb, if◌then◌else◌,
}

pub data Worker : Type 0 where
  email webhook alert stripe export : Worker

-- MAX_RETRIES
unfoldable pub max_retries : Worker → ℕ
max_retries email = 3
max_retries webhook = 5
max_retries alert = 3
max_retries stripe = 3
max_retries export = 3

-- `retry_count` is the header x-retry-count.
pub record Message : Type 0 where
  pub content : String
  pub retry_count : Option ℕ

-- (msg.properties.headers?.["x-retry-count"]) || 0
abbrev pub attempt : Message → ℕ
attempt m = elim m.retry_count [ none ↦ 0 | some n ↦ n ]

-- How the processing ended; an error may carry the field `code`.
pub data Result : Type 0 where
  malformed done : Result
  failed : Option ℕ → Result

pub data Action : Type 0 where
  ack dead_letter : Action
  send : Message → Action

abbrev pub retry : Message → Action
retry m = send (record m { retry_count = some (attempt m + 1) })

-- `status && status >= 400 && status < 500`
abbrev pub is_permanent : Option ℕ → Bool
is_permanent none = false
is_permanent (some status) = leb 400 status && ltb status 500

abbrev pub last_attempt : Worker → Message → Bool
last_attempt w m = leb (max_retries w - 1) (attempt m)

-- What each worker calls on the channel, in its order, the calls of a setTimeout callback included.
unfoldable pub start_email_worker : Message → Result → List Action
unfolding max_retries
start_email_worker m malformed = dead_letter ∷ []
start_email_worker m done = ack ∷ []
start_email_worker m (failed status) =
    if is_permanent status || last_attempt email m then dead_letter ∷ [] else retry m ∷ ack ∷ []

unfoldable pub start_webhook_worker : Message → Result → List Action
unfolding max_retries
start_webhook_worker m malformed = dead_letter ∷ []
start_webhook_worker m done = ack ∷ []
start_webhook_worker m (failed status) =
    if last_attempt webhook m then dead_letter ∷ [] else dead_letter ∷ retry m ∷ []

unfoldable pub start_alert_worker : Message → Result → List Action
unfolding max_retries
start_alert_worker m malformed = dead_letter ∷ []
start_alert_worker m done = ack ∷ []
start_alert_worker m (failed status) =
    if last_attempt alert m then dead_letter ∷ [] else dead_letter ∷ retry m ∷ []

unfoldable pub start_stripe_worker : Message → Result → List Action
unfolding max_retries
start_stripe_worker m malformed = dead_letter ∷ []
start_stripe_worker m done = ack ∷ []
start_stripe_worker m (failed status) =
    if last_attempt stripe m then dead_letter ∷ [] else retry m ∷ ack ∷ []

unfoldable pub start_export_worker : Message → Result → List Action
unfolding max_retries
start_export_worker m malformed = dead_letter ∷ []
start_export_worker m done = ack ∷ []
start_export_worker m (failed status) =
    if last_attempt export m then dead_letter ∷ [] else dead_letter ∷ retry m ∷ []

unfoldable pub settle : Worker → Message → Result → List Action
unfolding start_email_worker start_webhook_worker start_alert_worker start_stripe_worker
    start_export_worker
settle email m r = start_email_worker m r
settle webhook m r = start_webhook_worker m r
settle alert m r = start_alert_worker m r
settle stripe m r = start_stripe_worker m r
settle export m r = start_export_worker m r

-- The broker: the queue, its dead-letter queue, and the messages that were acknowledged.
pub record Broker : Type 0 where
  pub queue : List Message
  pub dlq : List Message
  pub acked : List Message

unfoldable pub perform : Message → List Action → Broker → Broker
perform m [] b = b
perform m (ack ∷ as_) b = perform m as_ (record b { acked = m ∷ b.acked })
perform m (dead_letter ∷ as_) b = perform m as_ (record b { dlq = m ∷ b.dlq })
perform m (send n ∷ as_) b = perform m as_ (record b { queue = b.queue ++ n ∷ [] })

-- One delivery: the head of the queue is processed with the result `r`.
unfoldable pub deliver : Worker → Result → List Message → Broker → Broker
unfolding settle perform
deliver w r [] b = b
deliver w r (m ∷ rest) b = perform m (settle w m r) (record b { queue = rest })

unfoldable pub step : Worker → Result → Broker → Broker
unfolding deliver
step w r b = deliver w r b.queue b

-- Deliveries one after the other, with their results.
unfoldable pub run : Worker → List Result → Broker → Broker
run w [] b = b
run w (r ∷ rs) b = run w rs (step w r b)
