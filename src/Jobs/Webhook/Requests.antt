-- ===== src/Jobs/Webhook/Requests.antt =====
-- How many requests the webhook worker makes for the messages of its queue.
use grain_guard.Prelude.{
  ℕ, suc, ◌+◌, ◌*◌, ◌≤◌, ◌≡◌, refl, ap, String, Option, none, some, List, [], ◌∷◌, All, length,
  arith, ◌⊎◌, any-intro,
}
use grain_guard.Dashboard.ExportCsv.{Text}
use grain_guard.Jobs.Workers.{
  Message, attempt, webhook, max_retries, Broker, perform, deliver, settle,
}
use grain_guard.Jobs.Workers.Draining.{backlog, deliver-backlog}
use grain_guard.Jobs.Webhook.Callback.{after_fetch-keeps}
use grain_guard.Jobs.Webhook.{
  DeliveryJob, SentWebhook, DeliveryError, DeliveryAnswers, WebhookTables, endpoint_of, after_fetch,
  deliver_webhook, request_of, process_webhook, consume_webhook,
}

abbrev Sends : List SentWebhook → WebhookTables → Type 0
Sends sent db = db.sent ≡ sent

after_fetch-Sends :
    (m : Message) (a : DeliveryAnswers) (j : DeliveryJob) (d : DeliveryError ⊎ (ℕ × ℕ))
    (db : WebhookTables)
    → Sends db.sent (after_fetch m a j d db).1
after_fetch-Sends m a j d db =
    after_fetch-keeps (Sends db.sent)
      (λ answers k n status ms success x h.
        any-intro (Sends db.sent) (endpoint_of k) {b = x} h (λ i. h))
      (λ rows x h. h) m a j d db refl

module _ (parse : String → Option DeliveryJob) (hmac : String → String → String) (number : ℕ → Text)
    (host : String → Text) where
  process_webhook-sent :
      (o : Option DeliveryJob) (m : Message) (a : DeliveryAnswers) (db : WebhookTables)
      → length (process_webhook parse hmac number host o m a db).1.sent ≤ suc (length db.sent)
  process_webhook-sent none m a db = omega arith
  process_webhook-sent (some j) m a db =
      let e = ap length (
        after_fetch-Sends m a j (deliver_webhook parse hmac number host j a.fetch)
          (record db { sent = request_of parse hmac number host j ∷ db.sent })) in
      omega (arith, e)

  -- The consumer with its queue: the head of the queue is consumed, and its calls of the channel are
  -- performed.
  abbrev pub consume_head :
      DeliveryAnswers → List Message → Broker × WebhookTables → Broker × WebhookTables
  consume_head a [] s = s
  consume_head a (m ∷ rest) (b, db) =
      let r = consume_webhook parse hmac number host m a db in
      (perform m r.0 (record b { queue = rest }), r.1)

  abbrev pub run_queue : List DeliveryAnswers → Broker × WebhookTables → Broker × WebhookTables
  run_queue [] s = s
  run_queue (a ∷ rest) s = run_queue rest (consume_head a s.0.queue s)

  consume_head-le :
      (a : DeliveryAnswers) (q : List Message) (b : Broker) (db : WebhookTables)
      → b.queue ≡ q
      → length (consume_head a q (b, db)).1.sent
          + backlog webhook (consume_head a q (b, db)).0.queue
        ≤ length db.sent + backlog webhook q
  unfolding consume_webhook deliver settle
  consume_head-le a [] b db e = omega (arith, ap (backlog webhook) e)
  consume_head-le a (m ∷ rest) b db e =
      let o = process_webhook parse hmac number host (parse m.content) m a db in
      let s = process_webhook-sent (parse m.content) m a db in
      let k = deliver-backlog webhook o.0 m rest b in omega (arith, s, k)

  run_queue-le :
      (answers : List DeliveryAnswers) (b : Broker) (db : WebhookTables)
      → length (run_queue answers (b, db)).1.sent
          + backlog webhook (run_queue answers (b, db)).0.queue
        ≤ length db.sent + backlog webhook b.queue
  run_queue-le [] b db = omega arith
  run_queue-le (a ∷ rest) b db =
      let s = consume_head a b.queue (b, db) in
      let h = consume_head-le a b.queue b db refl in
      let r = run_queue-le rest s.0 s.1 in omega (arith, h, r)

  backlog-fresh :
      (q : List Message)
      → All (λ m. attempt m ≡ 0) q
      → backlog webhook q ≡ max_retries webhook * length q
  unfolding max_retries
  backlog-fresh [] h = refl
  backlog-fresh (m ∷ q) h = let r = backlog-fresh q h.1 in let f = h.0 in omega (arith, r, f)

  -- However many deliveries the webhook worker makes and however they end, for the messages of a queue
  -- that have not been tried before it sends no more than five requests each.
  pub run_queue-sent_le :
      (answers : List DeliveryAnswers) (b : Broker) (db : WebhookTables)
      → All (λ m. attempt m ≡ 0) b.queue
      → length (run_queue answers (b, db)).1.sent ≤ length db.sent + 5 * length b.queue
  unfolding max_retries
  run_queue-sent_le answers b db h =
      let r = run_queue-le answers b db in let f = backlog-fresh b.queue h in omega (arith, r, f)
