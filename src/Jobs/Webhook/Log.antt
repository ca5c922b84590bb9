-- ===== src/Jobs/Webhook/Log.antt =====
-- What the worker logs of its deliveries.
use grain_guard.Prelude.{
  ℕ, ◌≡◌, refl, ◌∙◌, String, Bool, true, false, Option, none, some, List, [], ◌∷◌, any-intro,
}
use grain_guard.Dashboard.ExportCsv.{Text}
use grain_guard.Jobs.Workers.{Message}
use grain_guard.Jobs.Webhook.Callback.{after_fetch-keeps}
use grain_guard.Jobs.Webhook.{
  DeliveryJob, DeliveryRow, DeliveryAnswers, WebhookTables, endpoint_of, record_delivery,
  deliver_webhook, process_webhook, consume_webhook, run_webhook_worker,
}

abbrev Logs : List DeliveryRow → WebhookTables → Type 0
Logs rows db = db.deliveries ≡ rows

-- The statement names no tenant_id, which is NOT NULL.
record_delivery-Logs :
    (rows : List DeliveryRow) (answers : Bool) (j : DeliveryJob) (n status ms : ℕ) (success : Bool)
    (db : WebhookTables)
    → Logs rows db
    → Logs rows (record_delivery answers j n status success ms db)
record_delivery-Logs rows true j n status ms success db h =
    any-intro (Logs rows) (endpoint_of j) {b = db} h (λ i. h)
record_delivery-Logs rows false j n status ms success db h =
    any-intro (Logs rows) (endpoint_of j) {b = db} h (λ i. h)

module _ (parse : String → Option DeliveryJob) (hmac : String → String → String) (number : ℕ → Text)
    (host : String → Text) where
  process_webhook-Logs :
      (o : Option DeliveryJob) (m : Message) (a : DeliveryAnswers) (db : WebhookTables)
      → Logs db.deliveries (process_webhook parse hmac number host o m a db).1
  process_webhook-Logs none m a db = refl
  process_webhook-Logs (some j) m a db =
      after_fetch-keeps (Logs db.deliveries) (record_delivery-Logs db.deliveries) (λ rows x h. h) m
        a j (deliver_webhook parse hmac number host j a.fetch) _ refl

  consume_webhook-Logs :
      (m : Message) (a : DeliveryAnswers) (db : WebhookTables)
      → Logs db.deliveries (consume_webhook parse hmac number host m a db).1
  unfolding consume_webhook
  consume_webhook-Logs m a db = process_webhook-Logs (parse m.content) m a db

  -- Whatever messages the webhook worker consumes and however their deliveries end, it logs none of
  -- them in webhook_deliveries, whose rows stay as they are.
  pub run_webhook_worker-deliveries :
      (calls : List (Message × DeliveryAnswers)) (db : WebhookTables)
      → (run_webhook_worker parse hmac number host calls db).deliveries ≡ db.deliveries
  run_webhook_worker-deliveries [] db = refl
  run_webhook_worker-deliveries ((m, a) ∷ rest) db =
      run_webhook_worker-deliveries rest (consume_webhook parse hmac number host m a db).1
      ∙ consume_webhook-Logs m a db
