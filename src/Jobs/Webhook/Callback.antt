-- ===== src/Jobs/Webhook/Callback.antt =====
-- What holds of the tables through the statements and the status update of a delivery.
use grain_guard.Prelude.{
  ℕ, Option, none, some, List, ◌⊎◌, inl, inr, any-intro, if-intro, Bool, true, false,
}
use grain_guard.Dashboard.ExportCsv.{Text}
use grain_guard.Jobs.Workers.{Message, attempt, webhook, last_attempt}
use grain_guard.Jobs.Webhook.{
  DeliveryJob, EndpointStatus, updated, error_text, DeliveryError, DeliveryAnswers, WebhookTables,
  endpoint_of, record_delivery, update_endpoint_status, after_fetch,
}

module _ (P : WebhookTables → Type 0)
    (logs : (answers : Bool) (j : DeliveryJob) (n status ms : ℕ) (success : Bool)
        (db : WebhookTables)
      → P db
      → P (record_delivery answers j n status success ms db))
    (shows : (rows : List EndpointStatus) (db : WebhookTables)
      → P db
      → P (record db { endpoints = rows })) where
  update_endpoint_status-keeps :
      (answers : Bool) (j : DeliveryJob) (now : ℕ) (error : Option Text) (db : WebhookTables)
      → P db
      → P (update_endpoint_status answers j now error db)
  update_endpoint_status-keeps false j now error db h = h
  update_endpoint_status-keeps true j now error db h =
      any-intro P (endpoint_of j) {b = db} h (λ i. shows (updated i now error db.endpoints) db h)

  pub after_fetch-keeps :
      (m : Message) (a : DeliveryAnswers) (j : DeliveryJob) (d : DeliveryError ⊎ (ℕ × ℕ))
      (db : WebhookTables)
      → P db
      → P (after_fetch m a j d db).1
  after_fetch-keeps m a j (inl e) db h =
      let l = logs a.log_answers j (attempt m) e.status_code e.duration_ms false db h in
      if-intro P (last_attempt webhook m)
        (update_endpoint_status-keeps a.status_answers j a.now (some (error_text e.message))
          (record_delivery a.log_answers j (attempt m) e.status_code false e.duration_ms db) l)
        l
  after_fetch-keeps m a j (inr d) db h =
      update_endpoint_status-keeps a.status_answers j a.now none
        (record_delivery a.log_answers j (attempt m) d.0 true d.1 db)
        (logs a.log_answers j (attempt m) d.0 d.1 true db h)
