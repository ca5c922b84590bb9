-- ===== src/Jobs/Webhook/Health.antt =====
-- What the status of an endpoint says of the deliveries.
pub mod Rows
use grain_guard.Prelude.{
  ℕ, ◌≡◌, refl, sym, ap, subst, ◌∙◌, String, Bool, true, false, ◌&&◌, ◌||◌, Option, none, some, ◌⊎◌,
  inl, inr, List, [], ◌∷◌, any, update, All, All-update, any-intro, if-intro, if◌then◌else◌,
  or_else, Bool-cases, Option-cases, is_empty, ltb, ◌==◌, eq_iff, eq_refl, arith,
}
use grain_guard.Dashboard.ExportCsv.{Text}
use grain_guard.Jobs.Workers.{Message, Result, attempt, webhook, last_attempt, malformed}
use grain_guard.Jobs.Webhook.{
  DeliveryJob, EndpointStatus, DeliveryError, DeliveryAnswers, WebhookTables, Fetch, answered,
  threw, endpoint_of, is_endpoint, cleared, with_error, is_due, updated, record_delivery,
  update_endpoint_status, is_ok, error_text, on_failed, on_delivered, after_fetch, deliver_webhook,
  http_error, process_webhook, consume_webhook, run_webhook_worker,
}
use grain_guard.Jobs.Webhook.Health.Rows.{
  has_error, shown, shows_error, IsTogether, any-endpoint, updated-AreTogether, other-shown,
  cleared-shown, failed-shown,
}

-- What a delivery says of an endpoint, if anything: that it has failed for good, or not.
abbrev is_success : Fetch → Bool
is_success (answered status ms) = is_ok status
is_success (threw message) = false

abbrev word_on : Message → Fetch → Option Bool
word_on m f =
    if is_success f then some false else if last_attempt webhook m then some true else none

abbrev names : String → Option String → Bool
names e none = false
names e (some i) = i == e

abbrev word_of : String → Option DeliveryJob → Message → Fetch → Option Bool
word_of e none m f = none
word_of e (some j) m f = if names e (endpoint_of j) then word_on m f else none

module _ (parse : String → Option DeliveryJob) (e : String) where
  abbrev word : Message × DeliveryAnswers → Option Bool
  word (m, a) = word_of e (parse m.content) m a.fetch

  -- The last word on an endpoint in a run.
  abbrev pub last_word : List (Message × DeliveryAnswers) → Option Bool
  last_word [] = none
  last_word (c ∷ rest) = elim (last_word rest) [ some b ↦ some b | none ↦ word c ]

module _ (e : String) where
  record Shows (b : Bool) (db : WebhookTables) : Type 0 where
    shows : shows_error e db ≡ b
    known : any (is_endpoint e) db.endpoints ≡ true
    together : All IsTogether db.endpoints

  module _ (b : Bool) (db : WebhookTables) (h : Shows b db) where
    record_delivery-Shows :
        (answers : Bool) (j : DeliveryJob) (n status ms : ℕ) (success : Bool)
        → Shows b (record_delivery answers j n status success ms db)
    record_delivery-Shows answers j n status ms success =
        any-intro (Shows b) (endpoint_of j) {b = db} h
          (λ i. record { shows = h.shows; known = h.known; together = h.together })

    own-Shows :
        (now : ℕ) (error : Option Text)
        → Shows (has_error error) (record db { endpoints = updated e now error db.endpoints })
    own-Shows now none = record {
      shows = cleared-shown e now db.endpoints;
      known = any-endpoint e e now none db.endpoints ∙ h.known;
      together = updated-AreTogether e e now none db.endpoints h.together;
    }
    own-Shows now (some t) = record {
      shows = failed-shown e now t db.endpoints h.together ∙ h.known;
      known = any-endpoint e e now (some t) db.endpoints ∙ h.known;
      together = updated-AreTogether e e now (some t) db.endpoints h.together;
    }

    status-Shows :
        (now : ℕ) (error : Option Text) (o : Option String)
        → Shows (or_else (if names e o then some (has_error error) else none) b) (elim o [
          | none ↦ db
          | some i ↦ record db { endpoints = updated i now error db.endpoints }
        ])
    status-Shows now error none = h
    status-Shows now error (some i) = elim (Bool-cases (i == e)) [
      | inl q ↦ rw q (
          subst
            (λ x.
              Shows (has_error error) (record db { endpoints = updated x now error db.endpoints }))
            (sym ((eq_iff i e).0 q)) (own-Shows now error))
      | inr q ↦ rw q (record {
        shows = other-shown e i now error db.endpoints q ∙ h.shows;
        known = any-endpoint e i now error db.endpoints ∙ h.known;
        together = updated-AreTogether e i now error db.endpoints h.together;
      })
    ]

  abbrev Spoken : Bool → Bool → Option Bool → WebhookTables → Type 0
  Spoken b named w db = Shows (or_else (if named then w else none) b) db

  module _ (m : Message) (a : DeliveryAnswers) (answers : a.status_answers ≡ true) (j : DeliveryJob)
      (b : Bool) (db : WebhookTables) (h : Shows b db) where
    update_endpoint_status-Shows :
        (error : Option Text)
        → Spoken b
            (names e (endpoint_of j))
            (some (has_error error))
            (update_endpoint_status a.status_answers j a.now error db)
    update_endpoint_status-Shows error =
        subst
          (λ x.
            Spoken b (names e (endpoint_of j)) (some (has_error error))
              (update_endpoint_status x j a.now error db))
          (sym answers) (status-Shows b db h a.now error (endpoint_of j))

  unsaid : (b named : Bool) (db : WebhookTables) → Shows b db → Spoken b named none db
  unsaid b named db h = if-intro (λ w. Shows (or_else w b) db) named h h

  module _ (m : Message) (a : DeliveryAnswers) (answers : a.status_answers ≡ true) (j : DeliveryJob)
      (b : Bool) (db : WebhookTables) (h : Shows b db) where
    on_delivered-Shows :
        (status ms : ℕ)
        → Spoken b (names e (endpoint_of j)) (some false) (on_delivered m a j status ms db)
    on_delivered-Shows status ms =
        update_endpoint_status-Shows m a answers j b
          (record_delivery a.log_answers j (attempt m) status true ms db)
          (record_delivery-Shows b db h a.log_answers j (attempt m) status ms true) none

    on_failed-Shows :
        (x : DeliveryError)
        → Spoken b
            (names e (endpoint_of j))
            (if last_attempt webhook m then some true else none)
            (on_failed m a j x db)
    on_failed-Shows x =
        let logged =
          record_delivery a.log_answers j (attempt m) x.status_code false x.duration_ms db in
        let l =
          record_delivery-Shows b db h a.log_answers j (attempt m) x.status_code x.duration_ms
            false in
        elim (Bool-cases (last_attempt webhook m)) [
          | inl q ↦
              rw q (
                update_endpoint_status-Shows m a answers j b logged l (some (error_text x.message)))
          | inr q ↦ rw q (unsaid b (names e (endpoint_of j)) logged l)
        ]

module _ (parse : String → Option DeliveryJob) (hmac : String → String → String) (number : ℕ → Text)
    (host : String → Text) (e : String) where
  after_fetch-Shows :
      (m : Message) (a : DeliveryAnswers) (answers : a.status_answers ≡ true) (j : DeliveryJob)
      (f : Fetch) (b : Bool) (db : WebhookTables)
      → Shows e b db
      → Spoken e b
          (names e (endpoint_of j))
          (word_on m f)
          (after_fetch m a j (deliver_webhook parse hmac number host j f) db).1
  after_fetch-Shows m a answers j (threw message) b db h =
      on_failed-Shows e m a answers j b db h
        (record { status_code = 0; duration_ms = 0; message = message })
  after_fetch-Shows m a answers j (answered status ms) b db h = elim (Bool-cases (is_ok status)) [
    | inl q ↦ rw q (on_delivered-Shows e m a answers j b db h status ms)
    | inr q ↦ rw q (
        on_failed-Shows e m a answers j b db h (record {
          status_code = status;
          duration_ms = ms;
          message = http_error parse hmac number host j status;
        }))
  ]

  process_webhook-Shows :
      (o : Option DeliveryJob) (m : Message) (a : DeliveryAnswers) (b : Bool) (db : WebhookTables)
      → a.status_answers ≡ true
      → Shows e b db
      → Shows e
          (or_else (word_of e o m a.fetch) b)
          (process_webhook parse hmac number host o m a db).1
  process_webhook-Shows none m a b db answers h = h
  process_webhook-Shows (some j) m a b db answers h =
      after_fetch-Shows m a answers j a.fetch b _
        (record { shows = h.shows; known = h.known; together = h.together })

  consume_webhook-Shows :
      (m : Message) (a : DeliveryAnswers) (b : Bool) (db : WebhookTables)
      → a.status_answers ≡ true
      → Shows e b db
      → Shows e (or_else (word parse e (m, a)) b) (consume_webhook parse hmac number host m a db).1
  unfolding consume_webhook
  consume_webhook-Shows m a b db answers h =
      process_webhook-Shows (parse m.content) m a b db answers h

  or_else-last :
      (o w : Option Bool) (b : Bool)
      → or_else (elim o [ some x ↦ some x | none ↦ w ]) b ≡ or_else o (or_else w b)
  or_else-last none w b = refl
  or_else-last (some x) w b = refl

  run_webhook_worker-Shows :
      (calls : List (Message × DeliveryAnswers)) (b : Bool) (db : WebhookTables)
      → All (λ (c : Message × DeliveryAnswers). c.1.status_answers ≡ true) calls
      → Shows e b db
      → Shows e
          (or_else (last_word parse e calls) b)
          (run_webhook_worker parse hmac number host calls db)
  run_webhook_worker-Shows [] b db answer h = h
  run_webhook_worker-Shows ((m, a) ∷ rest) b db answer h =
      rw (or_else-last (last_word parse e rest) (word parse e (m, a)) b) (
        run_webhook_worker-Shows rest (or_else (word parse e (m, a)) b)
          (consume_webhook parse hmac number host m a db).1 answer.1
          (consume_webhook-Shows m a b db answer.0 h))

  -- After a run of the webhook worker in which the statements on webhook_endpoints answer, an endpoint
  -- that is in the table shows an error exactly where the last delivery to it that was answered with
  -- success, or that was the last attempt of its message, is one that failed; where there is none, the
  -- endpoint shows an error where it did before. At the beginning a row without an error has no time
  -- of an error.
  pub run_webhook_worker-shows_error :
      (calls : List (Message × DeliveryAnswers)) (db : WebhookTables)
      → All (λ (c : Message × DeliveryAnswers). c.1.status_answers ≡ true) calls
      → any (is_endpoint e) db.endpoints ≡ true
      → All IsTogether db.endpoints
      → shows_error e (run_webhook_worker parse hmac number host calls db)
        ≡ or_else (last_word parse e calls) (shows_error e db)
  run_webhook_worker-shows_error calls db answer k t =
      (run_webhook_worker-Shows calls (shows_error e db) db answer
        (record { shows = refl; known = k; together = t })).shows
