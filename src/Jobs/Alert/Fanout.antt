-- ===== src/Jobs/Alert/Fanout.antt =====
-- Whom an alert reaches.
use grain_guard.Prelude.{
  String, true, false, ◌≡◌, refl, sym, subst, ap, Bool-cases, inl, inr, some, List, [], ◌∷◌, All,
  map, select, includes, arith, ◌==◌, eq_iff,
}
use grain_guard.Jobs.Alert.{
  AlertJob, Preferences, Endpoint, Tables, Answers, AlertEmail, WebhookJob, subscribes,
  level_or_warn, should_send_email, webhook_job, send_emails, fan_out_to_webhooks, process_alert,
  user_of, preferences_of,
}
use grain_guard.Database.{TenantUser}
use mathlib.Core.List.{Mem, mem-cons_of_mem, mem-cons_self}

abbrev pub addressees : List AlertEmail → List String
addressees es = map (λ (e : AlertEmail). e.to) es

module _ (lower : String → String) (answers : Answers) (db : Tables) {Content : Type 0}
    (render : AlertJob Content → String → String) where
  send_emails_open :
      (job : AlertJob Content) (rs : List String)
      → All (λ r. answers.user r ≡ false) rs
      → addressees (send_emails lower answers db render job rs) ≡ rs
  unfolding send_emails should_send_email
  send_emails_open job [] h = refl
  send_emails_open job (r ∷ rs) h = rw h.0 (ap (λ l. r ∷ l) (send_emails_open job rs h.1))

  -- Where the database does not answer, an alert goes to every recipient, in their order.
  pub process_alert-fails_open :
      (job : AlertJob Content)
      → All (λ r. answers.user r ≡ false) job.recipients
      → addressees (process_alert lower answers db render job).0 ≡ job.recipients
  unfolding process_alert
  process_alert-fails_open job h = send_emails_open job job.recipients h

  -- An endpoint of the tenant that is enabled and subscribes to alerts gets the alert under its
  -- own address, secret and id.
  abbrev pub IsAddressed : String → WebhookJob Content → Type 0
  IsAddressed tenant w =
      (e : Endpoint) × Mem e db.endpoints
      × (subscribes tenant e ≡ true)
      × (w.url ≡ e.url)
      × (w.secret ≡ e.secret)
      × (w.endpoint_id ≡ e.id)
      × (w.tenant_id ≡ e.tenant_id)

  webhooks-IsAddressed :
      (job : AlertJob Content) (es : List Endpoint)
      → ((e : Endpoint) → Mem e es → Mem e db.endpoints)
      → All
          (IsAddressed job.tenant_id)
          (map (webhook_job lower answers db render job) (select (subscribes job.tenant_id) es))
  webhooks-IsAddressed job [] k = tt
  webhooks-IsAddressed job (e ∷ es) k =
      let rest = webhooks-IsAddressed job es (λ x m. k x (mem-cons_of_mem e m)) in
      elim (Bool-cases (subscribes job.tenant_id e)) [
        | inl s ↦ rw s (
          (
            e,
            k e mem-cons_self,
            s,
            refl,
            refl,
            refl,
            sym ((eq_iff e.tenant_id job.tenant_id).0 (ground (arith, s))),
          ),
          rest,
        )
        | inr s ↦ rw s rest
      ]

  -- Every webhook of an alert goes to an endpoint of the alert's tenant that is in the table, is
  -- enabled and subscribes to alerts, with the endpoint's own address, secret and id.
  pub process_alert-IsAddressed :
      (job : AlertJob Content)
      → All (IsAddressed job.tenant_id) (process_alert lower answers db render job).1
  unfolding process_alert fan_out_to_webhooks
  process_alert-IsAddressed job = elim (Bool-cases answers.endpoints) [
    | inl e ↦ rw e (webhooks-IsAddressed job db.endpoints (λ x m. m))
    | inr e ↦ rw e tt
  ]

  -- The recipient's preferences are found, and they turn the e-mails off.
  abbrev pub IsOptedOut : String → String → Type 0
  IsOptedOut tenant r =
      (u : TenantUser) × (p : Preferences) × (answers.user r ≡ true)
      × (user_of lower answers db tenant r ≡ some u)
      × (answers.preferences r ≡ true)
      × (preferences_of lower answers db tenant u.auth_user_id ≡ some p)
      × (p.email_alerts ≡ false)

  opted_out_refused :
      (tenant r level : String)
      → IsOptedOut tenant r
      → should_send_email lower answers db tenant r level ≡ false
  unfolding should_send_email
  opted_out_refused tenant r level (u, p, a, f, b, g, o) = rw (a, f, b, g, o) refl

  not_sent :
      (tenant r x level : String)
      → IsOptedOut tenant r
      → should_send_email lower answers db tenant x level ≡ true
      → (x == r) ≡ false
  not_sent tenant r x level o f = elim (Bool-cases (x == r)) [
    | inr q ↦ q
    | inl q ↦ absurd (
        ground (
          arith,
          opted_out_refused tenant r level o,
          subst (λ y. should_send_email lower answers db tenant y level ≡ true) ((eq_iff x r).0 q)
              f,
        ))
  ]

  send_emails-opted_out :
      (job : AlertJob Content) (r : String) (rs : List String)
      → IsOptedOut job.tenant_id r
      → includes r (addressees (send_emails lower answers db render job rs)) ≡ false
  unfolding send_emails
  send_emails-opted_out job r [] o = refl
  send_emails-opted_out job r (x ∷ rs) o =
      elim (Bool-cases
        (should_send_email lower answers db job.tenant_id x (level_or_warn job.level))) [
          | inr f ↦ rw f (send_emails-opted_out job r rs o)
          | inl f ↦
              rw (f, not_sent job.tenant_id r x (level_or_warn job.level) o f)
                (send_emails-opted_out job r rs o)
        ]

  -- A recipient whose preferences are found and turn e-mails off gets none, whatever the level of
  -- the alert and however often the job names the address.
  pub process_alert-opted_out :
      (job : AlertJob Content) (r : String)
      → IsOptedOut job.tenant_id r
      → includes r (addressees (process_alert lower answers db render job).0) ≡ false
  unfolding process_alert
  process_alert-opted_out job r o = send_emails-opted_out job r job.recipients o
