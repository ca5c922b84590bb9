-- ===== src/Jobs/Alert.antt =====
-- apps/jobs-worker/src/handlers/alert.ts: the e-mails and webhooks that an alert becomes. The texts
-- of the e-mail and the data of the webhook, with the time in them, are parameters, as is `lower`,
-- SQL's LOWER.
pub mod Fanout
mod Tests
use grain_guard.Prelude.{
  String, Bool, true, false, not, ◌&&◌, ◌||◌, Option, none, some, List, [], ◌∷◌, ◌++◌, or_else,
  is_empty, includes, select, find, map, if◌then◌else◌, ◌==◌,
}
use grain_guard.Database.{TenantUser}

-- The fields of the job that decide where it goes; the rest is in `content`.
pub record AlertJob (Content : Type 0) : Type 0 where
  pub tenant_id : String
  pub level : Option String
  pub recipients : List String
  pub content : Content

pub record Preferences : Type 0 where
  pub tenant_id : String
  pub user_id : String
  pub email_alerts : Bool
  pub alert_levels : Option (List String)

pub record Endpoint : Type 0 where
  pub id : String
  pub tenant_id : String
  pub url : String
  pub secret : String
  pub enabled : Bool
  pub event_types : List String

pub record Tables : Type 0 where
  pub users : List TenantUser
  pub preferences : List Preferences
  pub endpoints : List Endpoint

-- Which queries answer: those for the row of a recipient and its preferences, and the one for the
-- endpoints.
pub record Answers : Type 0 where
  pub user : String → Bool
  pub preferences : String → Bool
  pub endpoints : Bool

pub record AlertEmail : Type 0 where
  pub to : String
  pub text : String
  pub tenant_id : String

pub record WebhookJob (Content : Type 0) : Type 0 where
  pub url : String
  pub secret : String
  pub tenant_id : String
  pub endpoint_id : String
  pub level : String
  pub alert : Content

abbrev pub wants : Preferences → String → Bool
wants p level =
    p.email_alerts
    && (is_empty level || includes level (or_else p.alert_levels ("warn" ∷ "critical" ∷ [])))

abbrev pub subscribes : String → Endpoint → Bool
subscribes tenant e = e.tenant_id == tenant && e.enabled && includes "telemetry.alert" e.event_types

-- job.level || "warn"
abbrev pub level_or_warn : Option String → String
level_or_warn none = "warn"
level_or_warn (some level) = if is_empty level then "warn" else level

module _ (lower : String → String) (answers : Answers) (db : Tables) where
  abbrev pub user_of : String → String → Option TenantUser
  user_of tenant recipient =
      find (λ (u : TenantUser). u.tenant_id == tenant && lower u.email == lower recipient) db.users

  abbrev pub preferences_of : String → String → Option Preferences
  preferences_of tenant user =
      find (λ (p : Preferences). p.tenant_id == tenant && p.user_id == user) db.preferences

  unfoldable pub should_send_email : String → String → String → Bool
  should_send_email tenant recipient level =
      if not (answers.user recipient) then true else elim (user_of tenant recipient) [
        | none ↦ true
        | some u ↦
            if not (answers.preferences recipient)
            then true
            else elim (preferences_of tenant u.auth_user_id) [
              | none ↦ true
              | some p ↦ wants p level
            ]
      ]

  module _ {Content : Type 0} (render : AlertJob Content → String → String) where
    abbrev pub alert_email : AlertJob Content → String → AlertEmail
    alert_email job recipient = record {
      to = recipient;
      text = render job (level_or_warn job.level);
      tenant_id = job.tenant_id;
    }

    abbrev pub webhook_job : AlertJob Content → Endpoint → WebhookJob Content
    webhook_job job e = record {
      url = e.url;
      secret = e.secret;
      tenant_id = job.tenant_id;
      endpoint_id = e.id;
      level = level_or_warn job.level;
      alert = job.content;
    }

    unfoldable pub send_emails : AlertJob Content → List String → List AlertEmail
    send_emails job [] = []
    send_emails job (recipient ∷ recipients) =
        let rest = send_emails job recipients in
        if should_send_email job.tenant_id recipient (level_or_warn job.level)
        then alert_email job recipient ∷ rest
        else rest

    unfoldable pub fan_out_to_webhooks : AlertJob Content → List (WebhookJob Content)
    fan_out_to_webhooks job =
        if answers.endpoints
        then map (webhook_job job) (select (subscribes job.tenant_id) db.endpoints)
        else []

    -- processAlert: what goes to the queue of e-mails and to that of webhooks
    unfoldable pub process_alert : AlertJob Content → List AlertEmail × List (WebhookJob Content)
    process_alert job = (send_emails job job.recipients, fan_out_to_webhooks job)
