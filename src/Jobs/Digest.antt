-- ===== src/Jobs/Digest.antt =====
-- apps/jobs-worker/src/handlers/digest.ts: the weekly digest. `render` stands for the text of an
-- e-mail, and `week_ago` is the time seven days before the run; which queries answer is an argument.
-- The timer that starts a run is left out.
pub mod Reaches
mod Tests
use grain_guard.Prelude.{
  ℕ, String, Bool, true, false, not, ◌&&◌, Option, none, some, List, [], ◌∷◌, ◌++◌, map, select,
  any, length, leb, if◌then◌else◌, ◌==◌,
}
use text.Mathlib.Text.{starts_with}
use grain_guard.Database.{Device, TenantUser}
use grain_guard.Gateway.Preferences.{PreferenceRow}

-- A row of tenants, with its name.
pub record NamedTenant : Type 0 where
  pub id : String
  pub name : String

-- A row of audit_events, with payload->>'level'.
pub record AuditEvent : Type 0 where
  pub tenant_id : String
  pub event_type : String
  pub level : Option String
  pub created_at : ℕ

pub record DigestTables : Type 0 where
  pub tenants : List NamedTenant
  pub users : List TenantUser
  pub preferences : List PreferenceRow
  pub devices : List Device
  pub audit : List AuditEvent

pub record Digest : Type 0 where
  pub alert_count : ℕ
  pub device_count : ℕ
  pub critical_count : ℕ

pub record DigestEmail : Type 0 where
  pub to : String
  pub subject : String
  pub text : String
  pub tenant_id : String

-- The query for the tenants of a run, and for a tenant that for its users and those for its counts.
pub record DigestAnswers : Type 0 where
  pub tenants : Bool
  pub users : String → Bool
  pub counts : String → Bool

-- JOIN notification_preferences … WHERE tu.tenant_id = $1 AND np.email_weekly_digest = TRUE
abbrev pub opted_in : String → TenantUser → PreferenceRow → Bool
opted_in t u p =
    u.tenant_id == t
    && p.tenant_id == u.tenant_id
    && p.user_id == u.auth_user_id
    && p.email_weekly_digest

abbrev pub addresses_of : String → TenantUser → List PreferenceRow → List String
addresses_of t u [] = []
addresses_of t u (p ∷ ps) =
    let rest = addresses_of t u ps in if opted_in t u p then u.email ∷ rest else rest

abbrev pub subscribers : String → List TenantUser → List PreferenceRow → List String
subscribers t [] ps = []
subscribers t (u ∷ us) ps = addresses_of t u ps ++ subscribers t us ps

abbrev is_alert : String → ℕ → AuditEvent → Bool
is_alert t week_ago e =
    e.tenant_id == t && starts_with e.event_type "alert" && leb week_ago e.created_at

abbrev is_critical : Option String → Bool
is_critical none = false
is_critical (some level) = level == "critical"

abbrev digest_of : String → ℕ → DigestTables → Digest
digest_of t week_ago db = record {
  alert_count = length (select (is_alert t week_ago) db.audit);
  device_count = length (select (λ (d : Device). d.tenant_id == t) db.devices);
  critical_count =
      length (select (λ (e : AuditEvent). is_alert t week_ago e && is_critical e.level) db.audit);
}

module _ (render : String → Digest → String) (subject : String → String) (answers : DigestAnswers)
    (week_ago : ℕ) (db : DigestTables) where
  abbrev pub digest_email : NamedTenant → String → DigestEmail
  digest_email tenant to = record {
    to = to;
    subject = subject tenant.name;
    text = render tenant.name (digest_of tenant.id week_ago db);
    tenant_id = tenant.id;
  }

  -- The e-mails of a tenant; none where a query throws, which the cycle catches.
  unfoldable pub send_digest_for_tenant : NamedTenant → List DigestEmail
  send_digest_for_tenant tenant =
      let users = subscribers tenant.id db.users db.preferences in
      if not (answers.users tenant.id) then [] else elim users [
        | [] ↦ []
        | u ∷ us ↦ if answers.counts tenant.id then map (digest_email tenant) (u ∷ us) else []
      ]

  -- SELECT DISTINCT … JOIN notification_preferences np … WHERE np.email_weekly_digest = TRUE
  abbrev pub has_subscriber : NamedTenant → Bool
  has_subscriber tenant =
      any (λ (p : PreferenceRow). p.tenant_id == tenant.id && p.email_weekly_digest) db.preferences

  abbrev pub send_digests : List NamedTenant → List DigestEmail
  send_digests [] = []
  send_digests (tenant ∷ rest) = send_digest_for_tenant tenant ++ send_digests rest

  unfoldable pub run_digest_cycle : List DigestEmail
  run_digest_cycle = if answers.tenants then send_digests (select has_subscriber db.tenants) else []
