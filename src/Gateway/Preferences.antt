-- ===== src/Gateway/Preferences.antt =====
-- apps/gateway/src/routes/notificationPreferences.ts: the preferences that a user sets, as the alert
-- handler of the jobs worker reads them. The time of the last change is left out.
pub mod Effect
use grain_guard.Prelude.{
  ℕ, String, Bool, true, false, not, ◌&&◌, Option, none, some, List, [], ◌∷◌, select, find, update,
  any, includes, or_else, if◌then◌else◌, ◌==◌,
}
use grain_guard.Gateway.Team.{User}
use grain_guard.Jobs.Alert.{Preferences}

-- notification_preferences
pub record PreferenceRow : Type 0 where
  pub tenant_id : String
  pub user_id : String
  pub email_alerts : Bool
  pub email_weekly_digest : Bool
  pub webhook_alerts : Bool
  pub alert_levels : List String

pub record PreferenceBody : Type 0 where
  pub email_alerts : Option Bool
  pub email_weekly_digest : Option Bool
  pub webhook_alerts : Option Bool
  pub alert_levels : Option (List String)

pub data PreferenceReply : Type 0 where
  bad_levels : PreferenceReply
  preferences : PreferenceRow → PreferenceReply

abbrev default_levels : List String
default_levels = "warn" ∷ "critical" ∷ []

-- The values $3 to $6 of the statement, with their defaults, in the row of a user.
abbrev pub row_of_preferences : User → PreferenceBody → PreferenceRow
row_of_preferences u body = record {
  tenant_id = u.tenant_id;
  user_id = u.sub;
  email_alerts = or_else body.email_alerts true;
  email_weekly_digest = or_else body.email_weekly_digest true;
  webhook_alerts = or_else body.webhook_alerts false;
  alert_levels = or_else body.alert_levels default_levels;
}

-- WHERE tenant_id = $1 AND user_id = $2
abbrev pub is_own : User → PreferenceRow → Bool
is_own u r = r.tenant_id == u.tenant_id && r.user_id == u.sub

-- SET … = COALESCE($3, …): the values are never null.
abbrev pub overwritten : PreferenceRow → PreferenceRow → PreferenceRow
overwritten new r = record r {
  email_alerts = new.email_alerts;
  email_weekly_digest = new.email_weekly_digest;
  webhook_alerts = new.webhook_alerts;
  alert_levels = new.alert_levels;
}

-- INSERT … ON CONFLICT (tenant_id, user_id) DO UPDATE
abbrev pub upsert : User → PreferenceRow → List PreferenceRow → List PreferenceRow
upsert u row rows =
    if any (is_own u) rows then update (is_own u) (overwritten row) rows else row ∷ rows

abbrev pub has_bad_level : Option (List String) → Bool
has_bad_level none = false
has_bad_level (some levels) = any (λ l. not (includes l default_levels)) levels

unfoldable pub get_preferences : User → List PreferenceRow → PreferenceReply
get_preferences u rows = elim (find (is_own u) rows) [
  | some r ↦ preferences r
  | none ↦ preferences (record {
    tenant_id = u.tenant_id;
    user_id = u.sub;
    email_alerts = true;
    email_weekly_digest = true;
    webhook_alerts = false;
    alert_levels = default_levels;
  })
]

unfoldable pub put_preferences :
    User → PreferenceBody → List PreferenceRow → PreferenceReply × List PreferenceRow
put_preferences u body rows =
    if has_bad_level body.alert_levels
    then (bad_levels, rows)
    else (preferences (row_of_preferences u body), upsert u (row_of_preferences u body) rows)

-- The columns that the alert handler reads.
abbrev pub as_preferences : PreferenceRow → Preferences
as_preferences r = record {
  tenant_id = r.tenant_id;
  user_id = r.user_id;
  email_alerts = r.email_alerts;
  alert_levels = some r.alert_levels;
}
