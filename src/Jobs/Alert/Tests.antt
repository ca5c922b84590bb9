-- ===== src/Jobs/Alert/Tests.antt =====
-- An alert for a tenant with one user who has turned e-mails off, and an endpoint.
use grain_guard.Prelude.{String, ◌≡◌, refl, none, some, [], ◌∷◌, true, false}
use grain_guard.Database.{TenantUser}
use grain_guard.Jobs.Alert.{
  AlertJob, Preferences, Endpoint, Tables, Answers, process_alert, send_emails, should_send_email,
}
use grain_guard.Jobs.Alert.Fanout.{addressees}

abbrev same : String → String
same s = s

abbrev render : AlertJob String → String → String
render job level = level

abbrev bob : TenantUser
bob = record {
  id = "m1";
  tenant_id = "t1";
  auth_user_id = "auth0|bob";
  email = "bob@x.org";
  role = "member";
}

abbrev bob_preferences : Preferences
bob_preferences = record {
  tenant_id = "t1";
  user_id = "auth0|bob";
  email_alerts = false;
  alert_levels = none;
}

abbrev hook : Endpoint
hook = record {
  id = "e1";
  tenant_id = "t1";
  url = "https://x.org/hook";
  secret = "s";
  enabled = true;
  event_types = "telemetry.alert" ∷ [];
}

abbrev tables : Tables
tables = record { users = bob ∷ []; preferences = bob_preferences ∷ []; endpoints = hook ∷ [] }

abbrev job : AlertJob String
job = record {
  tenant_id = "t1";
  level = some "critical";
  recipients = "ada@x.org" ∷ "bob@x.org" ∷ [];
  content = "88%";
}

abbrev down : Answers
down = record { user = λ r. false; preferences = λ r. false; endpoints = false }

abbrev up : Answers
up = record { user = λ r. true; preferences = λ r. true; endpoints = true }

sent_to_ada : addressees (process_alert same up tables render job).0 ≡ "ada@x.org" ∷ []
unfolding process_alert send_emails should_send_email
sent_to_ada = refl
