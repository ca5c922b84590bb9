-- ===== src/Gateway/Tests.antt =====
-- Requests of two tenants.
use grain_guard.Prelude.{
  arith, false, String, ◌≡◌, refl, true, none, some, List, [], ◌∷◌, All, map, Bool, ℕ,
}
use text.Mathlib.Text.{starts_with}
use grain_guard.Gateway.Team.{User, set_role}
use grain_guard.Gateway.Webhooks.{
  Webhook, Endpoints, Call, create_webhook, patch_webhook, delete_webhook, run_webhooks,
  handle_webhooks, route_webhooks, post_webhook, patch, remove,
}
use grain_guard.Gateway.Webhooks.Sound.{AreSound, endpoint_of, run_webhooks-AreSound_jobs}
use grain_guard.Gateway.Keys.{ApiKey, revoke_key}
use grain_guard.Gateway.Rules.{Rule, RuleBody, update_rule, put_rule, handle_rules, Rules}
use grain_guard.Gateway.Tenancy.{Api, Signed, on_team, on_webhooks, on_rules, on_keys, own, serve}
use grain_guard.Gateway.Tenancy.Serve.{serve-own}
use grain_guard.Database.{TenantUser, Database}
use grain_guard.Gateway.Account.{delete_me}
use grain_guard.Gateway.Account.Erasure.{IsErased, IsKept, other_admin, delete_me-HasAdmin}
use grain_guard.Gateway.Team.Members.{put_role}
use grain_guard.Gateway.Preferences.{PreferenceRow, PreferenceBody, put_preferences, as_preferences}
use grain_guard.Gateway.Preferences.Effect.{put_preferences-should_send_email}
use grain_guard.Jobs.Alert.{should_send_email, AlertJob, Answers, Tables, WebhookJob, process_alert}

abbrev same : String → String
same s = s

abbrev parses : String → Bool
parses s = true

abbrev ada : User
ada = record { sub = "auth0|ada"; tenant_id = "t1"; roles = "admin" ∷ [] }

abbrev barn_hook : Webhook
barn_hook = record {
  id = "w2";
  tenant_id = "t2";
  url = "https://barn.org";
  description = none;
  secret = "s2";
  enabled = true;
  event_types = "telemetry.alert" ∷ [];
}

abbrev hooks : Endpoints
hooks = record { webhooks = barn_hook ∷ []; deliveries = []; audit = [] }

abbrev calls : List (User × Call)
calls =
    (
      ada,
      create_webhook (some "https://silo.org") none (some ("telemetry.alert" ∷ "typo" ∷ [])) "w1"
          "s1",
    )
    ∷ (ada, create_webhook (some "http://silo.org") none none "w3" "s3")
    ∷ (ada, patch_webhook "w1" none (some true) none)
    ∷ (ada, delete_webhook "w2")
    ∷ []

abbrev tables : Tables
tables = record {
  users = [];
  preferences = [];
  endpoints = map endpoint_of (run_webhooks same parses calls hooks).webhooks;
}

abbrev answering : Answers
answering = record { user = λ s. true; preferences = λ s. true; endpoints = true }

abbrev alert : AlertJob String
alert = record { tenant_id = "t1"; level = none; recipients = []; content = "hot" }

abbrev render : AlertJob String → String → String
render job level = level

run_webhooks-AreSound_jobs_example :
    AreSound (run_webhooks same parses calls hooks)
    × All
        (λ (w : WebhookJob String). starts_with w.url "https://" ≡ true)
        (process_alert same answering tables render alert).1
run_webhooks-AreSound_jobs_example =
    run_webhooks-AreSound_jobs same answering render alert same parses (λ s h. h) calls hooks tables
      (record { secure = refl; known = (refl, tt) }, tt) refl

-- What the run of calls leaves.
abbrev addresses : List Webhook → List String
addresses rows = map (λ (w : Webhook). w.url) rows

calls_leave :
    addresses (run_webhooks same parses calls hooks).webhooks
    ≡ "https://silo.org" ∷ "https://barn.org" ∷ []
unfolding handle_webhooks route_webhooks post_webhook patch remove
calls_leave = refl

abbrev frost : Rule ℕ
frost = record {
  id = "r2";
  tenant_id = "t2";
  name = "frost";
  metric = "temperature";
  operator = "<";
  threshold = 3;
  level = "warn";
  enabled = true;
  updated_at = 1;
}

abbrev barn_key : ApiKey
barn_key = record {
  id = "k2";
  tenant_id = "t2";
  name = "barn";
  key_hash = "h";
  created_at = 1;
  expires_at = none;
  revoked_at = none;
}

abbrev api : Api ℕ
api = record {
  team = record { users = []; invites = []; names = []; audit = [] };
  endpoints = hooks;
  rules = record { rules = frost ∷ []; audit = [] };
  keys = barn_key ∷ [];
}

abbrev body : RuleBody ℕ
body = record {
  name = none;
  metric = some "moon phase";
  operator = none;
  threshold = none;
  level = none;
  enabled = none;
}

abbrev requests : List (Signed ℕ)
requests =
    record { user = ada; request = on_rules (update_rule "r2" body); now = 5 }
    ∷ record { user = ada; request = on_webhooks (delete_webhook "w2"); now = 6 }
    ∷ record { user = ada; request = on_team (set_role "m2" "admin"); now = 7 }
    ∷ record { user = ada; request = on_keys (revoke_key "k2"); now = 8 }
    ∷ []

serve-own_example : own "t2" (serve same same same parses requests api) ≡ own "t2" api
serve-own_example = serve-own same same same parses "t2" requests api (
  record { elsewhere = refl; stays = refl },
  (
    record { elsewhere = refl; stays = refl },
    (record { elsewhere = refl; stays = refl }, (record { elsewhere = refl; stays = refl }, tt)),
  ),
)

-- An update takes a metric that does not exist.
abbrev metrics : Rules ℕ → List String
metrics db = map (λ (r : Rule ℕ). r.metric) db.rules

abbrev gil : User
gil = record { sub = "auth0|gil"; tenant_id = "t2"; roles = [] }

unknown_metric :
    metrics (handle_rules same gil (update_rule "r2" body) 5 api.rules).1 ≡ "moon phase" ∷ []
unfolding handle_rules put_rule
unknown_metric = refl

-- Ada has turned the e-mails off, and now turns the webhooks on.
abbrev quiet_row : PreferenceRow
quiet_row = record {
  tenant_id = "t1";
  user_id = "auth0|ada";
  email_alerts = false;
  email_weekly_digest = false;
  webhook_alerts = false;
  alert_levels = "critical" ∷ [];
}

abbrev webhooks_on : PreferenceBody
webhooks_on = record {
  email_alerts = none;
  email_weekly_digest = none;
  webhook_alerts = some true;
  alert_levels = none;
}

abbrev ada_row : TenantUser
ada_row = record {
  id = "m1";
  tenant_id = "t1";
  auth_user_id = "auth0|ada";
  email = "ada@x.org";
  role = "admin";
}

abbrev ada_tables : Tables
ada_tables = record {
  users = ada_row ∷ [];
  preferences = map as_preferences (put_preferences ada webhooks_on (quiet_row ∷ [])).1;
  endpoints = [];
}

put_preferences-should_send_email_example :
    should_send_email same answering ada_tables "t1" "ada@x.org" "warn" ≡ true
put_preferences-should_send_email_example =
    put_preferences-should_send_email same answering ada webhooks_on (quiet_row ∷ []) ada_tables
      "ada@x.org" "warn" ada_row refl refl refl refl refl refl

abbrev bob_row : TenantUser
bob_row = record {
  id = "m2";
  tenant_id = "t1";
  auth_user_id = "auth0|bob";
  email = "bob@x.org";
  role = "member";
}

abbrev database : Database
database = record {
  tenants =
      record {
        id = "t1";
        plan = "starter";
        subscription_status = "active";
        current_period_end = none;
      }
      ∷ [];
  devices = record { id = "d1"; tenant_id = "t1"; created_at = 1; disabled = false } ∷ [];
  billing = [];
  users = ada_row ∷ bob_row ∷ [];
  stripe_events = [];
}

-- Beside Bob, a member, Ada is the only administrator.
delete_me-HasAdmin_example :
    (other_admin ada database ≡ true → IsKept ada database (delete_me true ada database).1)
    × (other_admin ada database ≡ false
        → true ≡ true
        → IsErased "t1" (delete_me true ada database).1)
delete_me-HasAdmin_example = delete_me-HasAdmin ada database true refl (ground arith)

erases_all : IsErased "t1" (delete_me true ada database).1
erases_all = delete_me-HasAdmin_example.1 refl refl

-- The only administrator can give up the role: no administrator is left.
abbrev roles_left : List TenantUser → List String
roles_left rows = map (λ (r : TenantUser). r.role) rows

no_admin_left :
    roles_left
      (put_role ada "m1" "member"
        (record { users = ada_row ∷ bob_row ∷ []; invites = []; names = []; audit = [] })).1.users
    ≡ "member" ∷ "member" ∷ []
unfolding put_role
no_admin_left = refl
