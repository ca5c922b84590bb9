-- ===== src/Gateway/Tenancy.antt =====
-- apps/gateway/src/server.ts: the team, webhook, alert rule and API key routers side by side, on the tables
-- that each of them writes.
pub mod Rows
pub mod Hooks
pub mod Alerts
pub mod KeyRows
pub mod Serve
use grain_guard.Prelude.{ℕ, String, Bool, false, List, [], ◌∷◌, select, ◌==◌}
use grain_guard.Database.{TenantUser}
use grain_guard.Gateway.Team.{User, Invite, Team, Request}
use grain_guard.Gateway.Team.Members.{handle}
use grain_guard.Gateway.Webhooks.{Webhook, Endpoints, Call, handle_webhooks}
use grain_guard.Gateway.Keys.{ApiKey, KeyRequest, handle_keys}
use grain_guard.Gateway.Rules.{Rule, Rules, RuleRequest, handle_rules}

module _ (Number : Type 0) where
  pub record Api : Type 0 where
    pub team : Team
    pub endpoints : Endpoints
    pub rules : Rules Number
    pub keys : List ApiKey

  pub data ApiRequest : Type 0 where
    on_team : Request → ApiRequest
    on_webhooks : Call → ApiRequest
    on_rules : RuleRequest Number → ApiRequest
    on_keys : KeyRequest → ApiRequest

  -- A request of a signed-in user, and its time.
  pub record Signed : Type 0 where
    pub user : User
    pub request : ApiRequest
    pub now : ℕ

  -- The rows of a tenant in the five tables that are keyed by tenants.
  pub record Own : Type 0 where
    pub users : List TenantUser
    pub invites : List Invite
    pub webhooks : List Webhook
    pub rules : List (Rule Number)
    pub keys : List ApiKey

module _ {Number : Type 0} where
  abbrev pub own : String → Api Number → Own Number
  own t api = record {
    users = select (λ (r : TenantUser). r.tenant_id == t) api.team.users;
    invites = select (λ (r : Invite). r.tenant_id == t) api.team.invites;
    webhooks = select (λ (r : Webhook). r.tenant_id == t) api.endpoints.webhooks;
    rules = select (λ (r : Rule Number). r.tenant_id == t) api.rules.rules;
    keys = select (λ (k : ApiKey). k.tenant_id == t) api.keys;
  }

  module _ (trim lower digest : String → String) (parses : String → Bool) where
    abbrev pub serve_request : User → ApiRequest Number → ℕ → Api Number → Api Number
    serve_request u (on_team q) now api = record api {
      team = (handle trim lower u q now api.team).1;
    }
    serve_request u (on_webhooks q) now api = record api {
      endpoints = (handle_webhooks trim parses u q api.endpoints).1;
    }
    serve_request u (on_rules q) now api = record api {
      rules = (handle_rules trim u q now api.rules).1;
    }
    serve_request u (on_keys q) now api = record api {
      keys = (handle_keys trim digest u q now api.keys).1;
    }

    abbrev pub serve : List (Signed Number) → Api Number → Api Number
    serve [] api = api
    serve (s ∷ rest) api = serve rest (serve_request s.user s.request s.now api)
