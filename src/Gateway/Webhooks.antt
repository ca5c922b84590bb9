-- ===== src/Gateway/Webhooks.antt =====
-- apps/gateway/src/routes/webhooks.ts: the webhook endpoints of a tenant. `trim` stands for
-- JavaScript's trim and `parses` for whether new URL accepts a text; identifiers and secrets, and how
-- the fetch of a test ends, are arguments. The signature of a test is left out. A query that fails for
-- another reason than a unique constraint is left out.
pub mod Sound
use grain_guard.Prelude.{
  ℕ, String, Bool, true, false, not, ◌&&◌, Option, none, some, List, [], ◌∷◌, select, find, update,
  any, includes, is_empty, or_else, take, sort_descending, if◌then◌else◌, ◌==◌,
}
use text.Mathlib.Text.{starts_with}
use grain_guard.Gateway.Team.{User, AuditEntry, is_admin}

abbrev pub allowed_event_types : List String
allowed_event_types =
    "device.created" ∷ "device.deleted" ∷ "telemetry.alert" ∷ "team.member_invited"
    ∷ "team.member_removed" ∷ "billing.subscription_created" ∷ "billing.subscription_cancelled"
    ∷ "api_key.created" ∷ "api_key.revoked" ∷ []

-- webhook_endpoints
pub record Webhook : Type 0 where
  pub id : String
  pub tenant_id : String
  pub url : String
  pub description : Option String
  pub secret : String
  pub enabled : Bool
  pub event_types : List String

-- webhook_deliveries
pub record Delivery : Type 0 where
  pub endpoint_id : String
  pub event_type : String
  pub success : Bool
  pub created_at : ℕ

pub record Endpoints : Type 0 where
  pub webhooks : List Webhook
  pub deliveries : List Delivery
  pub audit : List AuditEntry

pub data Call : Type 0 where
  list_webhooks : Call
  create_webhook : Option String → Option String → Option (List String) → String → String → Call
  patch_webhook : String → Option String → Option Bool → Option (List String) → Call
  delete_webhook list_deliveries : String → Call
  test_webhook : String → Bool → ℕ → Call

pub data Response : Type 0 where
  failed : ℕ → String → Response
  threw deleted : Response
  listed : List Webhook → Response
  created : Webhook → String → Response
  changed : Webhook → Response
  delivered : List Delivery → Response
  tested : Bool → ℕ → Response

-- WHERE id = i AND tenant_id = t
abbrev pub is_webhook : String → String → Webhook → Bool
is_webhook i t w = w.id == i && w.tenant_id == t

abbrev pub allowed_types : List String → List String
allowed_types types = select (λ t. includes t allowed_event_types) types

abbrev allowed_or_null : Option (List String) → Option (List String)
allowed_or_null none = none
allowed_or_null (some types) = some (allowed_types types)

-- COALESCE($1, column)
abbrev or_column : Option String → Option String → Option String
or_column none column = column
or_column (some s) column = some s

-- UNIQUE (tenant_id, url)
abbrev pub is_taken : String → String → Webhook → Bool
is_taken t url w = w.tenant_id == t && w.url == url

abbrev trimmed : (String → String) → Option String → Option String
trimmed trim none = none
trimmed trim (some s) = some (trim s)

unfoldable pub post_webhook :
    (String → String)
    → (String → Bool)
    → User
    → Option String
    → Option String
    → Option (List String)
    → String
    → String
    → Endpoints
    → Response × Endpoints
post_webhook trim parses u none description types id secret db = (failed 400 "url is required", db)
post_webhook trim parses u (some url) description types id secret db =
    let row : Webhook = record {
      id = id;
      tenant_id = u.tenant_id;
      url = trim url;
      description = trimmed trim description;
      secret = secret;
      enabled = true;
      event_types = allowed_types (or_else types []);
    } in
    if is_empty (trim url)
    then (failed 400 "url is required", db)
    else if not (parses url)
    then (failed 400 "url must be a valid URL", db)
    else if not (starts_with url "https://")
    then (failed 400 "url must use HTTPS", db)
    else if any (is_taken u.tenant_id (trim url)) db.webhooks
    then (threw, db)
    else (
      created row secret,
      record db {
        webhooks = row ∷ db.webhooks;
        audit =
            record {
              tenant_id = u.tenant_id;
              actor_id = u.sub;
              event_type = "webhook_endpoint.created";
              resource_id = id;
            }
            ∷ db.audit;
      },
    )

abbrev pub patched : Option String → Option Bool → Option (List String) → Webhook → Webhook
patched description enabled types w = record w {
  description = or_column description w.description;
  enabled = or_else enabled w.enabled;
  event_types = or_else (allowed_or_null types) w.event_types;
}

unfoldable pub patch :
    User
    → String
    → Option String
    → Option Bool
    → Option (List String)
    → Endpoints
    → Response × Endpoints
patch u i description enabled types db = elim (find (is_webhook i u.tenant_id) db.webhooks) [
  | none ↦ (failed 404 "webhook_not_found", db)
  | some w ↦ (
    changed (patched description enabled types w),
    record db {
      webhooks = update (is_webhook i u.tenant_id) (patched description enabled types) db.webhooks;
    },
  )
]

-- The deliveries go with their endpoint (ON DELETE CASCADE).
unfoldable pub remove : User → String → Endpoints → Response × Endpoints
remove u i db =
    if any (is_webhook i u.tenant_id) db.webhooks
    then (
      deleted,
      record db {
        webhooks = select (λ w. not (is_webhook i u.tenant_id w)) db.webhooks;
        deliveries = select (λ (d : Delivery). not (d.endpoint_id == i)) db.deliveries;
      },
    )
    else (failed 404 "webhook_not_found", db)

abbrev pub get_deliveries : User → String → Endpoints → Response
get_deliveries u i db =
    if any (is_webhook i u.tenant_id) db.webhooks
    then delivered (
        take 100 (
          sort_descending (λ (d : Delivery). d.created_at)
            (select (λ (d : Delivery). d.endpoint_id == i) db.deliveries)))
    else failed 404 "webhook_not_found"

abbrev pub test_delivery : User → String → Bool → ℕ → Endpoints → Response
test_delivery u i success status db =
    if any (is_webhook i u.tenant_id) db.webhooks
    then tested success status
    else failed 404 "webhook_not_found"

abbrev pub is_list : Call → Bool
is_list list_webhooks = true
is_list _ = false

module _ (trim : String → String) (parses : String → Bool) where
  unfoldable pub route_webhooks : User → Call → Endpoints → Response × Endpoints
  unfolding post_webhook patch remove
  route_webhooks u list_webhooks db =
      (listed (select (λ (w : Webhook). w.tenant_id == u.tenant_id) db.webhooks), db)
  route_webhooks u (create_webhook url description types id secret) db =
      post_webhook trim parses u url description types id secret db
  route_webhooks u (patch_webhook i description enabled types) db =
      patch u i description enabled types db
  route_webhooks u (delete_webhook i) db = remove u i db
  route_webhooks u (list_deliveries i) db = (get_deliveries u i db, db)
  route_webhooks u (test_webhook i success status) db = (test_delivery u i success status db, db)

  -- A request of a signed-in user; all routes but the list ask for an administrator.
  unfoldable pub handle_webhooks : User → Call → Endpoints → Response × Endpoints
  handle_webhooks u q db =
      let r = route_webhooks u q db in
      if is_list q then r else if is_admin u then r else (failed 403 "admin_required", db)

  -- The table after a run of requests.
  abbrev pub run_webhooks : List (User × Call) → Endpoints → Endpoints
  run_webhooks [] db = db
  run_webhooks ((u, q) ∷ rest) db = run_webhooks rest (handle_webhooks u q db).1
