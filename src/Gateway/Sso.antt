-- ===== src/Gateway/Sso.antt =====
-- apps/gateway/src/routes/sso.ts: single sign-on of a tenant through Auth0. A body is its texts; of an
-- Auth0 connection only its identifier is kept. The UPDATE after a call of Auth0 may fail (`stored` of
-- the call's outcome); that the query before the calls fails is left out. Requests do not overlap.
pub mod Linked
pub mod Replaced
mod Tests
use grain_guard.Prelude.{
  ℕ, String, Bool, true, false, not, ◌&&◌, ◌||◌, Option, none, some, List, [], ◌∷◌, find, update,
  any, is_empty, if◌then◌else◌, ◌==◌,
}
use grain_guard.Gateway.Team.{User, is_admin}
use grain_guard.Gateway.Auth0.{
  Management, Outcome, mgmt, creates_organization, creates_saml, creates_oidc, enables, disables,
  lists,
}

-- The columns of tenants that these routes read and write.
pub record SsoTenant : Type 0 where
  pub id : String
  pub name : String
  pub auth0_org_id : Option String
  pub sso_connection_id : Option String
  pub sso_connection_type : Option String

pub record Sso : Type 0 where
  pub tenants : List SsoTenant
  pub auth0 : Management

-- The fields of a body that must not be empty, and emailDomains.
pub record ConnectionBody : Type 0 where
  pub fields : List String
  pub email_domains : List String

pub data SsoCall : Type 0 where
  get_sso : Outcome (List String) → SsoCall
  post_org : Outcome String → SsoCall
  post_saml post_oidc : ConnectionBody → Outcome String → Outcome (Unit {0}) → SsoCall
  delete_sso : Outcome (Unit {0}) → SsoCall

pub data SsoReply : Type 0 where
  refused : ℕ → String → SsoReply
  not_configured disabled internal_error : SsoReply
  configured : String → List String → SsoReply
  unavailable : String → SsoReply
  organization : String → Bool → SsoReply
  connected : String → SsoReply

-- A text that is not falsy.
abbrev pub present : Option String → Option String
present none = none
present (some s) = if is_empty s then none else some s

abbrev pub is_tenant : String → SsoTenant → Bool
is_tenant t r = r.id == t

abbrev pub org_of : Option SsoTenant → Option String
org_of none = none
org_of (some r) = present r.auth0_org_id

abbrev pub connection_of : Option SsoTenant → Option String
connection_of none = none
connection_of (some r) = present r.sso_connection_id

abbrev pub row_at : String → Sso → Option SsoTenant
row_at t s = find (is_tenant t) s.tenants

abbrev is_incomplete : ConnectionBody → Bool
is_incomplete b = any is_empty b.fields || elim b.email_domains [ [] ↦ true | d ∷ ds ↦ false ]

abbrev with_org : String → SsoTenant → SsoTenant
with_org org r = record r { auth0_org_id = some org }

abbrev pub with_connection : String → String → SsoTenant → SsoTenant
with_connection connection kind r = record r {
  sso_connection_id = some connection;
  sso_connection_type = some kind;
}

abbrev pub without_connection : SsoTenant → SsoTenant
without_connection r = record r { sso_connection_id = none; sso_connection_type = none }

abbrev pub set_row : String → (SsoTenant → SsoTenant) → Management → Sso → Sso
set_row t f m s = record { tenants = update (is_tenant t) f s.tenants; auth0 = m }

-- The end of a list of connections: a failure is caught and replaced by a warning.
abbrev listed : String → Sso → Option (List String) × Management → SsoReply × Sso
listed org s (none, m) = (unavailable org, record s { auth0 = m })
listed org s (some cs, m) = (configured org cs, record s { auth0 = m })

unfoldable pub list_connections : String → Outcome (List String) → Sso → SsoReply × Sso
list_connections t o s = elim (org_of (row_at t s)) [
  | none ↦ (not_configured, s)
  | some org ↦ listed org s (mgmt (lists org) o s.auth0)
]

abbrev created_org : String → Bool → Sso → Option String × Management → SsoReply × Sso
created_org t stored s (none, m) = (internal_error, record s { auth0 = m })
created_org t stored s (some org, m) =
    if stored
    then (organization org true, set_row t (with_org org) m s)
    else (internal_error, record s { auth0 = m })

unfoldable pub create_org : String → Outcome String → Sso → SsoReply × Sso
create_org t o s = elim (row_at t s) [
  | none ↦ (refused 404 "tenant_not_found", s)
  | some r ↦ elim (present r.auth0_org_id) [
    | some org ↦ (organization org false, s)
    | none ↦ created_org t o.stored s (mgmt (creates_organization t r.name) o s.auth0)
  ]
]

-- After enableConnectionOnOrg.
abbrev enabled_on :
    String → String → String → Bool → Sso → Option (Unit {0}) × Management → SsoReply × Sso
enabled_on t kind connection stored s (none, m) = (internal_error, record s { auth0 = m })
enabled_on t kind connection stored s (some x, m) =
    if stored
    then (connected connection, set_row t (with_connection connection kind) m s)
    else (internal_error, record s { auth0 = m })

-- After createSamlConnection or createOidcConnection.
abbrev enable_on :
    String → String → String → Outcome Unit → Sso → Option String × Management → SsoReply × Sso
enable_on t kind org o s (none, m) = (internal_error, record s { auth0 = m })
enable_on t kind org o s (some connection, m) =
    enabled_on t kind connection o.stored s (mgmt (enables org connection) o m)

unfoldable pub connect_saml :
    String → ConnectionBody → Outcome String → Outcome (Unit {0}) → Sso → SsoReply × Sso
connect_saml t b o e s =
    if is_incomplete b then (refused 400 "missing_fields", s) else elim (org_of (row_at t s)) [
      | none ↦ (refused 409 "org_not_created", s)
      | some org ↦ enable_on t "saml" org e s (mgmt (creates_saml t) o s.auth0)
    ]

unfoldable pub connect_oidc :
    String → ConnectionBody → Outcome String → Outcome (Unit {0}) → Sso → SsoReply × Sso
connect_oidc t b o e s =
    if is_incomplete b then (refused 400 "missing_fields", s) else elim (org_of (row_at t s)) [
      | none ↦ (refused 409 "org_not_created", s)
      | some org ↦ enable_on t "oidc" org e s (mgmt (creates_oidc t) o s.auth0)
    ]

-- After disableConnectionOnOrg.
abbrev disabled_on : String → Bool → Sso → Option (Unit {0}) × Management → SsoReply × Sso
disabled_on t stored s (none, m) = (internal_error, record s { auth0 = m })
disabled_on t stored s (some x, m) =
    if stored
    then (disabled, set_row t without_connection m s)
    else (internal_error, record s { auth0 = m })

unfoldable pub disconnect : String → Outcome (Unit {0}) → Sso → SsoReply × Sso
disconnect t o s = elim (org_of (row_at t s)) [
  | none ↦ (refused 404 "sso_not_configured", s)
  | some org ↦ elim (connection_of (row_at t s)) [
    | none ↦ (refused 404 "sso_not_configured", s)
    | some connection ↦ disabled_on t o.stored s (mgmt (disables org connection) o s.auth0)
  ]
]

unfoldable pub route_sso : String → SsoCall → Sso → SsoReply × Sso
unfolding list_connections create_org connect_saml connect_oidc disconnect
route_sso t (get_sso o) s = list_connections t o s
route_sso t (post_org o) s = create_org t o s
route_sso t (post_saml b o e) s = connect_saml t b o e s
route_sso t (post_oidc b o e) s = connect_oidc t b o e s
route_sso t (delete_sso o) s = disconnect t o s

-- A request of a signed-in user; requireAdmin comes first.
unfoldable pub handle_sso : User → SsoCall → Sso → SsoReply × Sso
unfolding route_sso
handle_sso u q s =
    let r = route_sso u.tenant_id q s in if is_admin u then r else (refused 403 "forbidden", s)

-- The state after a run of requests.
abbrev pub run_sso : List (User × SsoCall) → Sso → Sso
run_sso [] s = s
run_sso ((u, q) ∷ rest) s = run_sso rest (handle_sso u q s).1
