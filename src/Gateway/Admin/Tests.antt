-- ===== src/Gateway/Admin/Tests.antt =====
-- A super administrator who lists three tenants in pages of two.
use grain_guard.Prelude.{
  ◌≡◌, refl, String, false, Option, none, some, pos, ℕ, List, [], ◌∷◌, arith, map, zero, suc,
  IsRearranged, HasNoTies,
}
use grain_guard.Dashboard.ExportCsv.{Text, units}
use grain_guard.Gateway.Team.{User}
use grain_guard.Gateway.Auth.{
  Claims, array, Environment, AuthHeaders, missing_token, auth_middleware,
}
use grain_guard.Gateway.Auth.Tokens.{IsVerified, auth_middleware-IsVerified}
use grain_guard.Gateway.Admin.{AdminTenant, AdminTables, TenantSummary, created_at_of}
use grain_guard.Gateway.Admin.Pages.{first_pages, newest_first, first_pages-newest_first}

abbrev operator_claims : Claims
operator_claims = record {
  sub = some "auth0|ops";
  tenant_id = none;
  roles = none;
  own_tenant_id = some "t0";
  own_roles = some (array ("superadmin" ∷ []));
}

abbrev verify : Text → Option Claims
verify [] = none
verify (c ∷ cs) = some operator_claims

abbrev production : Environment
production = record { auth_enabled = some "false"; node_env = some "production" }

abbrev ops_headers : AuthHeaders
ops_headers = record { authorization = some (units "Bearer e.y.J"); x_tenant_id = some "t9" }

abbrev operator : User
operator = record { sub = "auth0|ops"; tenant_id = "t0"; roles = "superadmin" ∷ [] }

auth_middleware-IsVerified_example : IsVerified verify ops_headers operator
unfolding auth_middleware
auth_middleware-IsVerified_example =
    auth_middleware-IsVerified verify ops_headers production operator refl refl

lets_nobody_in :
    auth_middleware verify production
      (record ops_headers { authorization = some (units "Basic e") })
    ≡ missing_token
unfolding auth_middleware
lets_nobody_in = refl

abbrev tenant : String → ℕ → AdminTenant
tenant i made = record {
  id = i;
  name = i;
  slug = i;
  plan = "free";
  subscription_status = "active";
  created_at = made;
}

abbrev tables : AdminTables
tables = record {
  tenants = tenant "t1" 10 ∷ tenant "t2" 30 ∷ tenant "t3" 20 ∷ [];
  devices = record { id = "d1"; tenant_id = "t3"; created_at = 5; disabled = false } ∷ [];
  users = [];
}

-- The second page finds the rows of the tenants in another order.
abbrev orders : ℕ → List AdminTenant
orders zero = tables.tenants
orders (suc n) = tenant "t2" 30 ∷ tenant "t1" 10 ∷ tenant "t3" 20 ∷ []

orders-IsRearranged : (n : ℕ) → IsRearranged tables.tenants (orders n)
orders-IsRearranged zero =
    IsRearranged.cons refl (IsRearranged.cons refl (IsRearranged.cons refl IsRearranged.nil))
orders-IsRearranged (suc n) = IsRearranged.swap refl refl

tables-HasNoTies : HasNoTies created_at_of tables.tenants
tables-HasNoTies = ((ground arith, (ground arith, tt)), ((ground arith, tt), (tt, tt)))

first_pages-newest_first_example :
    first_pages (auth_middleware verify production ops_headers) (some (pos 2)) orders tables 2
    ≡ newest_first tables
unfolding auth_middleware
first_pages-newest_first_example =
    first_pages-newest_first verify production ops_headers (some (pos 2)) orders tables 2
      orders-IsRearranged tables-HasNoTies (omega arith)

abbrev names : List TenantSummary → List String
names rows = map (λ (r : TenantSummary). r.tenant.id) rows

lists_the_newest_first : names (newest_first tables) ≡ "t2" ∷ "t3" ∷ "t1" ∷ []
lists_the_newest_first = refl
