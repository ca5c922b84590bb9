-- ===== src/Gateway/Admin.antt =====
-- apps/gateway/src/routes/admin.ts: the tenants as the operator of the platform sees them, behind
-- auth.ts. A page or a limit is the integer that parseInt reads, none for NaN. Tenants that are made at
-- the same time stand in the order of the rows of that state, which a query may find in another order
-- each time; a page whose offset is beyond the integers of Postgres is left out.
pub mod Pages
mod Tests
use grain_guard.Prelude.{
  ℕ, zero, suc, ◌+◌, ◌-◌, ◌*◌, min, String, Bool, true, false, Option, none, some, ℤ, pos, negsuc,
  List, [], ◌∷◌, map, select, find, length, includes, take, drop, sort_descending, if◌then◌else◌,
  ◌==◌,
}
use grain_guard.Database.{Device, TenantUser}
use grain_guard.Gateway.Team.{User}
use grain_guard.Gateway.Auth.{
  Claims, Environment, AuthHeaders, Authentication, next, missing_token, tenant_missing,
  invalid_token,
}

-- tenants, with the columns of the list.
pub record AdminTenant : Type 0 where
  pub id : String
  pub name : String
  pub slug : String
  pub plan : String
  pub subscription_status : String
  pub created_at : ℕ

pub record AdminTables : Type 0 where
  pub tenants : List AdminTenant
  pub devices : List Device
  pub users : List TenantUser

pub record TenantSummary : Type 0 where
  pub tenant : AdminTenant
  pub device_count : ℕ
  pub member_count : ℕ

pub data AdminRequest : Type 0 where
  get_tenants : Option ℤ → Option ℤ → AdminRequest
  get_tenant : String → AdminRequest

pub data AdminReply : Type 0 where
  denied : Authentication → AdminReply
  superadmin_required tenant_not_found : AdminReply
  listed : List TenantSummary → AdminReply
  detail : TenantSummary → AdminReply

-- `parseInt(…) || otherwise`, at least 1
abbrev pub at_least_one : ℕ → Option ℤ → ℕ
at_least_one otherwise none = otherwise
at_least_one otherwise (some (pos zero)) = otherwise
at_least_one otherwise (some (pos (suc n))) = suc n
at_least_one otherwise (some (negsuc n)) = 1

abbrev pub page_of : Option ℤ → ℕ
page_of page = at_least_one 1 page

abbrev pub limit_of : Option ℤ → ℕ
limit_of limit = min 100 (at_least_one 50 limit)

-- The subqueries of a row.
abbrev pub summary : AdminTables → AdminTenant → TenantSummary
summary db t = record {
  tenant = t;
  device_count = length (select (λ (d : Device). d.tenant_id == t.id) db.devices);
  member_count = length (select (λ (u : TenantUser). u.tenant_id == t.id) db.users);
}

abbrev pub created_at_of : AdminTenant → ℕ
created_at_of t = t.created_at

abbrev pub tenants_page : ℕ → ℕ → AdminTables → List TenantSummary
tenants_page page limit db =
    map (summary db)
      (take limit (drop ((page - 1) * limit) (sort_descending created_at_of db.tenants)))

abbrev pub is_superadmin : User → Bool
is_superadmin u = includes "superadmin" u.roles

abbrev pub route_admin : AdminRequest → AdminTables → AdminReply
route_admin (get_tenants page limit) db = listed (tenants_page (page_of page) (limit_of limit) db)
route_admin (get_tenant i) db = elim (find (λ (t : AdminTenant). t.id == i) db.tenants) [
  | none ↦ tenant_not_found
  | some t ↦ detail (summary db t)
]

-- A route behind the authentication.
unfoldable pub handle_admin : Authentication → AdminRequest → AdminTables → AdminReply
handle_admin (next u) q db = if is_superadmin u then route_admin q db else superadmin_required
handle_admin missing_token q db = denied missing_token
handle_admin tenant_missing q db = denied tenant_missing
handle_admin invalid_token q db = denied invalid_token
