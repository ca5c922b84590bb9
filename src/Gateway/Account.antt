-- ===== src/Gateway/Account.antt =====
-- apps/gateway/src/routes/account.ts: what a user sees and erases. The export, the readings of devices,
-- the API keys and the audit events, which an erasure counts and keeps, are left out, and so is the text
-- of a reply. A request runs by itself: the transaction locks nothing, so that what others change
-- between its count of the administrators and its statements is not seen here.
pub mod Erasure
use grain_guard.Prelude.{
  ℕ, String, Bool, true, false, not, ◌&&◌, Option, none, some, List, [], ◌∷◌, select, find, length,
  nat_eq, if◌then◌else◌, ◌==◌,
}
use grain_guard.Database.{Tenant, Device, Billing, TenantUser, Database, tenant_row, device_count}
use grain_guard.Gateway.Team.{User}

pub data Scope : Type 0 where
  whole_tenant one_user : Scope

pub data AccountReply : Type 0 where
  user_not_found internal_error : AccountReply
  erased : Scope → AccountReply
  profile : Option TenantUser → Option Tenant → ℕ → AccountReply

-- WHERE tenant_id = $1 AND role = 'admin'
abbrev pub is_admin_of : String → TenantUser → Bool
is_admin_of t r = r.tenant_id == t && r.role == "admin"

-- WHERE tenant_id = $1 AND auth_user_id = $2
abbrev pub is_user : String → String → TenantUser → Bool
is_user t sub r = r.tenant_id == t && r.auth_user_id == sub

abbrev pub get_me : User → Database → AccountReply
get_me u db =
    profile (find (is_user u.tenant_id u.sub) db.users) (tenant_row db u.tenant_id)
      (device_count db u.tenant_id)

-- DELETE FROM devices and tenants; the other tables follow by ON DELETE CASCADE.
abbrev pub without_tenant : String → Database → Database
without_tenant t db = record db {
  tenants = select (λ (r : Tenant). not (r.id == t)) db.tenants;
  devices = select (λ (d : Device). not (d.tenant_id == t)) db.devices;
  billing = select (λ (b : Billing). not (b.tenant_id == t)) db.billing;
  users = select (λ (r : TenantUser). not (r.tenant_id == t)) db.users;
}

abbrev pub without_user : String → String → Database → Database
without_user t sub db = record db { users = select (λ r. not (is_user t sub r)) db.users }

abbrev pub is_last_admin : String → TenantUser → Database → Bool
is_last_admin t r db = r.role == "admin" && nat_eq (length (select (is_admin_of t) db.users)) 1

-- DELETE /account/me; `answers` says whether the transaction succeeds, which is undone otherwise.
unfoldable pub delete_me : Bool → User → Database → AccountReply × Database
delete_me answers u db =
    if not answers then (internal_error, db) else elim (find (is_user u.tenant_id u.sub) db.users) [
      | none ↦ (user_not_found, db)
      | some r ↦
          if is_last_admin u.tenant_id r db
          then (erased whole_tenant, without_tenant u.tenant_id db)
          else (erased one_user, without_user u.tenant_id u.sub db)
    ]
