-- ===== src/Database.antt =====
-- The tables of the write database that the gateway and the jobs worker share
-- (apps/telemetry-service/migrations), with the columns that their code reads. Columns that are
-- only stored (names, created_at and updated_at where nothing orders by them) are left out.
use grain_guard.Prelude.{ℕ, String, Bool, Option, List, select, find, length, ◌==◌}

pub record Tenant : Type 0 where
  pub id : String
  pub plan : String
  pub subscription_status : String
  pub current_period_end : Option ℕ

pub record Device : Type 0 where
  pub id : String
  pub tenant_id : String
  pub created_at : ℕ
  pub disabled : Bool

pub record Billing : Type 0 where
  pub tenant_id : String
  pub stripe_customer_id : Option String
  pub stripe_subscription_id : Option String
  pub plan : String
  pub status : String
  pub trial_ends_at : Option ℕ

pub record TenantUser : Type 0 where
  pub id : String
  pub tenant_id : String
  pub auth_user_id : String
  pub email : String
  pub role : String

pub record Database : Type 0 where
  pub tenants : List Tenant
  pub devices : List Device
  pub billing : List Billing
  pub users : List TenantUser
  pub stripe_events : List String

-- SELECT … FROM tenants WHERE id = t
abbrev pub tenant_row : Database → String → Option Tenant
tenant_row db t = find (λ (r : Tenant). r.id == t) db.tenants

-- SELECT COUNT(*) FROM devices WHERE tenant_id = t
abbrev pub device_count : Database → String → ℕ
device_count db t = length (select (λ (d : Device). d.tenant_id == t) db.devices)
