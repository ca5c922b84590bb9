-- ===== src/Jobs/Reconcile/Gateway/Tests.antt =====
-- A starter tenant with seven devices.
use grain_guard.Prelude.{◌≡◌, ◌↔◌, suc, refl, true, false, some, [], ◌∷◌}
use grain_guard.Database.{Device, Database, Tenant, device_count}
use grain_guard.Gateway.Quota.{check_device_quota, quota_limit_for_plan, effective_plan}
use grain_guard.Jobs.Billing.{plan_device_limit}
use grain_guard.Jobs.Reconcile.{reconcile_tenant_devices}
use grain_guard.Jobs.Reconcile.Ranks.{HasDistinctIds-of_test}
use grain_guard.Jobs.Reconcile.Capacity.{enabled_count}
use grain_guard.Jobs.Reconcile.Gateway.{limit_of, allowed_iff_all_enabled}
use grain_guard.Jobs.Billing.Limit.{quota_limit-eq-plan_device_limit}

abbrev starter : Tenant
starter = record {
  id = "acme";
  plan = "starter";
  subscription_status = "past_due";
  current_period_end = some 900;
}

abbrev db : Database
db = record {
  tenants = starter ∷ [];
  devices =
      record { id = "d1"; tenant_id = "acme"; created_at = 1; disabled = true }
      ∷ record { id = "d2"; tenant_id = "acme"; created_at = 1; disabled = false }
      ∷ record { id = "x1"; tenant_id = "other"; created_at = 1; disabled = false }
      ∷ [];
  billing = [];
  users = [];
  stripe_events = [];
}

abbrev added : Device
added = record { id = "d3"; tenant_id = "acme"; created_at = 2; disabled = false }

allowed_iff_all_enabled_example : ((check_device_quota 100 db "acme").allowed ≡ true) ↔ (
    enabled_count "acme"
      (reconcile_tenant_devices "acme"
        (limit_of 100 starter)
        (record db { devices = added ∷ db.devices })).devices
    ≡ suc (device_count db "acme"))
allowed_iff_all_enabled_example =
    allowed_iff_all_enabled 100 starter added db refl refl
      (HasDistinctIds-of_test (added ∷ db.devices) refl)

quota_limit-eq-plan_device_limit_example :
    quota_limit_for_plan (effective_plan 100 starter)
    ≡ plan_device_limit 100 "starter" "past_due" (some 900)
quota_limit-eq-plan_device_limit_example = quota_limit-eq-plan_device_limit 100 starter
