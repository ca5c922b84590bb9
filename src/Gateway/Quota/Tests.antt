-- ===== src/Gateway/Quota/Tests.antt =====
-- The quota of a tenant on the free plan.
use grain_guard.Prelude.{String, ◌≡◌, refl, true, false, some, [], ◌∷◌, pos}
use grain_guard.Database.{Database, Tenant, Device}
use grain_guard.Gateway.Quota.{check_device_quota, quota_decision, no_longer_granting}

abbrev lapsed : Tenant
lapsed = record {
  id = "acme";
  plan = "starter";
  subscription_status = "cancelled";
  current_period_end = some 10;
}

abbrev device : String → Device
device id = record { id = id; tenant_id = "acme"; created_at = 1; disabled = false }

abbrev db : Database
db = record {
  tenants = lapsed ∷ [];
  devices = device "a" ∷ device "b" ∷ device "c" ∷ device "d" ∷ device "e" ∷ [];
  billing = [];
  users = [];
  stripe_events = [];
}

lapsed_message :
    (check_device_quota 11 db "acme").message ≡ some (no_longer_granting "starter" 5 (pos 5))
unfolding check_device_quota quota_decision
lapsed_message = refl

in_grace : (check_device_quota 9 db "acme").allowed ≡ true
unfolding check_device_quota quota_decision
in_grace = refl
