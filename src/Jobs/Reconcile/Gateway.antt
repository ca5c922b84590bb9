-- ===== src/Jobs/Reconcile/Gateway.antt =====
-- The worker's reconciliation and the gateway's quota together.
mod Tests
use grain_guard.Prelude.{
  ℕ, min, zero, suc, String, ◌≡◌, ◌≢◌, ◌≤◌, ◌<◌, ℤ, pos, negsuc, reaches, is_minus_one, not, ap,
  subst, sym, refl, Bool, true, false, Option, none, some, arith, if◌then◌else◌, inl, inr,
  Bool-cases, ◌∙◌, ◌↔◌, List, ◌∷◌, eq_refl,
}
use grain_guard.Database.{Device, Database, Tenant, device_count, tenant_row}
use grain_guard.Gateway.Quota.{
  check_device_quota, quota_decision, effective_plan, quota_limit_for_plan, plan_devices,
}
use grain_guard.Gateway.Quota.Laws.{allowed_lem}
use grain_guard.Jobs.Billing.{plan_device_limit}
use grain_guard.Jobs.Billing.Limit.{quota_limit-eq-plan_device_limit}
use grain_guard.Jobs.Reconcile.{reconcile_tenant_devices}
use grain_guard.Jobs.Reconcile.Ranks.{HasDistinctIds}
use grain_guard.Jobs.Reconcile.Capacity.{
  enabled_count, theirs, capacity, reconcile_tenant_devices-capacity,
}

-- The limit by which the worker reconciles a tenant.
abbrev pub limit_of : ℕ → Tenant → ℤ
limit_of now t = plan_device_limit now t.plan t.subscription_status t.current_period_end

limit_of_sign : (now : ℕ) (t : Tenant) (n : ℕ) → limit_of now t ≢ negsuc (suc n)
unfolding plan_device_limit
limit_of_sign now t n = ground arith

-- A limit has room for one device more exactly where it covers them all.
capacity_room :
    (limit : ℤ) (n : ℕ)
    → ((m : ℕ) → limit ≢ negsuc (suc m))
    → ((if is_minus_one limit then true else if reaches n limit then false else true) ≡ true)
      ↔ (capacity limit (suc n) ≡ suc n)
unfolding capacity
capacity_room (pos k) n h = ((λ a. ground arith), (λ a. ground arith))
capacity_room (negsuc zero) n h = ((λ a. refl), (λ a. refl))
capacity_room (negsuc (suc m)) n h = absurd (h m refl)

quota_limit_sign :
    (now : ℕ) (t : Tenant) (m : ℕ) → quota_limit_for_plan (effective_plan now t) ≢ negsuc (suc m)
quota_limit_sign now t m e =
    limit_of_sign now t m (sym (quota_limit-eq-plan_device_limit now t) ∙ e)

check_device_quota_known :
    (now : ℕ) (t : Tenant) (db : Database)
    → tenant_row db t.id ≡ some t
    → check_device_quota now db t.id ≡ quota_decision now t (device_count db t.id)
unfolding check_device_quota
check_device_quota_known now t db row = rw (row, check_device_quota)

abbrev with_device : Device → Database → Database
with_device d db = record db { devices = d ∷ db.devices }

device_count-with_device :
    (t : Tenant) (d : Device) (db : Database)
    → d.tenant_id ≡ t.id
    → device_count (with_device d db) t.id ≡ suc (device_count db t.id)
device_count-with_device t d db own = rw (own, eq_refl t.id) refl

-- The gateway lets a tenant register a further device exactly where the worker, when it reconciles the
-- tenant by the limit of its row with that device added, leaves all of its devices enabled, the added
-- one included. The tenant's row is in the table, and the ids of the devices differ pairwise.
pub allowed_iff_all_enabled :
    (now : ℕ) (t : Tenant) (d : Device) (db : Database)
    → tenant_row db t.id ≡ some t
    → d.tenant_id ≡ t.id
    → HasDistinctIds (d ∷ db.devices)
    → ((check_device_quota now db t.id).allowed ≡ true) ↔ (
        enabled_count t.id
          (reconcile_tenant_devices t.id (limit_of now t) (with_device d db)).devices
        ≡ suc (device_count db t.id))
allowed_iff_all_enabled now t d db row own distinct =
    let n = device_count db t.id in
    let q = check_device_quota_known now t db row in
    let limit = quota_limit_for_plan (effective_plan now t) in
    let room = capacity_room limit n (quota_limit_sign now t) in
    let decides = allowed_lem now t n in
    let enabled : enabled_count t.id
          (reconcile_tenant_devices t.id (limit_of now t) (with_device d db)).devices
        ≡ capacity (quota_limit_for_plan (effective_plan now t)) (suc n) =
      (reconcile_tenant_devices-capacity t.id (limit_of now t) (with_device d db) distinct
        (limit_of_sign now t)).0
      ∙ ap (capacity (limit_of now t)) (device_count-with_device t d db own)
      ∙ ap (λ l. capacity l (suc n)) (sym (quota_limit-eq-plan_device_limit now t)) in
    (
      (λ a. enabled ∙ room.0 (rw (q, decides) at a)),
      (λ e. rw (q, decides) (room.1 (sym enabled ∙ e))),
    )
