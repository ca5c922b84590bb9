-- ===== src/Gateway/Plan/Cache.antt =====
-- The cache of plans, its agreement with the database, and the guards that read it.
use grain_guard.Prelude.{
  ℕ, ◌∙◌, sym, ◌≢◌, String, ◌≡◌, refl, Bool, true, false, Option, none, some, arith, eq_iff,
  if◌then◌else◌, ◌==◌, eq_refl,
}
use grain_guard.Database.{Database, Tenant, tenant_row, device_count}
use grain_guard.Gateway.Plan.{
  TenantPlan, Redis, plan_of, unknown_plan, get_tenant_plan, get_device_count,
  invalidate_plan_cache, require_active_subscription, enforce_device_quota,
  enforce_bulk_device_quota, enforce_alert_rule_quota, require_feature, Feature,
}

-- The plan that the database alone gives.
abbrev pub stored_plan : Option Tenant → TenantPlan
stored_plan none = unknown_plan
stored_plan (some t) = plan_of t

abbrev pub db_plan : Database → String → TenantPlan
db_plan db id = stored_plan (tenant_row db id)

pub record IsCoherent (r : Redis) (db : Database) : Type 0 where
  pub plans : (id : String) (p : TenantPlan) → r.plans id ≡ some p → p ≡ db_plan db id
  pub counts : (id : String) (n : ℕ) → r.counts id ≡ some n → n ≡ device_count db id

-- A Redis that does not answer.
abbrev pub down : Redis
down = record { up = false; plans = λ _. none; counts = λ _. none }

plan_lem :
    (r : Redis) (db : Database) (id : String)
    → IsCoherent r db
    → (get_tenant_plan r db id).0 ≡ db_plan db id
unfolding get_tenant_plan
plan_lem r db id c = grind (arith, c.plans id)

plan_IsCoherent :
    (r : Redis) (db : Database) (id : String)
    → IsCoherent r db
    → IsCoherent (get_tenant_plan r db id).1 db
unfolding get_tenant_plan
plan_IsCoherent r db id c = record {
  plans = λ j p. ground (arith, c.plans j p, eq_iff j id);
  counts = λ j n. ground (arith, c.counts j n);
}

count_lem :
    (r : Redis) (db : Database) (id : String)
    → IsCoherent r db
    → (get_device_count r db id).0 ≡ device_count db id
unfolding get_device_count
count_lem r db id c = grind (arith, c.counts id)

count_IsCoherent :
    (r : Redis) (db : Database) (id : String)
    → IsCoherent r db
    → IsCoherent (get_device_count r db id).1 db
unfolding get_device_count
count_IsCoherent r db id c = record {
  plans = λ j p. ground (arith, c.plans j p);
  counts = λ j n. ground (arith, c.counts j n, eq_iff j id);
}

down-IsCoherent : {db : Database} → IsCoherent down db
down-IsCoherent = record { plans = λ id p e. cc; counts = λ id n e. cc }

-- The guards' decisions, as they are when Redis does not answer.
module _ (r : Redis) (db : Database) (id : String) (c : IsCoherent r db) where
  same_plan : (get_tenant_plan r db id).0 ≡ (get_tenant_plan down db id).0
  same_plan = plan_lem r db id c ∙ sym (plan_lem down db id down-IsCoherent)

  same_count :
      (get_device_count (get_tenant_plan r db id).1 db id).0
      ≡ (get_device_count (get_tenant_plan down db id).1 db id).0
  same_count =
      count_lem (get_tenant_plan r db id).1 db id (plan_IsCoherent r db id c)
      ∙ sym (
          count_lem (get_tenant_plan down db id).1 db id
            (plan_IsCoherent down db id down-IsCoherent))

  active_same :
      (now : ℕ)
      → (require_active_subscription now r db (some id)).0
        ≡ (require_active_subscription now down db (some id)).0
  unfolding require_active_subscription
  active_same now = ground (arith, same_plan)

  devices_same : (enforce_device_quota r db id).0 ≡ (enforce_device_quota down db id).0
  unfolding enforce_device_quota
  devices_same = ground (arith, same_plan, same_count)

  bulk_same : (enforce_bulk_device_quota r db id).0 ≡ (enforce_bulk_device_quota down db id).0
  unfolding enforce_bulk_device_quota
  bulk_same = ground (arith, same_plan, same_count)

  rules_same :
      (rules : ℕ)
      → (enforce_alert_rule_quota r db rules id).0 ≡ (enforce_alert_rule_quota down db rules id).0
  unfolding enforce_alert_rule_quota
  rules_same rules = ground (arith, same_plan)

  feature_same :
      (feature : Feature)
      → (require_feature r db feature id).0 ≡ (require_feature down db feature id).0
  unfolding require_feature
  feature_same feature = ground (arith, same_plan)

  -- Where every entry of Redis agrees with the database, each of the five guards gives the answer
  -- that it gives when Redis does not answer and it reads the database alone.
  pub cache_transparent :
      (now rules : ℕ) (feature : Feature)
      → ((require_active_subscription now r db (some id)).0
          ≡ (require_active_subscription now down db (some id)).0)
        × ((enforce_device_quota r db id).0 ≡ (enforce_device_quota down db id).0)
        × ((enforce_bulk_device_quota r db id).0 ≡ (enforce_bulk_device_quota down db id).0)
        × ((enforce_alert_rule_quota r db rules id).0
            ≡ (enforce_alert_rule_quota down db rules id).0)
        × ((require_feature r db feature id).0 ≡ (require_feature down db feature id).0)
  cache_transparent now rules feature =
      (active_same now, devices_same, bulk_same, rules_same rules, feature_same feature)

-- After an invalidation that Redis carries out, the next plan and the next count that are read for
-- the tenant are the database's, whatever the cache held before and whatever the database holds by
-- then.
pub invalidate_plan_cache_fresh :
    (id : String) (r : Redis) (db : Database)
    → r.up ≡ true
    → ((get_tenant_plan (invalidate_plan_cache id r) db id).0 ≡ db_plan db id)
      × ((get_device_count (invalidate_plan_cache id r) db id).0 ≡ device_count db id)
unfolding invalidate_plan_cache get_tenant_plan get_device_count
invalidate_plan_cache_fresh id r db up = (ground (arith, eq_refl id), ground (arith, eq_refl id))

plan_left :
    (id : String) (r : Redis) (j : String)
    → r.up ≡ true
    → (invalidate_plan_cache id r).plans j ≡ (if j == id then none else r.plans j)
unfolding invalidate_plan_cache
plan_left id r j up = rw up

count_left :
    (id : String) (r : Redis) (j : String)
    → r.up ≡ true
    → (invalidate_plan_cache id r).counts j ≡ (if j == id then none else r.counts j)
unfolding invalidate_plan_cache
count_left id r j up = rw up

differ : (j id : String) → (j == id) ≡ false → j ≢ id
differ j id e same = ground (arith, eq_iff j id)

left :
    {A : Type 0} (b : Bool) (o : Option A) (a : A) {x y : A}
    → (if b then none else o) ≡ some a
    → (o ≡ some a → a ≡ x)
    → (b ≡ false → y ≡ x)
    → a ≡ y
left true o a h k e = cc
left false o a h k e = k h ∙ sym (e refl)

-- An invalidation of one tenant's entries keeps the cache in agreement with the database when the
-- database changed for that tenant alone.
pub invalidate_plan_cache-IsCoherent :
    (id : String) (r : Redis) (db db' : Database)
    → r.up ≡ true
    → IsCoherent r db
    → ((j : String) → j ≢ id → db_plan db' j ≡ db_plan db j)
    → ((j : String) → j ≢ id → device_count db' j ≡ device_count db j)
    → IsCoherent (invalidate_plan_cache id r) db'
invalidate_plan_cache-IsCoherent id r db db' up c plans counts = record {
  plans = λ j p h.
      left (j == id) (r.plans j) p (sym (plan_left id r j up) ∙ h) (c.plans j p)
        (λ e. plans j (differ j id e));
  counts = λ j n h.
      left (j == id) (r.counts j) n (sym (count_left id r j up) ∙ h) (c.counts j n)
        (λ e. counts j (differ j id e));
}
