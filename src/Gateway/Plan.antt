-- ===== src/Gateway/Plan.antt =====
-- apps/gateway/src/middleware/planEnforcement.ts: what a plan allows, and the cache of plans in
-- Redis. A Redis that is down answers nothing and keeps its content.
pub mod Cache
pub mod Tiers
pub mod Subscription
mod Tests
use grain_guard.Prelude.{
  ℕ, ◌+◌, String, Bool, true, false, not, ◌&&◌, ◌||◌, Option, none, some, List, [], ◌∷◌, ℤ, pos,
  negsuc, is_minus_one, reaches, ltb, is_empty, includes, or_else, if◌then◌else◌, ◌==◌,
}
use grain_guard.Database.{Database, Tenant, tenant_row, device_count}

pub record PlanLimits : Type 0 where
  pub devices : ℤ
  pub alert_rules : ℤ
  pub bulk_import : Bool
  pub sso : Bool
  pub audit_log_export : Bool
  pub api_rate_limit : ℕ
  pub webhooks : Bool

abbrev pub free : PlanLimits
free = record {
  devices = pos 5;
  alert_rules = pos 3;
  bulk_import = false;
  sso = false;
  audit_log_export = false;
  api_rate_limit = 100;
  webhooks = false;
}

abbrev pub starter : PlanLimits
starter = record {
  devices = pos 10;
  alert_rules = pos 10;
  bulk_import = true;
  sso = false;
  audit_log_export = false;
  api_rate_limit = 500;
  webhooks = true;
}

abbrev pub professional : PlanLimits
professional = record {
  devices = pos 100;
  alert_rules = pos 50;
  bulk_import = true;
  sso = true;
  audit_log_export = true;
  api_rate_limit = 2000;
  webhooks = true;
}

abbrev pub enterprise : PlanLimits
enterprise = record {
  devices = negsuc 0;
  alert_rules = negsuc 0;
  bulk_import = true;
  sso = true;
  audit_log_export = true;
  api_rate_limit = 10000;
  webhooks = true;
}

-- PLAN_LIMITS[plan] ?? PLAN_LIMITS.free
unfoldable pub plan_limits : String → PlanLimits
plan_limits plan =
    if plan == "free"
    then free
    else if plan == "starter"
    then starter
    else if plan == "professional"
    then professional
    else if plan == "enterprise"
    then enterprise
    else free

pub record TenantPlan : Type 0 where
  pub plan : String
  pub subscription_status : String
  pub current_period_end : Option ℕ

-- The entries `tenant_plan:<id>` and `device_count:<id>`; entries also vanish when they expire.
pub record Redis : Type 0 where
  pub up : Bool
  pub plans : String → Option TenantPlan
  pub counts : String → Option ℕ

abbrev pub put {ℓ} : {A : Type ℓ} → String → A → (String → A) → String → A
put k v f j = if j == k then v else f j

abbrev none_if_empty : String → String → String
none_if_empty s default = if is_empty s then default else s

-- The row that the query returns, as a TenantPlan.
abbrev pub plan_of : Tenant → TenantPlan
plan_of t = record {
  plan = none_if_empty t.plan "free";
  subscription_status = none_if_empty t.subscription_status "none";
  current_period_end = t.current_period_end;
}

abbrev pub unknown_plan : TenantPlan
unknown_plan = record { plan = "free"; subscription_status = "none"; current_period_end = none }

-- `redis.get`, where an error is an absent entry
abbrev pub cached : {A : Type 0} → Bool → Option A → Option A
cached up entry = if up then entry else none

unfoldable pub get_tenant_plan : Redis → Database → String → TenantPlan × Redis
get_tenant_plan r db id = elim (cached r.up (r.plans id)) [
  | some p ↦ (p, r)
  | none ↦ elim (tenant_row db id) [
    | none ↦ (unknown_plan, r)
    | some t ↦
        (plan_of t, (if r.up then record r { plans = put id (some (plan_of t)) r.plans } else r))
  ]
]

unfoldable pub get_device_count : Redis → Database → String → ℕ × Redis
get_device_count r db id = elim (cached r.up (r.counts id)) [
  | some n ↦ (n, r)
  | none ↦
      let n = device_count db id in
      (n, (if r.up then record r { counts = put id (some n) r.counts } else r))
]

unfoldable pub invalidate_plan_cache : String → Redis → Redis
invalidate_plan_cache id r =
    if r.up then record r { plans = put id none r.plans; counts = put id none r.counts } else r

-- The answers of the guards: `next()`, or 403 with its error.
pub data Answer : Type 0 where
  next subscription_inactive subscription_past_due : Answer
  device_quota_exceeded alert_rule_quota_exceeded : ℤ → ℕ → Answer
  feature_not_available : Answer

-- Seven days in milliseconds.
abbrev pub grace : ℕ
grace = 604800000

-- `gracePeriodEnd && new Date() > gracePeriodEnd`
abbrev pub past_grace : ℕ → Option ℕ → Bool
past_grace now none = false
past_grace now (some end) = ltb (end + grace) now

unfoldable pub require_active_subscription : ℕ → Redis → Database → Option String → Answer × Redis
require_active_subscription now r db none = (next, r)
require_active_subscription now r db (some id) =
    if is_empty id
    then (next, r)
    else (let (tenant, r') = get_tenant_plan r db id in
        if tenant.plan == "free"
        then (next, r')
        else if includes tenant.subscription_status
            ("canceled" ∷ "unpaid" ∷ "incomplete_expired" ∷ [])
        then (subscription_inactive, r')
        else if tenant.subscription_status == "past_due" && past_grace now tenant.current_period_end
        then (subscription_past_due, r')
        else (next, r'))

-- The comparison with a limit, shared by the device guards.
abbrev pub within_devices : ℤ → ℕ → Answer
within_devices limit count = if reaches count limit then device_quota_exceeded limit count else next

unfoldable pub enforce_device_quota : Redis → Database → String → Answer × Redis
enforce_device_quota r db id =
    let (tenant, r') = get_tenant_plan r db id in
    let limits = plan_limits tenant.plan in
    let (count, r'') = get_device_count r' db id in
    if is_minus_one limits.devices then (next, r') else (within_devices limits.devices count, r'')

unfoldable pub enforce_bulk_device_quota : Redis → Database → String → Answer × Redis
enforce_bulk_device_quota r db id =
    let (tenant, r') = get_tenant_plan r db id in
    let limits = plan_limits tenant.plan in
    let (count, r'') = get_device_count r' db id in
    if not limits.bulk_import
    then (feature_not_available, r')
    else if is_minus_one limits.devices
    then (next, r')
    else (within_devices limits.devices count, r'')

-- `rules` is the result of `getAlertRuleCount`, a COUNT(*) that is not cached.
unfoldable pub enforce_alert_rule_quota : Redis → Database → ℕ → String → Answer × Redis
enforce_alert_rule_quota r db rules id =
    let (tenant, r') = get_tenant_plan r db id in
    let limits = plan_limits tenant.plan in
    if is_minus_one limits.alert_rules
    then (next, r')
    else if reaches rules limits.alert_rules
    then (alert_rule_quota_exceeded limits.alert_rules rules, r')
    else (next, r')

-- The keys of PlanLimits.
pub data Feature : Type 0 where
  devices alert_rules bulk_import sso audit_log_export api_rate_limit webhooks : Feature

-- `limits[feature] === false`
unfoldable pub is_off : PlanLimits → Feature → Bool
is_off l bulk_import = not l.bulk_import
is_off l sso = not l.sso
is_off l audit_log_export = not l.audit_log_export
is_off l webhooks = not l.webhooks
is_off l devices = false
is_off l alert_rules = false
is_off l api_rate_limit = false

unfoldable pub require_feature : Redis → Database → Feature → String → Answer × Redis
require_feature r db feature id =
    let (tenant, r') = get_tenant_plan r db id in
    if is_off (plan_limits tenant.plan) feature then (feature_not_available, r') else (next, r')
