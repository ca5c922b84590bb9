-- ===== src/Gateway/Quota.antt =====
-- apps/gateway/src/services/planEnforcement.ts (with the device limits of services/stripe.ts) and
-- middleware/quota.ts: how many devices a tenant may have. Times are milliseconds.
pub mod Laws
mod Tests
use grain_guard.Prelude.{
  ℕ, String, Bool, true, false, not, ◌&&◌, ◌||◌, Option, none, some, ℤ, pos, negsuc, is_minus_one,
  reaches, ltb, is_empty, if◌then◌else◌, ◌==◌,
}
use grain_guard.Database.{Database, Tenant, tenant_row, device_count}

-- PLANS[plan].devices, where the plan is a key of PLANS.
unfoldable pub plan_devices : String → Option ℤ
plan_devices plan =
    if plan == "starter"
    then some (pos 10)
    else if plan == "professional"
    then some (pos 100)
    else if plan == "enterprise"
    then some (negsuc 0)
    else none

abbrev pub free_device_limit : ℤ
free_device_limit = pos 5

unfoldable pub is_paid_plan : String → Bool
unfolding plan_devices
is_paid_plan plan = elim (plan_devices plan) [ none ↦ false | some _ ↦ true ]

-- BILLING_GRACE_STATUSES.has(status)
abbrev pub is_grace_status : String → Bool
is_grace_status status = status == "past_due" || status == "cancelled"

-- `currentPeriodEnd != null && currentPeriodEnd.getTime() > Date.now()`
abbrev pub is_after : Option ℕ → ℕ → Bool
is_after none now = false
is_after (some t) now = ltb now t

unfoldable pub has_paid_access : ℕ → String → String → Option ℕ → Bool
unfolding is_paid_plan
has_paid_access now plan subscription_status current_period_end =
    if not (is_paid_plan plan)
    then false
    else if subscription_status == "active" || subscription_status == "trialing"
    then true
    else is_grace_status subscription_status && is_after current_period_end now

unfoldable pub quota_limit_for_plan : String → ℤ
unfolding plan_devices
quota_limit_for_plan plan =
    if plan == "enterprise"
    then negsuc 0
    else elim (plan_devices plan) [ some n ↦ n | none ↦ free_device_limit ]

-- The texts of `message`, with the values that they show.
pub data Message : Type 0 where
  tenant_not_found : Message
  no_longer_granting : String → ℕ → ℤ → Message
  limit_reached : ℕ → ℤ → Message

pub record QuotaResult : Type 0 where
  pub allowed : Bool
  pub current_count : ℕ
  pub max_devices : ℤ
  pub plan : String
  pub message : Option Message

-- `storedPlan` with paid access, otherwise the free plan.
unfoldable pub effective_plan : ℕ → Tenant → String
unfolding has_paid_access
effective_plan now t =
    let status = if is_empty t.subscription_status then "none" else t.subscription_status in
    if has_paid_access now t.plan status t.current_period_end then t.plan else "free"

-- The decision once the row has been read.
unfoldable pub quota_decision : ℕ → Tenant → ℕ → QuotaResult
unfolding effective_plan quota_limit_for_plan
quota_decision now t current_count =
    let plan = effective_plan now t in
    let max_devices = quota_limit_for_plan plan in
    if is_minus_one max_devices
    then record {
      allowed = true;
      current_count = current_count;
      max_devices = max_devices;
      plan = plan;
      message = none;
    }
    else if reaches current_count max_devices
    then record {
      allowed = false;
      current_count = current_count;
      max_devices = max_devices;
      plan = plan;
      message = some (
          if plan == "free" && not (t.plan == "free")
          then no_longer_granting t.plan current_count max_devices
          else limit_reached current_count max_devices);
    }
    else record {
      allowed = true;
      current_count = current_count;
      max_devices = max_devices;
      plan = plan;
      message = none;
    }

unfoldable pub check_device_quota : ℕ → Database → String → QuotaResult
check_device_quota now db tenant_id = elim (tenant_row db tenant_id) [
  | none ↦ record {
    allowed = false;
    current_count = 0;
    max_devices = pos 0;
    plan = "unknown";
    message = some tenant_not_found;
  }
  | some t ↦ quota_decision now t (device_count db tenant_id)
]

-- What the middleware does with the request.
pub data Verdict : Type 0 where
  next : Verdict
  payment_required : QuotaResult → Verdict

-- middleware/quota.ts; the database is `none` where the query throws.
pub device_quota_middleware : ℕ → Option Database → Option String → Verdict
unfolding check_device_quota
device_quota_middleware now db none = next
device_quota_middleware now none (some tenant_id) = next
device_quota_middleware now (some db) (some tenant_id) =
    if is_empty tenant_id
    then next
    else (let result = check_device_quota now db tenant_id in
        if not result.allowed then payment_required result else next)
