-- ===== src/Jobs/Billing/Limit.antt =====
-- The gateway (services/planEnforcement.ts) and the worker (handlers/stripe.ts) compute the device
-- limit of a tenant by different code.
use grain_guard.Prelude.{
  ℕ, String, ◌≡◌, Bool, true, false, not, Option, none, some, pos, negsuc, is_empty, arith, eq_iff,
  if◌then◌else◌, ◌==◌, Bool-cases, inl, inr,
}
use grain_guard.Database.{Tenant}
use grain_guard.Gateway.Quota
use grain_guard.Gateway.Quota.{effective_plan, quota_limit_for_plan, plan_devices, is_after}
use grain_guard.Jobs.Billing
use grain_guard.Jobs.Billing.{plan_device_limit}

-- An empty status is read as "none", which gives no more access than the empty one.
status_or_none :
    (now : ℕ) (status : String) (end : Option ℕ)
    → Billing.has_paid_access now (if is_empty status then "none" else status) end
      ≡ Billing.has_paid_access now status end
unfolding Billing.has_paid_access
status_or_none now status end = elim (Bool-cases (is_empty status)) [
  | inl e ↦ rw (e, (eq_iff status "").0 e)
  | inr e ↦ rw e
]

-- The gateway's test of access is the worker's, for the plans that are sold.
has_paid_access-eq :
    (now : ℕ) (plan status : String) (end : Option ℕ)
    → Quota.has_paid_access now plan status end
      ≡ (if Quota.is_paid_plan plan then Billing.has_paid_access now status end else false)
unfolding Quota.has_paid_access Billing.has_paid_access
has_paid_access-eq now plan status none = ground arith
has_paid_access-eq now plan status (some t) = ground arith

unpaid :
    (plan : String)
    → (plan == "starter") ≡ false
    → (plan == "professional") ≡ false
    → (plan == "enterprise") ≡ false
    → Quota.is_paid_plan plan ≡ false
unfolding Quota.is_paid_plan
unpaid plan s p e = ground arith

limit_unpaid :
    (plan : String)
    → Quota.is_paid_plan plan ≡ false
    → quota_limit_for_plan
        (if if Quota.is_paid_plan plan then true else false then plan else "free")
      ≡ pos 5
unfolding quota_limit_for_plan
limit_unpaid plan h = rw h

limit_with_access :
    (plan : String) (access : Bool)
    → quota_limit_for_plan
        (if if Quota.is_paid_plan plan then access else false then plan else "free")
      ≡ (if not access
          then pos 5
          else if plan == "enterprise"
          then negsuc 0
          else if plan == "professional"
          then pos 100
          else if plan == "starter"
          then pos 10
          else pos 5)
unfolding quota_limit_for_plan Quota.is_paid_plan
limit_with_access plan true = elim (Bool-cases (plan == "starter")) [
  | inl s ↦ rw ((eq_iff plan "starter").0 s)
  | inr s ↦ elim (Bool-cases (plan == "professional")) [
    | inl p ↦ rw ((eq_iff plan "professional").0 p)
    | inr p ↦ elim (Bool-cases (plan == "enterprise")) [
      | inl e ↦ rw ((eq_iff plan "enterprise").0 e)
      | inr e ↦ rw (s, p, e) (limit_unpaid plan (unpaid plan s p e))
    ]
  ]
]
limit_with_access plan false = elim (Bool-cases (Quota.is_paid_plan plan)) [
  | inl e ↦ rw e
  | inr e ↦ rw e
]

-- Whatever the plan, the status and the end of the period, the limit that the gateway enforces for
-- a tenant is the limit up to which the worker leaves devices enabled, at the same time.
pub quota_limit-eq-plan_device_limit :
    (now : ℕ) (t : Tenant)
    → quota_limit_for_plan (effective_plan now t)
      ≡ plan_device_limit now t.plan t.subscription_status t.current_period_end
unfolding effective_plan quota_limit_for_plan plan_device_limit
quota_limit-eq-plan_device_limit now t = rw (has_paid_access-eq now t.plan _ t.current_period_end) (
    rw status_or_none (
      limit_with_access t.plan
        (Billing.has_paid_access now t.subscription_status t.current_period_end)))
