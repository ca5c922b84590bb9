-- ===== src/Gateway/Plan/Subscription.antt =====
-- Which tenants `requireActiveSubscription` turns away.
use grain_guard.Prelude.{
  ℕ, ◌+◌, ◌<◌, String, ◌≡◌, ◌≢◌, ◌↔◌, ◌⊎◌, ◌&&◌, some, [], ◌∷◌, arith, eq_iff, if◌then◌else◌,
  includes, ◌==◌,
}
use grain_guard.Database.{Database}
use grain_guard.Gateway.Plan.{
  Answer, next, subscription_inactive, subscription_past_due, TenantPlan, Redis, get_tenant_plan,
  require_active_subscription, grace, past_grace,
}

-- The subscription has ended, or a payment has been due for more than seven days after the end of
-- the period.
abbrev pub IsLapsed : ℕ → TenantPlan → Type 0
IsLapsed now p =
    (p.plan ≢ "free")
    × ((p.subscription_status ≡ "canceled")
        ⊎ ((p.subscription_status ≡ "unpaid")
            ⊎ ((p.subscription_status ≡ "incomplete_expired")
                ⊎ ((p.subscription_status ≡ "past_due")
                    × ((end : ℕ) × (p.current_period_end ≡ some end) × (end + grace < now))))))

abbrev decide : ℕ → TenantPlan → Answer
decide now p =
    if p.plan == "free"
    then next
    else if includes p.subscription_status ("canceled" ∷ "unpaid" ∷ "incomplete_expired" ∷ [])
    then subscription_inactive
    else if p.subscription_status == "past_due" && past_grace now p.current_period_end
    then subscription_past_due
    else next

decide_lem :
    (now : ℕ) (r : Redis) (db : Database) (id : String)
    → id ≢ ""
    → (require_active_subscription now r db (some id)).0 ≡ decide now (get_tenant_plan r db id).0
unfolding require_active_subscription
decide_lem now r db id ne = ground (arith, eq_iff id "")

IsLapsed-of_refusal : (now : ℕ) (p : TenantPlan) → decide now p ≢ next → IsLapsed now p
IsLapsed-of_refusal now p h = ground (
  arith,
  eq_iff p.plan "free",
  eq_iff "canceled" p.subscription_status,
  eq_iff "unpaid" p.subscription_status,
  eq_iff "incomplete_expired" p.subscription_status,
  eq_iff p.subscription_status "past_due",
)

refusal_of_lapsed : (now : ℕ) (p : TenantPlan) → IsLapsed now p → decide now p ≢ next
refusal_of_lapsed now p h = ground (
  arith,
  eq_iff p.plan "free",
  eq_iff "canceled" p.subscription_status,
  eq_iff "unpaid" p.subscription_status,
  eq_iff "incomplete_expired" p.subscription_status,
  eq_iff p.subscription_status "past_due",
)

-- For a tenant with a non-empty id, the request is turned away exactly if the plan that was read
-- for the tenant is not the free one and its subscription has lapsed.
pub require_active_subscription_refuses_iff :
    (now : ℕ) (r : Redis) (db : Database) (id : String)
    → id ≢ ""
    → ((require_active_subscription now r db (some id)).0 ≢ next)
      ↔ IsLapsed now (get_tenant_plan r db id).0
require_active_subscription_refuses_iff now r db id ne = rw (decide_lem now r db id ne) (
  IsLapsed-of_refusal now (get_tenant_plan r db id).0,
  refusal_of_lapsed now (get_tenant_plan r db id).0,
)
