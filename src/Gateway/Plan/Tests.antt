-- ===== src/Gateway/Plan/Tests.antt =====
-- A past-due tenant on the starter plan, with and without a cache.
use grain_guard.Prelude.{◌≡◌, refl, true, none, some, [], ◌∷◌}
use grain_guard.Database.{Database, Tenant}
use grain_guard.Gateway.Plan.{
  next, Redis, get_tenant_plan, require_active_subscription, subscription_past_due,
}
use grain_guard.Gateway.Plan.Cache.{IsCoherent}

abbrev owing : Tenant
owing = record {
  id = "acme";
  plan = "starter";
  subscription_status = "past_due";
  current_period_end = some 1000;
}

abbrev db : Database
db = record { tenants = owing ∷ []; devices = []; billing = []; users = []; stripe_events = [] }

abbrev empty : Redis
empty = record { up = true; plans = λ _. none; counts = λ _. none }

abbrev warm : Redis
warm = (get_tenant_plan empty db "acme").1

empty-IsCoherent : IsCoherent empty db
empty-IsCoherent = record { plans = λ id p e. cc; counts = λ id n e. cc }

in_grace : (require_active_subscription 604801000 empty db (some "acme")).0 ≡ next
unfolding require_active_subscription get_tenant_plan
in_grace = refl

past_grace :
    (require_active_subscription 604801001 empty db (some "acme")).0 ≡ subscription_past_due
unfolding require_active_subscription get_tenant_plan
past_grace = refl
