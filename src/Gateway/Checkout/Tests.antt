-- ===== src/Gateway/Checkout/Tests.antt =====
-- A tenant that has a customer at Stripe, and one that gets one.
use grain_guard.Prelude.{
  ◌≡◌, refl, ◌⊎◌, inl, inr, ℕ, String, none, some, Option, List, [], ◌∷◌, ◌==◌, map, if◌then◌else◌,
}
use grain_guard.Gateway.Team.{User}
use grain_guard.Gateway.Checkout.{
  Session, Shop, BillingRequest, post_checkout, post_portal, get_subscription, run_billing,
  free_billing, start_checkout, open_portal, handle_billing,
}
use grain_guard.Gateway.Checkout.Own.{IsOwn, run_billing-IsOwn}

-- The customer c1 is made for t1, and c2 for t2.
abbrev MadeFor : String → String → Type 0
MadeFor t c = ((t ≡ "t1") × (c ≡ "c1")) ⊎ ((t ≡ "t2") × (c ≡ "c2"))

abbrev price_ids : String → String
price_ids plan = if plan == "starter" then "price_1" else ""

abbrev parse_date : String → Option ℕ
parse_date s = none

abbrev ada : User
ada = record { sub = "auth0|ada"; tenant_id = "t1"; roles = [] }

abbrev bob : User
bob = record { sub = "auth0|bob"; tenant_id = "t2"; roles = [] }

abbrev shop : Shop
shop = record {
  db = record {
    tenants = [];
    devices = [];
    billing = free_billing "t1" "c1" ∷ [];
    users = [];
    stripe_events = [];
  };
  sessions = [];
  audit = [];
}

abbrev requests : List (User × BillingRequest)
requests =
    (bob, post_portal (some "https://portal"))
    ∷ (bob, post_checkout "starter" (some "c2") (some "https://checkout"))
    ∷ (ada, post_portal (some "https://portal"))
    ∷ (bob, post_portal none)
    ∷ (ada, get_subscription none)
    ∷ []

run_billing-IsOwn_example : IsOwn MadeFor (run_billing price_ids parse_date requests shop)
run_billing-IsOwn_example =
    run_billing-IsOwn MadeFor price_ids parse_date requests shop
      (tt, (inr (refl, refl), (tt, (tt, (tt, tt)))))
      (record { rows = (inl (refl, refl), tt); sessions = tt })

abbrev opened_for : Shop → List (String × String)
opened_for s = map (λ (x : Session). (x.tenant_id, x.customer)) s.sessions

run_opens :
    opened_for (run_billing price_ids parse_date requests shop) ≡ ("t1", "c1") ∷ ("t2", "c2") ∷ []
unfolding handle_billing start_checkout open_portal
run_opens = refl
