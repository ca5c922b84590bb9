-- ===== src/Gateway/Checkout/Own.antt =====
-- Whose customers the sessions at Stripe are opened for.
use grain_guard.Prelude.{
  ℕ, sym, subst, String, Option, none, some, List, [], ◌∷◌, find, update, any, is_empty, All, Maybe,
  if-intro, Bool-cases, inl, inr, ◌==◌, eq_iff,
}
use grain_guard.Database.{Billing}
use grain_guard.Gateway.Team.{User}
use grain_guard.Gateway.Checkout.{
  Purpose, checkout, portal, Session, Shop, BillingRequest, get_subscription, post_checkout,
  post_portal, BillingReply, invalid_plan, no_billing_record, is_billing, filled, customer_of,
  free_billing, with_customer, upsert_customer, opened, with_new_customer, start_checkout,
  open_portal, handle_billing, run_billing,
}

module _ (Owned : String → String → Type 0) where
  abbrev OwnRow : Billing → Type 0
  OwnRow b = Maybe (λ c. Owned b.tenant_id c) b.stripe_customer_id

  abbrev OwnSession : Session → Type 0
  OwnSession s = Owned s.tenant_id s.customer

  -- The customers in the table and in the sessions are those of their tenants.
  pub record IsOwn (s : Shop) : Type 0 where
    pub rows : All OwnRow s.db.billing
    pub sessions : All OwnSession s.sessions

  -- A customer that Stripe makes is the customer of the tenant that it is made for.
  abbrev pub Makes : User → BillingRequest → Type 0
  Makes u (get_subscription answer) = Unit
  Makes u (post_checkout plan created link) = Maybe (Owned u.tenant_id) created
  Makes u (post_portal link) = Unit

  abbrev Kept : BillingReply × Shop → Type 0
  Kept r = IsOwn r.1

  module _ (u : User) (s : Shop) (own : IsOwn s) where
    opened-Kept :
        (c : String) (purpose : Purpose) (event : String) (link : Option String)
        → Owned u.tenant_id c
        → Kept (opened u c purpose event link s)
    opened-Kept c purpose event none o = own
    opened-Kept c purpose event (some l) o = record {
      rows = own.rows;
      sessions = (o, own.sessions);
    }

  filled-Owned : (t : String) (o : Option String) → Maybe (Owned t) o → Maybe (Owned t) (filled o)
  filled-Owned t none h = tt
  filled-Owned t (some c) h = if-intro (Maybe (Owned t)) (is_empty c) {x = none} tt h

  customer-Owned :
      (t : String) (rows : List Billing)
      → All OwnRow rows
      → Maybe (Owned t) (customer_of (find (is_billing t) rows))
  customer-Owned t [] h = tt
  customer-Owned t (b ∷ rows) h = elim (Bool-cases (b.tenant_id == t)) [
    | inl e ↦ rw e (
        filled-Owned t b.stripe_customer_id
          (subst (λ x. Maybe (Owned x) b.stripe_customer_id) ((eq_iff b.tenant_id t).0 e) h.0))
    | inr e ↦ rw e (customer-Owned t rows h.1)
  ]

  update-Owned :
      (t c : String) (rows : List Billing)
      → Owned t c
      → All OwnRow rows
      → All OwnRow (update (is_billing t) (with_customer c) rows)
  update-Owned t c [] o h = tt
  update-Owned t c (b ∷ rows) o h = elim (Bool-cases (b.tenant_id == t)) [
    | inl e ↦
        rw e
          (subst (λ x. Owned x c) (sym ((eq_iff b.tenant_id t).0 e)) o, update-Owned t c rows o h.1)
    | inr e ↦ rw e (h.0, update-Owned t c rows o h.1)
  ]

  customer-intro :
      (Q : BillingReply × Shop → Type 0) (t : String) (o : Option String) (x : BillingReply × Shop)
      (f : String → BillingReply × Shop)
      → Maybe (Owned t) o
      → Q x
      → ((c : String) → Owned t c → Q (f c))
      → Q (elim o [ none ↦ x | some c ↦ f c ])
  customer-intro Q t none x f h k l = k
  customer-intro Q t (some c) x f h k l = l c h

  module _ (u : User) (s : Shop) (own : IsOwn s) where
    abbrev customer : Option String
    customer = customer_of (find (is_billing u.tenant_id) s.db.billing)

    with_new_customer-Kept :
        (plan price : String) (created link : Option String)
        → Maybe (Owned u.tenant_id) created
        → Kept (with_new_customer u plan price created link s)
    with_new_customer-Kept plan price none link o = own
    with_new_customer-Kept plan price (some c) link o =
        opened-Kept u
          (record s { db = record s.db { billing = upsert_customer u.tenant_id c s.db.billing } })
          (record {
            rows =
                if-intro (All OwnRow) (any (is_billing u.tenant_id) s.db.billing)
                  {y = free_billing u.tenant_id c ∷ s.db.billing}
                  (update-Owned u.tenant_id c s.db.billing o own.rows) (o, own.rows);
            sessions = own.sessions;
          })
          c (checkout plan price) "billing.checkout_started" link o

    module _ (price_ids : String → String) where
      start_checkout-Kept :
          (plan : String) (created link : Option String)
          → Maybe (Owned u.tenant_id) created
          → Kept (start_checkout price_ids u plan created link s)
      unfolding start_checkout
      start_checkout-Kept plan created link o =
          if-intro Kept (is_empty (price_ids plan)) {x = (invalid_plan, s)} own (
            customer-intro Kept u.tenant_id customer
              (with_new_customer u plan (price_ids plan) created link s)
              (λ c. opened u c (checkout plan (price_ids plan)) "billing.checkout_started" link s)
              (customer-Owned u.tenant_id s.db.billing own.rows)
              (with_new_customer-Kept plan (price_ids plan) created link o)
              (λ c h. opened-Kept u s own c (checkout plan (price_ids plan)) _ link h))

      open_portal-Kept : (link : Option String) → Kept (open_portal price_ids u link s)
      unfolding open_portal
      open_portal-Kept link =
          customer-intro Kept u.tenant_id customer (no_billing_record, s)
            (λ c. opened u c portal "billing.portal_accessed" link s)
            (customer-Owned u.tenant_id s.db.billing own.rows) own
            (λ c h. opened-Kept u s own c portal "billing.portal_accessed" link h)

      handle_billing-Kept :
          (parse_date : String → Option ℕ) (q : BillingRequest)
          → Makes u q
          → Kept (handle_billing price_ids parse_date u q s)
      unfolding handle_billing
      handle_billing-Kept parse_date (get_subscription answer) m = own
      handle_billing-Kept parse_date (post_checkout plan created link) m =
          start_checkout-Kept plan created link m
      handle_billing-Kept parse_date (post_portal link) m = open_portal-Kept link

  -- In a run of billing requests by users of any tenants, whichever calls of Stripe fail, each session
  -- that is opened at Stripe for a tenant is for a customer of that tenant, and so is the customer in
  -- each row of the table, given that this holds at the beginning and that a customer which Stripe
  -- makes for a tenant is one of the tenant's.
  pub run_billing-IsOwn :
      (price_ids : String → String) (parse_date : String → Option ℕ)
      (requests : List (User × BillingRequest)) (s : Shop)
      → All (λ (r : User × BillingRequest). Makes r.0 r.1) requests
      → IsOwn s
      → IsOwn (run_billing price_ids parse_date requests s)
  run_billing-IsOwn price_ids parse_date [] s m h = h
  run_billing-IsOwn price_ids parse_date ((u, q) ∷ rest) s m h =
      run_billing-IsOwn price_ids parse_date rest (handle_billing price_ids parse_date u q s).1 m.1
        (handle_billing-Kept u s h price_ids parse_date q m.0)
