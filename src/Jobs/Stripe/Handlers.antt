-- ===== src/Jobs/Stripe/Handlers.antt =====
-- The cases of the `switch` in `processStripeEvent`, one definition each.
use grain_guard.Prelude.{ℕ, String, Bool, Option, none, some, List, [], ◌∷◌, ◌==◌, if◌then◌else◌}
use grain_guard.Database.{Database, TenantUser}
use grain_guard.Jobs.Billing.{
  Value, undef, text, has_key, normalize_plan, to_date, id_of, coalesce, free_device_limit,
  plan_device_limit, BillingContext, Lookup, truthy, find_billing_context, get_owner_by_tenant,
}
use grain_guard.Jobs.Reconcile.{reconcile_tenant_devices}
use grain_guard.Jobs.Stripe.Transaction.{Tx, query, pure, ◌>>=◌, ◌>>◌}
use grain_guard.Jobs.Stripe.Statements.{
  Payload, Job, EmailJob, payment_failed, trial_ends, or_keep, update_billing, update_tenant,
  upsert_billing,
}

-- A statement with no result.
abbrev pub execute : (ℕ → Bool) → (Database → Database) → Tx (Unit {0})
execute fails f = query fails (λ db. (tt, f db))

-- A SELECT.
abbrev pub read : {A : Type 0} → (ℕ → Bool) → (Database → A) → Tx A
read fails f = query fails (λ db. (f db, db))

-- `findBillingContext`, which sends no query where it has no key.
unfoldable pub find_context : (ℕ → Bool) → Lookup → Tx (Option BillingContext)
find_context fails lookup =
    if has_key lookup then read fails (find_billing_context lookup) else pure none

abbrev pub as_value : Option String → Value
as_value none = undef
as_value (some s) = text s

-- The keys of the lookups by a subscription, and by an invoice.
abbrev pub subscription_keys : Payload → Lookup
subscription_keys p = record {
  tenant_id = none;
  subscription_id = as_value p.id;
  customer_id = id_of p.customer;
}

abbrev pub invoice_keys : Payload → Lookup
invoice_keys p = record {
  tenant_id = none;
  subscription_id = p.subscription;
  customer_id = id_of p.customer;
}

unfoldable pub checkout_for :
    (ℕ → Bool) → ℕ → Payload → Option String → Option String → Tx (List EmailJob)
checkout_for fails now p (some tenant_id) (some subscription_id) = do
  let plan = normalize_plan p.metadata_plan "free"
  execute fails (upsert_billing tenant_id (id_of p.customer) subscription_id plan)
  execute fails
      (update_tenant tenant_id (λ t. record t { subscription_status = "active"; plan = plan }))
  execute fails (reconcile_tenant_devices tenant_id (plan_device_limit now plan "active" none))
  pure []
checkout_for fails now p _ _ = pure []

-- case "checkout.session.completed"
unfoldable pub checkout_completed : (ℕ → Bool) → ℕ → Payload → Tx (List EmailJob)
unfolding checkout_for
checkout_completed fails now p =
    checkout_for fails now p (truthy p.metadata_tenant_id) (truthy (id_of p.subscription))

unfoldable pub updated_for :
    (ℕ → Bool) → ℕ → (String → Option ℕ) → Payload → Option BillingContext → Tx (List EmailJob)
updated_for fails now parse_date p none = pure []
updated_for fails now parse_date p (some context) = do
  let plan = normalize_plan (coalesce p.metadata_plan p.item_plan) context.plan
  let status = normalize_plan p.status context.status
  let current_period_end = to_date parse_date p.current_period_end
  let trial_ends_at = to_date parse_date p.trial_end
  let customer_id = or_keep (id_of p.customer) context.stripe_customer_id
  execute fails (
      update_billing context.tenant_id (λ b. record b {
        stripe_customer_id = or_keep customer_id b.stripe_customer_id;
        stripe_subscription_id = p.id;
        status = status;
        plan = plan;
        trial_ends_at = trial_ends_at;
      }))
  execute fails (
      update_tenant context.tenant_id (λ t. record t {
        subscription_status = status;
        plan = plan;
        current_period_end = current_period_end;
      }))
  execute fails (
      reconcile_tenant_devices context.tenant_id
        (plan_device_limit now plan status current_period_end))
  pure []

-- case "customer.subscription.updated"
unfoldable pub subscription_updated :
    (ℕ → Bool) → ℕ → (String → Option ℕ) → Payload → Tx (List EmailJob)
unfolding updated_for find_context
subscription_updated fails now parse_date p = do
  context ← find_context fails (record {
    tenant_id = p.metadata_tenant_id;
    subscription_id = as_value p.id;
    customer_id = id_of p.customer;
  })
  updated_for fails now parse_date p context

unfoldable pub deleted_for : (ℕ → Bool) → Option BillingContext → Tx (List EmailJob)
deleted_for fails none = pure []
deleted_for fails (some context) = do
  execute fails (
      update_billing context.tenant_id (λ b. record b {
        status = "cancelled";
        plan = "free";
        stripe_subscription_id = none;
        trial_ends_at = none;
      }))
  execute fails (
      update_tenant context.tenant_id (λ t. record t {
        subscription_status = "cancelled";
        plan = "free";
        current_period_end = none;
      }))
  execute fails (reconcile_tenant_devices context.tenant_id free_device_limit)
  pure []

-- case "customer.subscription.deleted"
unfoldable pub subscription_deleted : (ℕ → Bool) → Payload → Tx (List EmailJob)
unfolding deleted_for find_context
subscription_deleted fails p = do
  context ← find_context fails (subscription_keys p)
  deleted_for fails context

abbrev pub or_keep_date : Option ℕ → Option ℕ → Option ℕ
or_keep_date none b = b
or_keep_date (some a) b = some a

unfoldable pub succeeded_for :
    (ℕ → Bool) → ℕ → (String → Option ℕ) → Payload → Option BillingContext → Tx (List EmailJob)
succeeded_for fails now parse_date p none = pure []
succeeded_for fails now parse_date p (some context) = do
  let current_period_end = to_date parse_date (coalesce p.line_period_end p.period_end)
  execute fails (update_billing context.tenant_id (λ b. record b { status = "active" }))
  execute fails (
      update_tenant context.tenant_id (λ t. record t {
        subscription_status = "active";
        current_period_end = or_keep_date current_period_end t.current_period_end;
      }))
  execute fails (
      reconcile_tenant_devices context.tenant_id (
        plan_device_limit now context.plan "active"
          (or_keep_date current_period_end context.current_period_end)))
  pure []

-- case "invoice.payment_succeeded"
unfoldable pub payment_succeeded :
    (ℕ → Bool) → ℕ → (String → Option ℕ) → Payload → Tx (List EmailJob)
unfolding succeeded_for find_context
payment_succeeded fails now parse_date p = do
  context ← find_context fails (invoice_keys p)
  succeeded_for fails now parse_date p context

abbrev pub failed_email : Payload → Option TenantUser → List EmailJob
failed_email p none = []
failed_email p (some owner) = payment_failed owner.email owner.tenant_id p.hosted_invoice_url ∷ []

unfoldable pub failed_for : (ℕ → Bool) → ℕ → Payload → Option BillingContext → Tx (List EmailJob)
failed_for fails now p none = pure []
failed_for fails now p (some context) = do
  execute fails (update_billing context.tenant_id (λ b. record b { status = "past_due" }))
  execute fails
      (update_tenant context.tenant_id (λ t. record t { subscription_status = "past_due" }))
  execute fails (
      reconcile_tenant_devices context.tenant_id
        (plan_device_limit now context.plan "past_due" context.current_period_end))
  owner ← read fails (get_owner_by_tenant context.tenant_id)
  pure (failed_email p owner)

-- case "invoice.payment_failed"
unfoldable pub invoice_failed : (ℕ → Bool) → ℕ → Payload → Tx (List EmailJob)
unfolding failed_for find_context
invoice_failed fails now p = do
  context ← find_context fails (invoice_keys p)
  failed_for fails now p context

abbrev pub trial_email : Payload → Option TenantUser → List EmailJob
trial_email p none = []
trial_email p (some owner) = trial_ends owner.email owner.tenant_id p.trial_end ∷ []

unfoldable pub trial_for : (ℕ → Bool) → Payload → Option BillingContext → Tx (List EmailJob)
trial_for fails p none = pure []
trial_for fails p (some context) = do
  owner ← read fails (get_owner_by_tenant context.tenant_id)
  pure (trial_email p owner)

-- case "customer.subscription.trial_will_end"
unfoldable pub trial_will_end : (ℕ → Bool) → Payload → Tx (List EmailJob)
unfolding trial_for find_context
trial_will_end fails p = do
  context ← find_context fails (subscription_keys p)
  trial_for fails p context

-- switch (job.stripeEventType)
unfoldable pub handle_event : (ℕ → Bool) → ℕ → (String → Option ℕ) → Job → Tx (List EmailJob)
unfolding checkout_completed subscription_updated subscription_deleted payment_succeeded
    invoice_failed trial_will_end
handle_event fails now parse_date job =
    let event_type = job.stripe_event_type in
    if event_type == "checkout.session.completed"
    then checkout_completed fails now job.payload
    else if event_type == "customer.subscription.updated"
    then subscription_updated fails now parse_date job.payload
    else if event_type == "customer.subscription.deleted"
    then subscription_deleted fails job.payload
    else if event_type == "invoice.payment_succeeded"
    then payment_succeeded fails now parse_date job.payload
    else if event_type == "invoice.payment_failed"
    then invoice_failed fails now job.payload
    else if event_type == "customer.subscription.trial_will_end"
    then trial_will_end fails job.payload
    else pure []
