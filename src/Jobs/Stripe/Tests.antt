-- ===== src/Jobs/Stripe/Tests.antt =====
-- A tenant with seven devices on the starter plan, and the events that reach it.
use grain_guard.Prelude.{
  ℕ, zero, suc, min, String, ◌≡◌, refl, Bool, true, false, Option, none, some, List, [], ◌∷◌, pos,
}
use grain_guard.Database.{Database, Tenant, Device, device_count, tenant_row}
use grain_guard.Jobs.Billing.{
  find_billing_context, get_owner_by_tenant, undef, text, number, BillingContext,
}
use grain_guard.Jobs.Stripe.{committed, threw, process_stripe_event}
use grain_guard.Jobs.Stripe.Transaction.{query}
use grain_guard.Jobs.Stripe.Statements.{Payload, Job, EmailJob}
use grain_guard.Jobs.Stripe.Atomicity.{Leaves, process_stripe_event-Leaves}
use grain_guard.Jobs.Stripe.Effects.{subscription_deleted_effect}
use grain_guard.Jobs.Stripe.Progress.{process_stripe_event_commits}
use grain_guard.Jobs.Reconcile.Capacity.{
  enabled_count, theirs, capacity, reconcile_tenant_devices-capacity,
}
use grain_guard.Jobs.Reconcile.Ranks.{HasDistinctIds-of_test}
use grain_guard.Jobs.Reconcile.{reconcile_tenant_devices}

abbrev device : String → String → ℕ → Device
device id t n = record { id = id; tenant_id = t; created_at = n; disabled = false }

abbrev devices : List Device
devices =
    device "d7" "acme" 7
    ∷ device "d1" "acme" 1
    ∷ device "x1" "other" 1
    ∷ device "d2" "acme" 2
    ∷ device "d3" "acme" 3
    ∷ device "d5" "acme" 5
    ∷ device "d6" "acme" 5
    ∷ device "d4" "acme" 4
    ∷ []

abbrev before : Database
before = record {
  tenants =
      record {
        id = "acme";
        plan = "starter";
        subscription_status = "active";
        current_period_end = some 900;
      }
      ∷ [];
  devices = devices;
  billing =
      record {
        tenant_id = "acme";
        stripe_customer_id = some "cus_1";
        stripe_subscription_id = some "sub_1";
        plan = "starter";
        status = "active";
        trial_ends_at = none;
      }
      ∷ [];
  users =
      record { id = "u"; tenant_id = "acme"; auth_user_id = "a"; email = "a@acme"; role = "admin" }
      ∷ [];
  stripe_events = [];
}

abbrev payload : Payload
payload = record {
  metadata_tenant_id = none;
  metadata_plan = undef;
  item_plan = undef;
  id = some "sub_1";
  subscription = text "sub_1";
  customer = text "cus_1";
  status = undef;
  current_period_end = undef;
  trial_end = number 5;
  line_period_end = undef;
  period_end = number 2;
  hosted_invoice_url = some "https://pay";
}

abbrev job : String → Job
job type = record { stripe_event_id = "evt_1"; stripe_event_type = type; payload = payload }

abbrev never : ℕ → Bool
never n = false

abbrev third : ℕ → Bool
third n = elim n [ zero ↦ false | suc m ↦ elim m [ zero ↦ false | suc k ↦ true ] ]

abbrev no_parse : String → Option ℕ
no_parse s = none

-- The deletion leaves the five oldest devices enabled.
abbrev after_deletion : Database
after_deletion =
    (process_stripe_event never 100 no_parse (job "customer.subscription.deleted") before).1

deleted_five : enabled_count "acme" after_deletion.devices ≡ 5
unfolding process_stripe_event query find_billing_context get_owner_by_tenant
    reconcile_tenant_devices
deleted_five = refl

failed_email_queued :
    (process_stripe_event never 100 no_parse (job "invoice.payment_failed") before).0
    ≡ committed (EmailJob.payment_failed "a@acme" "acme" (some "https://pay") ∷ [])
unfolding process_stripe_event query find_billing_context get_owner_by_tenant
    reconcile_tenant_devices
failed_email_queued = refl

thrown_unchanged :
    process_stripe_event third 100 no_parse (job "invoice.payment_failed") before ≡ (threw, before)
unfolding process_stripe_event query find_billing_context get_owner_by_tenant
    reconcile_tenant_devices
thrown_unchanged = refl

process_stripe_event-Leaves_example :
    Leaves
      (job "invoice.payment_failed")
      before
      (process_stripe_event third 100 no_parse (job "invoice.payment_failed") before).0
      (process_stripe_event third 100 no_parse (job "invoice.payment_failed") before).1
process_stripe_event-Leaves_example =
    process_stripe_event-Leaves third 100 no_parse (job "invoice.payment_failed") before

abbrev context : BillingContext
context = record {
  tenant_id = "acme";
  plan = "starter";
  status = "active";
  current_period_end = some 900;
  stripe_customer_id = some "cus_1";
  stripe_subscription_id = some "sub_1";
}

subscription_deleted_effect_example :
    (◌≡◌ {A = List EmailJob} [] [])
    × (enabled_count "acme" after_deletion.devices ≡ min 5 (device_count before "acme"))
    × (theirs "acme" after_deletion.devices ≡ theirs "acme" before.devices)
    × ((r : Tenant)
        → tenant_row after_deletion "acme" ≡ some r
        → (r.plan ≡ "free") × (r.subscription_status ≡ "cancelled") × (r.current_period_end ≡ none))
unfolding process_stripe_event query find_billing_context get_owner_by_tenant
    reconcile_tenant_devices
subscription_deleted_effect_example =
    subscription_deleted_effect never 100 no_parse (job "customer.subscription.deleted") before
      after_deletion [] context refl refl (HasDistinctIds-of_test devices refl) refl

process_stripe_event_commits_example :
    (es : List EmailJob) × ((process_stripe_event
        (λ n. false)
        100
        no_parse
        (job "checkout.session.completed")
        before).0
      ≡ committed es)
process_stripe_event_commits_example =
    process_stripe_event_commits 100 no_parse (job "checkout.session.completed") before refl

reconcile_tenant_devices-capacity_example :
    (enabled_count "acme" (reconcile_tenant_devices "acme" (pos 3) before).devices
      ≡ capacity (pos 3) (device_count before "acme"))
    × (theirs "acme" (reconcile_tenant_devices "acme" (pos 3) before).devices
        ≡ theirs "acme" before.devices)
reconcile_tenant_devices-capacity_example =
    reconcile_tenant_devices-capacity "acme" (pos 3) before (HasDistinctIds-of_test devices refl)
      (λ n e. cc)
