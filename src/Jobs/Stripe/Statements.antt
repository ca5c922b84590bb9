-- ===== src/Jobs/Stripe/Statements.antt =====
-- The SQL statements of handlers/stripe.ts, and the values that they are given.
use grain_guard.Prelude.{
  String, Bool, true, false, Option, none, some, ◌∷◌, find, update, includes, if◌then◌else◌, ◌==◌,
}
use grain_guard.Database.{Database, Tenant, Billing}
use grain_guard.Jobs.Billing.{Value}

-- The parts of `job.payload` that the handler reads; a missing part is `undef` or `none`.
pub record Payload : Type 0 where
  pub metadata_tenant_id : Option String
  pub metadata_plan : Value
  pub item_plan : Value
  pub id : Option String
  pub subscription : Value
  pub customer : Value
  pub status : Value
  pub current_period_end : Value
  pub trial_end : Value
  pub line_period_end : Value
  pub period_end : Value
  pub hosted_invoice_url : Option String

pub record Job : Type 0 where
  pub stripe_event_id : String
  pub stripe_event_type : String
  pub payload : Payload

-- The two emails; their texts are fixed but for the link and the date.
pub data EmailJob : Type 0 where
  payment_failed : String → String → Option String → EmailJob
  trial_ends : String → String → Value → EmailJob

-- INSERT … ON CONFLICT (stripe_event_id) DO NOTHING; whether a row was inserted
unfoldable pub mark_processed : Job → Database → Bool × Database
mark_processed job db =
    if includes job.stripe_event_id db.stripe_events
    then (false, db)
    else (true, record db { stripe_events = job.stripe_event_id ∷ db.stripe_events })

-- COALESCE(a, b)
abbrev pub or_keep : Option String → Option String → Option String
or_keep none b = b
or_keep (some a) b = some a

-- UPDATE tenant_billing SET … WHERE tenant_id = t
abbrev pub update_billing : String → (Billing → Billing) → Database → Database
update_billing tenant_id f db = record db {
  billing = update (λ (b : Billing). b.tenant_id == tenant_id) f db.billing;
}

-- UPDATE tenants SET … WHERE id = t
abbrev pub update_tenant : String → (Tenant → Tenant) → Database → Database
update_tenant tenant_id f db = record db {
  tenants = update (λ (t : Tenant). t.id == tenant_id) f db.tenants;
}

-- INSERT INTO tenant_billing … ON CONFLICT (tenant_id) DO UPDATE
unfoldable pub upsert_billing : String → Option String → String → String → Database → Database
upsert_billing tenant_id customer_id subscription_id plan db =
    elim (find (λ (b : Billing). b.tenant_id == tenant_id) db.billing) [
      | none ↦ record db {
        billing =
            record {
              tenant_id = tenant_id;
              stripe_customer_id = customer_id;
              stripe_subscription_id = some subscription_id;
              plan = plan;
              status = "active";
              trial_ends_at = none;
            }
            ∷ db.billing;
      }
      | some _ ↦
          update_billing tenant_id
            (λ b. record b {
              stripe_customer_id = or_keep customer_id b.stripe_customer_id;
              stripe_subscription_id = some subscription_id;
              plan = plan;
              status = "active";
            })
            db
    ]
