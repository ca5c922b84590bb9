-- ===== src/Gateway/Checkout.antt =====
-- apps/gateway/src/routes/billing.ts: the subscription of a tenant, its sessions at Stripe, and the
-- events that Stripe sends. What Stripe and RabbitMQ answer is an argument, and the state records the
-- sessions that Stripe has opened and the jobs that are queued. `parse_date` stands for new Date of a
-- text. A query that fails is left out, and so is a plan that is the name of a property of every
-- JavaScript object.
pub mod Own
mod Tests
use grain_guard.Prelude.{
  ℕ, ◌*◌, ◌/◌, String, Bool, true, false, not, ◌&&◌, ◌||◌, Option, none, some, List, [], ◌∷◌, ◌++◌,
  find, update, any, is_empty, if◌then◌else◌, ◌==◌,
}
use grain_guard.Database.{Tenant, Billing, Database, tenant_row}
use grain_guard.Gateway.Team.{User}
use grain_guard.Jobs.Stripe.Statements.{Job}

-- A session that Stripe has opened for a tenant and a customer: a checkout of a plan at a price, or
-- the portal.
pub data Purpose : Type 0 where
  checkout : String → String → Purpose
  portal : Purpose

pub record Session : Type 0 where
  pub tenant_id : String
  pub customer : String
  pub purpose : Purpose

pub record Shop : Type 0 where
  pub db : Database
  pub sessions : List Session
  pub audit : List (String × String)

-- current_period_end as Stripe or the driver gives it: a number of seconds, a Date of milliseconds, a
-- text, or anything else.
pub data PeriodEnd : Type 0 where
  seconds date : ℕ → PeriodEnd
  text : String → PeriodEnd
  other : PeriodEnd

pub record Subscription : Type 0 where
  pub current_period_end : PeriodEnd
  pub cancel_at_period_end : Bool
  pub status : String

pub data BillingRequest : Type 0 where
  get_subscription : Option Subscription → BillingRequest
  post_checkout : String → Option String → Option String → BillingRequest
  post_portal : Option String → BillingRequest

pub record SubscriptionReply : Type 0 where
  pub plan : String
  pub status : String
  pub trial_ends_at : Option ℕ
  pub current_period_end : Option ℕ
  pub cancel_at_period_end : Bool
  pub payment_failed : Bool

pub data BillingReply : Type 0 where
  no_subscription invalid_plan no_billing_record threw : BillingReply
  subscription : SubscriptionReply → BillingReply
  url : String → BillingReply

abbrev pub is_billing : String → Billing → Bool
is_billing t b = b.tenant_id == t

-- A customer that is not falsy.
abbrev pub filled : Option String → Option String
filled none = none
filled (some c) = if is_empty c then none else some c

abbrev pub customer_of : Option Billing → Option String
customer_of none = none
customer_of (some b) = filled b.stripe_customer_id

abbrev pub floor_seconds : Option ℕ → Option ℕ
floor_seconds none = none
floor_seconds (some ms) = some (ms / 1000)

abbrev as_period_end : Option ℕ → PeriodEnd
as_period_end none = other
as_period_end (some ms) = date ms

module _ (parse_date : String → Option ℕ) where
  abbrev pub parse_current_period_end : PeriodEnd → Option ℕ
  parse_current_period_end (seconds n) = some n
  parse_current_period_end (date ms) = some (ms / 1000)
  parse_current_period_end (text s) = floor_seconds (parse_date s)
  parse_current_period_end other = none

  -- What Stripe says of a subscription; nothing where there is none or the call throws.
  abbrev live : Option String → Option Subscription → Option Subscription
  live id answer = elim (filled id) [ none ↦ none | some i ↦ answer ]

  abbrev live_end : Option Subscription → Option ℕ
  live_end none = none
  live_end (some s) = parse_current_period_end s.current_period_end

  abbrev cancels : Option Subscription → Bool
  cancels none = false
  cancels (some s) = s.cancel_at_period_end

  abbrev has_failed : Option Subscription → Bool
  has_failed none = false
  has_failed (some s) = s.status == "past_due" || s.status == "unpaid"

  abbrev period_end : Option Subscription → Tenant → Option ℕ
  period_end s t = elim (live_end s) [
    | some n ↦ some n
    | none ↦ parse_current_period_end (as_period_end t.current_period_end)
  ]

  abbrev reply_of : Billing → Tenant → Option Subscription → BillingReply
  reply_of b t s = subscription (record {
    plan = b.plan;
    status = b.status;
    trial_ends_at = b.trial_ends_at;
    current_period_end = period_end s t;
    cancel_at_period_end = cancels s;
    payment_failed = has_failed s;
  })

  -- GET /billing/subscription
  unfoldable pub show_subscription : String → Option Subscription → Database → BillingReply
  show_subscription t answer db = elim (find (is_billing t) db.billing) [
    | none ↦ no_subscription
    | some b ↦ elim (tenant_row db t) [
      | none ↦ no_subscription
      | some row ↦ reply_of b row (live b.stripe_subscription_id answer)
    ]
  ]

abbrev pub free_billing : String → String → Billing
free_billing t c = record {
  tenant_id = t;
  stripe_customer_id = some c;
  stripe_subscription_id = none;
  plan = "free";
  status = "none";
  trial_ends_at = none;
}

abbrev pub with_customer : String → Billing → Billing
with_customer c b = record b { stripe_customer_id = some c }

-- INSERT … ON CONFLICT (tenant_id) DO UPDATE SET stripe_customer_id
abbrev pub upsert_customer : String → String → List Billing → List Billing
upsert_customer t c rows =
    if any (is_billing t) rows
    then update (is_billing t) (with_customer c) rows
    else free_billing t c ∷ rows

abbrev logged : User → String → Shop → List (String × String)
logged u event s = (u.tenant_id, event) ∷ s.audit

abbrev pub opened : User → String → Purpose → String → Option String → Shop → BillingReply × Shop
opened u c purpose event none s = (threw, s)
opened u c purpose event (some link) s = (
  url link,
  record s {
    sessions = record { tenant_id = u.tenant_id; customer = c; purpose = purpose } ∷ s.sessions;
    audit = logged u event s;
  },
)

abbrev pub with_new_customer :
    User → String → String → Option String → Option String → Shop → BillingReply × Shop
with_new_customer u plan price none link s = (threw, s)
with_new_customer u plan price (some c) link s =
    opened u c (checkout plan price) "billing.checkout_started" link
      (record s { db = record s.db { billing = upsert_customer u.tenant_id c s.db.billing } })

module _ (price_ids : String → String) where
  -- POST /billing/checkout: `created` is the customer that Stripe makes, `link` the session's address.
  unfoldable pub start_checkout :
      User → String → Option String → Option String → Shop → BillingReply × Shop
  start_checkout u plan created link s =
      if is_empty (price_ids plan)
      then (invalid_plan, s)
      else elim (customer_of (find (is_billing u.tenant_id) s.db.billing)) [
        | none ↦ with_new_customer u plan (price_ids plan) created link s
        | some c ↦ opened u c (checkout plan (price_ids plan)) "billing.checkout_started" link s
      ]

  -- POST /billing/portal
  unfoldable pub open_portal : User → Option String → Shop → BillingReply × Shop
  open_portal u link s = elim (customer_of (find (is_billing u.tenant_id) s.db.billing)) [
    | none ↦ (no_billing_record, s)
    | some c ↦ opened u c portal "billing.portal_accessed" link s
  ]

  -- A request of a signed-in user, of whatever roles.
  unfoldable pub handle_billing :
      (String → Option ℕ) → User → BillingRequest → Shop → BillingReply × Shop
  unfolding show_subscription start_checkout open_portal
  handle_billing parse_date u (get_subscription answer) s =
      (show_subscription parse_date u.tenant_id answer s.db, s)
  handle_billing parse_date u (post_checkout plan created link) s =
      start_checkout u plan created link s
  handle_billing parse_date u (post_portal link) s = open_portal u link s

  abbrev pub run_billing : (String → Option ℕ) → List (User × BillingRequest) → Shop → Shop
  run_billing parse_date [] s = s
  run_billing parse_date ((u, q) ∷ rest) s =
      run_billing parse_date rest (handle_billing parse_date u q s).1

-- How publishToStripeQueue ends: the broker confirms, the message is lost, or it is queued and the
-- confirmation is lost.
pub data Publishing : Type 0 where
  confirmed lost unconfirmed : Publishing

pub data WebhookReply : Type 0 where
  bad_signature received queue_publish_failed : WebhookReply

abbrev pub published : Publishing → Job → List Job → WebhookReply × List Job
published confirmed job queue = (received, queue ++ (job ∷ []))
published lost job queue = (queue_publish_failed, queue)
published unconfirmed job queue = (queue_publish_failed, queue ++ (job ∷ []))

-- A request of POST /billing/webhook: the event that constructEvent reads, none where the signature is
-- wrong, and how its publishing ends.
pub record StripeRequest : Type 0 where
  pub event : Option Job
  pub publishing : Publishing

unfoldable pub stripe_webhook_handler : StripeRequest → List Job → WebhookReply × List Job
stripe_webhook_handler q queue = elim q.event [
  | none ↦ (bad_signature, queue)
  | some job ↦ published q.publishing job queue
]
