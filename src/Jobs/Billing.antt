-- ===== src/Jobs/Billing.antt =====
-- apps/jobs-worker/src/handlers/stripe.ts: the values that the handler reads from an event, the
-- device limit of a plan, and the billing context of a tenant.
pub mod Limit
use grain_guard.Prelude.{
  ℕ, ◌*◌, String, Bool, true, false, not, ◌&&◌, ◌||◌, Option, none, some, List, [], ◌∷◌, ℤ, pos,
  negsuc, ltb, is_empty, find, if◌then◌else◌, ◌==◌,
}
use grain_guard.Database.{Database, Tenant, Billing, TenantUser, tenant_row}

-- A JSON value as the handler reads it: `undef` is undefined or null, `object i` an object whose
-- `id` is `i`. The numbers are Stripe's times in seconds.
pub data Value : Type 0 where
  undef : Value
  text : String → Value
  number : ℕ → Value
  object : Option String → Value

pub normalize_plan : Value → String → String
normalize_plan (text plan) fallback = if is_empty plan then fallback else plan
normalize_plan _ fallback = fallback

-- `parse_date` is `new Date(text)`, which is none of the program's code.
pub to_date : (String → Option ℕ) → Value → Option ℕ
to_date parse_date (number n) = some (n * 1000)
to_date parse_date (text s) = parse_date s
to_date parse_date _ = none

abbrev pub is_none : Option String → Bool
is_none none = true
is_none (some _) = false

-- `typeof v === "string" ? v : v?.id`
pub id_of : Value → Option String
id_of (text s) = some s
id_of (object i) = i
id_of _ = none

-- `a ?? b`
pub coalesce : Value → Value → Value
coalesce undef b = b
coalesce a b = a

-- `currentPeriodEnd != null && currentPeriodEnd.getTime() > Date.now()`
abbrev is_after : Option ℕ → ℕ → Bool
is_after none now = false
is_after (some t) now = ltb now t

unfoldable pub has_paid_access : ℕ → String → Option ℕ → Bool
has_paid_access now status current_period_end =
    if status == "active" || status == "trialing"
    then true
    else (status == "past_due" || status == "cancelled") && is_after current_period_end now

abbrev pub free_device_limit : ℤ
free_device_limit = pos 5

unfoldable pub plan_device_limit : ℕ → String → String → Option ℕ → ℤ
unfolding has_paid_access
plan_device_limit now plan status current_period_end =
    if not (has_paid_access now status current_period_end)
    then free_device_limit
    else if plan == "enterprise"
    then negsuc 0
    else if plan == "professional"
    then pos 100
    else if plan == "starter"
    then pos 10
    else free_device_limit

pub record BillingContext : Type 0 where
  pub tenant_id : String
  pub plan : String
  pub status : String
  pub current_period_end : Option ℕ
  pub stripe_customer_id : Option String
  pub stripe_subscription_id : Option String

abbrev context : Billing → Tenant → BillingContext
context tb t = record {
  tenant_id = tb.tenant_id;
  plan = tb.plan;
  status = tb.status;
  current_period_end = t.current_period_end;
  stripe_customer_id = tb.stripe_customer_id;
  stripe_subscription_id = tb.stripe_subscription_id;
}

-- The first row of `tenant_billing tb JOIN tenants t ON t.id = tb.tenant_id WHERE p`.
unfoldable pub joined : Database → (Billing → Bool) → List Billing → Option BillingContext
joined db p [] = none
joined db p (tb ∷ rest) = elim (tenant_row db tb.tenant_id) [
  | none ↦ joined db p rest
  | some t ↦ if p tb then some (context tb t) else joined db p rest
]

-- `column = $1`, which no row with NULL in the column meets
abbrev pub column_is : Option String → String → Bool
column_is none s = false
column_is (some c) s = c == s

pub record Lookup : Type 0 where
  pub tenant_id : Option String
  pub subscription_id : Value
  pub customer_id : Option String

-- A string that is neither undefined nor empty.
abbrev pub truthy : Option String → Option String
truthy none = none
truthy (some s) = if is_empty s then none else some s

abbrev pub is_truthy : Value → Bool
is_truthy undef = false
is_truthy (text s) = not (is_empty s)
is_truthy (number n) = ltb 0 n
is_truthy (object i) = true

-- `stripe_subscription_id = $1`; a value that is no string is no subscription's id
abbrev pub value_is : Option String → Value → Bool
value_is column (text s) = column_is column s
value_is column _ = false

-- Whether any of the three SELECT statements is run.
abbrev pub has_key : Lookup → Bool
has_key lookup =
    not (is_none (truthy lookup.tenant_id))
    || is_truthy lookup.subscription_id
    || not (is_none (truthy lookup.customer_id))

-- `findBillingContext`, over its three SELECT statements as `select_where`.
unfoldable pub find_with :
    ((Billing → Bool) → Option BillingContext) → Lookup → Option BillingContext
find_with select_where lookup = elim (truthy lookup.tenant_id) [
  | some id ↦ select_where (λ tb. tb.tenant_id == id)
  | none ↦
      if is_truthy lookup.subscription_id
      then select_where (λ tb. value_is tb.stripe_subscription_id lookup.subscription_id)
      else elim (truthy lookup.customer_id) [
        | some id ↦ select_where (λ tb. column_is tb.stripe_customer_id id)
        | none ↦ none
      ]
]

unfoldable pub find_billing_context : Lookup → Database → Option BillingContext
unfolding joined find_with
find_billing_context lookup db = find_with (λ p. joined db p db.billing) lookup

-- ORDER BY CASE WHEN role = 'owner' THEN 0 ELSE 1 END LIMIT 1, among owners and admins
unfoldable pub get_owner_by_tenant : String → Database → Option TenantUser
get_owner_by_tenant tenant_id db =
    elim (find (λ (u : TenantUser). u.tenant_id == tenant_id && u.role == "owner") db.users) [
      | some u ↦ some u
      | none ↦ find (λ (u : TenantUser). u.tenant_id == tenant_id && u.role == "admin") db.users
    ]
