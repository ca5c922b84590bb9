-- ===== src/Jobs/Stripe/Progress.antt =====
-- Transactions in which no query throws.
use grain_guard.Prelude.{
  ℕ, ◌+◌, String, ◌≡◌, refl, Bool, true, false, Option, none, some, List, [], ◌∷◌, includes,
  if◌then◌else◌,
}
use grain_guard.Database.{Database}
use grain_guard.Jobs.Billing.{Lookup, BillingContext}
use grain_guard.Jobs.Stripe.{
  committed, queue_emails, accepted_event, transaction, process_stripe_event,
}
use grain_guard.Jobs.Stripe.Transaction.{Tx, Run, query, pure, ◌>>=◌, ◌>>◌}
use grain_guard.Jobs.Stripe.Statements.{Payload, Job, EmailJob, mark_processed}
use grain_guard.Jobs.Stripe.Handlers.{
  handle_event, find_context, checkout_for, updated_for, deleted_for, succeeded_for, failed_for,
  trial_for,
}

abbrev never : ℕ → Bool
never n = false

record Returns {A : Type 0} (m : Tx A) : Type 0 where
  at : (run : Run) → (a : A) × (run' : Run) × (m run ≡ some (a, run'))

Returns-pure : {A : Type 0} (a : A) → Returns (pure a)
Returns-pure a = record { at = λ run. (a, run, refl) }

Returns-query : {A : Type 0} (f : Database → A × Database) → Returns (query never f)
unfolding query
Returns-query f = record { at = λ run. (_, _, refl) }

Returns-bind :
    {A B : Type 0} (m : Tx A) (f : A → Tx B)
    → Returns m
    → ((a : A) → Returns (f a))
    → Returns (m >>= f)
Returns-bind m f h k = record {
  at = λ run.
      let (a, r1, e) = h.at run in let (b, r2, e') = (k a).at r1 in (b, r2, rw (e, ◌>>=◌) e');
}

Returns-then : {A B : Type 0} (m : Tx A) (n : Tx B) → Returns m → Returns n → Returns (m >> n)
Returns-then m n h k = Returns-bind m (λ _. n) h (λ _. k)

Returns-if :
    {A : Type 0} (b : Bool) (m n : Tx A) → Returns m → Returns n → Returns (if b then m else n)
Returns-if true m n h k = h
Returns-if false m n h k = k

ruleset return_rules = (Returns-pure, Returns-query, Returns-bind, Returns-then, Returns-if)

find_context-Returns : (lookup : Lookup) → Returns (find_context never lookup)
unfolding find_context
find_context-Returns lookup = search return_rules

checkout_for-Returns :
    (now : ℕ) (p : Payload) (t s : Option String) → Returns (checkout_for never now p t s)
unfolding checkout_for
checkout_for-Returns now p none s = search return_rules
checkout_for-Returns now p (some t) none = search return_rules
checkout_for-Returns now p (some t) (some s) = search return_rules

updated_for-Returns :
    (now : ℕ) (parse : String → Option ℕ) (p : Payload) (c : Option BillingContext)
    → Returns (updated_for never now parse p c)
unfolding updated_for
updated_for-Returns now parse p none = search return_rules
updated_for-Returns now parse p (some c) = search return_rules

deleted_for-Returns : (c : Option BillingContext) → Returns (deleted_for never c)
unfolding deleted_for
deleted_for-Returns none = search return_rules
deleted_for-Returns (some c) = search return_rules

succeeded_for-Returns :
    (now : ℕ) (parse : String → Option ℕ) (p : Payload) (c : Option BillingContext)
    → Returns (succeeded_for never now parse p c)
unfolding succeeded_for
succeeded_for-Returns now parse p none = search return_rules
succeeded_for-Returns now parse p (some c) = search return_rules

failed_for-Returns :
    (now : ℕ) (p : Payload) (c : Option BillingContext) → Returns (failed_for never now p c)
unfolding failed_for
failed_for-Returns now p none = search return_rules
failed_for-Returns now p (some c) = search return_rules depth 9

trial_for-Returns : (p : Payload) (c : Option BillingContext) → Returns (trial_for never p c)
unfolding trial_for
trial_for-Returns p none = search return_rules
trial_for-Returns p (some c) = search return_rules

ruleset case_rules = (
  return_rules, find_context-Returns, checkout_for-Returns, updated_for-Returns,
  deleted_for-Returns, succeeded_for-Returns, failed_for-Returns, trial_for-Returns,
)

handle_event-Returns :
    (now : ℕ) (parse : String → Option ℕ) (job : Job) → Returns (handle_event never now parse job)
unfolding handle_event
handle_event-Returns now parse job = search case_rules depth 20

accepted_event-Returns :
    (now : ℕ) (parse : String → Option ℕ) (job : Job) (run : Run)
    → (es : List EmailJob) × (run' : Run) × (accepted_event never now parse job true run
        ≡ some (some es, run'))
unfolding accepted_event query
accepted_event-Returns now parse job run =
    let (es, r1, e) = (handle_event-Returns now parse job).at run in
    (es, record { queries = r1.queries + 1; db = r1.db }, rw (e, ◌>>=◌))

marked_new :
    (job : Job) (db : Database)
    → includes job.stripe_event_id db.stripe_events ≡ false
    → mark_processed job db
      ≡ (true, record db { stripe_events = job.stripe_event_id ∷ db.stripe_events })
unfolding mark_processed
marked_new job db new = rw new

queue_emails-never : (n : ℕ) (es : List EmailJob) → queue_emails never n es ≡ (es, true)
queue_emails-never n [] = refl
queue_emails-never n (e ∷ es) = rw (queue_emails-never (n + 1) es) refl

-- An event of any type that was not recorded before is committed and its emails are queued, if none of
-- its queries and none of the calls that queue an email throws.
pub process_stripe_event_commits :
    (now : ℕ) (parse : String → Option ℕ) (job : Job) (db : Database)
    → includes job.stripe_event_id db.stripe_events ≡ false
    → (es : List EmailJob) × ((process_stripe_event (λ n. false) now parse job db).0 ≡ committed es)
unfolding process_stripe_event transaction query
process_stripe_event_commits now parse job db new =
    let run : Run = record {
      queries = 2;
      db = record db { stripe_events = job.stripe_event_id ∷ db.stripe_events };
    } in
    let (es, r, e) = accepted_event-Returns now parse job run in
    (es, rw (marked_new job db new) (rw (e, queue_emails-never r.queries es) refl))
