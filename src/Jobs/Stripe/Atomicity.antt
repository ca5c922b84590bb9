-- ===== src/Jobs/Stripe/Atomicity.antt =====
-- What a Stripe event leaves in the database when its processing throws, is skipped, or commits.
use grain_guard.Prelude.{
  ℕ, String, ◌≡◌, ℤ, not, ap, refl, Bool, true, false, Option, none, some, List, ◌∷◌, arith,
  includes, ◌∙◌,
}
use grain_guard.Database.{Database}
use grain_guard.Jobs.Stripe.Keeps.{After, Keeps, keeps_rules}
use grain_guard.Jobs.Billing.{Lookup, BillingContext}
use grain_guard.Jobs.Reconcile.{reconcile_tenant_devices}
use grain_guard.Jobs.Stripe.{
  accepted_event, finish, queue_emails, after_commit, Processed, skipped, committed, threw, unsent,
  transaction, process_stripe_event,
}
use grain_guard.Jobs.Stripe.Transaction.{Tx, Run, query, pure, ◌>>◌}
use grain_guard.Jobs.Stripe.Statements.{Payload, Job, EmailJob, mark_processed, upsert_billing}
use grain_guard.Jobs.Stripe.Handlers.{
  handle_event, find_context, checkout_for, updated_for, deleted_for, succeeded_for, failed_for,
  trial_for,
}

-- No case of the switch touches `stripe_webhook_events`.
module _ (events : List String) where
  abbrev Has : Database → Type 0
  Has db = db.stripe_events ≡ events

  upsert-Has :
      (t : String) (c : Option String) (s plan : String) (db : Database)
      → Has db
      → Has (upsert_billing t c s plan db)
  unfolding upsert_billing
  upsert-Has t c s plan db h = ground arith

  reconcile-Has :
      (t : String) (limit : ℤ) (db : Database) → Has db → Has (reconcile_tenant_devices t limit db)
  unfolding reconcile_tenant_devices
  reconcile-Has t limit db h = h

  ruleset has_rules = (keeps_rules, upsert-Has, reconcile-Has)

  find_context-Has : (fails : ℕ → Bool) (lookup : Lookup) → Keeps Has (find_context fails lookup)
  unfolding find_context
  find_context-Has fails lookup = search has_rules

  checkout_for-Has :
      (fails : ℕ → Bool) (now : ℕ) (p : Payload) (t s : Option String)
      → Keeps Has (checkout_for fails now p t s)
  unfolding checkout_for
  checkout_for-Has fails now p none s = search has_rules
  checkout_for-Has fails now p (some t) none = search has_rules
  checkout_for-Has fails now p (some t) (some s) = search has_rules

  updated_for-Has :
      (fails : ℕ → Bool) (now : ℕ) (parse : String → Option ℕ) (p : Payload)
      (c : Option BillingContext)
      → Keeps Has (updated_for fails now parse p c)
  unfolding updated_for
  updated_for-Has fails now parse p none = search has_rules
  updated_for-Has fails now parse p (some c) = search has_rules

  deleted_for-Has : (fails : ℕ → Bool) (c : Option BillingContext) → Keeps Has (deleted_for fails c)
  unfolding deleted_for
  deleted_for-Has fails none = search has_rules
  deleted_for-Has fails (some c) = search has_rules

  succeeded_for-Has :
      (fails : ℕ → Bool) (now : ℕ) (parse : String → Option ℕ) (p : Payload)
      (c : Option BillingContext)
      → Keeps Has (succeeded_for fails now parse p c)
  unfolding succeeded_for
  succeeded_for-Has fails now parse p none = search has_rules
  succeeded_for-Has fails now parse p (some c) = search has_rules

  failed_for-Has :
      (fails : ℕ → Bool) (now : ℕ) (p : Payload) (c : Option BillingContext)
      → Keeps Has (failed_for fails now p c)
  unfolding failed_for
  failed_for-Has fails now p none = search has_rules
  failed_for-Has fails now p (some c) = search (has_rules) depth 9

  trial_for-Has :
      (fails : ℕ → Bool) (p : Payload) (c : Option BillingContext) → Keeps Has (trial_for fails p c)
  unfolding trial_for
  trial_for-Has fails p none = search has_rules
  trial_for-Has fails p (some c) = search has_rules

  ruleset case_rules = (
    has_rules, find_context-Has, checkout_for-Has, updated_for-Has, deleted_for-Has,
    succeeded_for-Has, failed_for-Has, trial_for-Has,
  )

  handle_event-Has :
      (fails : ℕ → Bool) (now : ℕ) (parse : String → Option ℕ) (job : Job)
      → Keeps Has (handle_event fails now parse job)
  unfolding handle_event
  handle_event-Has fails now parse job = search (case_rules) depth 20

query_result :
    {A : Type 0} (fails : ℕ → Bool) (f : Database → A × Database) (run : Run) (a : A) (run' : Run)
    → query fails f run ≡ some (a, run')
    → (a ≡ (f run.db).0) × (run'.db ≡ (f run.db).1)
unfolding query
query_result fails f run a run' e = ground arith

-- How a processed message leaves the database.
abbrev pub Leaves : Job → Database → Processed → Database → Type 0
Leaves job db skipped db' = (db' ≡ db) × (includes job.stripe_event_id db.stripe_events ≡ true)
Leaves job db threw db' = db' ≡ db
Leaves job db (committed emails) db' =
    (includes job.stripe_event_id db.stripe_events ≡ false)
    × (db'.stripe_events ≡ job.stripe_event_id ∷ db.stripe_events)
Leaves job db (unsent emails) db' =
    (includes job.stripe_event_id db.stripe_events ≡ false)
    × (db'.stripe_events ≡ job.stripe_event_id ∷ db.stripe_events)

module _ (fails : ℕ → Bool) (now : ℕ) (parse : String → Option ℕ) (job : Job) (db : Database) where
  abbrev Ends : Option (Option (List EmailJob) × Run) → Type 0
  Ends o = Leaves job db (finish fails db o).0 (finish fails db o).1

  abbrev marked : Database
  marked = record db { stripe_events = job.stripe_event_id ∷ db.stripe_events }

  bind-Ends :
      {A : Type 0} (o : Option (A × Run)) (k : A → Tx (Option (List EmailJob)))
      → ((a : A) (run : Run) → o ≡ some (a, run) → Ends (k a run))
      → Ends (elim o [ none ↦ none | some (a, run) ↦ k a run ])
  bind-Ends none k h = refl
  bind-Ends (some (a, run)) k h = h a run refl

  after_commit-Leaves :
      (q : List EmailJob × Bool) (d : Database)
      → includes job.stripe_event_id db.stripe_events ≡ false
      → d.stripe_events ≡ job.stripe_event_id ∷ db.stripe_events
      → Leaves job db (after_commit q) d
  after_commit-Leaves (es, true) d new h = (new, h)
  after_commit-Leaves (es, false) d new h = (new, h)

  commit-Ends :
      (o : Option (List EmailJob × Run))
      → includes job.stripe_event_id db.stripe_events ≡ false
      → After (Has (job.stripe_event_id ∷ db.stripe_events)) o
      → Ends (elim o [
        | none ↦ none
        | some (emails, run) ↦ (query fails (λ d. (tt, d)) >> pure (some emails)) run
      ])
  commit-Ends none new h = refl
  commit-Ends (some (emails, run)) new h =
      bind-Ends (query fails (λ d. (tt {0}, d)) run) (λ _. pure (some emails))
        (λ a run' e.
          after_commit-Leaves (queue_emails fails run'.queries emails) run'.db new
            (ap (λ (d : Database). d.stripe_events) (query_result fails _ run a run' e).1 ∙ h))

  accepted-Ends :
      (b : Bool) (run : Run)
      → includes job.stripe_event_id db.stripe_events ≡ not b
      → (b ≡ true → run.db.stripe_events ≡ job.stripe_event_id ∷ db.stripe_events)
      → Ends (accepted_event fails now parse job b run)
  unfolding accepted_event
  accepted-Ends true run new h = commit-Ends (handle_event fails now parse job run) new (
      (handle_event-Has (job.stripe_event_id ∷ db.stripe_events) fails now parse job).at run
        (h refl))
  accepted-Ends false run old h =
      bind-Ends (query fails (λ d. (tt {0}, d)) run) (λ _. pure none) (λ a run' e. (refl, old))

  mark_processed_lem :
      (b : Bool) (d d' : Database)
      → d.stripe_events ≡ db.stripe_events
      → b ≡ (mark_processed job d).0
      → d' ≡ (mark_processed job d).1
      → (includes job.stripe_event_id db.stripe_events ≡ not b)
        × (b ≡ true → d'.stripe_events ≡ job.stripe_event_id ∷ db.stripe_events)
  unfolding mark_processed
  mark_processed_lem b d d' same e e' = ground arith

  transaction-Ends : Ends (transaction fails now parse job (record { queries = 0; db = db }))
  unfolding transaction
  transaction-Ends =
      bind-Ends (query fails (λ d. (tt {0}, d)) (record { queries = 0; db = db })) _ (λ _ run e.
        bind-Ends (query fails (mark_processed job) run) _ (λ b run' e'.
          let begun = query_result fails _ (record { queries = 0; db = db }) _ run e in
          let (same, left) = query_result fails (mark_processed job) run b run' e' in
          let (test, added) =
            mark_processed_lem b run.db run'.db (ap (λ (d : Database). d.stripe_events) begun.1)
              same left in
          accepted-Ends b run' test added))

-- Whichever queries and whichever calls that queue an email throw: a message whose processing throws
-- before the COMMIT leaves the database as it was. A message that is skipped leaves it as it was too,
-- and its event is recorded there. After a COMMIT, also where an email cannot be queued and the
-- processing then throws, the event is recorded, it was not before, and no other event was recorded or
-- forgotten.
pub process_stripe_event-Leaves :
    (fails : ℕ → Bool) (now : ℕ) (parse : String → Option ℕ) (job : Job) (db : Database)
    → Leaves job db
        (process_stripe_event fails now parse job db).0
        (process_stripe_event fails now parse job db).1
unfolding process_stripe_event
process_stripe_event-Leaves fails now parse job db = transaction-Ends fails now parse job db
