-- ===== src/Jobs/Stripe/Effects.antt =====
-- What a committed `customer.subscription.deleted` does to the tenant, as the gateway sees it.
use grain_guard.Prelude.{
  ℕ, min, String, ◌≡◌, pos, ap, subst, sym, fun_ext, refl, Bool, true, false, Option, none, some,
  List, [], ◌∷◌, arith, ◌+◌, inl, inr, Bool-cases, ◌==◌, ◌∙◌, find, update,
}
use grain_guard.Database.{Database, Tenant, Billing, device_count, tenant_row}
use grain_guard.Jobs.Billing.{
  has_key, joined, find_with, Lookup, BillingContext, find_billing_context, free_device_limit,
}
use grain_guard.Jobs.Reconcile.Ranks.{HasDistinctIds}
use grain_guard.Jobs.Reconcile.Capacity.{
  enabled_count, theirs, capacity, reconcile_tenant_devices-capacity,
}
use grain_guard.Jobs.Reconcile.{reconcile_tenant_devices}
use grain_guard.Jobs.Stripe.{
  accepted_event, finish, queue_emails, after_commit, Processed, committed, transaction,
  process_stripe_event,
}
use grain_guard.Jobs.Stripe.Transaction.{Tx, Run, query, pure}
use grain_guard.Jobs.Stripe.Statements.{
  Payload, Job, EmailJob, update_billing, update_tenant, mark_processed,
}
use grain_guard.Jobs.Stripe.Handlers.{
  handle_event, find_context, deleted_for, subscription_deleted, subscription_keys, execute,
}

-- The three statements of the case, one after the other.
abbrev cancel_billing : Billing → Billing
cancel_billing b = record b {
  status = "cancelled";
  plan = "free";
  stripe_subscription_id = none;
  trial_ends_at = none;
}

abbrev cancel_tenant : Tenant → Tenant
cancel_tenant t = record t {
  subscription_status = "cancelled";
  plan = "free";
  current_period_end = none;
}

unfoldable pub cancelled : String → Database → Database
cancelled t db =
    reconcile_tenant_devices t free_device_limit
      (update_tenant t cancel_tenant (update_billing t cancel_billing db))

has_key_of_found :
    (lookup : Lookup) (db : Database) (c : BillingContext)
    → find_billing_context lookup db ≡ some c
    → has_key lookup ≡ true
unfolding find_billing_context
has_key_of_found lookup db c e = ground arith

module _ (fails : ℕ → Bool) where
  execute_result :
      (f : Database → Database) (run : Run) (a : Unit {0}) (run' : Run)
      → execute fails f run ≡ some (a, run')
      → run'.db ≡ f run.db
  unfolding query
  execute_result f run a run' e = ground arith

  bind_result :
      {A B : Type 0} (o : Option (A × Run)) (k : A → Tx B) (b : B) (run' : Run)
      → elim o [ none ↦ none | some (a, run) ↦ k a run ] ≡ some (b, run')
      → (a : A) × (run : Run) × (o ≡ some (a, run)) × (k a run ≡ some (b, run'))
  bind_result none k b run' e = cc
  bind_result (some (a, run)) k b run' e = (a, run, refl, e)

  pure_result :
      {A : Type 0} (a b : A) (run run' : Run)
      → pure a run ≡ some (b, run')
      → (b ≡ a) × (run'.db ≡ run.db)
  pure_result a b run run' e = ground arith

  deleted_for_result :
      (c : BillingContext) (run : Run) (es : List EmailJob) (run' : Run)
      → deleted_for fails (some c) run ≡ some (es, run')
      → (es ≡ []) × (run'.db ≡ cancelled c.tenant_id run.db)
  unfolding deleted_for cancelled
  deleted_for_result c run es run' e =
      let (_, r1, e1, f1) =
        bind_result (execute fails (update_billing c.tenant_id cancel_billing) run) _ es run' e in
      let (_, r2, e2, f2) =
        bind_result (execute fails (update_tenant c.tenant_id cancel_tenant) r1) _ es run' f1 in
      let (_, r3, e3, f3) =
        bind_result (execute fails (reconcile_tenant_devices c.tenant_id free_device_limit) r2) _ es
          run' f2 in
      let d1 = execute_result _ run _ r1 e1 in
      let d2 = execute_result _ r1 _ r2 e2 in
      let d3 = execute_result _ r2 _ r3 e3 in
      let (same, last) = pure_result [] es r3 run' f3 in
      (
        same,
        last
            ∙ d3
            ∙ ap (reconcile_tenant_devices c.tenant_id free_device_limit)
                (d2 ∙ ap (update_tenant c.tenant_id cancel_tenant) d1),
      )

  find_context_result :
      (lookup : Lookup) (c : BillingContext) (run : Run) (found : Option BillingContext)
      (run' : Run)
      → find_billing_context lookup run.db ≡ some c
      → find_context fails lookup run ≡ some (found, run')
      → (found ≡ some c) × (run'.db ≡ run.db)
  unfolding find_context query
  find_context_result lookup c run found run' e h =
      ground (arith, has_key_of_found lookup run.db c e)

  subscription_deleted_result :
      (p : Payload) (c : BillingContext) (run : Run) (es : List EmailJob) (run' : Run)
      → find_billing_context (subscription_keys p) run.db ≡ some c
      → subscription_deleted fails p run ≡ some (es, run')
      → (es ≡ []) × (run'.db ≡ cancelled c.tenant_id run.db)
  unfolding subscription_deleted
  subscription_deleted_result p c run es run' h e =
      let (found, r1, e1, f1) =
        bind_result (find_context fails (subscription_keys p) run) (deleted_for fails) es run' e in
      let (is_c, same) = find_context_result (subscription_keys p) c run found r1 h e1 in
      let (none_sent, done) =
        deleted_for_result c r1 es run'
          (subst (λ o. deleted_for fails o r1 ≡ some (es, run')) is_c f1) in
      (none_sent, done ∙ ap (cancelled c.tenant_id) same)

  queue_emails_all :
      (n : ℕ) (emails : List EmailJob)
      → (queue_emails fails n emails).1 ≡ true
      → (queue_emails fails n emails).0 ≡ emails
  queue_emails_all n [] h = refl
  queue_emails_all n (e ∷ es) h = elim (Bool-cases (fails n)) [
    | inl f ↦ cc (rw f at h)
    | inr f ↦ rw f (ap (λ l. e ∷ l) (queue_emails_all (n + 1) es (rw f at h)))
  ]

  queued_all :
      (q : List EmailJob × Bool) (es : List EmailJob)
      → after_commit q ≡ committed es
      → (q.0 ≡ es) × (q.1 ≡ true)
  queued_all (emails, true) es h = (ground arith, refl)
  queued_all (emails, false) es h = cc

  committed_result :
      (db : Database) (o : Option (Option (List EmailJob) × Run)) (es : List EmailJob)
      (db' : Database)
      → finish fails db o ≡ (committed es, db')
      → (run : Run) × (o ≡ some (some es, run)) × (run.db ≡ db')
  committed_result db none es db' e = cc (ap (λ (r : Processed × Database). r.0) e)
  committed_result db (some (none, run)) es db' e = cc (ap (λ (r : Processed × Database). r.0) e)
  committed_result db (some (some emails, run)) es db' e =
      let all =
        queued_all (queue_emails fails run.queries emails) es
          (ap (λ (r : Processed × Database). r.0) e) in
      let same = queue_emails_all run.queries emails all.1 in
      (
        run,
        ap (λ (x : List EmailJob). some (some x, run)) (sym same ∙ all.0),
        ap (λ (r : Processed × Database). r.1) e,
      )

  same_emails :
      (es es₁ : List EmailJob) (r : Run)
      → ◌≡◌ {A = Option (List EmailJob)} (some es) (some es₁)
      → ◌≡◌ {A = Option (List EmailJob × Run)} (some (es₁, r)) (some (es, r))
  same_emails es es₁ r e = ground arith

  query_result :
      {A : Type 0} (f : Database → A × Database) (run : Run) (a : A) (run' : Run)
      → query fails f run ≡ some (a, run')
      → (a ≡ (f run.db).0) × (run'.db ≡ (f run.db).1)
  unfolding query
  query_result f run a run' e = ground arith

  marked_result :
      (job : Job) (db d d' : Database) (b : Bool)
      → b ≡ true
      → d ≡ db
      → b ≡ (mark_processed job d).0
      → d' ≡ (mark_processed job d).1
      → d' ≡ record db { stripe_events = job.stripe_event_id ∷ db.stripe_events }
  unfolding mark_processed
  marked_result job db d d' b t same e f = ground arith

  accepted_result :
      (now : ℕ) (parse : String → Option ℕ) (job : Job) (b : Bool) (run : Run) (es : List EmailJob)
      (run' : Run)
      → accepted_event fails now parse job b run ≡ some (some es, run')
      → (b ≡ true)
        × ((r : Run) × (handle_event fails now parse job run ≡ some (es, r)) × (run'.db ≡ r.db))
  unfolding accepted_event
  accepted_result now parse job true run es run' e =
      let (es₁, r1, e1, f1) =
        bind_result (handle_event fails now parse job run) _ (some es) run' e in
      let (u, r2, e2, f2) = bind_result (query fails (λ d. (tt {0}, d)) r1) _ (some es) run' f1 in
      let (same, last) = pure_result (some es₁) (some es) r2 run' f2 in
      (refl, (r1, e1 ∙ same_emails es es₁ r1 same, last ∙ execute_result (λ d. d) r1 u r2 e2))
  accepted_result now parse job false run es run' e =
      let (u, r2, e2, f2) = bind_result (query fails (λ d. (tt {0}, d)) run) _ (some es) run' e in
      cc (pure_result none (some es) r2 run' f2).0

  begin_result :
      (now : ℕ) (parse : String → Option ℕ) (job : Job) (db : Database) (es : List EmailJob)
      (db' : Database)
      → process_stripe_event fails now parse job db ≡ (committed es, db')
      → (run r : Run) × (run.db
          ≡ record db { stripe_events = job.stripe_event_id ∷ db.stripe_events })
        × (handle_event fails now parse job run ≡ some (es, r))
        × (r.db ≡ db')
  unfolding process_stripe_event transaction
  begin_result now parse job db es db' e =
      let start : Run = record { queries = 0; db = db } in
      let (run, o, d) = committed_result db (transaction fails now parse job start) es db' e in
      let (u, r1, e1, f1) = bind_result (query fails (λ x. (tt {0}, x)) start) _ (some es) run o in
      let (b, r2, e2, f2) = bind_result (query fails (mark_processed job) r1) _ (some es) run f1 in
      let (yes_b, (r, h, l)) = accepted_result now parse job b r2 es run f2 in
      let (eb, eq) = query_result (mark_processed job) r1 b r2 e2 in
      (
        r2,
        r,
        marked_result job db r1.db r2.db b yes_b (execute_result (λ x. x) start u r1 e1) eb eq,
        h,
        sym l ∙ d,
      )

joined-marked :
    (db : Database) (events : List String) (p : Billing → Bool) (l : List Billing)
    → joined (record db { stripe_events = events }) p l ≡ joined db p l
unfolding joined
joined-marked db events p [] = refl
joined-marked db events p (tb ∷ rest) = ground (arith, joined-marked db events p rest)

find_billing_context-marked :
    (lookup : Lookup) (db : Database) (events : List String)
    → find_billing_context lookup (record db { stripe_events = events })
      ≡ find_billing_context lookup db
unfolding find_billing_context
find_billing_context-marked lookup db events =
    ap (λ j. find_with j lookup) (fun_ext (λ p. joined-marked db events p db.billing))

handle_deleted :
    (fails : ℕ → Bool) (now : ℕ) (parse : String → Option ℕ) (job : Job)
    → job.stripe_event_type ≡ "customer.subscription.deleted"
    → handle_event fails now parse job ≡ subscription_deleted fails job.payload
unfolding handle_event
handle_deleted fails now parse job e = rw e

-- The rows of the tenant after the cancellation.
cancelled-tenant_row :
    (t : String) (ts : List Tenant) (r : Tenant)
    → find (λ (x : Tenant). x.id == t) (update (λ (x : Tenant). x.id == t) cancel_tenant ts)
      ≡ some r
    → (r.plan ≡ "free") × (r.subscription_status ≡ "cancelled") × (r.current_period_end ≡ none)
cancelled-tenant_row t [] r e = cc
cancelled-tenant_row t (x ∷ xs) r e = ground (arith, cancelled-tenant_row t xs r)

abbrev IsCancelled : String → Database → Database → Type 0
IsCancelled t db db' =
    (enabled_count t db'.devices ≡ min 5 (device_count db t))
    × (theirs t db'.devices ≡ theirs t db.devices)
    × ((r : Tenant)
        → tenant_row db' t ≡ some r
        → (r.plan ≡ "free") × (r.subscription_status ≡ "cancelled") × (r.current_period_end ≡ none))

cancelled-IsCancelled :
    (t : String) (db : Database) (events : List String)
    → HasDistinctIds db.devices
    → IsCancelled t db (cancelled t (record db { stripe_events = events }))
unfolding cancelled capacity reconcile_tenant_devices
cancelled-IsCancelled t db events distinct =
    let before : Database =
      update_tenant t cancel_tenant
        (update_billing t cancel_billing (record db { stripe_events = events })) in
    let both = reconcile_tenant_devices-capacity t (pos 5) before distinct (λ n e. cc) in
    (both.0, both.1, (λ r e. cancelled-tenant_row t db.tenants r e))

-- When the deletion of a subscription has been committed, for the tenant of the billing context
-- that the subscription or its customer had, where the ids of the devices differ pairwise: no email
-- is sent; as many of the tenant's devices are enabled as there are, but at most five; the devices
-- of other tenants are as before; and the tenant's row, if there is one, has the free plan.
pub subscription_deleted_effect :
    (fails : ℕ → Bool) (now : ℕ) (parse : String → Option ℕ) (job : Job) (db db' : Database)
    (es : List EmailJob) (c : BillingContext)
    → job.stripe_event_type ≡ "customer.subscription.deleted"
    → find_billing_context (subscription_keys job.payload) db ≡ some c
    → HasDistinctIds db.devices
    → process_stripe_event fails now parse job db ≡ (committed es, db')
    → (es ≡ [])
      × (enabled_count c.tenant_id db'.devices ≡ min 5 (device_count db c.tenant_id))
      × (theirs c.tenant_id db'.devices ≡ theirs c.tenant_id db.devices)
      × ((r : Tenant)
          → tenant_row db' c.tenant_id ≡ some r
          → (r.plan ≡ "free")
            × (r.subscription_status ≡ "cancelled")
            × (r.current_period_end ≡ none))
subscription_deleted_effect fails now parse job db db' es c ty found distinct e =
    let (run, r, marked, h, last) = begin_result fails now parse job db es db' e in
    let events = job.stripe_event_id ∷ db.stripe_events in
    let found' : find_billing_context (subscription_keys job.payload) run.db ≡ some c =
      rw (marked, find_billing_context-marked (subscription_keys job.payload) db events) found in
    let h' : subscription_deleted fails job.payload run ≡ some (es, r) =
      subst (λ (m : Tx (List EmailJob)). m run ≡ some (es, r))
        (handle_deleted fails now parse job ty) h in
    let (sent, done) = subscription_deleted_result fails job.payload c run es r found' h' in
    let whole : cancelled c.tenant_id (record db { stripe_events = events }) ≡ db' =
      sym (ap (cancelled c.tenant_id) marked) ∙ sym done ∙ last in
    let all =
      subst (IsCancelled c.tenant_id db) whole
        (cancelled-IsCancelled c.tenant_id db events distinct) in
    (sent, all.0, all.1, all.2)
