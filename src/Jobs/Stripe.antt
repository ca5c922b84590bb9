-- ===== src/Jobs/Stripe.antt =====
-- `processStripeEvent` of apps/jobs-worker/src/handlers/stripe.ts: one database transaction per
-- Stripe event, and the e-mails that are queued after it. The database and which of the calls throw are
-- arguments: `fails` counts the queries and, after the COMMIT, the calls of sendToQueue. A query that
-- throws ends the transaction, and the handler rolls back. Timestamps of rows are left out.
pub mod Transaction
pub mod Statements
pub mod Handlers
pub mod Keeps
pub mod Atomicity
pub mod Effects
pub mod Progress
mod Tests
use grain_guard.Prelude.{
  ℕ, ◌+◌, String, Bool, true, false, Option, none, some, List, [], ◌∷◌, ◌==◌, if◌then◌else◌,
}
use grain_guard.Database.{Database}
use Transaction.{Tx, Run, query, pure, ◌>>=◌, ◌>>◌}
use Statements.{Job, EmailJob, mark_processed}
use Handlers.{handle_event}

-- How the processing of a message ended: the event was seen before; its transaction was committed and
-- its emails are queued; an error was thrown before the COMMIT; or the transaction was committed, only
-- these emails are queued, and the call of sendToQueue for the next one has thrown.
pub data Processed : Type 0 where
  skipped : Processed
  committed : List EmailJob → Processed
  threw : Processed
  unsent : List EmailJob → Processed

-- What follows `markProcessed`, up to COMMIT or ROLLBACK.
unfoldable pub accepted_event :
    (ℕ → Bool) → ℕ → (String → Option ℕ) → Job → Bool → Tx (Option (List EmailJob))
accepted_event fails now parse_date job true = do
  emails ← handle_event fails now parse_date job
  query fails (λ db. (tt, db))
  pure (some emails)
accepted_event fails now parse_date job false = do query fails (λ db. (tt, db)); pure none

-- The transaction, BEGIN and COMMIT included: `none` for an event that was processed before.
unfoldable pub transaction :
    (ℕ → Bool) → ℕ → (String → Option ℕ) → Job → Tx (Option (List EmailJob))
unfolding accepted_event mark_processed handle_event
transaction fails now parse_date job = do
  query fails (λ db. (tt, db))
  accepted ← query fails (mark_processed job)
  accepted_event fails now parse_date job accepted

-- The loop of queueEmail: the emails that are queued, and whether all of them are.
abbrev pub queue_emails : (ℕ → Bool) → ℕ → List EmailJob → List EmailJob × Bool
queue_emails fails n [] = ([], true)
queue_emails fails n (e ∷ es) =
    let rest = queue_emails fails (n + 1) es in
    if fails n then ([], false) else (e ∷ rest.0, rest.1)

abbrev pub after_commit : List EmailJob × Bool → Processed
after_commit (emails, true) = committed emails
after_commit (emails, false) = unsent emails

-- ROLLBACK restores the database of before; the emails are queued after the COMMIT.
abbrev pub finish :
    (ℕ → Bool) → Database → Option (Option (List EmailJob) × Run) → Processed × Database
finish fails db none = (threw, db)
finish fails db (some (none, run)) = (skipped, db)
finish fails db (some (some emails, run)) =
    (after_commit (queue_emails fails run.queries emails), run.db)

unfoldable pub process_stripe_event :
    (ℕ → Bool) → ℕ → (String → Option ℕ) → Job → Database → Processed × Database
unfolding transaction
process_stripe_event fails now parse_date job db =
    finish fails db (transaction fails now parse_date job (record { queries = 0; db = db }))
