-- ===== src/Jobs/Stripe/Transaction.antt =====
-- A database transaction whose queries may throw: `fails n` says whether the n-th one does.
use grain_guard.Prelude.{ℕ, ◌+◌, Bool, Option, none, some, if◌then◌else◌}
use grain_guard.Database.{Database}

pub record Run : Type 0 where
  pub queries : ℕ
  pub db : Database

abbrev pub Tx : Type 0 → Type 0
Tx A = Run → Option (A × Run)

infixl 5 ◌>>=◌ ◌>>◌
abbrev pub ◌>>=◌ : {A B : Type 0} → Tx A → (A → Tx B) → Tx B
◌>>=◌ m f run = elim (m run) [ none ↦ none | some (a, run') ↦ f a run' ]

abbrev pub ◌>>◌ : {A B : Type 0} → Tx A → Tx B → Tx B
◌>>◌ m k run = elim (m run) [ none ↦ none | some (a, run') ↦ k run' ]

abbrev pub pure : {A : Type 0} → A → Tx A
pure a run = some (a, run)

-- await client.query(…)
unfoldable pub query : {A : Type 0} → (ℕ → Bool) → (Database → A × Database) → Tx A
query fails f run =
    if fails run.queries
    then none
    else some ((f run.db).0, record { queries = run.queries + 1; db = (f run.db).1 })
