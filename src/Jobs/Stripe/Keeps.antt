-- ===== src/Jobs/Stripe/Keeps.antt =====
-- Invariants of transactions, one rule for each way to build one.
use grain_guard.Prelude.{
  ℕ, Bool, true, false, Option, none, some, if◌then◌else◌, inl, inr, Bool-cases,
}
use grain_guard.Database.{Database}
use grain_guard.Jobs.Stripe.Transaction.{Tx, Run, query, pure, ◌>>=◌, ◌>>◌}

-- `P` holds of the database with which a transaction returns, if it returns.
abbrev pub After : {A : Type 0} → (Database → Type 0) → Option (A × Run) → Type 0
After P none = Unit {0}
After P (some (a, run)) = P run.db

pub record Keeps {A : Type 0} (P : Database → Type 0) (m : Tx A) : Type 0 where
  pub at : (run : Run) → P run.db → After P (m run)

module _ (P : Database → Type 0) where
  pub Keeps-pure : {A : Type 0} (a : A) → Keeps P (pure a)
  Keeps-pure a = record { at = λ run h. h }

  pub Keeps-query :
      {A : Type 0} (fails : ℕ → Bool) (f : Database → A × Database)
      → ((db : Database) → P db → P (f db).1)
      → Keeps P (query fails f)
  unfolding query
  Keeps-query fails f k = record {
    at = λ run h. elim (Bool-cases (fails run.queries)) [
      | inl e ↦ rw e tt
      | inr e ↦ rw e (k run.db h)
    ];
  }

  After-bind :
      {A B : Type 0} (o : Option (A × Run)) (f : A → Tx B)
      → After P o
      → ((a : A) → Keeps P (f a))
      → After P (elim o [ none ↦ none | some (a, run) ↦ f a run ])
  After-bind none f h k = tt
  After-bind (some (a, run)) f h k = (k a).at run h

  pub Keeps-bind :
      {A B : Type 0} (m : Tx A) (f : A → Tx B)
      → Keeps P m
      → ((a : A) → Keeps P (f a))
      → Keeps P (m >>= f)
  Keeps-bind m f km kf = record { at = λ run h. After-bind (m run) f (km.at run h) kf }

  pub Keeps-if :
      {A : Type 0} (b : Bool) (m n : Tx A) → Keeps P m → Keeps P n → Keeps P (if b then m else n)
  Keeps-if true m n h k = h
  Keeps-if false m n h k = k

  pub Keeps-then : {A B : Type 0} (m : Tx A) (n : Tx B) → Keeps P m → Keeps P n → Keeps P (m >> n)
  Keeps-then m n km kn = Keeps-bind m (λ _. n) km (λ _. kn)

pub ruleset keeps_rules = (Keeps-pure, Keeps-query, Keeps-bind, Keeps-then, Keeps-if)
