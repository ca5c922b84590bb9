-- ===== src/Bff/Breaker/Tests.antt =====
-- Runs of the breaker, and its theorems at concrete inputs.
use grain_guard.Prelude.{
  ℕ, ◌≡◌, refl, true, inl, none, some, List, [], ◌∷◌, arith, ◌↔◌, ◌≤◌, ◌+◌, length,
}
use grain_guard.Bff.Breaker.{
  opened, half_open, CircuitBreaker, initial, postgres, enter, on_failure, Outcome, returned, threw,
  is_infra_failure, settle,
}
use grain_guard.Bff.Breaker.Policy.{settle_all, failures_open_iff}
use grain_guard.Bff.Breaker.Interleaving.{
  World, Step, Reach, Reach-IsSafe, start-IsSafe, IsSafe, update_pod,
}

abbrev refused : Outcome
refused = threw (record { code = some "ECONNREFUSED"; message = none })

abbrev dropped : Outcome
dropped = threw (record { code = none; message = some "Connection terminated unexpectedly" })

abbrev bad_sql : Outcome
bad_sql = threw (record { code = some "22P02"; message = some "invalid input syntax" })

abbrev failures : List (ℕ × Outcome)
failures = (1, refused) ∷ (2, dropped) ∷ (3, refused) ∷ (4, refused) ∷ (5, dropped) ∷ []

abbrev tripped : CircuitBreaker
tripped = record { state = opened; failure_count = 5; success_count = 0; last_failure_time = 5 }

failures_trip : settle_all postgres failures initial ≡ tripped
unfolding settle_all settle on_failure is_infra_failure
failures_trip = refl

bad_sql_ignored : settle postgres 7 bad_sql initial ≡ (initial, none)
unfolding settle is_infra_failure
bad_sql_ignored = refl

abbrev testing : CircuitBreaker
testing = record { state = half_open; failure_count = 5; success_count = 0; last_failure_time = 5 }

abbrev successes : List (ℕ × Outcome)
successes = (40000, returned) ∷ (40001, returned) ∷ []

abbrev start : World
start = record { pod = λ i. initial; redis = none }

abbrev failed : CircuitBreaker
failed = (settle postgres 5 refused initial).0

abbrev later : World
later = record {
  pod = update_pod 1 (enter postgres 6 none initial).0 (update_pod 0 failed (λ i. initial));
  redis = none;
}

Reach-IsSafe_example : IsSafe postgres later
Reach-IsSafe_example =
    Reach-IsSafe postgres (omega arith) (omega arith)
      (start-IsSafe postgres (omega arith) (omega arith))
      (Reach.next (Reach.next Reach.here (Step.settles 0 5 refused none (inl refl)))
        (Step.enters 1 6 none (inl refl)))

-- Two calls that enter after the timeout, before either has ended: both are let through.
abbrev after_first : CircuitBreaker
after_first = (enter postgres 30005 none tripped).0

both_admitted :
    ((enter postgres 30005 none tripped).1 ≡ true)
    × ((enter postgres 30006 none after_first).1 ≡ true)
unfolding enter
both_admitted = (refl, refl)

failures_open_iff_example :
    ((settle_all postgres failures initial).state ≡ opened)
    ↔ (postgres.failure_threshold ≤ initial.failure_count + length failures)
unfolding is_infra_failure
failures_open_iff_example =
    failures_open_iff postgres failures initial (refl, (refl, (refl, (refl, (refl, tt))))) refl
      (omega arith)
