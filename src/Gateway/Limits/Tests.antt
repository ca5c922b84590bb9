-- ===== src/Gateway/Limits/Tests.antt =====
-- Concrete requests.
use grain_guard.Prelude.{ℕ, ◌≤◌, ◌≡◌, refl, false, List, [], ◌∷◌, All, arith}
use grain_guard.Gateway.Limits.{RateLimitOptions, Bucket, Step, through, rate_limit_middleware}
use grain_guard.Gateway.Limits.Window.{IsUniform, tally, tally-bounds}
use grain_guard.Gateway.Limits.Bulk.{at, bulk_steps, bulk_steps-refuses}

abbrev quiet : Bucket
quiet = record { scores = []; expires = 0 }

abbrev twice : RateLimitOptions
twice = record { window_seconds = 60; max_requests = 2 }

abbrev arrivals : List Step
arrivals = at twice 5 ∷ at twice 6 ∷ at twice 7 ∷ at twice 60009 ∷ []

at-IsUniform : (n : ℕ) → IsUniform 60 (at twice n)
at-IsUniform n = record { answered = refl; same_window = refl }

arrivals-IsUniform : All (IsUniform 60) arrivals
arrivals-IsUniform = let u = λ (n : ℕ). at-IsUniform n in (u 5, (u 6, (u 7, (u 60009, tt))))

tally-bounds_example : tally 5 60 2 arrivals quiet ≤ 2
tally-bounds_example =
    tally-bounds 5 60 2 0 arrivals
      (
        (ground arith, (ground arith, (ground arith, tt))),
        ((ground arith, (ground arith, tt)), ((ground arith, tt), (tt, tt))),
      )
      arrivals-IsUniform

-- The window is used in full.
tally_used : tally 5 60 2 arrivals quiet ≡ 2
unfolding rate_limit_middleware
tally_used = refl

bulk_steps-refuses_example :
    (through (bulk_steps (λ i. 50000)) (through (bulk_steps (λ i. 1000)) quiet).1).0 ≡ false
unfolding through rate_limit_middleware
bulk_steps-refuses_example =
    bulk_steps-refuses 1000 (λ i. 1000) (λ i. 50000) quiet (λ i. omega arith) (λ i. omega arith)
      (λ i. omega arith) (λ i. omega arith) refl
