-- ===== src/Bff/Breaker/Policy.antt =====
-- When the breaker opens, for how long it refuses, and what closes it again.
use grain_guard.Prelude.{
  ℕ, ◌⊎◌, inl, inr, ◌+◌, ◌≤◌, ◌<◌, ◌≡◌, ◌↔◌, true, Option, none, List, [], ◌∷◌, arith, length, All,
}
use grain_guard.Bff.Breaker.{
  closed, opened, half_open, Options, CircuitBreaker, Shared, enter, on_success, on_failure,
  Outcome, returned, threw, is_infra_failure, settle,
}

-- The calls that end one after the other on one pod, each with its time.
unfoldable pub settle_all : Options → List (ℕ × Outcome) → CircuitBreaker → CircuitBreaker
settle_all o [] b = b
settle_all o ((now, r) ∷ rest) b = settle_all o rest (settle o now r b).0

abbrev pub IsFailure : ℕ × Outcome → Type 0
IsFailure (now, returned) = ⊥
IsFailure (now, threw e) = is_infra_failure e ≡ true

abbrev pub IsSuccess : ℕ × Outcome → Type 0
IsSuccess (now, r) = r ≡ returned

settle_all-opened :
    (o : Options) (rs : List (ℕ × Outcome)) (b : CircuitBreaker)
    → All IsFailure rs
    → b.state ≡ opened
    → (settle_all o rs b).state ≡ opened
unfolding settle_all settle on_failure
settle_all-opened o [] b h e = e
settle_all-opened o ((now, threw x) ∷ rs) b (i, h) e =
    settle_all-opened o rs (settle o now (threw x) b).0 h (ground arith)
settle_all-opened o ((now, returned) ∷ rs) b (i, h) e = absurd i

-- One failure in the closed state: the breaker opens, or stays closed with one more failure.
settle_failure :
    (o : Options) (now : ℕ) (r : Outcome) (b : CircuitBreaker)
    → IsFailure (now, r)
    → b.state ≡ closed
    → (((settle o now r b).0.state ≡ opened) × (o.failure_threshold ≤ b.failure_count + 1))
      ⊎ (((settle o now r b).0.state ≡ closed)
          × ((settle o now r b).0.failure_count ≡ b.failure_count + 1)
          × (b.failure_count + 1 < o.failure_threshold))
unfolding settle on_failure
settle_failure o now returned b i e = absurd i
settle_failure o now (threw x) b i e = ground arith

-- From a closed breaker with fewer failures than the threshold, infrastructure failures that end in
-- a row on its pod open it exactly when their number, together with the failures already counted,
-- reaches the threshold.
pub failures_open_iff :
    (o : Options) (rs : List (ℕ × Outcome)) (b : CircuitBreaker)
    → All IsFailure rs
    → b.state ≡ closed
    → b.failure_count < o.failure_threshold
    → ((settle_all o rs b).state ≡ opened) ↔ (o.failure_threshold ≤ b.failure_count + length rs)
unfolding settle_all
failures_open_iff o [] b h e lt = ((λ p. cc), (λ p. absurd (omega arith)))
failures_open_iff o ((now, r) ∷ rs) b (i, h) e lt = elim (settle_failure o now r b i e) [
  | inl (trip, le) ↦ ((λ _. omega arith), (λ _. settle_all-opened o rs (settle o now r b).0 h trip))
  | inr (same, n, more) ↦
      let ih = failures_open_iff o rs (settle o now r b).0 h same (omega (arith, n)) in
      ((λ p. omega (arith, ih.0 p, n)), (λ p. ih.1 (omega (arith, n))))
]

-- One success in a half-open breaker with room left, and a success in a closed one.
settle_success_half_open :
    (o : Options) (now : ℕ) (b : CircuitBreaker)
    → b.state ≡ half_open
    → (((settle o now returned b).0.state ≡ closed) × (o.success_threshold ≤ b.success_count + 1))
      ⊎ (((settle o now returned b).0.state ≡ half_open)
          × ((settle o now returned b).0.success_count ≡ b.success_count + 1)
          × (b.success_count + 1 < o.success_threshold))
unfolding settle on_success
settle_success_half_open o now b e = ground arith

settle_success_closed :
    (o : Options) (now : ℕ) (b : CircuitBreaker)
    → b.state ≡ closed
    → (settle o now returned b).0.state ≡ closed
unfolding settle on_success
settle_success_closed o now b e = ground arith

settle_all-closed :
    (o : Options) (rs : List (ℕ × Outcome)) (b : CircuitBreaker)
    → All IsSuccess rs
    → b.state ≡ closed
    → (settle_all o rs b).state ≡ closed
unfolding settle_all
settle_all-closed o [] b h e = e
settle_all-closed o ((now, returned) ∷ rs) b (i, h) e =
    settle_all-closed o rs (settle o now returned b).0 h (settle_success_closed o now b e)
settle_all-closed o ((now, threw x) ∷ rs) b (i, h) e = cc

-- From the half-open state, successes in a row close the breaker exactly when their number,
-- together with the successes already counted, reaches the success threshold.
pub successes_close_iff :
    (o : Options) (rs : List (ℕ × Outcome)) (b : CircuitBreaker)
    → All IsSuccess rs
    → b.state ≡ half_open
    → b.success_count < o.success_threshold
    → ((settle_all o rs b).state ≡ closed) ↔ (o.success_threshold ≤ b.success_count + length rs)
unfolding settle_all
successes_close_iff o [] b h e lt = ((λ p. cc), (λ p. absurd (omega arith)))
successes_close_iff o ((now, threw x) ∷ rs) b (i, h) e lt = cc
successes_close_iff o ((now, returned) ∷ rs) b (i, h) e lt =
    elim (settle_success_half_open o now b e) [
      | inl (shut, le) ↦
          ((λ _. omega arith), (λ _. settle_all-closed o rs (settle o now returned b).0 h shut))
      | inr (same, n, more) ↦
          let ih = successes_close_iff o rs (settle o now returned b).0 h same (omega (arith, n)) in
          ((λ p. omega (arith, ih.0 p, n)), (λ p. ih.1 (omega (arith, n))))
    ]

-- A failure that opens the breaker: any one in the half-open state, otherwise the one that reaches
-- the threshold.
abbrev pub Trips : Options → CircuitBreaker → Type 0
Trips o b = (b.state ≡ half_open) ⊎ (o.failure_threshold ≤ b.failure_count + 1)

-- Once a failure at time `t` has opened the breaker, and while Redis answers with what was then
-- published or not at all, a call at time `now` goes through exactly when `t + timeout ≤ now`.
pub open_until_timeout :
    (o : Options) (b : CircuitBreaker) (e : ℕ × Outcome) (now : ℕ) (shared : Option Shared)
    → IsFailure e
    → Trips o b
    → (shared ≡ none) ⊎ (shared ≡ (settle o e.0 e.1 b).1)
    → ((enter o now shared (settle o e.0 e.1 b).0).1 ≡ true) ↔ (e.0 + o.timeout ≤ now)
unfolding settle on_failure enter
open_until_timeout o b (t, returned) now shared f trips s = absurd f
open_until_timeout o b (t, threw x) now shared f trips s = ground arith
