-- ===== src/Bff/Breaker/Interleaving.antt =====
-- Several pods share one Redis entry, and on each pod calls may be in flight while others enter:
-- the steps of circuitBreaker.ts in any order.
use grain_guard.Prelude.{
  ℕ, ◌<◌, ◌≡◌, refl, ◌⊎◌, inl, inr, Option, none, some, arith, nat_eq, Bool-cases, if◌then◌else◌,
}
use grain_guard.Bff.Breaker.{
  closed, Options, CircuitBreaker, Shared, enter, on_success, on_failure, Outcome, returned, threw,
  settle, initial,
}

pub record World : Type 0 where
  pub pod : ℕ → CircuitBreaker
  pub redis : Option Shared

abbrev pub update_pod : ℕ → CircuitBreaker → (ℕ → CircuitBreaker) → ℕ → CircuitBreaker
update_pod i b f j = if nat_eq i j then b else f j

-- What a read of Redis may answer: the entry, or nothing where Redis is unavailable.
abbrev pub Answers : Option Shared → Option Shared → Type 0
Answers redis view = (view ≡ none) ⊎ (view ≡ redis)

-- The entry after a call that publishes `p`, where the write may be lost.
abbrev pub Writes : Option Shared → Option Shared → Option Shared → Type 0
Writes redis p redis' = (redis' ≡ redis) ⊎ (redis' ≡ p)

pub data Step (o : Options) : World → World → Type 0 where
  enters :
      {w : World} (i now : ℕ) (view : Option Shared)
      → Answers w.redis view
      → Step o w (record w { pod = update_pod i (enter o now view (w.pod i)).0 w.pod })
  settles :
      {w : World} (i now : ℕ) (r : Outcome) (redis' : Option Shared)
      → Writes w.redis (settle o now r (w.pod i)).1 redis'
      → Step o w (record { pod = update_pod i (settle o now r (w.pod i)).0 w.pod; redis = redis' })
  expires : {w : World} → Step o w (record w { redis = none })

pub data Reach (o : Options) (s : World) : World → Type 0 where
  here : Reach o s s
  next : {t u : World} → Reach o s t → Step o t u → Reach o s u

pub record IsSound (o : Options) (b : CircuitBreaker) : Type 0 where
  pub few_failures : b.state ≡ closed → b.failure_count < o.failure_threshold
  pub no_successes : b.state ≡ closed → b.success_count ≡ 0
  pub few_successes : b.success_count < o.success_threshold

abbrev pub IsClean : Option Shared → Type 0
IsClean r = (s : Shared) → r ≡ some s → s.state ≡ closed → s.failure_count ≡ 0

pub record IsSafe (o : Options) (w : World) : Type 0 where
  pub pods : (i : ℕ) → IsSound o (w.pod i)
  pub entry : IsClean w.redis

enter-IsSound :
    (o : Options) (now : ℕ) (view : Option Shared) (b : CircuitBreaker)
    → IsClean view
    → IsSound o b
    → IsSound o (enter o now view b).0
unfolding enter
enter-IsSound o now none b c h = ground arith
enter-IsSound o now (some s) b c h = ground (arith, c s)

settle-IsSound :
    (o : Options) (now : ℕ) (r : Outcome) (b : CircuitBreaker)
    → 0 < o.failure_threshold
    → 0 < o.success_threshold
    → IsSound o b
    → IsSound o (settle o now r b).0
unfolding settle on_success on_failure
settle-IsSound o now returned b f s h = ground arith
settle-IsSound o now (threw e) b f s h = ground arith

settle-IsClean :
    (o : Options) (now : ℕ) (r : Outcome) (b : CircuitBreaker) → IsClean (settle o now r b).1
unfolding settle on_success on_failure
settle-IsClean o now returned b s = ground arith
settle-IsClean o now (threw e) b s = ground arith

update-IsSound :
    (o : Options) (i : ℕ) (b : CircuitBreaker) (f : ℕ → CircuitBreaker)
    → IsSound o b
    → ((j : ℕ) → IsSound o (f j))
    → (j : ℕ) → IsSound o (update_pod i b f j)
update-IsSound o i b f h k j = elim (Bool-cases (nat_eq i j)) [
  | inl e ↦ rw e h
  | inr e ↦ rw e (k j)
]

module _ (o : Options) (f : 0 < o.failure_threshold) (s : 0 < o.success_threshold) where
  view-IsClean : (redis view : Option Shared) → Answers redis view → IsClean redis → IsClean view
  view-IsClean redis view (inl e) c x p = cc
  view-IsClean redis view (inr e) c x p = c x (cc)

  redis-IsClean :
      (redis p redis' : Option Shared)
      → Writes redis p redis'
      → IsClean redis
      → IsClean p
      → IsClean redis'
  redis-IsClean redis p redis' (inl e) c d x q = c x (cc)
  redis-IsClean redis p redis' (inr e) c d x q = d x (cc)

  Step-IsSafe : {w u : World} → Step o w u → IsSafe o w → IsSafe o u
  Step-IsSafe (enters {w} i now view a) h = record {
    pods =
        update-IsSound o i (enter o now view (w.pod i)).0 w.pod
          (enter-IsSound o now view (w.pod i) (view-IsClean w.redis view a h.entry) (h.pods i))
          h.pods;
    entry = h.entry;
  }
  Step-IsSafe (settles {w} i now r redis' a) h = record {
    pods =
        update-IsSound o i (settle o now r (w.pod i)).0 w.pod
          (settle-IsSound o now r (w.pod i) f s (h.pods i)) h.pods;
    entry =
        redis-IsClean w.redis (settle o now r (w.pod i)).1 redis' a h.entry
          (settle-IsClean o now r (w.pod i));
  }
  Step-IsSafe expires h = record { pods = h.pods; entry = λ x p. cc }

  -- Whatever the order in which the calls of all pods enter and settle, whichever reads and writes
  -- of Redis fail and whenever its entry expires: every pod that is closed has counted fewer
  -- failures than the threshold and no success, every pod's count of successes is below the
  -- success threshold, and a closed entry in Redis has no failures.
  pub Reach-IsSafe : {w u : World} → IsSafe o w → Reach o w u → IsSafe o u
  Reach-IsSafe h here = h
  Reach-IsSafe h (next r st) = Step-IsSafe st (Reach-IsSafe h r)

  pub start-IsSafe : IsSafe o (record { pod = λ i. initial; redis = none })
  start-IsSafe = record {
    pods = λ i. record { few_failures = λ _. f; no_successes = λ _. refl; few_successes = s };
    entry = λ x p. cc;
  }
