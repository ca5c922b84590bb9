-- ===== src/Bff/Breaker.antt =====
-- apps/bff/src/lib/circuitBreaker.ts: the circuit breaker in front of Postgres. `execute` waits
-- three times (on the read of Redis, on the query, and not at all on the write of Redis), so it is
-- two definitions: `enter`, up to the call of `fn`, and `settle`, after it. What Redis answers is
-- an argument of `enter`; what is published is a result. Logging is left out.
pub mod Policy
pub mod Interleaving
mod Tests
use grain_guard.Prelude.{
  ℕ, ◌+◌, String, Bool, true, false, ◌||◌, Option, none, some, ltb, leb, if◌then◌else◌, ◌==◌,
}
use text.Mathlib.Text.{find?}

pub data State : Type 0 where
  closed opened half_open : State

-- `this.state === "OPEN"` and `this.state === "HALF_OPEN"`
abbrev pub is_opened : State → Bool
is_opened opened = true
is_opened _ = false

abbrev pub is_half_open : State → Bool
is_half_open half_open = true
is_half_open _ = false

pub record Options : Type 0 where
  pub failure_threshold : ℕ
  pub success_threshold : ℕ
  pub timeout : ℕ

pub record CircuitBreaker : Type 0 where
  pub state : State
  pub failure_count : ℕ
  pub success_count : ℕ
  pub last_failure_time : ℕ

-- What Redis holds under `cb:<name>`.
pub record Shared : Type 0 where
  pub state : State
  pub failure_count : ℕ
  pub last_failure_time : ℕ

abbrev pub initial : CircuitBreaker
initial = record { state = closed; failure_count = 0; success_count = 0; last_failure_time = 0 }

-- The singleton for Postgres.
abbrev pub postgres : Options
postgres = record { failure_threshold = 5; success_threshold = 2; timeout = 30000 }

-- `none` is a missing or expired key, and also a read that throws.
pub sync_from_redis : Option Shared → CircuitBreaker → CircuitBreaker
sync_from_redis none b = b
sync_from_redis (some s) b =
    if ltb b.failure_count s.failure_count
    then record b {
      state = s.state;
      failure_count = s.failure_count;
      last_failure_time = s.last_failure_time;
    }
    else b

-- The value that is written; whether the write succeeds is up to Redis.
pub sync_to_redis : CircuitBreaker → Shared
sync_to_redis b = record {
  state = b.state;
  failure_count = b.failure_count;
  last_failure_time = b.last_failure_time;
}

-- `elapsed < timeout`, with `elapsed = now - lastFailureTime`, which may be negative.
abbrev pub is_waiting : Options → ℕ → CircuitBreaker → Bool
is_waiting o now b = ltb now (b.last_failure_time + o.timeout)

-- The part of `execute` before `fn()`: `false` is the error "Circuit OPEN".
pub enter : Options → ℕ → Option Shared → CircuitBreaker → CircuitBreaker × Bool
unfolding sync_from_redis
enter o now shared b₀ =
    let b = sync_from_redis shared b₀ in
    if is_opened b.state
    then (if is_waiting o now b then (b, false) else (record b { state = half_open }, true))
    else (b, true)

pub on_success : Options → CircuitBreaker → CircuitBreaker × Option Shared
unfolding sync_to_redis
on_success o b₀ =
    let b = record b₀ { failure_count = 0 } in
    if is_half_open b.state
    then (let n = b.success_count + 1 in
        if leb o.success_threshold n
        then (let c = record b { state = closed; success_count = 0 } in (c, some (sync_to_redis c)))
        else (record b { success_count = n }, none))
    else (b, none)

pub on_failure : Options → ℕ → CircuitBreaker → CircuitBreaker × Option Shared
unfolding sync_to_redis
on_failure o now b₀ =
    let b = record b₀ { failure_count = b₀.failure_count + 1; last_failure_time = now } in
    if is_half_open b.state
    then (let c = record b { state = opened; success_count = 0 } in (c, some (sync_to_redis c)))
    else if leb o.failure_threshold b.failure_count
    then (let c = record b { state = opened } in (c, some (sync_to_redis c)))
    else (b, none)

-- `s.includes(part)`
abbrev includes_text : String → String → Bool
includes_text s part = elim (find? s part) [ none ↦ false | some _ ↦ true ]

-- The fields of a thrown value that `execute` reads.
pub record Thrown : Type 0 where
  pub code : Option String
  pub message : Option String

abbrev code_is : Option String → String → Bool
code_is none s = false
code_is (some c) s = c == s

abbrev message_includes : Option String → String → Bool
message_includes none part = false
message_includes (some m) part = includes_text m part

pub is_infra_failure : Thrown → Bool
is_infra_failure e =
    code_is e.code "ECONNREFUSED"
    || code_is e.code "ENOTFOUND"
    || code_is e.code "ETIMEDOUT"
    || code_is e.code "ECONNRESET"
    || message_includes e.message "Connection terminated"
    || message_includes e.message "connect ECONNREFUSED"

-- How `fn()` ended.
pub data Outcome : Type 0 where
  returned : Outcome
  threw : Thrown → Outcome

-- The part of `execute` after `fn()`.
pub settle : Options → ℕ → Outcome → CircuitBreaker → CircuitBreaker × Option Shared
unfolding on_success on_failure is_infra_failure
settle o now returned b = on_success o b
settle o now (threw e) b = if is_infra_failure e then on_failure o now b else (b, none)
