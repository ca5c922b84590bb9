-- ===== src/Gateway/Latest.antt =====
-- apps/gateway/src/services/device-query.ts and cacheBreaker.ts, and the route
-- GET /devices/:deviceId/latest of server.ts. A request is a program: what it asks of the breaker, of
-- Redis or of the database next, and how it goes on with each answer. The breaker works on its own
-- state only, so its calls need no answer from outside. What the code only counts or measures, and the
-- pauses of the wait loop, are left out; JSON.parse reads what JSON.stringify wrote.
pub mod Runs
pub mod Genuine
pub mod Alone
mod Tests
use grain_guard.Prelude.{
  ℕ, zero, suc, ◌+◌, ◌-◌, String, Bool, true, false, not, ◌&&◌, Option, none, some, leb, ltb,
  if◌then◌else◌,
}

abbrev failure_threshold : ℕ
failure_threshold = 5

abbrev cool_down_ms : ℕ
cool_down_ms = 20000

pub record CacheBreaker : Type 0 where
  pub failure_count : ℕ
  pub is_open : Bool
  pub opened_at : ℕ

unfoldable pub record_failure : ℕ → CacheBreaker → CacheBreaker
record_failure now b =
    let n = suc b.failure_count in
    if leb failure_threshold n && not b.is_open
    then record { failure_count = n; is_open = true; opened_at = now }
    else record b { failure_count = n }

unfoldable pub record_success : CacheBreaker → CacheBreaker
record_success b = record b { failure_count = 0 }

-- `now - openedAt > COOL_DOWN_MS`
unfoldable pub allow_request : ℕ → CacheBreaker → Bool × CacheBreaker
allow_request now b =
    if not b.is_open
    then (true, b)
    else if ltb cool_down_ms (now - b.opened_at)
    then (true, record b { is_open = false; failure_count = 0 })
    else (false, b)

-- What a call from outside ends with.
pub data Answer (A : Type 0) : Type 0 where
  threw : Answer A
  answer : A → Answer A

-- A row of device_telemetry_latest as the query selects it, and as the cache keeps it.
pub record Latest (Reading : Type 0) : Type 0 where
  pub device_id : String
  pub version : ℕ
  pub reading : Reading

pub data Program (Reading : Type 0) : Type 0 where
  reply : Option (Latest Reading) → Program Reading
  crash : Program Reading
  allowed : (Bool → Program Reading) → Program Reading
  failed succeeded : Program Reading → Program Reading
  get_version : String → (Answer (Option ℕ) → Program Reading) → Program Reading
  get_row : String → ℕ → (Answer (Option (Latest Reading)) → Program Reading) → Program Reading
  set_lock : String → String → (Answer Bool → Program Reading) → Program Reading
  set_row : String → Latest Reading → (Bool → Program Reading) → Program Reading
  set_version : String → ℕ → (Bool → Program Reading) → Program Reading
  release : String → String → (Bool → Program Reading) → Program Reading
  query : String → (Answer (Option (Latest Reading)) → Program Reading) → Program Reading

module _ {Reading : Type 0} where
  unfoldable pub query_db_and_return : String → Program Reading
  query_db_and_return d = query d (λ a. elim a [ threw ↦ crash | answer row ↦ reply row ])

  -- The version and then the row, with what follows a hit, a miss and a failure.
  unfoldable pub read_cache :
      String
      → (Latest Reading → Program Reading)
      → Program Reading
      → Program Reading
      → Program Reading
  read_cache d hit miss failure = get_version d (λ a. elim a [
    | threw ↦ failure
    | answer none ↦ miss
    | answer (some v) ↦
        get_row d v
          (λ r. elim r [ threw ↦ failure | answer none ↦ miss | answer (some row) ↦ hit row ])
  ])

  unfoldable pub return_hit : Latest Reading → Program Reading
  return_hit row = succeeded (reply (some row))

  -- The rounds that are left of the wait for the owner of the lock.
  unfoldable pub wait_loop : ℕ → String → Program Reading
  unfolding query_db_and_return read_cache return_hit
  wait_loop zero d = query_db_and_return d
  wait_loop (suc n) d =
      let again = wait_loop n d in
      allowed (λ ok.
        if ok
        then read_cache d return_hit again (failed (query_db_and_return d))
        else query_db_and_return d)

  -- `finally`
  unfoldable pub unlock : String → String → Program Reading → Program Reading
  unlock d value end =
      allowed (λ ok. if ok then release d value (λ done. if done then end else failed end) else end)

  unfoldable pub write_cache : String → Latest Reading → Program Reading → Program Reading
  write_cache d row end = allowed (λ ok.
      if ok
      then set_row d row (λ done.
        if done
        then set_version d row.version (λ both. if both then succeeded end else failed end)
        else failed end)
      else end)

  unfoldable pub own_lock : String → String → Program Reading
  unfolding unlock write_cache
  own_lock d value = query d (λ a. elim a [
    | threw ↦ unlock d value crash
    | answer none ↦ unlock d value (reply none)
    | answer (some row) ↦ write_cache d row (unlock d value (reply (some row)))
  ])

  unfoldable pub acquire : String → String → Program Reading
  unfolding query_db_and_return own_lock wait_loop
  acquire d value = allowed (λ ok.
      if ok
      then set_lock d value (λ a. elim a [
        | threw ↦ failed (query_db_and_return d)
        | answer acquired ↦ if acquired then own_lock d value else wait_loop 10 d
      ])
      else query_db_and_return d)

  unfoldable pub get_device_latest_telemetry : String → String → Program Reading
  unfolding read_cache return_hit acquire
  get_device_latest_telemetry d value = allowed (λ ok.
      if ok
      then read_cache d return_hit (acquire d value) (failed (acquire d value))
      else acquire d value)
