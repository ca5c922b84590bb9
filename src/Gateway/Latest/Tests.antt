-- ===== src/Gateway/Latest/Tests.antt =====
-- Two requests for one device: the first fills the cache, and the second reads it.
use grain_guard.Prelude.{ℕ, ◌≡◌, refl, String, Option, true, false, some, [], if◌then◌else◌, ◌==◌}
use grain_guard.Gateway.Team.{User}
use grain_guard.Gateway.Latest.{
  Answer, threw, answer, Latest, allow_request, read_cache, return_hit, acquire, own_lock, unlock,
  write_cache, get_device_latest_telemetry,
}
use grain_guard.Gateway.Latest.Runs.{
  World, Reach, start, arrives, moves, commits, here, next, asks, succeeds, gets_version, gets_row,
  locks, sets_row, sets_version, queries,
}
use grain_guard.Gateway.Latest.Genuine.{Reach-reply}
use grain_guard.Gateway.Latest.Alone.{ok, get_latest, get_latest-table}

abbrev warm : Latest ℕ
warm = record { device_id = "d1"; version = 3; reading = 21 }

abbrev IsOf : String → Latest ℕ → Type 0
IsOf d row = row.device_id ≡ d

abbrev Ran : World ℕ → Type 0
Ran w = Reach IsOf start w

-- The first request, from its arrival to the release of its lock.
-- The first request up to its last write, then the second one, and then the rest of the first.
abbrev ran : (w : World ℕ) × Ran w
unfolding get_device_latest_telemetry read_cache return_hit acquire own_lock write_cache unlock
    allow_request
ran =
    let a = next here (commits "d1" warm refl) in
    let b = next a (arrives 0 "d1" "7-1") in
    let c = next b (moves 0 (asks 10)) in
    let d = next c (moves 0 gets_version) in
    let e = next d (moves 0 (asks 11)) in
    let f = next e (moves 0 locks) in
    let g = next f (moves 0 queries) in
    let h = next g (moves 0 (asks 12)) in
    let i = next h (moves 0 (sets_row true)) in
    let j = next i (moves 0 (sets_version true)) in
    let k = next j (arrives 1 "d1" "7-2") in
    let l = next k (moves 1 (asks 13)) in
    let m = next l (moves 1 gets_version) in
    let n = next m (moves 1 gets_row) in
    let o = next n (moves 0 succeeds) in (_, next o (moves 1 succeeds))

Reach-reply_example : warm.device_id ≡ "d1"
unfolding get_device_latest_telemetry read_cache return_hit acquire own_lock write_cache unlock
    allow_request
Reach-reply_example = Reach-reply IsOf ran.1 1 warm refl

abbrev bob : User
bob = record { sub = "auth0|bob"; tenant_id = "t2"; roles = [] }

abbrev answers : String → Answer (Option (Latest ℕ))
answers d = if d == "d1" then answer (some warm) else threw

get_latest-table_example :
    (get_latest answers 5
      (record { failure_count = 4; is_open = false; opened_at = 0 })
      bob
      "d1"
      "7-1").0
    ≡ ok warm
get_latest-table_example =
    get_latest-table answers 5 "d1" (record { failure_count = 4; is_open = false; opened_at = 0 })
      bob "7-1"
