-- ===== src/Gateway/Latest/Alone.antt =====
-- One request that meets no other and finds Redis unreachable, and the route of server.ts.
use grain_guard.Prelude.{ℕ, ◌≡◌, refl, String, false, Option, none, some, if◌then◌else◌, if-intro}
use grain_guard.Gateway.Team.{User}
use grain_guard.Gateway.Latest.{
  CacheBreaker, record_failure, record_success, allow_request, Answer, threw, answer, Latest,
  Program, reply, crash, allowed, failed, succeeded, get_version, get_row, set_lock, set_row,
  set_version, release, query, query_db_and_return, read_cache, return_hit, wait_loop, own_lock,
  acquire, get_device_latest_telemetry,
}

pub data LatestReply (Reading : Type 0) : Type 0 where
  not_found internal_error : LatestReply Reading
  ok : Latest Reading → LatestReply Reading

module _ {Reading : Type 0} where
  -- What the route answers at the end of a request.
  abbrev pub reply_of : Answer (Option (Latest Reading)) → LatestReply Reading
  reply_of threw = internal_error
  reply_of (answer none) = not_found
  reply_of (answer (some row)) = ok row

  -- The calls of one request in their order, at the time `now`, where each call of Redis throws and
  -- the database answers from `table`.
  abbrev pub without_redis :
      (String → Answer (Option (Latest Reading)))
      → ℕ
      → CacheBreaker
      → Program Reading
      → LatestReply Reading × CacheBreaker
  without_redis table now b (reply o) = (reply_of (answer o), b)
  without_redis table now b crash = (internal_error, b)
  without_redis table now b (allowed k) =
      without_redis table now (allow_request now b).1 (k (allow_request now b).0)
  without_redis table now b (failed p) = without_redis table now (record_failure now b) p
  without_redis table now b (succeeded p) = without_redis table now (record_success b) p
  without_redis table now b (get_version d k) = without_redis table now b (k threw)
  without_redis table now b (get_row d v k) = without_redis table now b (k threw)
  without_redis table now b (set_lock d value k) = without_redis table now b (k threw)
  without_redis table now b (set_row d row k) = without_redis table now b (k false)
  without_redis table now b (set_version d v k) = without_redis table now b (k false)
  without_redis table now b (release d value k) = without_redis table now b (k false)
  without_redis table now b (query d k) = without_redis table now b (k (table d))

  -- GET /devices/:deviceId/latest of a signed-in user
  abbrev pub get_latest :
      (String → Answer (Option (Latest Reading)))
      → ℕ
      → CacheBreaker
      → User
      → String
      → String
      → LatestReply Reading × CacheBreaker
  get_latest table now b u d value = without_redis table now b (get_device_latest_telemetry d value)

  module _ (table : String → Answer (Option (Latest Reading))) (now : ℕ) (d : String) where
    abbrev Answers : CacheBreaker → Program Reading → Type 0
    Answers b p = (without_redis table now b p).0 ≡ reply_of (table d)

    after_query :
        (b : CacheBreaker) (a : Answer (Option (Latest Reading)))
        → (without_redis table now b (elim a [ threw ↦ crash | answer row ↦ reply row ])).0
          ≡ reply_of a
    after_query b threw = refl
    after_query b (answer o) = refl

    query_db_and_return-Answers : (b : CacheBreaker) → Answers b (query_db_and_return d)
    unfolding query_db_and_return
    query_db_and_return-Answers b = after_query b (table d)

    acquire-Answers : (value : String) (b : CacheBreaker) → Answers b (acquire d value)
    unfolding acquire
    acquire-Answers value b =
        if-intro (Answers (allow_request now b).1) (allow_request now b).0
          {x = set_lock d value (λ a. elim a [
            | threw ↦ failed (query_db_and_return d)
            | answer acquired ↦ if acquired then own_lock d value else wait_loop 10 d
          ])}
          (query_db_and_return-Answers (record_failure now (allow_request now b).1))
          (query_db_and_return-Answers (allow_request now b).1)

    -- Where Redis is unreachable, a request is answered what the database answers, in every state of
    -- the breaker and for every user: the row of the device, 404 where there is none, and 500 where
    -- the query throws. The tenant of the user plays no part.
    pub get_latest-table :
        (b : CacheBreaker) (u : User) (value : String)
        → (get_latest table now b u d value).0 ≡ reply_of (table d)
    unfolding get_device_latest_telemetry read_cache
    get_latest-table b u value =
        if-intro (Answers (allow_request now b).1) (allow_request now b).0
          {x = read_cache d return_hit (acquire d value) (failed (acquire d value))}
          (acquire-Answers value (record_failure now (allow_request now b).1))
          (acquire-Answers value (allow_request now b).1)
