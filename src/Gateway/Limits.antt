-- ===== src/Gateway/Limits.antt =====
-- apps/gateway/src/middleware/rateLimiting.ts, and the limiters that server.ts and the routers put
-- before a request. All limiters count in one sorted set for each address. The members that zadd
-- writes end in a random number and are taken to differ, so the set is the list of its scores.
pub mod Counting
pub mod Window
pub mod Bulk
mod Tests
use grain_guard.Prelude.{
  ℕ, ◌+◌, ◌-◌, ◌*◌, ◌/◌, Bool, true, false, not, List, [], ◌∷◌, select, length, ltb, leb,
  if◌then◌else◌,
}

pub record RateLimitOptions : Type 0 where
  pub window_seconds : ℕ
  pub max_requests : ℕ

abbrev pub api_rate_limiter : RateLimitOptions
api_rate_limiter = record { window_seconds = 60; max_requests = 1000 }

abbrev pub strict_rate_limiter : RateLimitOptions
strict_rate_limiter = record { window_seconds = 60; max_requests = 100 }

abbrev pub public_rate_limiter : RateLimitOptions
public_rate_limiter = record { window_seconds = 60; max_requests = 20 }

abbrev pub bulk_rate_limiter : RateLimitOptions
bulk_rate_limiter = record { window_seconds = 60; max_requests = 10 }

-- The sorted set of an address, and when its key expires.
pub record Bucket : Type 0 where
  pub scores : List ℕ
  pub expires : ℕ

pub record Headers : Type 0 where
  pub limit : ℕ
  pub remaining : ℕ
  pub reset : ℕ

-- `next` with the headers set, `next` after an error of Redis, and 429 with Retry-After.
pub data Verdict : Type 0 where
  passed : Headers → Verdict
  failed_open : Verdict
  refused : Headers → ℕ → Verdict

abbrev pub is_passed : Verdict → Bool
is_passed (passed h) = true
is_passed failed_open = true
is_passed (refused h n) = false

abbrev pub live_scores : ℕ → Bucket → List ℕ
live_scores now b = if ltb now b.expires then b.scores else []

-- zremrangebyscore
abbrev pub pruned : ℕ → ℕ → Bucket → List ℕ
pruned window now b = select (λ score. ltb now (score + window * 1000)) (live_scores now b)

-- zadd and expire
abbrev pub added : ℕ → ℕ → Bucket → Bucket
added window now b = record {
  scores = now ∷ pruned window now b;
  expires = now + window * 2 * 1000;
}

abbrev headers_of : RateLimitOptions → ℕ → ℕ → Headers
headers_of o now n = record {
  limit = o.max_requests;
  remaining = o.max_requests - n - 1;
  reset = (now + o.window_seconds * 1000 + 999) / 1000;
}

-- The middleware; `answers` says whether Redis does.
unfoldable pub rate_limit_middleware : RateLimitOptions → Bool → ℕ → Bucket → Verdict × Bucket
rate_limit_middleware o answers now b =
    let n = length (pruned o.window_seconds now b) in
    if not answers then (failed_open, b) else (
      if leb o.max_requests n
          then refused (headers_of o now n) o.window_seconds
          else passed (headers_of o now n),
      added o.window_seconds now b,
    )

-- One limiter that a request comes to.
pub record Step : Type 0 where
  pub options : RateLimitOptions
  pub answers : Bool
  pub now : ℕ

abbrev pub step : Step → Bucket → Verdict × Bucket
step s b = rate_limit_middleware s.options s.answers s.now b

-- The limiters before a handler, up to the first that refuses.
unfoldable pub through : List Step → Bucket → Bool × Bucket
through [] b = (true, b)
through (s ∷ rest) b =
    let on = through rest (step s b).1 in
    if is_passed (step s b).0 then on else (false, (step s b).1)
