-- ===== src/Gateway/ApiKey/Revocation.antt =====
-- How long a key is accepted that no longer is in the table.
use grain_guard.Prelude.{ℕ, ◌+◌, ◌≤◌, ◌≡◌, String, some, List, [], ◌∷◌, Maybe}
use grain_guard.Gateway.Team.{User}
use grain_guard.Gateway.ApiKey.{
  ResolvedKey, CachedKey, KeyCache, KeyLookup, found, not_found, threw, KeyedRequest, KeyedReply,
  missing_api_key, invalid_api_key, internal_error, next, user_of_key,
}

-- `Live s k v`: at the second s the table has a key that is k, neither revoked nor expired.
module _ (Live : ℕ → String → ResolvedKey → Type 0) where
  -- A live key of the last 300 seconds.
  pub record IsRecent (now : ℕ) (k : String) (u : User) : Type 0 where
    pub since : ℕ
    pub value : ResolvedKey
    pub past : since ≤ now
    pub recent : now ≤ since + 300
    pub live : Live since k value
    pub user : u ≡ user_of_key value

  -- An entry of the cache is of a live key.
  record IsCopied (clock : ℕ) (k : String) (e : CachedKey) : Type 0 where
    since : ℕ
    past : since ≤ clock
    expires : e.expires_at ≡ since + 300
    live : Live since k e.value

  abbrev AreCopied : ℕ → KeyCache → Type 0
  AreCopied clock cache = (k : String) → Maybe (IsCopied clock k) (cache k)

  -- What the query finds is live at the time of the request.
  abbrev FindsLive : ℕ → String → KeyLookup → Type 0
  FindsLive now k (found v) = Live now k v
  FindsLive now k not_found = Unit
  FindsLive now k threw = Unit

  abbrev pub AsksLive : KeyedRequest → Type 0
  AsksLive q = Maybe (λ k. FindsLive q.now k q.lookup) q.x_api_key

  abbrev IsGranted : ℕ → String → KeyedReply → Type 0
  IsGranted now k (next u) = IsRecent now k u
  IsGranted now k missing_api_key = Unit
  IsGranted now k invalid_api_key = Unit
  IsGranted now k internal_error = Unit

  -- A request that is let in has a key that was live in the last 300 seconds.
  abbrev pub IsFresh : KeyedRequest × KeyedReply → Type 0
  IsFresh (q, missing_api_key) = Unit
  IsFresh (q, invalid_api_key) = Unit
  IsFresh (q, internal_error) = Unit
  IsFresh (q, next u) = (k : String) × ((q.x_api_key ≡ some k) × IsRecent q.now k u)

  -- The times of the requests do not go back.
  abbrev pub IsInOrder : ℕ → List KeyedRequest → Type 0
  IsInOrder clock [] = Unit
  IsInOrder clock (q ∷ rest) = (clock ≤ q.now) × IsInOrder q.now rest

  module _ (q : KeyedRequest) (k : String) (cache : KeyCache) (c : AreCopied q.now cache) where
    abbrev Good : KeyedReply × KeyCache → Type 0
    Good r = IsGranted q.now k r.0 × AreCopied q.now r.1

  abbrev Kept : KeyedRequest → KeyedReply × KeyCache → Type 0
  Kept q r = IsFresh (q, r.0) × AreCopied q.now r.1
