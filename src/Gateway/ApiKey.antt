-- ===== src/Gateway/ApiKey.antt =====
-- apps/gateway/src/middleware/apiKey.ts, which no route uses yet: who a device is that sends an API
-- key. The scopes, which nothing reads, are left out. The cache of Redis is a function from keys to
-- entries with the second at which they expire. Whether Redis answers, and what the query of api_keys
-- answers, are arguments of a request; what the cache has is what setex has written.
pub mod Revocation
mod Tests
use grain_guard.Prelude.{
  ℕ, ◌+◌, String, Bool, true, false, Option, none, some, List, [], ◌∷◌, ltb, is_empty,
  if◌then◌else◌, ◌==◌,
}
use Prim.Native.String.{◌++◌}
use grain_guard.Gateway.Team.{User}

pub record ResolvedKey : Type 0 where
  pub tenant_id : String
  pub key_id : String

pub record CachedKey : Type 0 where
  pub value : ResolvedKey
  pub expires_at : ℕ

abbrev pub KeyCache : Type 0
KeyCache = String → Option CachedKey

-- How the query of api_keys ends.
pub data KeyLookup : Type 0 where
  found : ResolvedKey → KeyLookup
  not_found threw : KeyLookup

pub record KeyedRequest : Type 0 where
  pub x_api_key : Option String
  pub now : ℕ
  pub reads : Bool
  pub lookup : KeyLookup
  pub writes : Bool

pub data KeyedReply : Type 0 where
  missing_api_key invalid_api_key internal_error : KeyedReply
  next : User → KeyedReply

-- CACHE_TTL
abbrev pub key_ttl : ℕ
key_ttl = 300

-- redis.get
abbrev pub unexpired : ℕ → Option CachedKey → Option ResolvedKey
unexpired now none = none
unexpired now (some e) = if ltb now e.expires_at then some e.value else none

abbrev pub cached_key : KeyedRequest → String → KeyCache → Option ResolvedKey
cached_key q k cache = if q.reads then unexpired q.now (cache k) else none

-- redis.setex
abbrev pub with_key : String → CachedKey → KeyCache → KeyCache
with_key k e cache x = if k == x then some e else cache x

abbrev pub user_of_key : ResolvedKey → User
user_of_key v = record {
  sub = "apikey:" ++ v.key_id;
  tenant_id = v.tenant_id;
  roles = "device" ∷ [];
}

abbrev pub looked_up : KeyedRequest → String → KeyLookup → KeyCache → KeyedReply × KeyCache
looked_up q k threw cache = (internal_error, cache)
looked_up q k not_found cache = (invalid_api_key, cache)
looked_up q k (found v) cache = (
  next (user_of_key v),
  if q.writes then with_key k (record { value = v; expires_at = q.now + key_ttl }) cache else cache,
)

-- resolveTenant, and what the middleware makes of it.
abbrev pub resolve_tenant :
    KeyedRequest → String → Option ResolvedKey → KeyCache → KeyedReply × KeyCache
resolve_tenant q k none cache = looked_up q k q.lookup cache
resolve_tenant q k (some v) cache = (next (user_of_key v), cache)

abbrev pub with_header : KeyedRequest → Option String → KeyCache → KeyedReply × KeyCache
with_header q none cache = (missing_api_key, cache)
with_header q (some k) cache =
    if is_empty k then (missing_api_key, cache) else resolve_tenant q k (cached_key q k cache) cache

unfoldable pub api_key_middleware : KeyedRequest → KeyCache → KeyedReply × KeyCache
api_key_middleware q cache = with_header q q.x_api_key cache

-- Requests one after the other, with their replies.
abbrev pub run_keyed : List KeyedRequest → KeyCache → List (KeyedRequest × KeyedReply)
run_keyed [] cache = []
run_keyed (q ∷ rest) cache = let r = api_key_middleware q cache in (q, r.0) ∷ run_keyed rest r.1
