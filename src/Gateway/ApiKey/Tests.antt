-- ===== src/Gateway/ApiKey/Tests.antt =====
-- A key that is revoked 100 seconds after its first use.
use grain_guard.Prelude.{◌≡◌, ◌<◌, refl, ℕ, String, true, none, some, List, [], ◌∷◌, map}
use grain_guard.Gateway.ApiKey.{
  ResolvedKey, KeyLookup, found, not_found, KeyedRequest, KeyedReply, next, invalid_api_key,
  user_of_key, run_keyed, api_key_middleware,
}

abbrev probe : ResolvedKey
probe = record { tenant_id = "t1"; key_id = "k1" }

-- The key is in the table up to the second 1100.
abbrev Live : ℕ → String → ResolvedKey → Type 0
Live s k v = (s < 1100) × ((k ≡ "secret") × (v ≡ probe))

abbrev request : ℕ → KeyLookup → KeyedRequest
request now l = record {
  x_api_key = some "secret";
  now = now;
  reads = true;
  lookup = l;
  writes = true;
}

abbrev requests : List KeyedRequest
requests = request 1000 (found probe) ∷ request 1200 not_found ∷ request 1300 not_found ∷ []

abbrev replies : List KeyedReply
replies = map (λ (r : KeyedRequest × KeyedReply). r.1) (run_keyed requests (λ k. none))

lets_in_from_the_cache :
    replies ≡ next (user_of_key probe) ∷ next (user_of_key probe) ∷ invalid_api_key ∷ []
unfolding api_key_middleware
lets_in_from_the_cache = refl
