-- ===== src/Bff/Resolvers/Starvation.antt =====
-- resolvers.ts allTelemetry on top of postgres.ts getAllTelemetry, which use one key and one lock.
use grain_guard.Prelude.{
  ℕ, ◌+◌, ◌*◌, ◌≤◌, ◌<◌, ◌≡◌, refl, String, Bool, true, Option, none, some, [], Bool-cases, inl,
  inr, arith, if◌then◌else◌,
}
use grain_guard.Bff.Redis.{
  Key, get, set, acquire_lock, release_lock, live, is_held, key_eq, key_eq_refl,
}
use grain_guard.Bff.Source.{
  Tables, Json, telemetry_rows, telemetry_nodes, telemetry_key, cached_query, all_telemetry_rows,
  query_of,
}
use grain_guard.Bff.Resolvers.{Context, tenant_filter, Store, Reply, value}
use grain_guard.Bff.Resolvers.Handlers.{
  resolve_all_telemetry, cache_get_or_lock, after_lock, all_telemetry_body,
}

module _ {Reading : Type 0} where
  live-later :
      (now later : ℕ) (o : Option (Json Reading × ℕ))
      → now ≤ later
      → live now o ≡ none
      → live later o ≡ none
  live-later now later none h e = refl
  live-later now later (some (j, expiry)) h e = ground arith

  -- A query whose lock is held and whose cache is empty returns no rows.
  cached_query-held :
      (now later : ℕ) (key : Key) (query : Option (Json Reading)) (no_rows : Json Reading)
      (r : Store Reading)
      → now ≤ later
      → get now key r ≡ none
      → is_held now (r.locks key) ≡ true
      → cached_query now later key query no_rows r ≡ (some no_rows, r)
  unfolding get cached_query acquire_lock
  cached_query-held now later key query no_rows r h e l =
      rw (e, l, live-later now later (r.entries key) h e, cached_query) refl

  -- What the try block gives and leaves where the lock is held.
  starved_body :
      (answers : Bool) (db : Tables Reading) (now later limit : ℕ) (tenant : Option String)
      (r : Store Reading)
      → now ≤ later
      → get now (telemetry_key limit tenant) r ≡ none
      → is_held now (r.locks (telemetry_key limit tenant)) ≡ true
      → all_telemetry_body answers db now later limit tenant r ≡ (
        value (telemetry_nodes []),
        set later (telemetry_key limit tenant) (telemetry_nodes []) 30 r,
      )
  starved_body answers db now later limit tenant r h e l =
      rw
        (cached_query-held now later (telemetry_key limit tenant)
          (query_of answers (telemetry_rows (all_telemetry_rows db limit tenant)))
          (telemetry_rows []) r h e l)
        refl

  record Starves (later : ℕ) (key : Key) (x : Reply Reading × Store Reading) : Type 0 where
    reply : x.0 ≡ value (telemetry_nodes [])
    cached : (t : ℕ) → t < later + 30 * 1000 → get t key x.1 ≡ some (telemetry_nodes [])

  set-Starves :
      (later : ℕ) (key : Key) (r : Store Reading)
      → Starves later key (value (telemetry_nodes []), set later key (telemetry_nodes []) 30 r)
  unfolding get set
  set-Starves later key r = record { reply = refl; cached = λ t h. ground (arith, key_eq_refl key) }

  release-Starves :
      (later : ℕ) (key : Key) (r : Store Reading)
      → Starves later key
          (value (telemetry_nodes []), release_lock key (set later key (telemetry_nodes []) 30 r))
  unfolding get set release_lock
  release-Starves later key r = record {
    reply = refl;
    cached = λ t h. ground (arith, key_eq_refl key);
  }

  abbrev locked : ℕ → Key → Store Reading → Store Reading
  locked now key r = record r {
    locks = λ j. if key_eq j key then some (now + 5 * 1000) else r.locks j;
  }

  locked_held :
      (now : ℕ) (key : Key) (r : Store Reading) → is_held now ((locked now key r).locks key) ≡ true
  locked_held now key r = ground (arith, key_eq_refl key)

  miss-Starves :
      (answers : Bool) (db : Tables Reading) (now later limit : ℕ) (tenant : Option String)
      (r : Store Reading)
      → now ≤ later
      → get now (telemetry_key limit tenant) r ≡ none
      → Starves later (telemetry_key limit tenant) (
          after_lock
            (telemetry_key limit tenant)
            (all_telemetry_body answers db now later limit tenant)
            (cache_get_or_lock now (telemetry_key limit tenant) r))
  unfolding cache_get_or_lock acquire_lock get
  miss-Starves answers db now later limit tenant r h e =
      let key = telemetry_key limit tenant in
      elim (Bool-cases (is_held now (r.locks key))) [
        | inl l ↦
            rw (l, e, starved_body answers db now later limit tenant r h e l)
              (set-Starves later key r)
        | inr l ↦
            rw
              (
                l,
                starved_body answers db now later limit tenant (locked now key r) h e
                    (locked_held now key r),
              )
              (release-Starves later key (locked now key r))
      ]

  -- Where allTelemetry finds nothing in the cache, at `now`, it answers with an empty list, whatever
  -- the tables hold and whether or not the database answers, and caches the empty list until 30 s
  -- after `later`, the time after its waits.
  pub resolve_all_telemetry-miss :
      (answers : Bool) (db : Tables Reading) (now later : ℕ) (ctx : Context) (limit : ℕ)
      (r : Store Reading)
      → now ≤ later
      → get now (telemetry_key limit (tenant_filter ctx)) r ≡ none
      → (resolve_all_telemetry answers db now later ctx limit r).0 ≡ value (telemetry_nodes [])
        × ((t : ℕ)
            → t < later + 30 * 1000
            → get t
                (telemetry_key limit (tenant_filter ctx))
                (resolve_all_telemetry answers db now later ctx limit r).1
              ≡ some (telemetry_nodes []))
  unfolding get resolve_all_telemetry
  resolve_all_telemetry-miss answers db now later ctx limit r h e =
      let s = miss-Starves answers db now later limit (tenant_filter ctx) r h e in
      rw (e, resolve_all_telemetry) (s.reply, s.cached)
