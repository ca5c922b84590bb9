-- ===== src/Bff/Resolvers/Isolation/Listings.antt =====
-- The lists that the members of a tenant are shown.
use grain_guard.Prelude.{
  ℕ, ◌≡◌, refl, String, Bool, true, false, Option, none, some, [], All, Maybe, All-map, if-intro,
  option-intro,
}
use grain_guard.Bff.Redis.{Key, get, set, acquire_lock, release_lock}
use grain_guard.Bff.Source.{
  Tables, Json, telemetry_rows, device_rows, device, devices, telemetry_node, telemetry_nodes,
  count, telemetry_key, device_rows_key, cached_query, all_telemetry_rows, device_rows_of,
  or_no_rows, query_of,
}
use grain_guard.Bff.Resolvers.{
  Context, devices_key, Store, node_of, nodes_of, devices_of, blank_node,
}
use grain_guard.Bff.Resolvers.Handlers.{
  resolve_devices, resolve_all_telemetry, all_telemetry_body, finish_devices, finish_telemetry,
}
use grain_guard.Bff.Resolvers.Isolation.{
  IsConsistent, RowOf, DeviceOf, NodeOf, Owned, IsPartitioned, Serves,
}
use grain_guard.Bff.Resolvers.Isolation.Replies.{after_lock-Serves}
use grain_guard.Bff.Resolvers.Isolation.Entries.{
  get-Owned, set-IsPartitioned, acquire_lock-IsPartitioned, release_lock-IsPartitioned,
}
use grain_guard.Bff.Resolvers.Isolation.Queries.{device_rows_of-Owned, all_telemetry_rows-Owned}

module _ {Reading : Type 0} (owner : String → String) where
  module _ (answers : Bool) (db : Tables Reading) (now later : ℕ) (ctx : Context)
      (member : ctx.is_super_admin ≡ false) (consistent : IsConsistent owner db) where
    -- A value that a query of the data source returns, and the store that it leaves.
    record Fetches (x : Option (Json Reading) × Store Reading) : Type 0 where
      fetched : Maybe (Owned owner ctx.tenant_id) x.0
      store : IsPartitioned owner x.1

    or_no_rows-Owned :
        (o : Option (Json Reading)) (rows : Json Reading)
        → Maybe (Owned owner ctx.tenant_id) o
        → Owned owner ctx.tenant_id rows
        → Owned owner ctx.tenant_id (or_no_rows o rows)
    or_no_rows-Owned none rows h k = k
    or_no_rows-Owned (some j) rows h k = h

    query-Fetches :
        (key : Key) (query : Option (Json Reading)) (r : Store Reading)
        → key.tenant ≡ some ctx.tenant_id
        → Maybe (Owned owner ctx.tenant_id) query
        → IsPartitioned owner r
        → Fetches (elim query [
          | none ↦ (none, release_lock key r)
          | some j ↦ (some j, release_lock key (set now key j 30 r))
        ])
    query-Fetches key none r e h p = record {
      fetched = tt;
      store = release_lock-IsPartitioned owner key r p;
    }
    query-Fetches key (some j) r e h p = record {
      fetched = h;
      store =
          release_lock-IsPartitioned owner key _
            (set-IsPartitioned owner ctx.tenant_id now 30 key j r e h p);
    }

    cached_query-Fetches :
        (key : Key) (query : Option (Json Reading)) (no_rows : Json Reading) (r : Store Reading)
        → key.tenant ≡ some ctx.tenant_id
        → Maybe (Owned owner ctx.tenant_id) query
        → Owned owner ctx.tenant_id no_rows
        → IsPartitioned owner r
        → Fetches (cached_query now later key query no_rows r)
    unfolding cached_query
    cached_query-Fetches key query no_rows r e h n p =
        option-intro (Owned owner ctx.tenant_id) Fetches (get now key r)
          (get-Owned owner ctx.tenant_id now key r e p)
          (if-intro Fetches (acquire_lock now key 5 r).0
            (query-Fetches key query (acquire_lock now key 5 r).1 e h
              (acquire_lock-IsPartitioned owner now 5 key r p))
            (record {
              fetched =
                  or_no_rows-Owned (get later key r) no_rows
                    (get-Owned owner ctx.tenant_id later key r e p) n;
              store = p;
            }))
          (λ j k. record { fetched = k; store = p })

    devices_of-Owned :
        (j : Json Reading)
        → Owned owner ctx.tenant_id j
        → Maybe (All (DeviceOf owner ctx.tenant_id)) (devices_of j)
    devices_of-Owned (device_rows rows) h = h
    devices_of-Owned (telemetry_rows rows) h = tt
    devices_of-Owned (device d) h = tt
    devices_of-Owned (devices ds) h = tt
    devices_of-Owned (telemetry_node n) h = tt
    devices_of-Owned (telemetry_nodes ns) h = tt
    devices_of-Owned (count n) h = tt

    nodes_of-Owned :
        (j : Json Reading)
        → Owned owner ctx.tenant_id j
        → Maybe (All (NodeOf owner ctx.tenant_id)) (nodes_of j)
    nodes_of-Owned (telemetry_rows rows) h =
        All-map (NodeOf owner ctx.tenant_id) (RowOf owner ctx.tenant_id) node_of rows (λ t k. k) h
    nodes_of-Owned (device_rows rows) h =
        All-map (NodeOf owner ctx.tenant_id) (DeviceOf owner ctx.tenant_id) (λ d. blank_node) rows
          (λ d k. refl) h
    nodes_of-Owned (device d) h = tt
    nodes_of-Owned (devices ds) h =
        All-map (NodeOf owner ctx.tenant_id) (DeviceOf owner ctx.tenant_id) (λ d. blank_node) ds
          (λ d k. refl) h
    nodes_of-Owned (telemetry_node n) h = tt
    nodes_of-Owned (telemetry_nodes ns) h =
        All-map (NodeOf owner ctx.tenant_id) (NodeOf owner ctx.tenant_id) (λ n. blank_node) ns
          (λ n k. refl) h
    nodes_of-Owned (count n) h = tt

    finish_devices-Serves :
        (key : Key) (o : Option (Json Reading)) (r : Store Reading)
        → key.tenant ≡ some ctx.tenant_id
        → Maybe (Owned owner ctx.tenant_id) o
        → IsPartitioned owner r
        → Serves owner ctx.tenant_id (finish_devices later key (o, r))
    finish_devices-Serves key none r e h p = record { reply = tt; store = p }
    finish_devices-Serves key (some rows) r e h p =
        option-intro (All (DeviceOf owner ctx.tenant_id)) (Serves owner ctx.tenant_id)
          (devices_of rows) (devices_of-Owned rows h) (record { reply = tt; store = p })
          (λ ds k. record {
            reply = k;
            store = set-IsPartitioned owner ctx.tenant_id later 300 key (devices ds) r e k p;
          })

    finish_telemetry-Serves :
        (key : Key) (o : Option (Json Reading)) (r : Store Reading)
        → key.tenant ≡ some ctx.tenant_id
        → Maybe (Owned owner ctx.tenant_id) o
        → IsPartitioned owner r
        → Serves owner ctx.tenant_id (finish_telemetry later key (o, r))
    finish_telemetry-Serves key none r e h p = record { reply = tt; store = p }
    finish_telemetry-Serves key (some rows) r e h p =
        option-intro (All (NodeOf owner ctx.tenant_id)) (Serves owner ctx.tenant_id) (nodes_of rows)
          (nodes_of-Owned rows h) (record { reply = tt; store = p })
          (λ ns k. record {
            reply = k;
            store = set-IsPartitioned owner ctx.tenant_id later 30 key (telemetry_nodes ns) r e k p;
          })

    query_of-Owned :
        (b : Bool) (j : Json Reading)
        → Owned owner ctx.tenant_id j
        → Maybe (Owned owner ctx.tenant_id) (query_of b j)
    query_of-Owned true j h = h
    query_of-Owned false j h = tt

    pub resolve_devices-Serves :
        (limit : ℕ) (r : Store Reading)
        → IsPartitioned owner r
        → Serves owner ctx.tenant_id (resolve_devices answers db now later ctx limit r)
    unfolding resolve_devices
    resolve_devices-Serves limit r p = rw member (
        option-intro (Owned owner ctx.tenant_id) (Serves owner ctx.tenant_id)
          (get now (devices_key limit (some ctx.tenant_id)) r)
          (get-Owned owner ctx.tenant_id now (devices_key limit (some ctx.tenant_id)) r refl p)
          (let f =
              cached_query-Fetches (device_rows_key limit (some ctx.tenant_id))
                (query_of answers (device_rows (device_rows_of db limit (some ctx.tenant_id))))
                (device_rows []) r refl
                (query_of-Owned answers _
                  (device_rows_of-Owned owner db limit ctx.tenant_id consistent))
                tt p in
            finish_devices-Serves (devices_key limit (some ctx.tenant_id)) _ _ refl f.fetched
              f.store)
          (λ j h. record { reply = h; store = p }))

    all_telemetry_body-Serves :
        (limit : ℕ) (r : Store Reading)
        → IsPartitioned owner r
        → Serves owner ctx.tenant_id
            (all_telemetry_body answers db now later limit (some ctx.tenant_id) r)
    all_telemetry_body-Serves limit r p =
        let f =
          cached_query-Fetches (telemetry_key limit (some ctx.tenant_id))
            (query_of answers (telemetry_rows (all_telemetry_rows db limit (some ctx.tenant_id))))
            (telemetry_rows []) r refl
            (query_of-Owned answers _
              (all_telemetry_rows-Owned owner db limit ctx.tenant_id consistent))
            tt p in
        finish_telemetry-Serves (telemetry_key limit (some ctx.tenant_id)) _ _ refl f.fetched
          f.store

    pub resolve_all_telemetry-Serves :
        (limit : ℕ) (r : Store Reading)
        → IsPartitioned owner r
        → Serves owner ctx.tenant_id (resolve_all_telemetry answers db now later ctx limit r)
    unfolding resolve_all_telemetry
    resolve_all_telemetry-Serves limit r p = rw member (
        option-intro (Owned owner ctx.tenant_id) (Serves owner ctx.tenant_id)
          (get now (telemetry_key limit (some ctx.tenant_id)) r)
          (get-Owned owner ctx.tenant_id now (telemetry_key limit (some ctx.tenant_id)) r refl p)
          (after_lock-Serves owner answers db now later ctx member consistent
            (telemetry_key limit (some ctx.tenant_id))
            (all_telemetry_body answers db now later limit (some ctx.tenant_id)) r refl
            (all_telemetry_body-Serves limit) p)
          (λ j h. record { reply = h; store = p }))
