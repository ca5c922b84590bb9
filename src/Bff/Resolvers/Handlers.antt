-- ===== src/Bff/Resolvers/Handlers.antt =====
-- resolvers.ts: the resolvers of the queries, each up to its reply and the store that it leaves.
use mathlib.Core.List.{reverse}
use grain_guard.Prelude.{
  ℕ, String, Bool, true, false, not, ◌&&◌, Option, none, some, List, [], ◌∷◌, find, any, select,
  if◌then◌else◌, ◌==◌,
}
use grain_guard.Bff.Redis.{Key, get, set, acquire_lock, release_lock}
use grain_guard.Bff.Source.{
  Telemetry, Tables, Json, device, devices, telemetry_node, telemetry_nodes,
  get_device_with_telemetry, get_device_telemetry, get_many_device_telemetry, get_all_telemetry,
  get_all_devices_with_telemetry, telemetry_key,
}
use grain_guard.Bff.Resolvers.{
  Context, tenant_filter, or_twenty, Request, device_by_id, device_telemetry, devices_list,
  all_telemetry, many_device_telemetry, device_key, device_telemetry_key, devices_key, is_foreign,
  Store, Reply, null, threw, value, nodes, node_of, nodes_of, devices_of,
}

module _ {Reading : Type 0} where
  unfoldable pub resolve_device :
      Bool → Tables Reading → ℕ → Context → String → Store Reading → Reply Reading × Store Reading
  resolve_device answers db now ctx id r = elim (get now (device_key ctx id) r) [
    | some cached ↦ (value cached, r)
    | none ↦ if not answers then (threw, r) else elim (get_device_with_telemetry db id) [
      | none ↦ (null, r)
      | some row ↦
          if is_foreign ctx row.tenant_id
          then (null, r)
          else (value (device row), set now (device_key ctx id) (device row) 300 r)
    ]
  ]

  abbrev pub finish_devices :
      ℕ → Key → Option (Json Reading) × Store Reading → Reply Reading × Store Reading
  finish_devices later key (none, r) = (threw, r)
  finish_devices later key (some rows, r) = elim (devices_of rows) [
    | none ↦ (threw, r)
    | some ds ↦ (value (devices ds), set later key (devices ds) 300 r)
  ]

  unfoldable pub resolve_devices :
      Bool → Tables Reading → ℕ → ℕ → Context → ℕ → Store Reading → Reply Reading × Store Reading
  resolve_devices answers db now later ctx limit r =
      elim (get now (devices_key limit (tenant_filter ctx)) r) [
        | some cached ↦ (value cached, r)
        | none ↦
            finish_devices later (devices_key limit (tenant_filter ctx))
              (get_all_devices_with_telemetry answers db now later limit (tenant_filter ctx) r)
      ]

  -- cacheGetOrLock: the cached value, whether the lock was acquired
  unfoldable pub cache_get_or_lock :
      ℕ → Key → Store Reading → (Option (Json Reading) × Bool) × Store Reading
  cache_get_or_lock now key r =
      if (acquire_lock now key 5 r).0
      then ((none, true), (acquire_lock now key 5 r).1)
      else ((get now key r, false), r)

  abbrev finally_release :
      Bool → Key → Reply Reading × Store Reading → Reply Reading × Store Reading
  finally_release true key (reply, r) = (reply, release_lock key r)
  finally_release false key (reply, r) = (reply, r)

  -- The try block of deviceTelemetry.
  abbrev pub telemetry_body :
      Bool → Tables Reading → ℕ → Context → String → Store Reading → Reply Reading × Store Reading
  telemetry_body answers db now ctx id r =
      if not answers then (threw, r) else elim (get_device_telemetry db id) [
        | none ↦ (null, r)
        | some row ↦ if is_foreign ctx row.tenant_id then (null, r) else (
          value (telemetry_node (node_of row)),
          set now (device_telemetry_key ctx id) (telemetry_node (node_of row)) 30 r,
        )
      ]

  abbrev pub after_lock :
      Key
      → (Store Reading → Reply Reading × Store Reading)
      → (Option (Json Reading) × Bool) × Store Reading
      → Reply Reading × Store Reading
  after_lock key body ((some cached, locked), r) = (value cached, r)
  after_lock key body ((none, locked), r) = finally_release locked key (body r)

  unfoldable pub resolve_device_telemetry :
      Bool → Tables Reading → ℕ → Context → String → Store Reading → Reply Reading × Store Reading
  resolve_device_telemetry answers db now ctx id r =
      elim (get now (device_telemetry_key ctx id) r) [
        | some cached ↦ (value cached, r)
        | none ↦
            after_lock (device_telemetry_key ctx id) (telemetry_body answers db now ctx id)
              (cache_get_or_lock now (device_telemetry_key ctx id) r)
      ]

  abbrev pub finish_telemetry :
      ℕ → Key → Option (Json Reading) × Store Reading → Reply Reading × Store Reading
  finish_telemetry later key (none, r) = (threw, r)
  finish_telemetry later key (some rows, r) = elim (nodes_of rows) [
    | none ↦ (threw, r)
    | some ns ↦ (value (telemetry_nodes ns), set later key (telemetry_nodes ns) 30 r)
  ]

  -- The try block of allTelemetry.
  abbrev pub all_telemetry_body :
      Bool
      → Tables Reading
      → ℕ
      → ℕ
      → ℕ
      → Option String
      → Store Reading
      → Reply Reading × Store Reading
  all_telemetry_body answers db now later limit tenant r =
      finish_telemetry later (telemetry_key limit tenant)
        (get_all_telemetry answers db now later limit tenant r)

  unfoldable pub resolve_all_telemetry :
      Bool → Tables Reading → ℕ → ℕ → Context → ℕ → Store Reading → Reply Reading × Store Reading
  resolve_all_telemetry answers db now later ctx limit r =
      elim (get now (telemetry_key limit (tenant_filter ctx)) r) [
        | some cached ↦ (value cached, r)
        | none ↦
            after_lock (telemetry_key limit (tenant_filter ctx))
              (all_telemetry_body answers db now later limit (tenant_filter ctx))
              (cache_get_or_lock now (telemetry_key limit (tenant_filter ctx)) r)
      ]

  abbrev pub is_missed : ℕ → Context → Store Reading → String → Bool
  is_missed now ctx r id = elim (get now (device_telemetry_key ctx id) r) [
    | none ↦ true
    | some j ↦ false
  ]

  -- `new Map(rows.map(…)).get(id)`: the last row with the id
  abbrev pub last_row : List (Telemetry Reading) → String → Option (Telemetry Reading)
  last_row rows id = find (λ (t : Telemetry Reading). t.device_id == id) (reverse rows)

  abbrev pub push :
      Json Reading → List (Json Reading) × Store Reading → List (Json Reading) × Store Reading
  push j (js, r) = (j ∷ js, r)

  -- The results in the order of the ids: a hit of `hits`, the cache as it was read at first, or a
  -- row, which is cached; an id that has neither is left out.
  unfoldable pub fill :
      ℕ
      → Context
      → Store Reading
      → List (Telemetry Reading)
      → List String
      → Store Reading
      → List (Json Reading) × Store Reading
  fill now ctx hits rows [] r = ([], r)
  fill now ctx hits rows (id ∷ ids) r = elim (get now (device_telemetry_key ctx id) hits) [
    | some hit ↦ push hit (fill now ctx hits rows ids r)
    | none ↦ elim (last_row rows id) [
      | none ↦ fill now ctx hits rows ids r
      | some row ↦ push (telemetry_node (node_of row)) (
          fill now ctx hits rows ids
            (set now (device_telemetry_key ctx id) (telemetry_node (node_of row)) 30 r))
    ]
  ]

  abbrev pub as_nodes : List (Json Reading) × Store Reading → Reply Reading × Store Reading
  as_nodes (js, r) = (nodes js, r)

  unfoldable pub resolve_many_device_telemetry :
      Bool
      → Tables Reading
      → ℕ
      → Context
      → List String
      → Store Reading
      → Reply Reading × Store Reading
  resolve_many_device_telemetry answers db now ctx ids r =
      if any (is_missed now ctx r) ids && not answers
      then (threw, r)
      else as_nodes (
          fill now ctx r
            (get_many_device_telemetry db (select (is_missed now ctx r) ids) (tenant_filter ctx))
            ids r)

  unfoldable pub resolve :
      Bool
      → Tables Reading
      → ℕ
      → ℕ
      → Context
      → Request
      → Store Reading
      → Reply Reading × Store Reading
  resolve answers db now later ctx (device_by_id id) r = resolve_device answers db now ctx id r
  resolve answers db now later ctx (device_telemetry id) r =
      resolve_device_telemetry answers db now ctx id r
  resolve answers db now later ctx (devices_list limit) r =
      resolve_devices answers db now later ctx (or_twenty limit) r
  resolve answers db now later ctx (all_telemetry limit) r =
      resolve_all_telemetry answers db now later ctx (or_twenty limit) r
  resolve answers db now later ctx (many_device_telemetry ids) r =
      resolve_many_device_telemetry answers db now ctx ids r
