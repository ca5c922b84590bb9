-- ===== src/Bff/Resolvers/Isolation.antt =====
-- What a tenant's members are shown, through the cache that all requests share.
pub mod Entries
pub mod Queries
pub mod Replies
pub mod Listings
pub mod Batches
pub mod Runs
use grain_guard.Prelude.{
  ℕ, ◌+◌, ◌≡◌, ◌≢◌, refl, sym, ap, subst, ◌∙◌, String, Bool, true, false, not, ◌&&◌, ◌||◌, Option,
  none, some, List, [], ◌∷◌, map, find, any, select, ltb, take, sort_descending, All, Maybe,
  All-select, All-find, All-take, All-sort_descending, if-intro, option-intro, Bool-cases,
  Option-cases, inl, inr, if◌then◌else◌, arith, ◌==◌, eq_iff, includes,
}
use mathlib.Core.List.{reverse}
use grain_guard.Bff.Redis.{
  Key, Redis, get, set, acquire_lock, release_lock, live, is_held, key_eq, key_eq-tenant,
}
use grain_guard.Bff.Source.{
  Projection, Telemetry, Tables, DeviceRow, TelemetryNode, Json, telemetry_rows, device_rows,
  device, devices, telemetry_node, telemetry_nodes, count, get_device_with_telemetry,
  get_device_telemetry, get_many_device_telemetry, get_all_telemetry,
  get_all_devices_with_telemetry, telemetry_key, device_rows_key, cached_query, join, in_tenant,
  all_telemetry_rows, device_rows_of,
}
use grain_guard.Bff.Resolvers.{
  Context, tenant_filter, or_twenty, Request, device_by_id, device_telemetry, devices_list,
  all_telemetry, many_device_telemetry, device_key, device_telemetry_key, devices_key, is_foreign,
  Store, Reply, null, threw, value, nodes, node_of, nodes_of, devices_of,
}
use grain_guard.Bff.Resolvers.Handlers.{
  resolve_device, resolve_devices, resolve_device_telemetry, resolve_all_telemetry,
  resolve_many_device_telemetry, fill, resolve, cache_get_or_lock,
}

-- `owner` says which tenant a device belongs to.
module _ {Reading : Type 0} (owner : String → String) where
  -- The rows of both tables name the owner of their device.
  pub record IsConsistent (db : Tables Reading) : Type 0 where
    pub projections : All (λ (p : Projection). owner p.device_id ≡ p.tenant_id) db.projections
    pub telemetry : All (λ (t : Telemetry Reading). owner t.device_id ≡ t.tenant_id) db.telemetry

  abbrev pub RowOf : String → Telemetry Reading → Type 0
  RowOf tenant t = owner t.device_id ≡ tenant

  abbrev pub DeviceOf : String → DeviceRow Reading → Type 0
  DeviceOf tenant d = owner d.device_id ≡ tenant

  -- A node without a device says nothing.
  abbrev pub NodeOf : String → TelemetryNode Reading → Type 0
  NodeOf tenant n = elim n.device_id [ none ↦ n.reading ≡ none | some id ↦ owner id ≡ tenant ]

  -- All devices that a value speaks of belong to the tenant.
  abbrev pub Owned : String → Json Reading → Type 0
  Owned tenant (telemetry_rows rows) = All (RowOf tenant) rows
  Owned tenant (device_rows rows) = All (DeviceOf tenant) rows
  Owned tenant (device d) = DeviceOf tenant d
  Owned tenant (devices ds) = All (DeviceOf tenant) ds
  Owned tenant (telemetry_node n) = NodeOf tenant n
  Owned tenant (telemetry_nodes ns) = All (NodeOf tenant) ns
  Owned tenant (count n) = Unit

  abbrev pub OwnedReply : String → Reply Reading → Type 0
  OwnedReply tenant null = Unit
  OwnedReply tenant threw = Unit
  OwnedReply tenant (value j) = Owned tenant j
  OwnedReply tenant (nodes js) = All (Owned tenant) js

  abbrev pub OwnedEntry : String → Option (Json Reading × ℕ) → Type 0
  OwnedEntry tenant none = Unit
  OwnedEntry tenant (some (j, expiry)) = Owned tenant j

  -- Every entry under a tenant's key is about the tenant's devices.
  pub record IsPartitioned (r : Store Reading) : Type 0 where
    pub entry :
        (k : Key) (tenant : String) → k.tenant ≡ some tenant → OwnedEntry tenant (r.entries k)

  -- A reply to a member of the tenant, and the store that is left.
  pub record Serves (tenant : String) (x : Reply Reading × Store Reading) : Type 0 where
    pub reply : OwnedReply tenant x.0
    pub store : IsPartitioned x.1
