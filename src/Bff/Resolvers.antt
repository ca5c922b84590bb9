-- ===== src/Bff/Resolvers.antt =====
-- apps/bff/src/resolvers.ts: the queries on devices and their telemetry, over the cache of the
-- resolvers and that of the data source, which are the same Redis. A limit that is negative, which
-- the database rejects, is left out. A request runs by itself, from
-- `now` on; `later` is the time after its waits.
pub mod Handlers
pub mod Isolation
pub mod Starvation
mod Tests
use grain_guard.Prelude.{
  ℕ, ◌+◌, String, Bool, true, false, not, ◌&&◌, ◌||◌, Option, none, some, List, [], ◌∷◌, map, find,
  any, select, nat_eq, if◌then◌else◌, ◌==◌,
}
use grain_guard.Bff.Redis.{
  device_full, telemetry_device, devices_all, Key, Redis, get, set, acquire_lock, release_lock,
}
use grain_guard.Bff.Source.{
  Telemetry, Tables, DeviceRow, TelemetryNode, Json, telemetry_rows, device_rows, device, devices,
  telemetry_node, telemetry_nodes, count, get_device_with_telemetry, get_device_telemetry,
  get_many_device_telemetry, get_all_telemetry, get_all_devices_with_telemetry, telemetry_key,
}
use mathlib.Core.List.{reverse}

pub record Context : Type 0 where
  pub tenant_id : String
  pub is_super_admin : Bool

abbrev pub tenant_filter : Context → Option String
tenant_filter ctx = if ctx.is_super_admin then none else some ctx.tenant_id

-- args.limit || 20
abbrev pub or_twenty : Option ℕ → ℕ
or_twenty none = 20
or_twenty (some n) = if nat_eq n 0 then 20 else n

pub data Request : Type 0 where
  device_by_id device_telemetry : String → Request
  devices_list all_telemetry : Option ℕ → Request
  many_device_telemetry : List String → Request

-- `device:full:…` and `telemetry:device:…`
abbrev pub device_key : Context → String → Key
device_key ctx id = record {
  kind = device_full;
  tenant = some ctx.tenant_id;
  device = id;
  limit = 0;
}

abbrev pub device_telemetry_key : Context → String → Key
device_telemetry_key ctx id = record {
  kind = telemetry_device;
  tenant = some ctx.tenant_id;
  device = id;
  limit = 0;
}

abbrev pub devices_key : ℕ → Option String → Key
devices_key limit tenant = record {
  kind = devices_all;
  tenant = tenant;
  device = "";
  limit = limit;
}

-- !ctx.isSuperAdmin && row.tenant_id !== ctx.tenantId
abbrev pub is_foreign : Context → String → Bool
is_foreign ctx tenant = not ctx.is_super_admin && not (tenant == ctx.tenant_id)

abbrev pub Store : Type 0 → Type 0
Store Reading = Redis (Json Reading)

module _ (Reading : Type 0) where
  -- null, an object, or an error
  pub data Reply : Type 0 where
    null threw : Reply
    value : Json Reading → Reply
    nodes : List (Json Reading) → Reply

module _ {Reading : Type 0} where
  abbrev pub node_of : Telemetry Reading → TelemetryNode Reading
  node_of t = record { device_id = some t.device_id; reading = some t.reading }

  -- The node of an object without the columns of a row: all its fields are undefined.
  abbrev pub blank_node : TelemetryNode Reading
  blank_node = record { device_id = none; reading = none }

  -- rows.map(…), which throws where the value is no array
  abbrev pub nodes_of : Json Reading → Option (List (TelemetryNode Reading))
  nodes_of (telemetry_rows rows) = some (map node_of rows)
  nodes_of (telemetry_nodes ns) = some (map (λ n. blank_node) ns)
  nodes_of (device_rows rows) = some (map (λ n. blank_node) rows)
  nodes_of (devices rows) = some (map (λ n. blank_node) rows)
  nodes_of _ = none

  -- The rows of getAllDevicesWithTelemetry, which only that function caches under their key.
  abbrev pub devices_of : Json Reading → Option (List (DeviceRow Reading))
  devices_of (device_rows rows) = some rows
  devices_of _ = none
