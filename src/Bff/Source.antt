-- ===== src/Bff/Source.antt =====
-- apps/bff/src/datasources/postgres.ts: the queries and their cache. `Reading` is what a row of
-- device_telemetry_latest says of a device: temperature, humidity, times and version, which the
-- code passes on field by field.
use grain_guard.Prelude.{
  ℕ, String, Bool, true, false, Option, none, some, ◌&&◌, List, [], map, select, find, any, take,
  sort_descending, includes, if◌then◌else◌, ◌==◌,
}
use grain_guard.Bff.Redis.{
  telemetry_all, devices_telemetry, Key, Redis, get, set, acquire_lock, release_lock,
}

-- device_projections
pub record Projection : Type 0 where
  pub device_id : String
  pub tenant_id : String
  pub serial_number : String
  pub created_at : ℕ

module _ (Reading : Type 0) where
  -- device_telemetry_latest
  pub record Telemetry : Type 0 where
    pub device_id : String
    pub tenant_id : String
    pub updated_at : ℕ
    pub reading : Reading

  pub record Tables : Type 0 where
    pub projections : List Projection
    pub telemetry : List Telemetry

  -- device_projections LEFT JOIN device_telemetry_latest
  pub record DeviceRow : Type 0 where
    pub device_id : String
    pub tenant_id : String
    pub serial_number : String
    pub created_at : ℕ
    pub reading : Option Reading

  -- The objects that the resolvers return.
  pub record TelemetryNode : Type 0 where
    pub device_id : Option String
    pub reading : Option Reading

  -- What the cache can hold: the rows that the queries return, and the objects of the resolvers.
  pub data Json : Type 0 where
    telemetry_rows : List Telemetry → Json
    device_rows : List DeviceRow → Json
    device : DeviceRow → Json
    devices : List DeviceRow → Json
    telemetry_node : TelemetryNode → Json
    telemetry_nodes : List TelemetryNode → Json
    count : ℕ → Json

-- WHERE … tenant_id = $1, where there is a tenant
abbrev pub in_tenant : Option String → String → Bool
in_tenant none t = true
in_tenant (some tenant) t = t == tenant

abbrev pub telemetry_key : ℕ → Option String → Key
telemetry_key limit tenant = record {
  kind = telemetry_all;
  tenant = tenant;
  device = "";
  limit = limit;
}

abbrev pub device_rows_key : ℕ → Option String → Key
device_rows_key limit tenant = record {
  kind = devices_telemetry;
  tenant = tenant;
  device = "";
  limit = limit;
}

module _ {Reading : Type 0} where
  abbrev pub telemetry_of : List (Telemetry Reading) → String → Option (Telemetry Reading)
  telemetry_of rows id = find (λ (t : Telemetry Reading). t.device_id == id) rows

  abbrev reading_of : Option (Telemetry Reading) → Option Reading
  reading_of none = none
  reading_of (some t) = some t.reading

  abbrev pub join : Tables Reading → Projection → DeviceRow Reading
  join db p = record {
    device_id = p.device_id;
    tenant_id = p.tenant_id;
    serial_number = p.serial_number;
    created_at = p.created_at;
    reading = reading_of (telemetry_of db.telemetry p.device_id);
  }

  unfoldable pub get_device_with_telemetry : Tables Reading → String → Option (DeviceRow Reading)
  get_device_with_telemetry db id =
      elim (find (λ (p : Projection). p.device_id == id) db.projections) [
        | none ↦ none
        | some p ↦ some (join db p)
      ]

  unfoldable pub get_device_telemetry : Tables Reading → String → Option (Telemetry Reading)
  get_device_telemetry db id = telemetry_of db.telemetry id

  unfoldable pub get_many_device_telemetry :
      Tables Reading → List String → Option String → List (Telemetry Reading)
  get_many_device_telemetry db ids tenant =
      select (λ (t : Telemetry Reading). includes t.device_id ids && in_tenant tenant t.tenant_id)
        db.telemetry

  -- The rows of getAllTelemetry: with a tenant they are joined with device_projections.
  abbrev pub all_telemetry_rows : Tables Reading → ℕ → Option String → List (Telemetry Reading)
  all_telemetry_rows db limit none =
      take limit (sort_descending (λ (t : Telemetry Reading). t.updated_at) db.telemetry)
  all_telemetry_rows db limit (some tenant) = take limit (
      sort_descending (λ (t : Telemetry Reading). t.updated_at)
        (select
          (λ (t : Telemetry Reading).
            any (λ (p : Projection). p.device_id == t.device_id && p.tenant_id == tenant)
              db.projections)
          db.telemetry))

  abbrev pub device_rows_of : Tables Reading → ℕ → Option String → List (DeviceRow Reading)
  device_rows_of db limit tenant = map (join db) (
      take limit (
        sort_descending (λ (p : Projection). p.created_at)
          (select (λ (p : Projection). in_tenant tenant p.tenant_id) db.projections)))

  -- `await cache.get(…) || []`
  abbrev pub or_no_rows : Option (Json Reading) → Json Reading → Json Reading
  or_no_rows none rows = rows
  or_no_rows (some value) rows = value

  -- The body of getAllTelemetry and getAllDevicesWithTelemetry: the cache, the lock, the query (which
  -- throws where it is none), and after 100 ms, at `later`, the cache once more.
  unfoldable pub cached_query :
      ℕ
      → ℕ
      → Key
      → Option (Json Reading)
      → Json Reading
      → Redis (Json Reading)
      → Option (Json Reading) × Redis (Json Reading)
  unfolding get set acquire_lock release_lock
  cached_query now later key query no_rows r = elim (get now key r) [
    | some value ↦ (some value, r)
    | none ↦
        if (acquire_lock now key 5 r).0
        then elim query [
          | none ↦ (none, release_lock key (acquire_lock now key 5 r).1)
          | some value ↦
              (some value, release_lock key (set now key value 30 (acquire_lock now key 5 r).1))
        ]
        else (some (or_no_rows (get later key r) no_rows), r)
  ]

  abbrev pub query_of : Bool → Json Reading → Option (Json Reading)
  query_of true value = some value
  query_of false value = none

  -- `answers` says whether the query succeeds.
  abbrev pub get_all_telemetry :
      Bool
      → Tables Reading
      → ℕ
      → ℕ
      → ℕ
      → Option String
      → Redis (Json Reading)
      → Option (Json Reading) × Redis (Json Reading)
  get_all_telemetry answers db now later limit tenant r =
      cached_query now later (telemetry_key limit tenant)
        (query_of answers (telemetry_rows (all_telemetry_rows db limit tenant))) (telemetry_rows [])
        r

  abbrev pub get_all_devices_with_telemetry :
      Bool
      → Tables Reading
      → ℕ
      → ℕ
      → ℕ
      → Option String
      → Redis (Json Reading)
      → Option (Json Reading) × Redis (Json Reading)
  get_all_devices_with_telemetry answers db now later limit tenant r =
      cached_query now later (device_rows_key limit tenant)
        (query_of answers (device_rows (device_rows_of db limit tenant))) (device_rows []) r
