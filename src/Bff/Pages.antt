-- ===== src/Bff/Pages.antt =====
-- apps/bff/src/datasources/postgres.ts, getDevicesWithCursor, and resolvers.ts, devicesConnection:
-- the devices by pages. Times are microseconds, as PostgreSQL keeps them; a Date has milliseconds.
-- A query that fails ends the request with an error and is left out, and so is a negative `first`.
pub mod Sorted
pub mod Cursors
pub mod Walk
mod Tests
use grain_guard.Prelude.{
  ℕ, suc, ◌+◌, ◌*◌, ◌/◌, ◌≡◌, String, Bool, true, false, not, ◌&&◌, Option, none, some, List, [],
  ◌∷◌, ◌++◌, map, select, take, sort_descending, length, ltb, min, nat_eq, if◌then◌else◌, ◌==◌,
}
use grain_guard.Bff.Redis.{Key, devices_count, Redis, get, set}
use grain_guard.Bff.Source.{Projection, Tables, DeviceRow, Json, count, in_tenant, join}
use grain_guard.Bff.Resolvers.{Context, tenant_filter, or_twenty, Store}

-- The texts of cursors: `cursor_of` is Buffer.from(date.toISOString()).toString("base64") of the
-- milliseconds of a date, `is_empty` the test for "", `is_blank` that for a cursor whose decoded text
-- is "", and `instant` the time that PostgreSQL reads in the decoded text, none where it rejects it.
pub record Codec (Cursor : Type 0) : Type 0 where
  pub cursor_of : ℕ → Cursor
  pub is_empty : Cursor → Bool
  pub is_blank : Cursor → Bool
  pub instant : Cursor → Option ℕ
  pub nonempty : (t : ℕ) → is_empty (cursor_of t) ≡ false
  pub nonblank : (t : ℕ) → is_blank (cursor_of t) ≡ false
  pub instant-cursor_of : (t : ℕ) → instant (cursor_of t) ≡ some (t * 1000)

module _ (Reading Cursor : Type 0) where
  pub record Edge : Type 0 where
    pub cursor : Cursor
    pub node : DeviceRow Reading

  pub record Page : Type 0 where
    pub edges : List Edge
    pub total_count : Json Reading
    pub has_next_page : Bool
    pub has_previous_page : Bool
    pub start_cursor : Option Cursor
    pub end_cursor : Option Cursor

-- What a request asks of created_at: nothing, that it is less than a time, or what is no time.
pub data Bound : Type 0 where
  unbounded : Bound
  before : ℕ → Bound
  rejected : Bound

abbrev pub bound_at : Option ℕ → Bound
bound_at none = rejected
bound_at (some t) = before t

abbrev pub is_before : Bound → Projection → Bool
is_before unbounded p = true
is_before (before t) p = ltb p.created_at t
is_before rejected p = false

abbrev pub is_rejected : Bound → Bool
is_rejected rejected = true
is_rejected _ = false

-- The time of a row as its cursor says it.
abbrev pub milliseconds : Projection → ℕ
milliseconds p = p.created_at / 1000

abbrev pub count_key : Option String → Key
count_key tenant = record { kind = devices_count; tenant = tenant; device = ""; limit = 0 }

abbrev pub page_rows : List Projection → ℕ → Option String → Bound → List Projection
page_rows rows limit tenant bound = take limit (
    sort_descending (λ (p : Projection). p.created_at)
      (select (λ (p : Projection). in_tenant tenant p.tenant_id && is_before bound p) rows))

abbrev pub items_of : {A : Type 0} → ℕ → List A → List A
items_of first rows = if ltb first (length rows) then take first rows else rows

abbrev pub is_present : {A : Type 0} → Option A → Bool
is_present none = false
is_present (some c) = true

module _ {Cursor : Type 0} (codec : Codec Cursor) where
  -- `args.after || null`
  abbrev pub or_null : Option Cursor → Option Cursor
  or_null none = none
  or_null (some c) = if codec.is_empty c then none else some c

  -- The branch of getDevicesWithCursor, which looks at the cursor only where there is a tenant.
  abbrev pub bound_of : Option String → Option Cursor → Bound
  bound_of none after = unbounded
  bound_of (some tenant) none = unbounded
  bound_of (some tenant) (some c) =
      if codec.is_blank c then unbounded else bound_at (codec.instant c)

  module _ {Reading : Type 0} where
    abbrev pub edge_of : Tables Reading → Projection → Edge Reading Cursor
    edge_of db p = record { cursor = codec.cursor_of (milliseconds p); node = join db p }

    abbrev pub first_cursor : List (Edge Reading Cursor) → Option Cursor
    first_cursor [] = none
    first_cursor (e ∷ es) = some e.cursor

    abbrev pub last_cursor : List (Edge Reading Cursor) → Option Cursor
    last_cursor [] = none
    last_cursor (e ∷ []) = some e.cursor
    last_cursor (e ∷ f ∷ es) = last_cursor (f ∷ es)

    -- The count, from the cache or else from the table.
    abbrev pub counted :
        Tables Reading → ℕ → Option String → Store Reading → Json Reading × Store Reading
    counted db now tenant r = elim (get now (count_key tenant) r) [
      | some cached ↦ (cached, r)
      | none ↦
          let n =
            count
              (length (select (λ (p : Projection). in_tenant tenant p.tenant_id) db.projections)) in
          (n, set now (count_key tenant) n 60 r)
    ]

    abbrev pub page_of :
        ℕ
        → Option Cursor
        → List (Edge Reading Cursor)
        → List Projection
        → Json Reading × Store Reading
        → Page Reading Cursor × Store Reading
    page_of first after edges rows (total, r) = (
      record {
        edges = edges;
        total_count = total;
        has_next_page = ltb first (length rows);
        has_previous_page = is_present after;
        start_cursor = first_cursor edges;
        end_cursor = last_cursor edges;
      },
      r,
    )

    -- The page; none where PostgreSQL rejects the cursor.
    unfoldable pub get_devices_with_cursor :
        Tables Reading
        → ℕ
        → ℕ
        → Option Cursor
        → Option String
        → Store Reading
        → Option (Page Reading Cursor × Store Reading)
    get_devices_with_cursor db now first after tenant r =
        let rows = page_rows db.projections (first + 1) tenant (bound_of tenant after) in
        if is_rejected (bound_of tenant after)
        then none
        else some (
            page_of first after (map (edge_of db) (items_of first rows)) rows
              (counted db now tenant r))

    unfoldable pub devices_connection :
        Tables Reading
        → ℕ
        → Context
        → Option ℕ
        → Option Cursor
        → Store Reading
        → Option (Page Reading Cursor × Store Reading)
    devices_connection db now ctx first after r =
        get_devices_with_cursor db now (min (or_twenty first) 100) (or_null after)
          (tenant_filter ctx) r
