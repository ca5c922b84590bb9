-- ===== src/Bff/Resolvers/Isolation/Queries.antt =====
-- The rows that the queries return.
use grain_guard.Prelude.{
  ℕ, ◌≡◌, ◌∙◌, String, Bool, true, false, ◌&&◌, some, List, find, any, select, take,
  sort_descending, All, Maybe, All-find, All-take, All-sort_descending, All-select_where, All-map,
  All-imp, any-All, option-intro, arith, ◌==◌, eq_iff, includes,
}
use grain_guard.Bff.Source.{
  Projection, Telemetry, Tables, DeviceRow, get_device_with_telemetry, get_many_device_telemetry,
  join, all_telemetry_rows, device_rows_of,
}
use grain_guard.Bff.Resolvers.{Context, is_foreign}
use grain_guard.Bff.Resolvers.Isolation.{IsConsistent, RowOf, DeviceOf}

-- A row that is not refused to a member is the own tenant's.
pub own_row :
    (ctx : Context) (tenant : String)
    → ctx.is_super_admin ≡ false
    → is_foreign ctx tenant ≡ false
    → tenant ≡ ctx.tenant_id
own_row ctx tenant m h = (eq_iff tenant ctx.tenant_id).0 (ground arith)

projection_of :
    (owner : String → String) (tenant : String) (p : Projection)
    → owner p.device_id ≡ p.tenant_id
    → (p.tenant_id == tenant) ≡ true
    → owner p.device_id ≡ tenant
projection_of owner tenant p h e = h ∙ (eq_iff p.tenant_id tenant).0 e

module _ {Reading : Type 0} (owner : String → String) where
  pub get_device_with_telemetry-owner :
      (db : Tables Reading) (id : String)
      → IsConsistent owner db
      → Maybe
          (λ (d : DeviceRow Reading). owner d.device_id ≡ d.tenant_id)
          (get_device_with_telemetry db id)
  unfolding get_device_with_telemetry
  get_device_with_telemetry-owner db id c =
      option-intro (λ (p : Projection). owner p.device_id ≡ p.tenant_id)
        (Maybe (λ (d : DeviceRow Reading). owner d.device_id ≡ d.tenant_id))
        (find (λ (p : Projection). p.device_id == id) db.projections)
        (All-find (λ (p : Projection). owner p.device_id ≡ p.tenant_id)
          (λ (p : Projection). p.device_id == id) db.projections c.projections)
        tt (λ p h. h)

  same_device :
      (tenant : String) (t : Telemetry Reading) (p : Projection)
      → owner p.device_id ≡ p.tenant_id
      → (p.device_id == t.device_id && p.tenant_id == tenant) ≡ true
      → owner t.device_id ≡ tenant
  same_device tenant t p h e =
      let d = (eq_iff p.device_id t.device_id).0 (ground arith) in
      let q = projection_of owner tenant p h (ground arith) in cc (d, q)

  pub device_rows_of-Owned :
      (db : Tables Reading) (limit : ℕ) (tenant : String)
      → IsConsistent owner db
      → All (DeviceOf owner tenant) (device_rows_of db limit (some tenant))
  device_rows_of-Owned db limit tenant c =
      let Own = λ (p : Projection). owner p.device_id ≡ tenant in
      All-map (DeviceOf owner tenant) Own (join db)
        (take limit (
          sort_descending (λ (p : Projection). p.created_at)
            (select (λ (p : Projection). p.tenant_id == tenant) db.projections)))
        (λ p h. h)
        (All-take Own limit
          (sort_descending (λ (p : Projection). p.created_at)
            (select (λ (p : Projection). p.tenant_id == tenant) db.projections))
          (All-sort_descending Own (λ (p : Projection). p.created_at)
            (select (λ (p : Projection). p.tenant_id == tenant) db.projections)
            (All-select_where Own (λ (p : Projection). p.tenant_id == tenant) db.projections
              (All-imp (λ (p : Projection). owner p.device_id ≡ p.tenant_id)
                (λ (p : Projection). (p.tenant_id == tenant) ≡ true → Own p) db.projections
                (projection_of owner tenant) c.projections))))

  abbrev has_projection : Tables Reading → String → Telemetry Reading → Bool
  has_projection db tenant t =
      any (λ (p : Projection). p.device_id == t.device_id && p.tenant_id == tenant) db.projections

  pub all_telemetry_rows-Owned :
      (db : Tables Reading) (limit : ℕ) (tenant : String)
      → IsConsistent owner db
      → All (RowOf owner tenant) (all_telemetry_rows db limit (some tenant))
  all_telemetry_rows-Owned db limit tenant c =
      All-take (RowOf owner tenant) limit
        (sort_descending (λ (t : Telemetry Reading). t.updated_at)
          (select (has_projection db tenant) db.telemetry))
        (All-sort_descending (RowOf owner tenant) (λ (t : Telemetry Reading). t.updated_at)
          (select (has_projection db tenant) db.telemetry)
          (All-select_where (RowOf owner tenant) (has_projection db tenant) db.telemetry (
            All-imp (λ (t : Telemetry Reading). owner t.device_id ≡ t.tenant_id)
              (λ (t : Telemetry Reading). has_projection db tenant t ≡ true → RowOf owner tenant t)
              db.telemetry
              (λ t h.
                any-All (λ (p : Projection). owner p.device_id ≡ p.tenant_id)
                  (λ (p : Projection). p.device_id == t.device_id && p.tenant_id == tenant)
                  (RowOf owner tenant t) db.projections c.projections (same_device tenant t))
              c.telemetry)))

  pub get_many_device_telemetry-Owned :
      (db : Tables Reading) (ids : List String) (tenant : String)
      → IsConsistent owner db
      → All (RowOf owner tenant) (get_many_device_telemetry db ids (some tenant))
  unfolding get_many_device_telemetry
  get_many_device_telemetry-Owned db ids tenant c =
      All-select_where (RowOf owner tenant)
        (λ (t : Telemetry Reading). includes t.device_id ids && t.tenant_id == tenant) db.telemetry
        (All-imp (λ (t : Telemetry Reading). owner t.device_id ≡ t.tenant_id)
          (λ (t : Telemetry Reading).
            (includes t.device_id ids && t.tenant_id == tenant) ≡ true → RowOf owner tenant t)
          db.telemetry (λ t h e. h ∙ (eq_iff t.tenant_id tenant).0 (ground arith)) c.telemetry)
