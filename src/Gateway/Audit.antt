-- ===== src/Gateway/Audit.antt =====
-- apps/gateway/src/routes/auditLog.ts: the audit events of a tenant by pages, and as a CSV file. Times
-- are microseconds, as PostgreSQL keeps them, and a cursor has milliseconds; `to_text` is String of a
-- Date. A `before` that is no date ends the request with an error and is left out, and so is a query
-- that fails for another reason than its LIMIT.
pub mod Walk
pub mod Export
mod Tests
use grain_guard.Prelude.{
  ℕ, suc, ◌+◌, ◌*◌, ◌/◌, String, Bool, true, false, ◌&&◌, Option, none, some, ℤ, pos, negsuc, List,
  [], ◌∷◌, ◌++◌, map, select, take, sort_descending, length, ltb, min, includes, if◌then◌else◌,
  ◌==◌,
}
use grain_guard.Dashboard.ExportCsv.{Text, units, doubled, join_by}
use grain_guard.Gateway.Team.{User}

-- audit_events; payload and user_agent are left out.
pub record AuditRow : Type 0 where
  pub id : String
  pub tenant_id : String
  pub event_type : String
  pub actor_id : String
  pub resource_type : String
  pub resource_id : Option String
  pub ip_address : Option String
  pub created_at : ℕ

-- event_type and actor_id of the query string.
pub record AuditFilter : Type 0 where
  pub event_type : Option String
  pub actor_id : Option String

-- A page, or an error: that of PostgreSQL or of reading created_at of an event that is not there.
pub data AuditPage : Type 0 where
  crash : AuditPage
  page : List AuditRow → Bool → Option ℕ → AuditPage

-- $3::text IS NULL OR event_type = $3
abbrev allows : Option String → String → Bool
allows none s = true
allows (some t) s = s == t

abbrev pub is_match : String → AuditFilter → AuditRow → Bool
is_match t f r =
    r.tenant_id == t && allows f.event_type r.event_type && allows f.actor_id r.actor_id

-- $2::timestamptz IS NULL OR created_at < $2, for a cursor in milliseconds.
abbrev pub is_before : Option ℕ → AuditRow → Bool
is_before none r = true
is_before (some ms) r = ltb r.created_at (ms * 1000)

abbrev pub created_ms : AuditRow → ℕ
created_ms r = r.created_at / 1000

abbrev pub page_rows : List AuditRow → String → AuditFilter → Option ℕ → ℕ → List AuditRow
page_rows rows t f before limit = take (limit + 1) (
    sort_descending (λ (r : AuditRow). r.created_at)
      (select (λ r. is_match t f r && is_before before r) rows))

abbrev last_time : List AuditRow → Option ℕ
last_time [] = none
last_time (r ∷ []) = some (created_ms r)
last_time (r ∷ s ∷ rs) = last_time (s ∷ rs)

-- The events of a page that has more after it.
abbrev pub page_before_more : List AuditRow → AuditPage
page_before_more events = elim (last_time events) [
  | none ↦ crash
  | some ms ↦ page events true (some ms)
]

abbrev pub page_of : ℕ → List AuditRow → AuditPage
page_of limit rows =
    if ltb limit (length rows) then page_before_more (take limit rows) else page rows false none

-- GET /audit-logs: the number that parseInt reads, none where it is NaN. A negative limit is refused
-- by PostgreSQL, but -1, where all rows are cut off and the last of none is read.
unfoldable pub get_audit_logs : User → Option ℤ → Option ℕ → AuditFilter → List AuditRow → AuditPage
get_audit_logs u none before f rows = crash
get_audit_logs u (some (negsuc n)) before f rows = crash
get_audit_logs u (some (pos n)) before f rows =
    page_of (min n 200) (page_rows rows u.tenant_id f before (min n 200))

-- Each field is quoted.
abbrev pub quoted_field : Text → Text
quoted_field val = b'"' ∷ (doubled val ++ (b'"' ∷ []))

abbrev or_empty : Option String → Text
or_empty none = []
or_empty (some s) = units s

abbrev pub header : Text
header = units "id,event_type,actor_id,resource_type,resource_id,ip_address,created_at"

abbrev pub event_fields : (ℕ → Text) → AuditRow → List Text
event_fields to_text r =
    units r.id
    ∷ units r.event_type
    ∷ units r.actor_id
    ∷ units r.resource_type
    ∷ or_empty r.resource_id
    ∷ or_empty r.ip_address
    ∷ to_text r.created_at
    ∷ []

abbrev pub csv_row : List Text → Text
csv_row fields = join_by b',' (map quoted_field fields)

abbrev pub export_rows : String → AuditFilter → List AuditRow → List AuditRow
export_rows t f rows =
    take 10000 (sort_descending (λ (r : AuditRow). r.created_at) (select (is_match t f) rows))

pub data ExportReply : Type 0 where
  forbidden : ExportReply
  csv : Text → ExportReply

-- GET /audit-logs/export
unfoldable pub get_audit_export : (ℕ → Text) → User → AuditFilter → List AuditRow → ExportReply
get_audit_export to_text u f rows =
    if includes "admin" u.roles
    then csv (
        join_by b'\n'
          (header ∷ map (λ r. csv_row (event_fields to_text r)) (export_rows u.tenant_id f rows)))
    else forbidden
