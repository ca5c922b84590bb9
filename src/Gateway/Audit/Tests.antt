-- ===== src/Gateway/Audit/Tests.antt =====
-- Three events of one tenant.
use grain_guard.Prelude.{ℕ, ◌≡◌, refl, String, none, some, pos, List, [], ◌∷◌, map, arith}
use grain_guard.Dashboard.ExportCsv.{Text}
use grain_guard.Gateway.Team.{User}
use grain_guard.Gateway.Audit.{
  AuditRow, AuditFilter, crash, event_fields, export_rows, get_audit_logs, get_audit_export,
}
use grain_guard.Gateway.Audit.Walk.{walk, matching, walk-matching}
use grain_guard.Gateway.Audit.Export.{read_reply, export_headers, get_audit_export-read}

abbrev ada : User
ada = record { sub = "auth0|ada"; tenant_id = "t1"; roles = "admin" ∷ [] }

abbrev event : String → String → ℕ → AuditRow
event i t time = record {
  id = i;
  tenant_id = t;
  event_type = "device.created, \"silo\"";
  actor_id = "system";
  resource_type = "device";
  resource_id = none;
  ip_address = some "10.0.0.1";
  created_at = time;
}

abbrev events : List AuditRow
events =
    event "e1" "t1" 2000 ∷ event "e2" "t2" 2500 ∷ event "e3" "t1" 5000 ∷ event "e4" "t1" 3000 ∷ []

abbrev by_system : AuditFilter
by_system = record { event_type = none; actor_id = some "system" }

walk-matching_example : walk ada 2 by_system events 4 none ≡ matching "t1" by_system events
walk-matching_example =
    walk-matching ada 2 by_system events (ground arith)
      ((ground arith, (ground arith, tt)), ((ground arith, tt), (tt, tt))) 4 (ground arith)

abbrev same_millisecond : List AuditRow
same_millisecond = event "e1" "t1" 2001 ∷ event "e2" "t1" 2002 ∷ []

abbrev ids : List AuditRow → List String
ids rows = map (λ (r : AuditRow). r.id) rows

-- Of two events of one millisecond, pages of one show the newer one only.
twins : ids (walk ada 1 by_system same_millisecond 4 none) ≡ "e2" ∷ []
unfolding get_audit_logs
twins = refl

-- A limit of 0 ends in an error.
limit_zero : get_audit_logs ada (some (pos 0)) none by_system events ≡ crash
unfolding get_audit_logs
limit_zero = refl

abbrev no_date : ℕ → Text
no_date time = []

get_audit_export-read_example :
    read_reply (get_audit_export no_date ada by_system events)
    ≡ export_headers ∷ map (event_fields no_date) (export_rows "t1" by_system events)
get_audit_export-read_example = get_audit_export-read no_date ada by_system events
