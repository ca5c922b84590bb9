-- ===== src/Gateway/Audit/Export.antt =====
-- What a reader finds in the exported audit log.
use grain_guard.Prelude.{
  ℕ, ◌≡◌, refl, sym, ap, ◌∙◌, none, some, List, [], ◌∷◌, map, includes, if◌then◌else◌, Bool-cases,
  inl, inr, append-nil,
}
use grain_guard.Dashboard.ExportCsv.{Text, units, escape, join_by}
use grain_guard.Dashboard.ExportCsv.Reader.{read_csv, read, start, read-quoted, read-escape}
use grain_guard.Dashboard.ExportCsv.Roundtrip.{read-line, read_csv-lines}
use grain_guard.Gateway.Team.{User}
use grain_guard.Gateway.Audit.{
  AuditRow, AuditFilter, quoted_field, csv_row, header, event_fields, export_rows, ExportReply,
  forbidden, csv, get_audit_export,
}

abbrev pub read_reply : ExportReply → List (List Text)
read_reply forbidden = []
read_reply (csv text) = read_csv text

abbrev pub export_headers : List Text
export_headers =
    units "id"
    ∷ units "event_type"
    ∷ units "actor_id"
    ∷ units "resource_type"
    ∷ units "resource_id"
    ∷ units "ip_address"
    ∷ units "created_at"
    ∷ []

abbrev header_tail : List Text
header_tail =
    units "event_type"
    ∷ units "actor_id"
    ∷ units "resource_type"
    ∷ units "resource_id"
    ∷ units "ip_address"
    ∷ units "created_at"
    ∷ []

module _ (to_text : ℕ → Text) where
  abbrev fields_after_id : AuditRow → List Text
  fields_after_id r = elim (event_fields to_text r) [ [] ↦ [] | f ∷ fs ↦ fs ]

  read_csv-export :
      (rows : List AuditRow)
      → read_csv (join_by b'\n' (header ∷ map (λ r. csv_row (event_fields to_text r)) rows))
        ≡ export_headers ∷ map (event_fields to_text) rows
  read_csv-export [] =
      ap (read start [] []) (sym (append-nil header))
      ∙ read-line escape read-escape (units "id") header_tail [] none
  read_csv-export (r ∷ rows) =
      let lines = join_by b'\n' (map (λ e. csv_row (event_fields to_text e)) (r ∷ rows)) in
      read-line escape read-escape (units "id") header_tail [] (some lines)
      ∙ ap (λ ls. export_headers ∷ ls)
          (read_csv-lines quoted_field read-quoted (λ (e : AuditRow). units e.id) fields_after_id r
            rows)

  -- The file that an administrator is sent is read back as the headers and the seven fields of each of
  -- the newest matching events of the tenant, ten thousand at most, whatever their texts hold; anyone
  -- else is sent none.
  pub get_audit_export-read :
      (u : User) (f : AuditFilter) (rows : List AuditRow)
      → read_reply (get_audit_export to_text u f rows) ≡ (
          if includes "admin" u.roles
          then export_headers ∷ map (event_fields to_text) (export_rows u.tenant_id f rows)
          else [])
  unfolding get_audit_export
  get_audit_export-read u f rows = elim (Bool-cases (includes "admin" u.roles)) [
    | inl e ↦ rw e (read_csv-export (export_rows u.tenant_id f rows))
    | inr e ↦ rw e refl
  ]
