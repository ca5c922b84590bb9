-- ===== src/Dashboard/ExportCsv/Tests.antt =====
-- A device whose serial number holds a comma, a quote and a newline.
use grain_guard.Prelude.{ℕ, ◌≡◌, none, some, [], ◌∷◌, map}
use grain_guard.Dashboard.ExportCsv.{Text, Device, headers, row_of, export_devices_to_csv}
use grain_guard.Dashboard.ExportCsv.Roundtrip.{read_export, export_devices_to_csv-read}

abbrev silo : Device ℕ ℕ
silo = record {
  serial_number = b'S' ∷ b',' ∷ b'"' ∷ b'\n' ∷ [];
  device_id = b'd' ∷ [];
  tenant_id = b'a' ∷ [];
  temperature = some 21;
  humidity = none;
  recorded_at = some 5;
}

abbrev digits : ℕ → Text
digits n = (b'0' ∷ b'.' ∷ n ∷ [])

export_devices_to_csv-read_example :
    read_export (export_devices_to_csv digits digits (silo ∷ silo ∷ []))
    ≡ some (headers ∷ map (row_of digits digits) (silo ∷ silo ∷ []))
export_devices_to_csv-read_example = export_devices_to_csv-read digits digits silo (silo ∷ [])
