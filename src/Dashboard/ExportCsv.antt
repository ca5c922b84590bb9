-- ===== src/Dashboard/ExportCsv.antt =====
-- apps/dashboard/src/utils/exportCsv.ts: the text of the file that exportDevicesToCsv offers. A text
-- is the list of its code units. What Number.toFixed(1) and Date.toLocaleString write depends on the
-- browser and its language, and is left open.
pub mod Reader
pub mod Roundtrip
mod Tests
use grain_guard.Prelude.{
  ℕ, String, Bool, true, false, ◌||◌, Option, none, some, List, [], ◌∷◌, ◌++◌, map, any, nat_eq,
  if◌then◌else◌,
}
use Prim.Native.Char.{code}

abbrev pub Text : Type 0
Text = List ℕ

abbrev pub units : String → Text
units String.[] = []
units (String.◌∷◌ c s) = code c ∷ units s

abbrev pub includes_unit : ℕ → Text → Bool
includes_unit c val = any (λ d. nat_eq d c) val

-- val.replace(/"/g, '""')
unfoldable pub doubled : Text → Text
doubled [] = []
doubled (c ∷ cs) = let rest = doubled cs in if nat_eq c b'"' then b'"' ∷ b'"' ∷ rest else c ∷ rest

abbrev pub is_special : Text → Bool
is_special val = includes_unit b',' val || includes_unit b'"' val || includes_unit b'\n' val

abbrev pub escape : Text → Text
escape val = if is_special val then b'"' ∷ (doubled val ++ (b'"' ∷ [])) else val

-- texts.join(…)
abbrev pub join_by : ℕ → List Text → Text
join_by c [] = []
join_by c (t ∷ []) = t
join_by c (t ∷ u ∷ us) = t ++ (c ∷ join_by c (u ∷ us))

module _ (Number Date : Type 0) where
  pub record Device : Type 0 where
    pub serial_number : Text
    pub device_id : Text
    pub tenant_id : Text
    pub temperature : Option Number
    pub humidity : Option Number
    pub recorded_at : Option Date

abbrev pub headers : List Text
headers =
    units "Serial Number"
    ∷ units "Device ID"
    ∷ units "Tenant ID"
    ∷ units "Temperature (°C)"
    ∷ units "Humidity (%)"
    ∷ units "Last Reading"
    ∷ []

abbrev pub line : List Text → Text
line row = join_by b',' (map escape row)

abbrev or_blank : {A : Type 0} → (A → Text) → Option A → Text
or_blank f none = []
or_blank f (some x) = f x

module _ {Number Date : Type 0} (to_fixed : Number → Text) (to_locale_string : Date → Text) where
  abbrev pub row_of : Device Number Date → List Text
  row_of d =
      d.serial_number
      ∷ d.device_id
      ∷ d.tenant_id
      ∷ or_blank to_fixed d.temperature
      ∷ or_blank to_fixed d.humidity
      ∷ or_blank to_locale_string d.recorded_at
      ∷ []

  -- The text that is offered; none where there are no devices, and nothing happens.
  unfoldable pub export_devices_to_csv : List (Device Number Date) → Option Text
  export_devices_to_csv [] = none
  export_devices_to_csv (d ∷ ds) =
      some (join_by b'\n' (line headers ∷ map (λ e. line (row_of e)) (d ∷ ds)))
