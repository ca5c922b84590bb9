-- ===== src/Gateway/Import.antt =====
-- apps/gateway/src/routes/devicesImport.ts: the bulk import of devices from a CSV file. A text is a
-- list of character codes; `trim` and `lower` stand for JavaScript's trim and toLowerCase, `create`
-- for createDevice, which calls another service. Busboy delivers the file as chunks of bytes, and
-- `decode` stands for toString("utf8"), which the code applies to each chunk by itself.
pub mod Chunks
pub mod Job
pub mod Rows
mod Tests
use grain_guard.Prelude.{
  ℕ, zero, suc, or_else, ◌+◌, ◌-◌, String, Bool, true, false, not, ◌&&◌, ◌||◌, Option, none, some,
  List, [], ◌∷◌, ◌++◌, map, length, select, any, if◌then◌else◌, ltb, leb, nat_eq,
}

abbrev pub Text : Type 0
Text = List ℕ

abbrev pub is_nil : Text → Bool
is_nil [] = true
is_nil (c ∷ cs) = false

abbrev pub same_text : Text → Text → Bool
same_text [] [] = true
same_text [] (d ∷ ds) = false
same_text (c ∷ cs) [] = false
same_text (c ∷ cs) (d ∷ ds) = nat_eq c d && same_text cs ds

abbrev pub add_first : ℕ → List Text × Text → List Text × Text
add_first c ([], r) = ([], c ∷ r)
add_first c (l ∷ ls, r) = ((c ∷ l) ∷ ls, r)

abbrev pub close_first : List Text × Text → List Text × Text
close_first (ls, r) = ([] ∷ ls, r)

-- `split(separator)`, all parts but the last and the last one.
unfoldable pub split_parts : ℕ → Text → List Text × Text
split_parts separator [] = ([], [])
split_parts separator (c ∷ cs) =
    let rest = split_parts separator cs in
    if nat_eq c separator then close_first rest else add_first c rest

abbrev pub newline : ℕ
newline = 10

abbrev pub comma : ℕ
comma = 44

abbrev pub columns : Text → List Text
columns t = (split_parts comma t).0 ++ (split_parts comma t).1 ∷ []

abbrev pub column : List Text → ℕ → Option Text
column [] n = none
column (col ∷ cols) zero = some col
column (col ∷ cols) (suc n) = column cols n

abbrev pub first_column : List Text → Text
first_column [] = []
first_column (col ∷ cols) = col

-- "serialnumber", "serial_number" and "serial"
abbrev pub is_serial_header : Text → Bool
is_serial_header h = any (same_text h) (
    (115 ∷ 101 ∷ 114 ∷ 105 ∷ 97 ∷ 108 ∷ 110 ∷ 117 ∷ 109 ∷ 98 ∷ 101 ∷ 114 ∷ [])
    ∷ (115 ∷ 101 ∷ 114 ∷ 105 ∷ 97 ∷ 108 ∷ 95 ∷ 110 ∷ 117 ∷ 109 ∷ 98 ∷ 101 ∷ 114 ∷ [])
    ∷ (115 ∷ 101 ∷ 114 ∷ 105 ∷ 97 ∷ 108 ∷ [])
    ∷ [])

-- headers.findIndex(…)
abbrev pub find_index : (Text → Bool) → List Text → Option ℕ
find_index p [] = none
find_index p (h ∷ hs) =
    let rest = find_index p hs in
    if p h then some 0 else elim rest [ none ↦ none | some n ↦ some (n + 1) ]

pub record Reader : Type 0 where
  pub header_seen : Bool
  pub serial_column : ℕ
  pub lines : List Text

abbrev pub reader : Reader
reader = record { header_seen = false; serial_column = 0; lines = [] }

module _ (trim lower : Text → Text) where
  -- The header: which column holds the serial number.
  abbrev pub read_header : Text → Reader → Reader
  read_header line s = record s {
    header_seen = true;
    serial_column =
        or_else (find_index is_serial_header (map (λ h. lower (trim h)) (columns line))) 0;
  }

  abbrev pub serial_of : Text → ℕ → Text
  serial_of line n = trim (or_else (column (columns line) n) (first_column (columns line)))

  abbrev pub push_serial : Text → Reader → Reader
  push_serial line s =
      if is_nil (serial_of line s.serial_column)
      then s
      else record s { lines = s.lines ++ serial_of line s.serial_column ∷ [] }

  abbrev pub without_returns : Text → Text
  without_returns t = select (λ c. not (nat_eq c 13)) t

  unfoldable pub read_line : Reader → Text → Reader
  read_line s line =
      if is_nil (without_returns (trim line))
      then s
      else if s.header_seen
      then push_serial (without_returns (trim line)) s
      else read_header (without_returns (trim line)) s

  unfoldable pub read_lines : List Text → Reader → Reader
  read_lines [] s = s
  read_lines (l ∷ ls) s = read_lines ls (read_line s l)

  -- The buffer and the reader after some more text.
  unfoldable pub on_text : Text → Text × Reader → Text × Reader
  on_text text (buffer, s) = (
    (split_parts newline (buffer ++ text)).1,
    read_lines (split_parts newline (buffer ++ text)).0 s,
  )

  -- file.on("end"): the last line, where no newline follows it
  unfoldable pub on_end : Text × Reader → List Text
  on_end (buffer, s) =
      if not (is_nil (trim buffer)) && s.header_seen
      then (push_serial (trim buffer) s).lines
      else s.lines

  module _ (decode : List ℕ → Text) where
    -- file.on("data"): a chunk of bytes
    unfoldable pub on_data : List ℕ → Text × Reader → Text × Reader
    unfolding on_text
    on_data chunk s = on_text (decode chunk) s

    unfoldable pub on_chunks : List (List ℕ) → Text × Reader → Text × Reader
    on_chunks [] s = s
    on_chunks (c ∷ cs) s = on_chunks cs (on_data c s)

    -- The serial numbers of the file that comes in these chunks.
    unfoldable pub read_file : List (List ℕ) → List Text
    read_file chunks = on_end (on_chunks chunks ([], reader))
