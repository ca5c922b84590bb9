-- ===== src/Dashboard/ExportCsv/Roundtrip.antt =====
-- What a reader finds in the file that is exported.
use grain_guard.Prelude.{
  ◌≡◌, refl, sym, ap, ◌∙◌, Option, none, some, List, [], ◌∷◌, ◌++◌, map, append-append, append-nil,
}
use grain_guard.Dashboard.ExportCsv.{
  Text, Device, escape, join_by, line, headers, row_of, export_devices_to_csv,
}
use grain_guard.Dashboard.ExportCsv.Reader.{
  read, read_csv, start, bare, Follows, at_end, at_comma, at_line_end, read-escape,
}

-- The text after a line, and the lines that are read in it.
abbrev pub rest_of : Option Text → Text
rest_of none = []
rest_of (some cs) = b'\n' ∷ cs

abbrev pub lines_of : Option Text → List (List Text)
lines_of none = []
lines_of (some cs) = read_csv cs

read-end :
    (f : Text) (r : List Text) (t : Option Text)
    → read bare f r (rest_of t) ≡ (r ++ (f ∷ [])) ∷ lines_of t
unfolding read
read-end f r none = refl
read-end f r (some cs) = refl

Follows-rest_of : (t : Option Text) → Follows (rest_of t)
Follows-rest_of none = at_end
Follows-rest_of (some cs) = at_line_end

-- Lines whose fields are written by a function that the reader undoes.
abbrev pub IsRead : (Text → Text) → Type 0
IsRead enc =
    (val : Text) (r : List Text) (rest : Text)
    → Follows rest
    → read start [] r (enc val ++ rest) ≡ read bare val r rest

abbrev pub line_by : (Text → Text) → List Text → Text
line_by enc row = join_by b',' (map enc row)

module _ (enc : Text → Text) (read-enc : IsRead enc) where
  pub read-line :
      (f : Text) (fs r : List Text) (t : Option Text)
      → read start [] r (line_by enc (f ∷ fs) ++ rest_of t) ≡ (r ++ (f ∷ fs)) ∷ lines_of t
  unfolding read
  read-line f [] r t = read-enc f r (rest_of t) (Follows-rest_of t) ∙ read-end f r t
  read-line f (g ∷ gs) r t =
      ap (read start [] r) (append-append (enc f) (b',' ∷ line_by enc (g ∷ gs)) (rest_of t))
      ∙ read-enc f r (b',' ∷ (line_by enc (g ∷ gs) ++ rest_of t)) at_comma
      ∙ read-line g gs (r ++ (f ∷ [])) t
      ∙ ap (λ row. row ∷ lines_of t) (append-append r (f ∷ []) (g ∷ gs))

  module _ {A : Type 0} (head : A → Text) (tail : A → List Text) where
    -- A file of lines that each have a field at least.
    pub read_csv-lines :
        (x : A) (xs : List A)
        → read_csv (join_by b'\n' (map (λ y. line_by enc (head y ∷ tail y)) (x ∷ xs)))
          ≡ map (λ y. head y ∷ tail y) (x ∷ xs)
    read_csv-lines x [] =
        ap (read start [] []) (sym (append-nil (line_by enc (head x ∷ tail x))))
        ∙ read-line (head x) (tail x) [] none
    read_csv-lines x (y ∷ ys) =
        read-line (head x) (tail x) []
          (some (join_by b'\n' (map (λ z. line_by enc (head z ∷ tail z)) (y ∷ ys))))
        ∙ ap (λ rows. (head x ∷ tail x) ∷ rows) (read_csv-lines y ys)

abbrev head_of : List Text → Text
head_of [] = []
head_of (f ∷ fs) = f

abbrev after_first : List Text → List Text
after_first [] = []
after_first (f ∷ fs) = fs

abbrev pub read_export : Option Text → Option (List (List Text))
read_export none = none
read_export (some text) = some (read_csv text)

-- The file that is exported for a list of devices, which is not empty, is read back as the headers and
-- the six fields of each device, in order, whatever text the fields hold: commas, quotes and newlines
-- included.
pub export_devices_to_csv-read :
    {Number Date : Type 0} (to_fixed : Number → Text) (to_locale_string : Date → Text)
    (d : Device Number Date) (ds : List (Device Number Date))
    → read_export (export_devices_to_csv to_fixed to_locale_string (d ∷ ds))
      ≡ some (headers ∷ map (row_of to_fixed to_locale_string) (d ∷ ds))
unfolding export_devices_to_csv
export_devices_to_csv-read to_fixed to_locale_string d ds =
    let lines = join_by b'\n' (map (λ e. line (row_of to_fixed to_locale_string e)) (d ∷ ds)) in
    let first =
      read-line escape read-escape (head_of headers) (after_first headers) [] (some lines) in
    let others =
      read_csv-lines escape read-escape (λ e. e.serial_number)
        (λ e. after_first (row_of to_fixed to_locale_string e)) d ds in
    ap some (first ∙ ap (λ rows. headers ∷ rows) others)
