-- ===== src/Dashboard/ExportCsv/Reader.antt =====
-- A reader of comma-separated files, as spreadsheets read them: a field that begins with a quote runs
-- to its closing quote, with two quotes for one, and a line ends at a newline.
use grain_guard.Prelude.{
  ◌≡◌, refl, sym, ap, ◌∙◌, false, List, [], ◌∷◌, ◌++◌, nat_eq, if◌then◌else◌, Bool-cases, inl, inr,
  arith, append-append, append-nil,
}
use grain_guard.Dashboard.ExportCsv.{Text, doubled, is_special, escape}

-- At the start of a field, in a bare one, in a quoted one, and after a quote in a quoted one.
pub data Mode : Type 0 where
  start bare quoted closing : Mode

-- The field so far, the fields of the line before it, and the text that is left.
unfoldable pub read : Mode → Text → List Text → Text → List (List Text)
read m f r [] = (r ++ (f ∷ [])) ∷ []
read quoted f r (c ∷ cs) =
    let inside = read quoted (f ++ (c ∷ [])) r cs in
    let closed = read closing f r cs in if nat_eq c b'"' then closed else inside
read start f r (c ∷ cs) =
    let opened = read quoted f r cs in
    let next = read start [] (r ++ (f ∷ [])) cs in
    let ended = read start [] [] cs in
    let on = read bare (f ++ (c ∷ [])) r cs in
    if nat_eq c b'"'
    then opened
    else if nat_eq c b','
    then next
    else if nat_eq c b'\n'
    then (r ++ (f ∷ [])) ∷ ended
    else on
read bare f r (c ∷ cs) =
    let next = read start [] (r ++ (f ∷ [])) cs in
    let ended = read start [] [] cs in
    let on = read bare (f ++ (c ∷ [])) r cs in
    if nat_eq c b',' then next else if nat_eq c b'\n' then (r ++ (f ∷ [])) ∷ ended else on
read closing f r (c ∷ cs) =
    let again = read quoted (f ++ (b'"' ∷ [])) r cs in
    let next = read start [] (r ++ (f ∷ [])) cs in
    let ended = read start [] [] cs in
    let on = read bare (f ++ (c ∷ [])) r cs in
    if nat_eq c b'"'
    then again
    else if nat_eq c b','
    then next
    else if nat_eq c b'\n'
    then (r ++ (f ∷ [])) ∷ ended
    else on

abbrev pub read_csv : Text → List (List Text)
read_csv text = read start [] [] text

-- What may follow a field: the end, a comma or a newline.
pub data Follows : Text → Type 0 where
  at_end : Follows []
  at_comma : {cs : Text} → Follows (b',' ∷ cs)
  at_line_end : {cs : Text} → Follows (b'\n' ∷ cs)

start-bare :
    (r : List Text) (rest : Text) → Follows rest → read start [] r rest ≡ read bare [] r rest
unfolding read
start-bare r _ at_end = refl
start-bare r _ at_comma = refl
start-bare r _ at_line_end = refl

closing-bare :
    (f : Text) (r : List Text) (rest : Text)
    → Follows rest
    → read closing f r rest ≡ read bare f r rest
unfolding read
closing-bare f r _ at_end = refl
closing-bare f r _ at_comma = refl
closing-bare f r _ at_line_end = refl

read-bare :
    (val f : Text) (r : List Text) (rest : Text)
    → is_special val ≡ false
    → read bare f r (val ++ rest) ≡ read bare (f ++ val) r rest
unfolding read
read-bare [] f r rest h = ap (λ t. read bare t r rest) (sym (append-nil f))
read-bare (c ∷ cs) f r rest h =
    let i = read-bare cs (f ++ (c ∷ [])) r rest (ground arith) in
    let a = append-append f (c ∷ []) cs in ground (arith, i, a)

read-doubled :
    (val f : Text) (r : List Text) (rest : Text)
    → read quoted f r (doubled val ++ (b'"' ∷ rest)) ≡ read closing (f ++ val) r rest
unfolding read doubled
read-doubled [] f r rest = ap (λ t. read closing t r rest) (sym (append-nil f))
read-doubled (c ∷ cs) f r rest = elim (Bool-cases (nat_eq c b'"')) [
  | inl e ↦
      let q : c ≡ b'"' = ground arith in
      rw e (
        read-doubled cs (f ++ (b'"' ∷ [])) r rest
        ∙ ap (λ t. read closing t r rest)
            (append-append f (b'"' ∷ []) cs ∙ ap (λ d. f ++ (d ∷ cs)) (sym q)))
  | inr e ↦
      let i = read-doubled cs (f ++ (c ∷ [])) r rest in
      let a = append-append f (c ∷ []) cs in rw (e, e) (i ∙ ap (λ t. read closing t r rest) a)
]

read-start :
    (val : Text) (r : List Text) (rest : Text)
    → Follows rest
    → is_special val ≡ false
    → read start [] r (val ++ rest) ≡ read bare val r rest
unfolding read
read-start [] r rest h e = start-bare r rest h
read-start (c ∷ cs) r rest h e =
    let i = read-bare cs (c ∷ []) r rest (ground arith) in ground (arith, i)

-- A quoted field is read back whole, with whatever follows it.
pub read-quoted :
    (val : Text) (r : List Text) (rest : Text)
    → Follows rest
    → read start [] r ((b'"' ∷ (doubled val ++ (b'"' ∷ []))) ++ rest) ≡ read bare val r rest
unfolding read
read-quoted val r rest h =
    ap (read quoted [] r) (append-append (doubled val) (b'"' ∷ []) rest)
    ∙ read-doubled val [] r rest
    ∙ closing-bare val r rest h

-- So is any field that is quoted where it has to be.
pub read-escape :
    (val : Text) (r : List Text) (rest : Text)
    → Follows rest
    → read start [] r (escape val ++ rest) ≡ read bare val r rest
read-escape val r rest h = elim (Bool-cases (is_special val)) [
  | inl e ↦ rw e (read-quoted val r rest h)
  | inr e ↦ rw e (read-start val r rest h e)
]
