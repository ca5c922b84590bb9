-- ===== src/Gateway/Import/Tests.antt =====
-- An upload in two chunks, and its import job.
use grain_guard.Prelude.{
  ℕ, zero, suc, ◌≡◌, refl, Bool, true, false, List, [], ◌∷◌, All, map, ltb, if◌then◌else◌, arith,
  ◌&&◌, ◌-◌, ◌*◌, ◌+◌,
}
use grain_guard.Gateway.Import.{
  Text, read_file, on_chunks, on_data, on_text, on_end, split_parts, read_line, read_lines,
}
use grain_guard.Gateway.Import.Chunks.{concat, IsAscii, read_file-concat}

abbrev same : Text → Text
same t = t

-- "id,serial\nx,SN" and "1\ny,SN2"
abbrev uploaded : List Text
uploaded =
    (105 ∷ 100 ∷ 44 ∷ 115 ∷ 101 ∷ 114 ∷ 105 ∷ 97 ∷ 108 ∷ 10 ∷ 120 ∷ 44 ∷ 83 ∷ 78 ∷ [])
    ∷ (49 ∷ 10 ∷ 121 ∷ 44 ∷ 83 ∷ 78 ∷ 50 ∷ [])
    ∷ []

abbrev sn1 : Text
sn1 = 83 ∷ 78 ∷ 49 ∷ []

abbrev sn2 : Text
sn2 = 83 ∷ 78 ∷ 50 ∷ []

-- The ASCII part of UTF-8; any other byte is taken for one that does not decode.
abbrev decode : List ℕ → Text
decode bytes = map (λ b. if ltb b 128 then b else 65533) bytes

decode-ascii : (bytes : List ℕ) → All IsAscii bytes → decode bytes ≡ bytes
decode-ascii [] h = refl
decode-ascii (b ∷ bytes) h = ground (arith, h.0, decode-ascii bytes h.1)

uploaded_serials : read_file same same decode uploaded ≡ sn1 ∷ sn2 ∷ []
unfolding read_file on_chunks on_data on_text on_end split_parts read_line read_lines
uploaded_serials = refl

read_file-concat_example :
    read_file same same decode uploaded ≡ read_file same same decode (concat uploaded ∷ [])
read_file-concat_example = read_file-concat same same decode decode-ascii uploaded (omega arith)

-- UTF-8 with the characters of two bytes; a byte that is cut off from its other one is U+FFFD.
abbrev decode_two : List ℕ → Text
decode_two [] = []
decode_two (b ∷ []) = (if ltb b 128 then b else 65533) ∷ []
decode_two (b ∷ c ∷ bytes) =
    let rest = decode_two bytes in
    let other = decode_two (c ∷ bytes) in
    if ltb b 128
    then b ∷ other
    else if ltb 193 b && ltb b 224 && ltb 127 c && ltb c 192
    then ((b - 192) * 64 + (c - 128)) ∷ rest
    else 65533 ∷ other

-- "serial\nÄ", in one chunk and with the last character cut in two
abbrev letter : List (List ℕ)
letter = (115 ∷ 101 ∷ 114 ∷ 105 ∷ 97 ∷ 108 ∷ 10 ∷ 195 ∷ 132 ∷ []) ∷ []

abbrev cut_letter : List (List ℕ)
cut_letter = (115 ∷ 101 ∷ 114 ∷ 105 ∷ 97 ∷ 108 ∷ 10 ∷ 195 ∷ []) ∷ (132 ∷ []) ∷ []

letter_serials : read_file same same decode_two letter ≡ (196 ∷ []) ∷ []
unfolding read_file on_chunks on_data on_text on_end split_parts read_line read_lines
letter_serials = refl

cut_letter_serials : read_file same same decode_two cut_letter ≡ (65533 ∷ 65533 ∷ []) ∷ []
unfolding read_file on_chunks on_data on_text on_end split_parts read_line read_lines
cut_letter_serials = refl

abbrev first_only : ℕ → Text → Bool
first_only zero serial = true
first_only (suc n) serial = false
