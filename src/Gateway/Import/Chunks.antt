-- ===== src/Gateway/Import/Chunks.antt =====
-- How the file is cut into chunks.
use grain_guard.Prelude.{
  ℕ, ◌≡◌, refl, sym, ap, ◌∙◌, false, Bool-cases, inl, inr, List, [], ◌∷◌, ◌++◌, nat_eq, append-nil,
  append-append, ◌<◌, All,
}
use grain_guard.Gateway.Import.{
  Text, Reader, reader, add_first, close_first, split_parts, newline, read_lines, read_line,
  on_data, on_text, on_end, on_chunks, read_file,
}

-- All the bytes, or the whole text.
abbrev pub concat : List Text → Text
concat [] = []
concat (c ∷ cs) = c ++ concat cs

abbrev pub IsAscii : ℕ → Type 0
IsAscii b = b < 128

append-IsAscii : (a b : Text) → All IsAscii a → All IsAscii b → All IsAscii (a ++ b)
append-IsAscii [] b h k = k
append-IsAscii (c ∷ a) b h k = (h.0, append-IsAscii a b h.1 k)

concat-IsAscii : (chunks : List Text) → All (All IsAscii) chunks → All IsAscii (concat chunks)
concat-IsAscii [] h = tt
concat-IsAscii (c ∷ cs) h = append-IsAscii c (concat cs) h.0 (concat-IsAscii cs h.1)

after : ℕ → List Text × Text → Text → List Text × Text
after k (ls, r) b = (ls ++ (split_parts k (r ++ b)).0, (split_parts k (r ++ b)).1)

add_first-after :
    (k c : ℕ) (p : List Text × Text) (b : Text)
    → nat_eq c k ≡ false
    → add_first c (after k p b) ≡ after k (add_first c p) b
unfolding after split_parts
add_first-after k c ([], r) b e = rw e refl
add_first-after k c (l ∷ ls, r) b e = refl

split_parts-append : (k : ℕ) (a b : Text) → split_parts k (a ++ b) ≡ after k (split_parts k a) b
unfolding after split_parts
split_parts-append k [] b = refl
split_parts-append k (c ∷ cs) b = elim (Bool-cases (nat_eq c k)) [
  | inl e ↦ rw e (ap close_first (split_parts-append k cs b))
  | inr e ↦
      rw e
        (ap (add_first c) (split_parts-append k cs b) ∙ add_first-after k c (split_parts k cs) b e)
]

-- A text with no separator.
abbrev IsPiece : ℕ → Text → Type 0
IsPiece k t = split_parts k t ≡ ([], t)

add_first-IsPiece :
    (k c : ℕ) (p : List Text × Text)
    → nat_eq c k ≡ false
    → IsPiece k p.1
    → IsPiece k (add_first c p).1
unfolding split_parts
add_first-IsPiece k c ([], r) e h = rw (e, h) refl
add_first-IsPiece k c (l ∷ ls, r) e h = h

split_parts-IsPiece : (k : ℕ) (t : Text) → IsPiece k (split_parts k t).1
unfolding split_parts
split_parts-IsPiece k [] = refl
split_parts-IsPiece k (c ∷ cs) = elim (Bool-cases (nat_eq c k)) [
  | inl e ↦ rw e (split_parts-IsPiece k cs)
  | inr e ↦ rw e (add_first-IsPiece k c (split_parts k cs) e (split_parts-IsPiece k cs))
]

module _ (trim lower : Text → Text) where
  read_lines-append :
      (ls ms : List Text) (s : Reader)
      → read_lines trim lower (ls ++ ms) s ≡ read_lines trim lower ms (read_lines trim lower ls s)
  unfolding read_lines
  read_lines-append [] ms s = refl
  read_lines-append (l ∷ ls) ms s = read_lines-append ls ms (read_line trim lower s l)

  on_text-append :
      (a b buffer : Text) (s : Reader)
      → on_text trim lower b (on_text trim lower a (buffer, s))
        ≡ on_text trim lower (a ++ b) (buffer, s)
  unfolding on_text after
  on_text-append a b buffer s =
      rw
        (
          sym (append-append buffer a b),
          split_parts-append newline (buffer ++ a) b,
          read_lines-append (split_parts newline (buffer ++ a)).0
              (split_parts newline ((split_parts newline (buffer ++ a)).1 ++ b)).0 s,
        )
        refl

  module _ (decode : List ℕ → Text)
      (ascii : (bytes : List ℕ) → All IsAscii bytes → decode bytes ≡ bytes) where
    on_chunks-concat :
        (chunks : List (List ℕ)) (buffer : Text) (s : Reader)
        → All (All IsAscii) chunks
        → IsPiece newline buffer
        → on_chunks trim lower decode chunks (buffer, s)
          ≡ on_text trim lower (concat chunks) (buffer, s)
    unfolding on_chunks on_data on_text read_lines
    on_chunks-concat [] buffer s a h = rw (append-nil buffer, h) refl
    on_chunks-concat (c ∷ cs) buffer s a h = rw (ascii c a.0) (
        on_chunks-concat cs _ _ a.1 (split_parts-IsPiece newline (buffer ++ c))
        ∙ on_text-append c (concat cs) buffer s)

    -- The serial numbers that an upload of ASCII characters yields depend on the bytes of the file
    -- only, not on how they are cut into chunks, where decoding leaves such bytes as they are.
    pub read_file-concat :
        (chunks : List (List ℕ))
        → All (All IsAscii) chunks
        → read_file trim lower decode chunks ≡ read_file trim lower decode (concat chunks ∷ [])
    unfolding read_file on_chunks on_data split_parts
    read_file-concat chunks a = ap (on_end trim lower) (
        on_chunks-concat chunks [] reader a refl
        ∙ sym (
            ap (λ t. on_text trim lower t ([], reader))
              (ascii (concat chunks) (concat-IsAscii chunks a))))
