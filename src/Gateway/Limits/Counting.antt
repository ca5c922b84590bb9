-- ===== src/Gateway/Limits/Counting.antt =====
-- How many entries of a bucket are of a time or later.
use grain_guard.Prelude.{
  ℕ, ◌+◌, ◌*◌, ◌≤◌, ◌<◌, ◌≡◌, ◌⊎◌, refl, sym, List, [], ◌∷◌, select, length, ltb, leb,
  if◌then◌else◌, Bool-cases, inl, inr, arith,
}
use grain_guard.Gateway.Limits.{Bucket, pruned, added}

abbrev pub count_from : ℕ → List ℕ → ℕ
count_from a [] = 0
count_from a (x ∷ xs) = (if leb a x then 1 else 0) + count_from a xs

pub count_from-length : (a : ℕ) (xs : List ℕ) → count_from a xs ≤ length xs
count_from-length a [] = omega arith
count_from-length a (x ∷ xs) = ground (arith, count_from-length a xs)

count_from-select :
    (a w t : ℕ) (xs : List ℕ)
    → t < a + w
    → count_from a (select (λ score. ltb t (score + w)) xs) ≡ count_from a xs
count_from-select a w t [] h = refl
count_from-select a w t (x ∷ xs) h = ground (arith, count_from-select a w t xs h)

-- The entries from `a` on are kept while their window lasts: there are none, or the key lives on.
abbrev pub IsKept : ℕ → ℕ → Bucket → Type 0
IsKept a window b = (count_from a b.scores ≡ 0) ⊎ (a + window * 1000 ≤ b.expires)

pub count_from-pruned :
    (a window t : ℕ) (b : Bucket)
    → t < a + window * 1000
    → IsKept a window b
    → count_from a (pruned window t b) ≡ count_from a b.scores
count_from-pruned a window t b h k =
    let s = count_from-select a (window * 1000) t b.scores h in
    elim (Bool-cases (ltb t b.expires)) [
      | inl e ↦ rw e s
      | inr e ↦ elim k [ inl z ↦ rw e (sym z) | inr l ↦ absurd (ground arith) ]
    ]

pub added-IsKept : (a window t : ℕ) (b : Bucket) → a ≤ t → IsKept a window (added window t b)
added-IsKept a window t b h = inr (ground arith)
