-- ===== src/Prelude/Sorting.antt =====
-- ORDER BY … DESC and LIMIT, as queries use them.
use Prim.Native.Nat.{ℕ, zero, suc}
use mathlib.Core.List.{List, [], ◌∷◌}
use grain_guard.Prelude.Tests.{if◌then◌else◌, ltb}
use grain_guard.Prelude.Lists.{All}
use grain_guard.Prelude.Rules.{if-intro}

module _ {ℓ} {A : Type ℓ} where
  -- LIMIT n
  abbrev pub take : ℕ → List A → List A
  take zero xs = []
  take (suc n) [] = []
  take (suc n) (x ∷ xs) = x ∷ take n xs

  -- OFFSET n
  abbrev pub drop : ℕ → List A → List A
  drop zero xs = xs
  drop (suc n) [] = []
  drop (suc n) (x ∷ xs) = drop n xs

  module _ (key : A → ℕ) where
    -- ORDER BY key DESC
    abbrev pub insert_descending : A → List A → List A
    insert_descending x [] = x ∷ []
    insert_descending x (y ∷ ys) =
        let rest = insert_descending x ys in if ltb (key y) (key x) then x ∷ y ∷ ys else y ∷ rest

    abbrev pub sort_descending : List A → List A
    sort_descending [] = []
    sort_descending (x ∷ xs) = insert_descending x (sort_descending xs)

  module _ {κ} (P : A → Type κ) where
    pub All-take : (n : ℕ) (xs : List A) → All P xs → All P (take n xs)
    All-take zero xs h = tt
    All-take (suc n) [] h = tt
    All-take (suc n) (x ∷ xs) h = (h.0, All-take n xs h.1)

    pub All-insert_descending :
        (key : A → ℕ) (x : A) (xs : List A) → P x → All P xs → All P (insert_descending key x xs)
    All-insert_descending key x [] p h = (p, tt)
    All-insert_descending key x (y ∷ ys) p h =
        if-intro (All P) (ltb (key y) (key x)) {x = x ∷ y ∷ ys} (p, h)
          (h.0, All-insert_descending key x ys p h.1)

    pub All-sort_descending :
        (key : A → ℕ) (xs : List A) → All P xs → All P (sort_descending key xs)
    All-sort_descending key [] h = tt
    All-sort_descending key (x ∷ xs) h =
        All-insert_descending key x (sort_descending key xs) h.0 (All-sort_descending key xs h.1)
