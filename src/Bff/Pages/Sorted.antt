-- ===== src/Bff/Pages/Sorted.antt =====
-- ORDER BY … DESC together with WHERE.
use grain_guard.Prelude.{
  ℕ, ◌≤◌, ◌<◌, ◌≡◌, ◌≢◌, refl, Bool, List, [], ◌∷◌, select, insert_descending, sort_descending, All,
  All-imp, All-select, All-insert_descending, All-sort_descending, ltb, if◌then◌else◌, Bool-cases,
  inl, inr, arith,
}

module _ {A : Type 0} (key : A → ℕ) where
  abbrev pub IsDescending : List A → Type 0
  IsDescending [] = Unit
  IsDescending (x ∷ xs) = All (λ y. key y ≤ key x) xs × IsDescending xs

  -- No two elements share a key.
  abbrev pub IsDistinct : List A → Type 0
  IsDistinct [] = Unit
  IsDistinct (x ∷ xs) = All (λ y. key y ≢ key x) xs × IsDistinct xs

  abbrev pub IsStrict : List A → Type 0
  IsStrict [] = Unit
  IsStrict (x ∷ xs) = All (λ y. key y < key x) xs × IsStrict xs

  insert_descending-IsDescending :
      (x : A) (xs : List A) → IsDescending xs → IsDescending (insert_descending key x xs)
  insert_descending-IsDescending x [] h = (tt, tt)
  insert_descending-IsDescending x (y ∷ ys) h = elim (Bool-cases (ltb (key y) (key x))) [
    | inl e ↦ rw e (
      (
        ground arith,
        All-imp (λ z. key z ≤ key y) (λ z. key z ≤ key x) ys (λ z k. ground arith) h.0,
      ),
      h,
    )
    | inr e ↦ rw e (
      All-insert_descending (λ z. key z ≤ key y) key x ys (ground arith) h.0,
      insert_descending-IsDescending x ys h.1,
    )
  ]

  pub sort_descending-IsDescending : (xs : List A) → IsDescending (sort_descending key xs)
  sort_descending-IsDescending [] = tt
  sort_descending-IsDescending (x ∷ xs) =
      insert_descending-IsDescending x (sort_descending key xs) (sort_descending-IsDescending xs)

  -- An element that is greater than all others comes first.
  insert_descending-first :
      (x : A) (xs : List A) → All (λ y. key y < key x) xs → insert_descending key x xs ≡ x ∷ xs
  insert_descending-first x [] h = refl
  insert_descending-first x (y ∷ ys) h = ground (arith, h.0)

  select-insert_descending :
      (p : A → Bool) (x : A) (xs : List A)
      → IsDescending xs
      → select p (insert_descending key x xs)
        ≡ (if p x then insert_descending key x (select p xs) else select p xs)
  select-insert_descending p x [] h = refl
  select-insert_descending p x (y ∷ ys) h =
      let r = select-insert_descending p x ys h.1 in
      elim (Bool-cases (ltb (key y) (key x))) [
        | inl e ↦
            let a =
              All-select (λ z. key z < key x) p ys
                (All-imp (λ z. key z ≤ key y) (λ z. key z < key x) ys (λ z k. ground arith) h.0) in
            let f = insert_descending-first x (select p ys) a in ground (arith, f)
        | inr e ↦ ground (arith, r)
      ]

  pub select-sort_descending :
      (p : A → Bool) (xs : List A)
      → select p (sort_descending key xs) ≡ sort_descending key (select p xs)
  select-sort_descending p [] = refl
  select-sort_descending p (x ∷ xs) = ground (
    arith,
    select-sort_descending p xs,
    select-insert_descending p x (sort_descending key xs) (sort_descending-IsDescending xs),
  )

-- Distinct keys stay distinct under a sort by another key, and are strictly descending where the
-- sort puts them in order.
module _ {A : Type 0} (key rank : A → ℕ) where
  insert_descending-IsDistinct :
      (x : A) (xs : List A)
      → All (λ y. rank y ≢ rank x) xs
      → IsDistinct rank xs
      → IsDistinct rank (insert_descending key x xs)
  insert_descending-IsDistinct x [] h d = (tt, tt)
  insert_descending-IsDistinct x (y ∷ ys) h d = elim (Bool-cases (ltb (key y) (key x))) [
    | inl e ↦ rw e (h, d)
    | inr e ↦ rw e (
      All-insert_descending (λ z. rank z ≢ rank y) key x ys (ground arith) d.0,
      insert_descending-IsDistinct x ys h.1 d.1,
    )
  ]

  sort_descending-IsDistinct :
      (xs : List A) → IsDistinct rank xs → IsDistinct rank (sort_descending key xs)
  sort_descending-IsDistinct [] d = tt
  sort_descending-IsDistinct (x ∷ xs) d =
      insert_descending-IsDistinct x (sort_descending key xs)
        (All-sort_descending (λ y. rank y ≢ rank x) key xs d.0) (sort_descending-IsDistinct xs d.1)

  All-both :
      (P Q R : A → Type 0) (xs : List A)
      → ((x : A) → P x → Q x → R x)
      → All P xs
      → All Q xs
      → All R xs
  All-both P Q R [] k g h = tt
  All-both P Q R (x ∷ xs) k g h = (k x g.0 h.0, All-both P Q R xs k g.1 h.1)

  strict :
      ((x y : A) → key y ≤ key x → rank y ≤ rank x)
      → (xs : List A) → IsDescending key xs
      → IsDistinct rank xs
      → IsStrict rank xs
  strict m [] h d = tt
  strict m (x ∷ xs) h d = (
    All-both (λ y. key y ≤ key x) (λ y. rank y ≢ rank x) (λ y. rank y < rank x) xs
        (λ y g k. let l = m x y g in ground arith) h.0 d.0,
    strict m xs h.1 d.1,
  )

  pub sort_descending-IsStrict :
      ((x y : A) → key y ≤ key x → rank y ≤ rank x)
      → (xs : List A) → IsDistinct rank xs
      → IsStrict rank (sort_descending key xs)
  sort_descending-IsStrict m xs d =
      strict m (sort_descending key xs) (sort_descending-IsDescending key xs)
        (sort_descending-IsDistinct xs d)
