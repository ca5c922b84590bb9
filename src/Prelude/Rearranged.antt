-- ===== src/Prelude/Rearranged.antt =====
-- ORDER BY … DESC on rows in another order: without ties the order of the rows makes no difference.
use mathlib.Core.Path.{◌≡◌, refl, sym, ap, subst, ◌∙◌}
use mathlib.Core.Logic.{◌≢◌}
use Prim.Native.Nat.{ℕ}
use mathlib.Core.List.{List, [], ◌∷◌}
use native.Mathlib.Omega.{arith}
use grain_guard.Prelude.Lists.{All}
use grain_guard.Prelude.Sorting.{insert_descending, sort_descending}

-- The same elements in another order.
pub data IsRearranged {A : Type 0} : List A → List A → Type 0 where
  nil : IsRearranged [] []
  cons : {a b : A} {xs ys : List A} → a ≡ b → IsRearranged xs ys → IsRearranged (a ∷ xs) (b ∷ ys)
  swap : {a b a' b' : A} {xs : List A} → a ≡ b' → b ≡ a' → IsRearranged (a ∷ b ∷ xs) (a' ∷ b' ∷ xs)
  trans : {xs ys zs : List A} → IsRearranged xs ys → IsRearranged ys zs → IsRearranged xs zs

All-rearranged :
    {A : Type 0} (P : A → Type 0) (xs ys : List A) → IsRearranged xs ys → All P xs → All P ys
All-rearranged P _ _ IsRearranged.nil h = tt
All-rearranged P _ _ (IsRearranged.cons {xs = xs} {ys = ys} e d) h =
    (subst P e h.0, All-rearranged P xs ys d h.1)
All-rearranged P _ _ (IsRearranged.swap e f) h = (subst P f h.1.0, (subst P e h.0, h.1.1))
All-rearranged P xs zs (IsRearranged.trans {ys = ys} d d') h =
    All-rearranged P ys zs d' (All-rearranged P xs ys d h)

module _ {A : Type 0} (key : A → ℕ) where
  -- No two elements share a key.
  abbrev pub HasNoTies : List A → Type 0
  HasNoTies [] = Unit
  HasNoTies (x ∷ xs) = All (λ y. key y ≢ key x) xs × HasNoTies xs

  rearranged-HasNoTies : (xs ys : List A) → IsRearranged xs ys → HasNoTies xs → HasNoTies ys
  rearranged-HasNoTies _ _ IsRearranged.nil h = tt
  rearranged-HasNoTies _ _ (IsRearranged.cons {xs = xs} {ys = ys} e d) h = (
    subst (λ b. All (λ y. key y ≢ key b) ys) e (All-rearranged (λ y. key y ≢ key _) xs ys d h.0),
    rearranged-HasNoTies xs ys d h.1,
  )
  rearranged-HasNoTies _ _ (IsRearranged.swap {xs = l} e f) h = (
    (
      (λ k. h.0.0 (ap key f ∙ sym k ∙ sym (ap key e))),
      subst (λ b. All (λ y. key y ≢ key b) l) f h.1.0,
    ),
    (subst (λ b. All (λ y. key y ≢ key b) l) e h.0.1, h.1.1),
  )
  rearranged-HasNoTies xs zs (IsRearranged.trans {ys = ys} d d') h =
      rearranged-HasNoTies ys zs d' (rearranged-HasNoTies xs ys d h)

  insert_descending_comm :
      (x y : A) (xs : List A)
      → key y ≢ key x
      → insert_descending key x (insert_descending key y xs)
        ≡ insert_descending key y (insert_descending key x xs)
  insert_descending_comm x y [] n = ground (arith, n)
  insert_descending_comm x y (z ∷ zs) n = ground (arith, n, insert_descending_comm x y zs n)

  pub sort_descending_rearranged :
      (xs ys : List A)
      → IsRearranged xs ys
      → HasNoTies xs
      → sort_descending key xs ≡ sort_descending key ys
  sort_descending_rearranged _ _ IsRearranged.nil h = refl
  sort_descending_rearranged _ _ (IsRearranged.cons {b = b} {xs = xs} {ys = ys} e d) h =
      ap (λ x. insert_descending key x (sort_descending key xs)) e
      ∙ ap (insert_descending key b) (sort_descending_rearranged xs ys d h.1)
  sort_descending_rearranged _ _ (IsRearranged.swap {a = a} {b = b} {a' = a'} {xs = l} e f) h =
      insert_descending_comm a b (sort_descending key l) h.0.0
      ∙ ap (λ x. insert_descending key x (insert_descending key a (sort_descending key l))) f
      ∙ ap (λ x. insert_descending key a' (insert_descending key x (sort_descending key l))) e
  sort_descending_rearranged xs zs (IsRearranged.trans {ys = ys} d d') h =
      sort_descending_rearranged xs ys d h
      ∙ sort_descending_rearranged ys zs d' (rearranged-HasNoTies xs ys d h)
