-- ===== src/Bff/Pages/Cursors.antt =====
-- Where a page ends, and what the query of the next one returns.
use grain_guard.Prelude.{
  ℕ, zero, suc, ◌*◌, ◌/◌, ◌≤◌, ◌<◌, ◌≡◌, refl, ap, String, Bool, true, false, ◌&&◌, some, List, [],
  ◌∷◌, ◌++◌, select, take, length, sort_descending, All, All-imp, ltb, arith, ◌==◌,
}
use grain_guard.Bff.Source.{Projection}
use grain_guard.Bff.Pages.{Bound, before, is_before, milliseconds, page_rows, items_of}
use grain_guard.Bff.Pages.Sorted.{IsStrict, select-sort_descending}

module _ {A : Type 0} where
  -- The first `suc k` elements of a longer list.
  pub record Split (k : ℕ) (xs : List A) : Type 0 where
    pub init : List A
    pub last : A
    pub rest : List A
    pub whole : xs ≡ init ++ (last ∷ rest)
    pub page : take (suc k) xs ≡ init ++ (last ∷ [])
    pub shorter : length rest < length xs

  pub split : (k : ℕ) (xs : List A) → k < length xs → Split k xs
  split k [] h = absurd (ground arith)
  split zero (x ∷ xs) h = record {
    init = [];
    last = x;
    rest = xs;
    whole = refl;
    page = refl;
    shorter = ground arith;
  }
  split (suc k) (x ∷ xs) h =
      let s = split k xs (ground arith) in
      record {
        init = x ∷ s.init;
        last = s.last;
        rest = s.rest;
        whole = ap (λ ys. x ∷ ys) s.whole;
        page = ap (λ ys. x ∷ ys) s.page;
        shorter = let l = s.shorter in ground arith;
      }

  pub take_all : (n : ℕ) (xs : List A) → length xs ≤ n → take n xs ≡ xs
  take_all zero [] h = refl
  take_all (suc n) [] h = refl
  take_all zero (x ∷ xs) h = absurd (ground arith)
  take_all (suc n) (x ∷ xs) h = ap (λ ys. x ∷ ys) (take_all n xs (ground arith))

  pub take-take : (n : ℕ) (xs : List A) → take n (take (suc n) xs) ≡ take n xs
  take-take zero xs = refl
  take-take (suc n) [] = refl
  take-take (suc n) (x ∷ xs) = ap (λ ys. x ∷ ys) (take-take n xs)

  -- One row more than the page tells whether there is another page.
  pub length-take : (n : ℕ) (xs : List A) → ltb n (length (take (suc n) xs)) ≡ ltb n (length xs)
  length-take n [] = refl
  length-take zero (x ∷ xs) = ground arith
  length-take (suc n) (x ∷ xs) = let r = length-take n xs in ground arith

  pub items-last :
      (size : ℕ) (xs : List A)
      → ltb size (length xs) ≡ false
      → items_of size (take (suc size) xs) ≡ xs
  items-last size xs h = rw (length-take size xs, h) (take_all (suc size) xs (ground arith))

  pub items-more :
      (k : ℕ) (xs : List A)
      → ltb (suc k) (length xs) ≡ true
      → (s : Split k xs) → items_of (suc k) (take (suc (suc k)) xs) ≡ s.init ++ (s.last ∷ [])
  items-more k xs h s = rw (length-take (suc k) xs, h, take-take (suc k) xs) s.page

  pub select_and :
      (p q : A → Bool) (xs : List A) → select (λ x. p x && q x) xs ≡ select q (select p xs)
  select_and p q [] = refl
  select_and p q (x ∷ xs) = ground (arith, select_and p q xs)

  pub select-true : (xs : List A) → select (λ x. true) xs ≡ xs
  select-true [] = refl
  select-true (x ∷ xs) = ap (λ ys. x ∷ ys) (select-true xs)

  select_eq : (p : A → Bool) (xs : List A) → All (λ x. p x ≡ true) xs → select p xs ≡ xs
  select_eq p [] h = refl
  select_eq p (x ∷ xs) h = ground (arith, h.0, select_eq p xs h.1)

  All-middle :
      (P : A → Type 0) (first : List A) (x : A) (rest : List A) → All P (first ++ (x ∷ rest)) → P x
  All-middle P [] x rest h = h.0
  All-middle P (y ∷ ys) x rest h = All-middle P ys x rest h.1

-- Cursors of milliseconds into rows that have their times in microseconds.
module _ {A : Type 0} (stamp : A → ℕ) where
  abbrev pub to_milliseconds : A → ℕ
  to_milliseconds x = stamp x / 1000

  -- The rows before the cursor of a row.
  abbrev pub is_earlier : A → A → Bool
  is_earlier x y = ltb (stamp y) (to_milliseconds x * 1000)

  earlier_end : (x y : A) → to_milliseconds y < to_milliseconds x → is_earlier x y ≡ true
  earlier_end x y h = ground arith

  later_end : (x y : A) → to_milliseconds x ≤ to_milliseconds y → is_earlier x y ≡ false
  later_end x y h = ground arith

  -- The rows after a row of a strictly descending list are those before its cursor.
  pub select-earlier :
      (first : List A) (x : A) (rest : List A)
      → IsStrict to_milliseconds (first ++ (x ∷ rest))
      → select (is_earlier x) (first ++ (x ∷ rest)) ≡ rest
  select-earlier [] x rest h = rw (later_end x x (ground arith)) (
      select_eq (is_earlier x) rest (
        All-imp (λ y. to_milliseconds y < to_milliseconds x) (λ y. is_earlier x y ≡ true) rest
          (earlier_end x) h.0))
  select-earlier (y ∷ ys) x rest h =
      let m = All-middle (λ z. to_milliseconds z < to_milliseconds y) ys x rest h.0 in
      rw (later_end x y (ground arith)) (select-earlier ys x rest h.1)

abbrev pub end_of : Projection → Bound
end_of x = before (milliseconds x * 1000)

pub select-before :
    (first : List Projection) (x : Projection) (rest : List Projection)
    → IsStrict milliseconds (first ++ (x ∷ rest))
    → select (is_before (end_of x)) (first ++ (x ∷ rest)) ≡ rest
select-before first x rest h = select-earlier (λ (p : Projection). p.created_at) first x rest h

-- The rows of a tenant, newest first, which the pages are taken from.
abbrev pub tenant_rows : List Projection → String → List Projection
tenant_rows rows tenant =
    sort_descending (λ (p : Projection). p.created_at)
      (select (λ (p : Projection). p.tenant_id == tenant) rows)

pub page_rows-tenant :
    (rows : List Projection) (limit : ℕ) (tenant : String) (bound : Bound)
    → page_rows rows limit (some tenant) bound
      ≡ take limit (select (is_before bound) (tenant_rows rows tenant))
page_rows-tenant rows limit tenant bound =
    rw
      (
        select_and (λ (p : Projection). p.tenant_id == tenant) (is_before bound) rows,
        select-sort_descending (λ (p : Projection). p.created_at) (is_before bound)
            (select (λ (p : Projection). p.tenant_id == tenant) rows),
      )
      refl
