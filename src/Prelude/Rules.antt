-- ===== src/Prelude/Rules.antt =====
-- Rules for statements about a conditional, an optional row and the rows of a table.
use mathlib.Core.Bool.{Bool, true, false}
use mathlib.Core.Option.{Option, none, some}
use mathlib.Core.List.{List, [], ◌∷◌, map}
use native.Mathlib.Omega.{arith}
use mathlib.Core.Path.{◌≡◌, refl}
use mathlib.Core.Logic.{inl, inr}
use grain_guard.Prelude.Tests.{if◌then◌else◌, Bool-cases}
use grain_guard.Prelude.Lists.{All, select, find, update, any}

pub if-intro {ℓ κ} :
    {A : Type ℓ} (Q : A → Type κ) (b : Bool) {x y : A} → Q x → Q y → Q (if b then x else y)
if-intro Q true h k = h
if-intro Q false h k = k

abbrev pub Maybe {ℓ κ} : {A : Type ℓ} → (A → Type κ) → Option A → Type κ
Maybe P none = Unit
Maybe P (some x) = P x

pub option-intro {ℓ κ ι} :
    {A : Type ℓ} {B : Type κ} (P : A → Type ι) (Q : B → Type ι) (o : Option A) {b : B} {f : A → B}
    → Maybe P o
    → Q b
    → ((x : A) → P x → Q (f x))
    → Q (elim o [ none ↦ b | some x ↦ f x ])
option-intro P Q none h k l = k
option-intro P Q (some x) h k l = l x h

-- The same for a row of which nothing is known.
pub any-intro {ℓ κ ι} :
    {A : Type ℓ} {B : Type κ} (Q : B → Type ι) (o : Option A) {b : B} {f : A → B}
    → Q b
    → ((x : A) → Q (f x))
    → Q (elim o [ none ↦ b | some x ↦ f x ])
any-intro Q none k l = k
any-intro Q (some x) k l = l x

-- The same, with the equation of the case.
pub option-with {ℓ κ ι} :
    {A : Type ℓ} {B : Type κ} (Q : B → Type ι) (o : Option A) {b : B} {f : A → B}
    → (o ≡ none → Q b)
    → ((x : A) → o ≡ some x → Q (f x))
    → Q (elim o [ none ↦ b | some x ↦ f x ])
option-with Q none k l = k refl
option-with Q (some x) k l = l x refl

module _ {ℓ κ} {A : Type ℓ} (P : A → Type κ) (p : A → Bool) where
  pub All-select : (xs : List A) → All P xs → All P (select p xs)
  All-select [] h = tt
  All-select (x ∷ xs) h =
      if-intro (All P) (p x) {x = x ∷ select p xs} (h.0, All-select xs h.1) (All-select xs h.1)

  pub All-update :
      (f : A → A) (xs : List A) → ((x : A) → P x → P (f x)) → All P xs → All P (update p f xs)
  All-update f [] k h = tt
  All-update f (x ∷ xs) k h = (if-intro P (p x) (k x h.0) h.0, All-update f xs k h.1)

  pub All-find : (xs : List A) → All P xs → Maybe P (find p xs)
  All-find [] h = tt
  All-find (x ∷ xs) h = if-intro (Maybe P) (p x) h.0 (All-find xs h.1)

-- A row that a search finds satisfies its test.
pub All-find_where {ℓ κ} :
    {A : Type ℓ} (P : A → Type κ) (p : A → Bool) (xs : List A)
    → All (λ x. p x ≡ true → P x) xs
    → Maybe P (find p xs)
All-find_where P p [] h = tt
All-find_where P p (x ∷ xs) h = elim (Bool-cases (p x)) [
  | inl e ↦ rw e (h.0 e)
  | inr e ↦ rw e (All-find_where P p xs h.1)
]

module _ {ℓ κ} {A : Type ℓ} (P : A → Type κ) where
  -- The rows that a WHERE clause selects satisfy it.
  pub All-select_where :
      (p : A → Bool) (xs : List A) → All (λ x. p x ≡ true → P x) xs → All P (select p xs)
  All-select_where p [] h = tt
  All-select_where p (x ∷ xs) h = elim (Bool-cases (p x)) [
    | inl e ↦ rw e (h.0 e, All-select_where p xs h.1)
    | inr e ↦ rw e (All-select_where p xs h.1)
  ]

  pub All-map {ι μ} :
      {B : Type ι} (Q : B → Type μ) (f : B → A) (xs : List B)
      → ((x : B) → Q x → P (f x))
      → All Q xs
      → All P (map f xs)
  All-map Q f [] k h = tt
  All-map Q f (x ∷ xs) k h = (k x h.0, All-map Q f xs k h.1)

  -- A search finds a row that satisfies its test, with what holds of all rows.
  pub any-All {ι} :
      (p : A → Bool) (C : Type ι) (xs : List A)
      → All P xs
      → ((x : A) → P x → p x ≡ true → C)
      → any p xs ≡ true
      → C
  any-All p C [] h k e = absurd (ground arith)
  any-All p C (x ∷ xs) h k e = elim (Bool-cases (p x)) [
    | inl q ↦ k x h.0 q
    | inr q ↦ any-All p C xs h.1 k (rw q at e)
  ]

  pub All-imp {ι} : (Q : A → Type ι) (xs : List A) → ((x : A) → P x → Q x) → All P xs → All Q xs
  All-imp Q [] k h = tt
  All-imp Q (x ∷ xs) k h = (k x h.0, All-imp Q xs k h.1)
