-- ===== src/Gateway/Signup/Slugs.antt =====
-- Which texts are slugs.
use grain_guard.Prelude.{
  ℕ, ◌≡◌, refl, subst, Bool, true, false, ◌&&◌, ◌||◌, [], ◌∷◌, All, nat_eq, Bool-cases, inl, inr,
  arith,
}
use grain_guard.Gateway.Signup.{Text, is_slug_char, dashed, collapsed, slug_of}

abbrev IsAllowed : ℕ → Type 0
IsAllowed c = (is_slug_char c || nat_eq c b'-') ≡ true

-- Lower-case letters, digits and dashes, with no dash next to another; the flag says whether a dash
-- comes before.
abbrev pub IsSlug : Bool → Text → Type 0
IsSlug after [] = Unit
IsSlug after (c ∷ cs) = IsAllowed c × ((after && nat_eq c b'-') ≡ false) × IsSlug (nat_eq c b'-') cs

dashed-IsAllowed : (cs : Text) → All IsAllowed (dashed cs)
dashed-IsAllowed [] = tt
dashed-IsAllowed (c ∷ cs) = elim (Bool-cases (is_slug_char c)) [
  | inl e ↦ rw (e, e) (refl, dashed-IsAllowed cs)
  | inr e ↦ rw e (refl, dashed-IsAllowed cs)
]

collapsed-IsSlug : (after : Bool) (cs : Text) → All IsAllowed cs → IsSlug after (collapsed after cs)
collapsed-IsSlug after [] h = tt
collapsed-IsSlug after (c ∷ cs) h =
    let i = collapsed-IsSlug (nat_eq c b'-') cs h.1 in
    elim (Bool-cases (after && nat_eq c b'-')) [
      | inl e ↦
          let q : nat_eq c b'-' ≡ after = ground (arith, e) in
          rw e (subst (λ a. IsSlug a (collapsed (nat_eq c b'-') cs)) q i)
      | inr e ↦ rw e (h.0, e, i)
    ]

-- The slug of an organization has only lower-case letters, digits and dashes, and no two dashes
-- follow one another, whatever its name is.
pub slug_of-IsSlug : (lower : Text → Text) (name : Text) → IsSlug false (slug_of lower name)
slug_of-IsSlug lower name =
    collapsed-IsSlug false (dashed (lower name)) (dashed-IsAllowed (lower name))
