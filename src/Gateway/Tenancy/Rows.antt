-- ===== src/Gateway/Tenancy/Rows.antt =====
-- What UPDATE and DELETE on the rows of one tenant leave of the rows of another.
use grain_guard.Prelude.{
  String, Bool, true, false, not, ◌≡◌, refl, List, [], ◌∷◌, select, update, ◌==◌, eq_iff, arith,
  Bool-cases, inl, inr,
}

module _ {A : Type 0} (tenant : A → String) where
  abbrev pub of_tenant : String → List A → List A
  of_tenant t rows = select (λ r. tenant r == t) rows

  -- No row of tenant `t` passes the test.
  abbrev pub Spares : String → (A → Bool) → Type 0
  Spares t p = (r : A) → p r ≡ true → (tenant r == t) ≡ false

  pub of_tenant-update :
      (t : String) (p : A → Bool) (f : A → A) (rows : List A)
      → Spares t p
      → ((r : A) → tenant (f r) ≡ tenant r)
      → of_tenant t (update p f rows) ≡ of_tenant t rows
  of_tenant-update t p f [] s k = refl
  of_tenant-update t p f (r ∷ rows) s k =
      let i = of_tenant-update t p f rows s k in
      elim (Bool-cases (p r)) [ inl e ↦ rw (e, k r, s r e) i | inr e ↦ rw e (ground (arith, i)) ]

  pub of_tenant-select :
      (t : String) (p : A → Bool) (rows : List A)
      → Spares t p
      → of_tenant t (select (λ r. not (p r)) rows) ≡ of_tenant t rows
  of_tenant-select t p [] s = refl
  of_tenant-select t p (r ∷ rows) s =
      let i = of_tenant-select t p rows s in
      elim (Bool-cases (p r)) [ inl e ↦ rw (e, s r e) i | inr e ↦ rw e (ground (arith, i)) ]

  -- The rows of a tenant are among those of the tenants other than another one.
  pub of_tenant-others :
      (t u : String) (rows : List A)
      → (u == t) ≡ false
      → of_tenant t (select (λ r. not (tenant r == u)) rows) ≡ of_tenant t rows
  of_tenant-others t u [] n = refl
  of_tenant-others t u (r ∷ rows) n =
      let i = of_tenant-others t u rows n in ground (arith, i, n, eq_iff (tenant r) u)
