-- ===== src/Gateway/Account/Erasure.antt =====
-- Erasure and the administrators of a tenant.
use grain_guard.Prelude.{
  suc, ◌+◌, ◌≤◌, ◌≡◌, ◌≢◌, ◌∙◌, ◌&&◌, ap, refl, String, Bool, true, false, not, none, some, List,
  [], ◌∷◌, select, find, any, Maybe, length, nat_eq, leb, ◌==◌, arith, Bool-cases, Option-cases,
  inl, inr,
}
use grain_guard.Database.{Tenant, Device, Billing, TenantUser, Database, tenant_row}
use grain_guard.Gateway.Team.{User}
use grain_guard.Gateway.Account.{
  is_admin_of, is_user, without_tenant, without_user, is_last_admin, delete_me,
}

abbrev pub HasAdmin : String → Database → Type 0
HasAdmin t db = any (is_admin_of t) db.users ≡ true

-- No row of the tenant is left in these four tables; its audit events are kept by the code.
pub record IsErased (t : String) (db : Database) : Type 0 where
  pub no_tenant : tenant_row db t ≡ none
  pub no_users : select (λ (r : TenantUser). r.tenant_id == t) db.users ≡ []
  pub no_devices : select (λ (d : Device). d.tenant_id == t) db.devices ≡ []
  pub no_billing : select (λ (b : Billing). b.tenant_id == t) db.billing ≡ []

module _ {A : Type 0} (p : A → Bool) where
  select-not : (xs : List A) → select p (select (λ x. not (p x)) xs) ≡ []
  select-not [] = refl
  select-not (x ∷ xs) =
      let i = select-not xs in elim (Bool-cases (p x)) [ inl e ↦ rw e i | inr e ↦ rw (e, e) i ]

  find-not : (xs : List A) → find p (select (λ x. not (p x)) xs) ≡ none
  find-not [] = refl
  find-not (x ∷ xs) =
      let i = find-not xs in elim (Bool-cases (p x)) [ inl e ↦ rw e i | inr e ↦ rw (e, e) i ]

  any-length : (xs : List A) → any p xs ≡ true → 1 ≤ length (select p xs)
  any-length [] h = absurd (ground arith)
  any-length (x ∷ xs) h = elim (Bool-cases (p x)) [
    | inl e ↦ rw e (ground arith)
    | inr e ↦ rw e (any-length xs (rw e at h))
  ]

  length-any : (xs : List A) → 1 ≤ length (select p xs) → any p xs ≡ true
  length-any [] h = absurd (ground arith)
  length-any (x ∷ xs) h = elim (Bool-cases (p x)) [
    | inl e ↦ rw e refl
    | inr e ↦ rw e (length-any xs (rw e at h))
  ]

-- How many rows that pass the test `p` a removal by the test `q` leaves.
module _ {A : Type 0} (p q : A → Bool) where
  length-removed :
      (xs : List A)
      → length (select p xs)
        ≡ length (select p (select (λ x. not (q x)) xs)) + length (select p (select q xs))
  length-removed [] = omega arith
  length-removed (x ∷ xs) = ground (arith, length-removed xs)

  length-both : (xs : List A) → length (select p (select q xs)) ≤ length (select q xs)
  length-both [] = omega arith
  length-both (x ∷ xs) = ground (arith, length-both xs)

  -- Where only one row passes `q`, and it does not pass `p`.
  length-none :
      (xs : List A)
      → Maybe (λ r. p r ≡ false) (find q xs)
      → length (select q xs) ≤ 1
      → length (select p (select q xs)) ≡ 0
  length-none [] n h = refl
  length-none (x ∷ xs) n h =
      let b = length-both xs in
      elim (Bool-cases (q x)) [
        | inl e ↦
            let m : p x ≡ false = rw e at n in
            let l : suc (length (select q xs)) ≤ 1 = rw e at h in rw (e, m) (omega (arith, b, l))
        | inr e ↦ rw e (length-none xs (rw e at n) (rw e at h))
      ]

-- What stays when an account goes: an administrator, the other users and the rows of the tenant.
pub record IsKept (u : User) (db db' : Database) : Type 0 where
  pub has_admin : HasAdmin u.tenant_id db'
  pub others :
      select (λ r. not (is_user u.tenant_id u.sub r)) db'.users
      ≡ select (λ r. not (is_user u.tenant_id u.sub r)) db.users
  pub tenants : db'.tenants ≡ db.tenants
  pub devices : db'.devices ≡ db.devices
  pub billing : db'.billing ≡ db.billing

module _ {A : Type 0} (p q : A → Bool) where
  any-removed : (xs : List A) → any p (select (λ x. not (q x)) xs) ≡ any (λ x. p x && not (q x)) xs
  any-removed [] = refl
  any-removed (x ∷ xs) = ground (arith, any-removed xs)

  select-again : (xs : List A) → select q (select q xs) ≡ select q xs
  select-again [] = refl
  select-again (x ∷ xs) = elim (Bool-cases (q x)) [
    | inl e ↦ rw (e, e) (ap (λ l. x ∷ l) (select-again xs))
    | inr e ↦ rw e (select-again xs)
  ]

  -- A row that is found by `q` and passes `p`.
  length-found :
      (xs : List A)
      → Maybe (λ r. p r ≡ true) (find q xs)
      → find q xs ≢ none
      → 1 ≤ length (select p (select q xs))
  length-found [] h n = absurd (n refl)
  length-found (x ∷ xs) h n = elim (Bool-cases (q x)) [
    | inl e ↦ let m : p x ≡ true = rw e at h in rw (e, m) (omega arith)
    | inr e ↦ rw e (length-found xs (rw e at h) (rw e at n))
  ]

found-tenant :
    (t sub : String) (r : TenantUser) (rows : List TenantUser)
    → find (is_user t sub) rows ≡ some r
    → (r.tenant_id == t) ≡ true
found-tenant t sub r [] e = cc
found-tenant t sub r (x ∷ xs) e = ground (arith, found-tenant t sub r xs)

module _ (u : User) (db : Database) where
  abbrev pub other_admin : Bool
  other_admin = any (λ r. is_admin_of u.tenant_id r && not (is_user u.tenant_id u.sub r)) db.users

  abbrev own : TenantUser → Bool
  own = is_user u.tenant_id u.sub

  abbrev admin : TenantUser → Bool
  admin = is_admin_of u.tenant_id

  without_tenant-IsErased : IsErased u.tenant_id (without_tenant u.tenant_id db)
  without_tenant-IsErased = record {
    no_tenant = find-not (λ (r : Tenant). r.id == u.tenant_id) db.tenants;
    no_users = select-not (λ (r : TenantUser). r.tenant_id == u.tenant_id) db.users;
    no_devices = select-not (λ (d : Device). d.tenant_id == u.tenant_id) db.devices;
    no_billing = select-not (λ (b : Billing). b.tenant_id == u.tenant_id) db.billing;
  }

  other_left : other_admin ≡ true → any admin (select (λ x. not (own x)) db.users) ≡ true
  other_left o = any-removed admin own db.users ∙ o

  -- Beside another administrator, a user is not the last one.
  other_not_last :
      (r : TenantUser)
      → find own db.users ≡ some r
      → other_admin ≡ true
      → is_last_admin u.tenant_id r db ≡ false
  other_not_last r f o = elim (Bool-cases (r.role == "admin")) [
    | inl e ↦
        let total = length-removed admin own db.users in
        let left = any-length admin (select (λ x. not (own x)) db.users) (other_left o) in
        let mine =
          length-found admin own db.users
            (rw f (rw (found-tenant u.tenant_id u.sub r db.users f, e) refl)) (rw f (cc)) in
        let many : nat_eq (length (select admin db.users)) 1 ≡ false =
          ground (arith, total, left, mine) in
        rw (e, many) refl
    | inr e ↦ rw e refl
  ]

  IsKept-same : HasAdmin u.tenant_id db → IsKept u db db
  IsKept-same a = record {
    has_admin = a;
    others = refl;
    tenants = refl;
    devices = refl;
    billing = refl;
  }

  without_user-IsKept : other_admin ≡ true → IsKept u db (without_user u.tenant_id u.sub db)
  without_user-IsKept o = record {
    has_admin = other_left o;
    others = select-again admin (λ x. not (own x)) db.users;
    tenants = refl;
    devices = refl;
    billing = refl;
  }

  no_other : other_admin ≡ false → length (select admin (select (λ x. not (own x)) db.users)) ≡ 0
  no_other o =
      elim (Bool-cases (leb 1 (length (select admin (select (λ x. not (own x)) db.users))))) [
        | inl e ↦
            let some_left =
              length-any admin (select (λ x. not (own x)) db.users) (ground (arith, e)) in
            cc (any-removed admin own db.users, some_left, o)
        | inr e ↦ ground (arith, e)
      ]

  -- An administrator beside whom there is no other one.
  alone-last :
      HasAdmin u.tenant_id db
      → length (select own db.users) ≤ 1
      → other_admin ≡ false
      → (r : TenantUser) × ((find own db.users ≡ some r) × (is_last_admin u.tenant_id r db ≡ true))
  alone-last a one o =
      let total = length-removed admin own db.users in
      let some_admin = any-length admin db.users a in
      let both = length-both admin own db.users in
      let left = no_other o in
      elim (Option-cases (find own db.users)) [
        | inl f ↦
            let gone = length-none admin own db.users (rw f tt) one in
            absurd (omega (arith, total, some_admin, left, gone))
        | inr m ↦
            let f = m.1 in
            elim (Bool-cases (m.0.role == "admin")) [
              | inl e ↦
                  let last : nat_eq (length (select admin db.users)) 1 ≡ true =
                    ground (arith, total, some_admin, both, left, one) in
                  (m.0, (f, rw (e, last) refl))
              | inr e ↦
                  let gone = length-none admin own db.users (rw f (rw e (ground arith))) one in
                  absurd (omega (arith, total, some_admin, left, gone))
            ]
      ]

  -- Where the tenant of a user has an administrator and the user at most one row in it (the rows are
  -- UNIQUE), and nobody else changes the database while the user erases the own account: if another
  -- user is an administrator, then the tenant has an administrator afterwards, and its row, its
  -- devices, its billing and its other users are as before, whether or not the database answers; if no
  -- other user is, and the database answers, then no row of the tenant is left in these tables.
  pub delete_me-HasAdmin :
      (answers : Bool)
      → HasAdmin u.tenant_id db
      → length (select (is_user u.tenant_id u.sub) db.users) ≤ 1
      → (other_admin ≡ true → IsKept u db (delete_me answers u db).1)
        × (other_admin ≡ false → answers ≡ true → IsErased u.tenant_id (delete_me answers u db).1)
  unfolding delete_me
  delete_me-HasAdmin false a one = ((λ o. IsKept-same a), (λ o e. cc))
  delete_me-HasAdmin true a one = (
    (λ o. elim (Option-cases (find own db.users)) [
      | inl f ↦ rw (f, delete_me) (IsKept-same a)
      | inr (r, f) ↦ rw (f, delete_me, other_not_last r f o) (without_user-IsKept o)
    ]),
    (λ o e.
        let x = alone-last a one o in
        let f = x.1.0 in let l = x.1.1 in rw (f, delete_me, l) without_tenant-IsErased),
  )
