-- ===== src/Gateway/Admin/Pages.antt =====
-- What the pages of the list of tenants show together.
use grain_guard.Prelude.{
  ℕ, zero, suc, ◌+◌, ◌-◌, ◌*◌, ◌≤◌, ◌≡◌, refl, ap, ◌∙◌, Bool, true, false, Option, some, ℤ, pos,
  List, [], ◌∷◌, ◌++◌, map, length, take, drop, insert_descending, sort_descending, if◌then◌else◌,
  arith, Bool-cases, inl, inr, sym, IsRearranged, HasNoTies, sort_descending_rearranged,
}
use grain_guard.Dashboard.ExportCsv.{Text}
use grain_guard.Gateway.Team.{User}
use grain_guard.Gateway.Auth.{
  Claims, Environment, AuthHeaders, Authentication, next, missing_token, tenant_missing,
  invalid_token, auth_middleware,
}
use grain_guard.Gateway.Admin.{
  AdminTenant, AdminTables, TenantSummary, AdminReply, denied, superadmin_required,
  tenant_not_found, listed, detail, get_tenants, limit_of, summary, created_at_of, is_superadmin,
  handle_admin,
}

module _ {ℓ} {A : Type ℓ} where
  take-add : (n m : ℕ) (xs : List A) → take (n + m) xs ≡ take n xs ++ take m (drop n xs)
  take-add zero m xs = let e : zero + m ≡ m = omega arith in rw e refl
  take-add (suc n) zero [] = let e : suc n + zero ≡ suc n = omega arith in rw e refl
  take-add (suc n) (suc m) [] = let e : suc n + suc m ≡ suc (suc (n + m)) = omega arith in rw e refl
  take-add (suc n) m (x ∷ xs) =
      let e : suc n + m ≡ suc (n + m) = omega arith in rw e (ap (λ l. x ∷ l) (take-add n m xs))

  take-all : (n : ℕ) (xs : List A) → length xs ≤ n → take n xs ≡ xs
  take-all zero [] h = refl
  take-all zero (x ∷ xs) h = absurd (omega (arith, h))
  take-all (suc n) [] h = refl
  take-all (suc n) (x ∷ xs) h = ap (λ l. x ∷ l) (take-all n xs (omega (arith, h)))

  module _ (key : A → ℕ) where
    length-insert_descending :
        (x : A) (xs : List A) → length (insert_descending key x xs) ≡ suc (length xs)
    length-insert_descending x [] = refl
    length-insert_descending x (y ∷ ys) = ground (arith, length-insert_descending x ys)

    length-sort_descending : (xs : List A) → length (sort_descending key xs) ≡ length xs
    length-sort_descending [] = refl
    length-sort_descending (x ∷ xs) =
        length-insert_descending x (sort_descending key xs) ∙ ap suc (length-sort_descending xs)

map-append {ℓ κ} :
    {A : Type ℓ} {B : Type κ} (f : A → B) (xs ys : List A) → map f (xs ++ ys) ≡ map f xs ++ map f ys
map-append f [] ys = refl
map-append f (x ∷ xs) ys = ap (λ l. f x ∷ l) (map-append f xs ys)

abbrev rows_of : AdminReply → List TenantSummary
rows_of (denied a) = []
rows_of superadmin_required = []
rows_of tenant_not_found = []
rows_of (listed rows) = rows
rows_of (detail row) = []

-- The tables as the query of a page finds them, with the tenants in any order.
abbrev pub with_tenants : List AdminTenant → AdminTables → AdminTables
with_tenants rows db = record db { tenants = rows }

-- The rows of the first n pages, one request after the other; `orders` is how each query finds the
-- rows of the tenants.
abbrev pub first_pages :
    Authentication → Option ℤ → (ℕ → List AdminTenant) → AdminTables → ℕ → List TenantSummary
first_pages a limit orders db zero = []
first_pages a limit orders db (suc n) =
    first_pages a limit orders db n
    ++ rows_of
        (handle_admin a (get_tenants (some (pos (suc n))) limit) (with_tenants (orders n) db))

abbrev is_operator : Authentication → Bool
is_operator (next u) = is_superadmin u
is_operator missing_token = false
is_operator tenant_missing = false
is_operator invalid_token = false

-- The tenants, the newest first.
abbrev pub newest_first : AdminTables → List TenantSummary
newest_first db = map (summary db) (sort_descending created_at_of db.tenants)

module _ (limit : Option ℤ) (orders : ℕ → List AdminTenant) (db : AdminTables)
    (found : (n : ℕ) → IsRearranged db.tenants (orders n))
    (no_ties : HasNoTies created_at_of db.tenants) where
  abbrev sorted : List AdminTenant
  sorted = sort_descending created_at_of db.tenants

  first_pages-take :
      (u : User) (n : ℕ)
      → is_superadmin u ≡ true
      → first_pages (next u) limit orders db n ≡ map (summary db) (take (n * limit_of limit) sorted)
  unfolding handle_admin
  first_pages-take u zero s = let e : zero * limit_of limit ≡ zero = omega arith in rw e refl
  first_pages-take u (suc n) s =
      let l = limit_of limit in
      let more : suc n * l ≡ n * l + l = omega arith in
      let before : suc n - 1 ≡ n = omega arith in
      let same =
        sym (sort_descending_rearranged created_at_of db.tenants (orders n) (found n) no_ties) in
      rw
        (
          s,
          same,
          first_pages-take u n s,
          more,
          take-add (n * l) l sorted,
          before,
          map-append (summary db) (take (n * l) sorted) (take l (drop (n * l) sorted)),
        )
        refl

  first_pages-none :
      (a : Authentication) (n : ℕ) → is_operator a ≡ false → first_pages a limit orders db n ≡ []
  unfolding handle_admin
  first_pages-none a zero s = refl
  first_pages-none (next u) (suc n) s = rw (first_pages-none (next u) n s, s) refl
  first_pages-none missing_token (suc n) s = rw (first_pages-none missing_token n s) refl
  first_pages-none tenant_missing (suc n) s = rw (first_pages-none tenant_missing n s) refl
  first_pages-none invalid_token (suc n) s = rw (first_pages-none invalid_token n s) refl

  shown_to :
      (a : Authentication) (n : ℕ)
      → length db.tenants ≤ n * limit_of limit
      → first_pages a limit orders db n ≡ (if is_operator a then newest_first db else [])
  shown_to (next u) n k = elim (Bool-cases (is_superadmin u)) [
    | inl s ↦
        let enough : length sorted ≤ n * limit_of limit =
          omega (arith, k, length-sort_descending created_at_of db.tenants) in
        rw (s, first_pages-take u n s)
          (ap (map (summary db)) (take-all (n * limit_of limit) sorted enough))
    | inr s ↦ rw s (first_pages-none (next u) n s)
  ]
  shown_to missing_token n k = first_pages-none missing_token n refl
  shown_to tenant_missing n k = first_pages-none tenant_missing n refl
  shown_to invalid_token n k = first_pages-none invalid_token n refl

module _ (verify : Text → Option Claims) (env : Environment) (h : AuthHeaders) where
  -- Where no two tenants were made at the same time and no tenant changes in between, a client that
  -- asks for the pages of the list of tenants one after the other, from the first one, is shown each
  -- tenant with its counts, the newest first, once there are as many pages as the tenants take and
  -- whatever order the queries find the rows in, where its requests are authenticated as a super
  -- administrator's; else it is shown nothing.
  pub first_pages-newest_first :
      (limit : Option ℤ) (orders : ℕ → List AdminTenant) (db : AdminTables) (n : ℕ)
      → ((m : ℕ) → IsRearranged db.tenants (orders m))
      → HasNoTies created_at_of db.tenants
      → length db.tenants ≤ n * limit_of limit
      → first_pages (auth_middleware verify env h) limit orders db n
        ≡ (if is_operator (auth_middleware verify env h) then newest_first db else [])
  first_pages-newest_first limit orders db n found no_ties k =
      shown_to limit orders db found no_ties (auth_middleware verify env h) n k
