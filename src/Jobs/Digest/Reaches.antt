-- ===== src/Jobs/Digest/Reaches.antt =====
-- Whom a run of the weekly digest reaches.
use grain_guard.Prelude.{
  ℕ, ◌≡◌, refl, ap, ◌∙◌, String, Bool, true, false, ◌&&◌, ◌||◌, List, [], ◌∷◌, ◌++◌, map, select,
  any, if◌then◌else◌, Bool-cases, inl, inr, arith, ◌==◌, eq_iff,
}
use grain_guard.Database.{TenantUser}
use grain_guard.Gateway.Preferences.{PreferenceRow}
use grain_guard.Jobs.Digest.{
  NamedTenant, DigestTables, Digest, DigestEmail, DigestAnswers, opted_in, addresses_of,
  subscribers, digest_email, send_digest_for_tenant, has_subscriber, send_digests, run_digest_cycle,
}

module _ {A : Type 0} (p : A → Bool) where
  any-append : (xs ys : List A) → any p (xs ++ ys) ≡ (any p xs || any p ys)
  any-append [] ys = refl
  any-append (x ∷ xs) ys = ground (arith, any-append xs ys)

  -- A test that a false search implies to fail.
  any-false :
      (q : A → Bool) (xs : List A)
      → ((x : A) → q x ≡ true → p x ≡ true)
      → any p xs ≡ false
      → any q xs ≡ false
  any-false q [] k h = refl
  any-false q (x ∷ xs) k h = ground (arith, k x, any-false q xs k)

-- A digest for a tenant to an address.
abbrev pub is_to : String → String → DigestEmail → Bool
is_to t a e = e.tenant_id == t && e.to == a

-- A member of a tenant with an address who has opted in.
abbrev pub subscribes_as : String → String → List PreferenceRow → TenantUser → Bool
subscribes_as t a ps u = u.email == a && any (opted_in t u) ps

any-addresses_of :
    (t a : String) (u : TenantUser) (ps : List PreferenceRow)
    → any (λ b. b == a) (addresses_of t u ps) ≡ (u.email == a && any (opted_in t u) ps)
any-addresses_of t a u [] = ground arith
any-addresses_of t a u (p ∷ ps) = ground (arith, any-addresses_of t a u ps)

any-subscribers :
    (t a : String) (us : List TenantUser) (ps : List PreferenceRow)
    → any (λ b. b == a) (subscribers t us ps) ≡ any (subscribes_as t a ps) us
any-subscribers t a [] ps = refl
any-subscribers t a (u ∷ us) ps =
    any-append (λ b. b == a) (addresses_of t u ps) (subscribers t us ps)
    ∙ rw (any-addresses_of t a u ps, any-subscribers t a us ps) refl

module _ (render : String → Digest → String) (subject : String → String) (answers : DigestAnswers)
    (week_ago : ℕ) (db : DigestTables) (t a : String) where
  any-map :
      (tenant : NamedTenant) (bs : List String)
      → any (is_to t a) (map (digest_email render subject answers week_ago db tenant) bs)
        ≡ (tenant.id == t && any (λ b. b == a) bs)
  any-map tenant [] = ground arith
  any-map tenant (b ∷ bs) = ground (arith, any-map tenant bs)

  abbrev subscribed : Bool
  subscribed = any (subscribes_as t a db.preferences) db.users

  abbrev pub is_served : NamedTenant → Bool
  is_served tenant = tenant.id == t && answers.users t && answers.counts t

  from_users :
      (tenant : NamedTenant) (counts : Bool) (us : List String)
      → any (is_to t a) (elim us [
        | [] ↦ []
        | u ∷ vs ↦
            if counts
            then map (digest_email render subject answers week_ago db tenant) (u ∷ vs)
            else []
      ])
        ≡ (counts && tenant.id == t && any (λ b. b == a) us)
  from_users tenant true [] = ground arith
  from_users tenant false [] = refl
  from_users tenant true (u ∷ us) = any-map tenant (u ∷ us)
  from_users tenant false (u ∷ us) = refl

  send_digest-reaches :
      (tenant : NamedTenant)
      → any (is_to t a) (send_digest_for_tenant render subject answers week_ago db tenant)
        ≡ (is_served tenant && subscribed)
  unfolding send_digest_for_tenant
  send_digest-reaches tenant =
      let us = subscribers tenant.id db.users db.preferences in
      let f = from_users tenant (answers.counts tenant.id) us in
      let s = any-subscribers t a db.users db.preferences in
      elim (Bool-cases (tenant.id == t)) [
        | inl e ↦
            let q = (eq_iff tenant.id t).0 e in
            let x = ap answers.users q in
            let y = ap answers.counts q in
            let z = ap (λ i. any (λ b. b == a) (subscribers i db.users db.preferences)) q in
            ground (arith, f, s, e, x, y, z)
        | inr e ↦ ground (arith, f, e)
      ]

  -- A tenant that the query leaves out has no subscribers.
  no_opted_in :
      (tenant : NamedTenant) (u : TenantUser) (p : PreferenceRow)
      → (tenant.id == t) ≡ true
      → opted_in t u p ≡ true
      → (p.tenant_id == tenant.id && p.email_weekly_digest) ≡ true
  no_opted_in tenant u p e h = ground (
    arith,
    h,
    e,
    eq_iff tenant.id t,
    eq_iff u.tenant_id t,
    eq_iff p.tenant_id u.tenant_id,
    eq_iff p.tenant_id tenant.id,
  )

  no_subscribed :
      (tenant : NamedTenant) (us : List TenantUser)
      → (tenant.id == t) ≡ true
      → has_subscriber render subject answers week_ago db tenant ≡ false
      → any (subscribes_as t a db.preferences) us ≡ false
  no_subscribed tenant [] e h = refl
  no_subscribed tenant (u ∷ us) e h =
      let i = no_subscribed tenant us e h in
      let f =
        any-false (λ (p : PreferenceRow). p.tenant_id == tenant.id && p.email_weekly_digest)
          (opted_in t u) db.preferences (λ p. no_opted_in tenant u p e) h in
      ground (arith, i, f)

  no_subscriber :
      (tenant : NamedTenant)
      → has_subscriber render subject answers week_ago db tenant ≡ false
      → (is_served tenant && subscribed) ≡ false
  no_subscriber tenant h = elim (Bool-cases (tenant.id == t)) [
    | inl e ↦ let n = no_subscribed tenant db.users e h in ground (arith, n)
    | inr e ↦ ground (arith, e)
  ]

  send_digests-reaches :
      (tenants : List NamedTenant)
      → any (is_to t a) (
          send_digests render subject answers week_ago db
            (select (has_subscriber render subject answers week_ago db) tenants))
        ≡ (any is_served tenants && subscribed)
  send_digests-reaches [] = refl
  send_digests-reaches (x ∷ xs) =
      let i = send_digests-reaches xs in
      elim (Bool-cases (has_subscriber render subject answers week_ago db x)) [
        | inl e ↦
            let f = send_digest-reaches x in
            rw e (
              any-append (is_to t a) (send_digest_for_tenant render subject answers week_ago db x) (
                send_digests render subject answers week_ago db
                  (select (has_subscriber render subject answers week_ago db) xs))
              ∙ ground (arith, f, i))
        | inr e ↦ let n = no_subscriber x e in rw e (ground (arith, i, n))
      ]

  -- A run queues a digest of a tenant to an address exactly where its query for the tenants answers,
  -- the tenant is there and the queries for it answer, whatever those for other tenants do, and the
  -- tenant has a member of that address whose own preferences in the tenant ask for the weekly digest.
  pub run_digest_cycle-reaches :
      any (is_to t a) (run_digest_cycle render subject answers week_ago db) ≡ (
        answers.tenants
        && any (λ (x : NamedTenant). x.id == t && answers.users t && answers.counts t) db.tenants
        && any (λ (u : TenantUser). u.email == a && any (opted_in t u) db.preferences) db.users)
  unfolding run_digest_cycle
  run_digest_cycle-reaches = let s = send_digests-reaches db.tenants in ground (arith, s)
