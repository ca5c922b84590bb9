-- ===== src/Jobs/Reconcile/Capacity.antt =====
-- The enabled devices of the tenant, and the devices of the others, after a reconciliation.
use grain_guard.Prelude.{
  ℕ, zero, suc, min, String, ◌≡◌, ◌≢◌, sym, ◌∙◌, refl, eq_iff, Bool, true, false, not, ◌&&◌, none,
  some, List, [], ◌∷◌, map, arith, ℤ, pos, negsuc, is_minus_one, select, update, All, ◌==◌,
  Bool-cases, inl, inr,
}
use grain_guard.Database.{Database, Device, device_count}
use grain_guard.Jobs.Reconcile.{
  sort_devices, number_from, rank_of, ranked, set_disabled, reconcile_devices,
  reconcile_tenant_devices,
}
use grain_guard.Jobs.Reconcile.Ranks.{
  count, HasDistinctIds, HasDistinctIds-select, HasDistinctIds-sort_devices, count-sort_devices,
  ranks_within, count-ranks_within, All-sort_devices, All-select, All-ne_sym, length-sort_devices,
}

abbrev pub of_tenant : String → Device → Bool
of_tenant tenant_id d = d.tenant_id == tenant_id

-- SELECT COUNT(*) FROM devices WHERE tenant_id = t AND disabled = FALSE
abbrev pub enabled_count : String → List Device → ℕ
enabled_count tenant_id ds = count (λ d. of_tenant tenant_id d && not d.disabled) ds

-- The devices of `ds` that are ranked at all.
abbrev is_ranked : List (String × ℕ) → Device → Bool
is_ranked ranks d = elim (rank_of d.id ranks) [ none ↦ false | some _ ↦ true ]

is_ranked-number_from :
    (n : ℕ) (ds : List Device) (d : Device)
    → count (λ e. e.id == d.id) ds ≢ 0
    → is_ranked (number_from n ds) d ≡ true
unfolding number_from rank_of
is_ranked-number_from n [] d h = absurd (h refl)
is_ranked-number_from n (e ∷ es) d h = ground (arith, is_ranked-number_from (suc n) es d)

module _ (tenant_id : String) where
  abbrev ours : List Device → List Device
  ours ds = select (of_tenant tenant_id) ds

  abbrev IsCounted : List Device → Device → Type 0
  IsCounted whole d =
      of_tenant tenant_id d ≡ true → count (λ (e : Device). e.id == d.id) (ours whole) ≢ 0

  IsCounted-cons :
      (x : Device) (whole : List Device) (ds : List Device)
      → All (IsCounted whole) ds
      → All (IsCounted (x ∷ whole)) ds
  IsCounted-cons x whole [] h = tt
  IsCounted-cons x whole (d ∷ ds) (p, h) = ((λ t. ground (arith, p t)), IsCounted-cons x whole ds h)

  IsCounted-self : (ds : List Device) → All (IsCounted ds) ds
  IsCounted-self [] = tt
  IsCounted-self (d ∷ ds) =
      ((λ t. ground (arith, eq_iff d.id d.id)), IsCounted-cons d ds ds (IsCounted-self ds))

  abbrev IsRanked : List (String × ℕ) → Device → Type 0
  IsRanked ranks d = of_tenant tenant_id d ≡ true → is_ranked ranks d ≡ true

  IsRanked-of_IsCounted :
      (whole ds : List Device)
      → All (IsCounted whole) ds
      → All (IsRanked (ranked tenant_id whole)) ds
  unfolding ranked
  IsRanked-of_IsCounted whole [] h = tt
  IsRanked-of_IsCounted whole (d ∷ ds) (p, h) = (
    (λ t.
        is_ranked-number_from 1 (sort_devices (ours whole)) d
          (λ z. p t (sym (count-sort_devices (λ e. e.id == d.id) (ours whole)) ∙ z))),
    IsRanked-of_IsCounted whole ds h,
  )

  enabled-map :
      (k : ℕ) (ranks : List (String × ℕ)) (ds : List Device)
      → All (IsRanked ranks) ds
      → enabled_count tenant_id (map (set_disabled ranks (pos k)) ds)
        ≡ count (ranks_within k ranks) (ours ds)
  unfolding set_disabled
  enabled-map k ranks [] h = refl
  enabled-map k ranks (d ∷ ds) (p, h) = ground (arith, p, enabled-map k ranks ds h)

  -- A finite limit: afterwards the tenant has as many enabled devices as it has devices, but no
  -- more than the limit.
  pub enabled-reconcile_devices :
      (k : ℕ) (ds : List Device)
      → HasDistinctIds ds
      → enabled_count tenant_id (reconcile_devices tenant_id (pos k) ds)
        ≡ min k (count (of_tenant tenant_id) ds)
  unfolding reconcile_devices
  enabled-reconcile_devices k ds h =
      let sorted = sort_devices (ours ds) in
      enabled-map k (ranked tenant_id ds) ds (IsRanked-of_IsCounted ds ds (IsCounted-self ds))
      ∙ sym (count-sort_devices (ranks_within k (ranked tenant_id ds)) (ours ds))
      ∙ (unfold ranked in
          count-ranks_within k 0 sorted (
            HasDistinctIds-sort_devices (ours ds)
              (HasDistinctIds-select (of_tenant tenant_id) ds h)))
      ∙ omega (arith, length-sort_devices (ours ds))

  -- No device of another tenant has the id of one of ours.
  IsApart : List Device → Device → Type 0
  IsApart whole d = of_tenant tenant_id d ≡ false → All (λ (e : Device). e.id ≢ d.id) (ours whole)

  IsApart-cons :
      (x : Device) (whole ds : List Device)
      → All (λ (e : Device). x.id ≢ e.id) ds
      → All (IsApart whole) ds
      → All (IsApart (x ∷ whole)) ds
  unfolding IsApart
  IsApart-cons x whole [] a h = tt
  IsApart-cons x whole (d ∷ ds) (ne, a) (p, h) = (
    (λ t. elim (Bool-cases (of_tenant tenant_id x)) [
      | inl b ↦ rw b (ne, p t)
      | inr b ↦ rw b (p t)
    ]),
    IsApart-cons x whole ds a h,
  )

  IsApart-self : (ds : List Device) → HasDistinctIds ds → All (IsApart ds) ds
  unfolding IsApart
  IsApart-self [] h = tt
  IsApart-self (d ∷ ds) (a, h) = (
    (λ t. rw t (
        All-ne_sym d.id (ours ds)
          (All-select (λ (e : Device). d.id ≢ e.id) (of_tenant tenant_id) ds a))),
    IsApart-cons d ds ds a (IsApart-self ds h),
  )

  rank_of-number_from :
      (n : ℕ) (id : String) (ds : List Device)
      → All (λ (e : Device). e.id ≢ id) ds
      → rank_of id (number_from n ds) ≡ none
  unfolding rank_of number_from
  rank_of-number_from n id [] h = refl
  rank_of-number_from n id (e ∷ es) (p, h) =
      ground (arith, eq_iff e.id id, rank_of-number_from (suc n) id es h)

  abbrev pub theirs : List Device → List Device
  theirs ds = select (λ d. not (of_tenant tenant_id d)) ds

  IsApart-unranked :
      (whole : List Device) (d : Device)
      → IsApart whole d
      → of_tenant tenant_id d ≡ false
      → rank_of d.id (ranked tenant_id whole) ≡ none
  unfolding IsApart ranked
  IsApart-unranked whole d p t =
      rank_of-number_from 1 d.id (sort_devices (ours whole))
        (All-sort_devices (λ (e : Device). e.id ≢ d.id) (ours whole) (p t))

  theirs-map :
      (whole : List Device) (limit : ℤ) (ds : List Device)
      → All (IsApart whole) ds
      → theirs (map (set_disabled (ranked tenant_id whole) limit) ds) ≡ theirs ds
  unfolding set_disabled
  theirs-map whole limit [] h = refl
  theirs-map whole limit (d ∷ ds) (p, h) =
      ground (arith, IsApart-unranked whole d p, theirs-map whole limit ds h)

  theirs-update :
      (ds : List Device)
      → theirs (
          update
            (λ (d : Device). d.tenant_id == tenant_id && d.disabled)
            (λ d. record d { disabled = false })
            ds)
        ≡ theirs ds
  theirs-update [] = refl
  theirs-update (d ∷ ds) = ground (arith, theirs-update ds)

  -- The devices of other tenants are the same as before, in the same order.
  pub theirs-reconcile_devices :
      (limit : ℤ) (ds : List Device)
      → HasDistinctIds ds
      → theirs (reconcile_devices tenant_id limit ds) ≡ theirs ds
  unfolding reconcile_devices
  theirs-reconcile_devices limit ds h = elim (Bool-cases (is_minus_one limit)) [
    | inl b ↦ rw b (theirs-update ds)
    | inr b ↦ rw b (theirs-map ds limit ds (IsApart-self ds h))
  ]

  -- The limit -1: afterwards every device of the tenant is enabled.
  pub enabled_unlimited :
      (ds : List Device)
      → enabled_count tenant_id (reconcile_devices tenant_id (negsuc 0) ds)
        ≡ count (of_tenant tenant_id) ds
  unfolding reconcile_devices
  enabled_unlimited [] = refl
  enabled_unlimited (d ∷ ds) = ground (arith, enabled_unlimited ds)

-- What a limit leaves room for among `n` devices.
unfoldable pub capacity : ℤ → ℕ → ℕ
capacity (pos k) n = min k n
capacity (negsuc n) m = m

-- Where the ids of the devices differ pairwise and the limit is -1 or a count, a reconciliation
-- leaves the tenant with as many enabled devices as the limit has room for, and the devices of
-- all other tenants as they were.
pub reconcile_tenant_devices-capacity :
    (tenant_id : String) (limit : ℤ) (db : Database)
    → HasDistinctIds db.devices
    → ((n : ℕ) → limit ≢ negsuc (suc n))
    → (enabled_count tenant_id (reconcile_tenant_devices tenant_id limit db).devices
        ≡ capacity limit (device_count db tenant_id))
      × (theirs tenant_id (reconcile_tenant_devices tenant_id limit db).devices
          ≡ theirs tenant_id db.devices)
unfolding reconcile_tenant_devices capacity
reconcile_tenant_devices-capacity t (pos k) db h ne =
    (enabled-reconcile_devices t k db.devices h, theirs-reconcile_devices t (pos k) db.devices h)
reconcile_tenant_devices-capacity t (negsuc zero) db h ne =
    (enabled_unlimited t db.devices, theirs-reconcile_devices t (negsuc 0) db.devices h)
reconcile_tenant_devices-capacity t (negsuc (suc n)) db h ne = absurd (ne n refl)
