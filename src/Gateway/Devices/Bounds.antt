-- ===== src/Gateway/Devices/Bounds.antt =====
-- How many devices a tenant can get to by registering them one after the other.
use grain_guard.Prelude.{
  ℕ, suc, ◌≤◌, ◌<◌, ◌≡◌, refl, sym, subst, String, Bool, true, not, Option, none, some, ℤ, pos,
  negsuc, zero, List, [], ◌∷◌, All, select, length, any, if-intro, Bool-cases, inl, inr, arith,
  ◌==◌, eq_iff,
}
use grain_guard.Database.{Device, Database, Tenant, tenant_row, device_count}
use grain_guard.Gateway.Import.{Text}
use grain_guard.Gateway.Quota.{
  Verdict, next, payment_required, device_quota_middleware, quota_limit_for_plan, effective_plan,
}
use grain_guard.Gateway.Quota.Laws.{HasRoom, device_quota_middleware_next_iff}
use grain_guard.Gateway.Team.{User}
use grain_guard.Gateway.Devices.{
  DeviceRequest, get_quota, delete_device, post_device, DeviceReply, refused, device_not_found,
  is_device, new_device, created_device, register_device, behind_quota, post, delete,
  handle_devices, DeviceCall, run_devices,
}

-- A limit lets no more than `n` devices be.
abbrev pub AtMost : ℕ → ℤ → Type 0
AtMost n (pos k) = k ≤ n
AtMost n (negsuc zero) = ⊥
AtMost n (negsuc (suc m)) = Unit

room-lt : (n k : ℕ) (limit : ℤ) → AtMost n limit → HasRoom limit k → k < n
room-lt n k (pos l) h r = omega arith
room-lt n k (negsuc zero) h r = absurd h
room-lt n k (negsuc (suc m)) h r = absurd r

-- The query of the quota answers.
abbrev pub Asks : DeviceRequest → Type 0
Asks get_quota = Unit
Asks (delete_device i) = Unit
Asks (post_device serial answers created) = answers ≡ true

behind-intro :
    (Q : DeviceReply × Database → Type 0) (v : Verdict) (r : DeviceReply × Database) (db : Database)
    → (v ≡ next → Q r)
    → ((x : DeviceReply) → Q (x, db))
    → Q (behind_quota v r db)
behind-intro Q next r db h k = h refl
behind-intro Q (payment_required q) r db h k = k (refused q)

length-removed-le :
    (p q : Device → Bool) (ds : List Device)
    → length (select p (select q ds)) ≤ length (select p ds)
length-removed-le p q [] = omega arith
length-removed-le p q (d ∷ ds) = ground (arith, length-removed-le p q ds)

module _ (t : String) (named : t ≡ "" → ⊥) (n : ℕ) (row : Tenant) where
  -- The row of the tenant, and no more than `n` devices.
  record IsBounded (db : Database) : Type 0 where
    known : tenant_row db t ≡ some row
    few : device_count db t ≤ n

  abbrev Bounded : DeviceReply × Database → Type 0
  Bounded r = IsBounded r.1

  -- A call at a time at which the limit of the tenant's plan is no more than `n`.
  pub record Fits (c : DeviceCall) : Type 0 where
    pub asks : Asks c.request
    pub limit : AtMost n (quota_limit_for_plan (effective_plan c.now row))

  module _ (db : Database) (b : IsBounded db) where
    added-few :
        (u : User) (now : ℕ) (i : String)
        → (u.tenant_id ≡ t → device_count db t < n)
        → length
            (select (λ (d : Device). d.tenant_id == t) (new_device i u.tenant_id now ∷ db.devices))
          ≤ n
    added-few u now i room = elim (Bool-cases (u.tenant_id == t)) [
      | inl e ↦ let l = room ((eq_iff u.tenant_id t).0 e) in rw e (omega (arith, l))
      | inr e ↦ let f = b.few in rw e f
    ]

    created_device-Bounded :
        (u : User) (now : ℕ) (created : Option String)
        → (u.tenant_id ≡ t → device_count db t < n)
        → Bounded (created_device u now created db)
    created_device-Bounded u now none room = b
    created_device-Bounded u now (some i) room =
        if-intro Bounded (any (is_device i u.tenant_id) db.devices)
          {x = (DeviceReply.registered i, db)} b
          (record { known = b.known; few = added-few u now i room })

    -- Behind a check that lets the request pass there is room for one device more.
    room_of :
        (u : User) (now : ℕ)
        → AtMost n (quota_limit_for_plan (effective_plan now row))
        → device_quota_middleware now (some db) (some u.tenant_id) ≡ next
        → u.tenant_id ≡ t
        → device_count db t < n
    room_of u now l p e =
        let q =
          (device_quota_middleware_next_iff now db t named).0
            (subst (λ i. device_quota_middleware now (some db) (some i) ≡ next) e p) in
        let same : q.0 ≡ row = cc (q.1, b.known) in
        room-lt n (device_count db t) (quota_limit_for_plan (effective_plan now row)) l (
          subst (λ r. HasRoom (quota_limit_for_plan (effective_plan now r)) (device_count db t))
            same q.2)

    post-Bounded :
        (u : User) (now : ℕ) (serial : Option Text) (created : Option String)
        → AtMost n (quota_limit_for_plan (effective_plan now row))
        → Bounded (post u now serial true created db)
    unfolding post
    post-Bounded u now serial created l =
        behind-intro Bounded (device_quota_middleware now (some db) (some u.tenant_id))
          (register_device u now serial created db) db
          (λ p. if-intro Bounded _ (created_device-Bounded u now created (room_of u now l p)) b)
          (λ x. b)

    delete-Bounded : (u : User) (i : String) → Bounded (delete u i db)
    unfolding delete
    delete-Bounded u i =
        let r =
          length-removed-le (λ (d : Device). d.tenant_id == t)
            (λ d. not (is_device i u.tenant_id d)) db.devices in
        let f = b.few in
        if-intro Bounded (any (is_device i u.tenant_id) db.devices) {y = (device_not_found, db)}
          (record { known = b.known; few = omega (arith, r, f) }) b

    handle_devices-Bounded :
        (u : User) (q : DeviceRequest) (now : ℕ)
        → Asks q
        → AtMost n (quota_limit_for_plan (effective_plan now row))
        → Bounded (handle_devices u q now db)
    unfolding handle_devices
    handle_devices-Bounded u get_quota now a l = b
    handle_devices-Bounded u (delete_device i) now a l = delete-Bounded u i
    handle_devices-Bounded u (post_device serial answers created) now a l =
        subst (λ x. Bounded (post u now serial x created db)) (sym a)
          (post-Bounded u now serial created l)

  -- A run of requests on devices, one after the other, by any users, leaves a tenant with no more than
  -- `n` devices where it has no more to begin with, the limit of its plan is at no time of the run more
  -- than `n`, and the queries of the quota answer.
  pub run_devices-le :
      (calls : List DeviceCall) (db : Database)
      → All Fits calls
      → tenant_row db t ≡ some row
      → device_count db t ≤ n
      → device_count (run_devices calls db) t ≤ n
  run_devices-le [] db a k h = h
  run_devices-le (c ∷ rest) db a k h =
      let b =
        handle_devices-Bounded db (record { known = k; few = h }) c.user c.request c.now a.0.asks
          a.0.limit in
      run_devices-le rest (handle_devices c.user c.request c.now db).1 a.1 b.known b.few
