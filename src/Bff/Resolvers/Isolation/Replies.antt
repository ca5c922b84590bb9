-- ===== src/Bff/Resolvers/Isolation/Replies.antt =====
-- The replies to the members of a tenant.
use grain_guard.Prelude.{
  ℕ, ◌≡◌, refl, ◌∙◌, String, Bool, false, not, Option, none, some, Maybe, All-find, option-intro,
  Bool-cases, inl, inr, if◌then◌else◌, ◌==◌,
}
use grain_guard.Bff.Redis.{Key, get, set, acquire_lock}
use grain_guard.Bff.Source.{
  Telemetry, Tables, DeviceRow, Json, device, telemetry_node, get_device_with_telemetry,
  get_device_telemetry,
}
use grain_guard.Bff.Resolvers.{
  Context, device_key, device_telemetry_key, is_foreign, Store, Reply, null, threw, value, node_of,
}
use grain_guard.Bff.Resolvers.Handlers.{
  resolve_device, resolve_device_telemetry, cache_get_or_lock, telemetry_body, after_lock,
}
use grain_guard.Bff.Resolvers.Isolation.{IsConsistent, Owned, IsPartitioned, Serves}
use grain_guard.Bff.Resolvers.Isolation.Entries.{
  get-Owned, set-IsPartitioned, acquire_lock-IsPartitioned, release_lock-IsPartitioned, Serves-if,
}
use grain_guard.Bff.Resolvers.Isolation.Queries.{own_row, get_device_with_telemetry-owner}

module _ {Reading : Type 0} (owner : String → String) where
  module _ (answers : Bool) (db : Tables Reading) (now later : ℕ) (ctx : Context)
      (member : ctx.is_super_admin ≡ false) (consistent : IsConsistent owner db) where
    guarded_row :
        (tenant : String) (k : Key) (j : Json Reading) (ttl : ℕ) (r : Store Reading)
        → k.tenant ≡ some ctx.tenant_id
        → (tenant ≡ ctx.tenant_id → Owned owner ctx.tenant_id j)
        → IsPartitioned owner r
        → Serves owner ctx.tenant_id
            (if is_foreign ctx tenant then (null, r) else (value j, set now k j ttl r))
    guarded_row tenant k j ttl r e h p = elim (Bool-cases (is_foreign ctx tenant)) [
      | inl f ↦ rw f (record { reply = tt; store = p })
      | inr f ↦ rw f (record {
        reply = h (own_row ctx tenant member f);
        store =
            set-IsPartitioned owner ctx.tenant_id now ttl k j r e (h (own_row ctx tenant member f))
              p;
      })
    ]

    pub resolve_device-Serves :
        (id : String) (r : Store Reading)
        → IsPartitioned owner r
        → Serves owner ctx.tenant_id (resolve_device answers db now ctx id r)
    unfolding resolve_device
    resolve_device-Serves id r p =
        option-intro (Owned owner ctx.tenant_id) (Serves owner ctx.tenant_id)
          (get now (device_key ctx id) r)
          (get-Owned owner ctx.tenant_id now (device_key ctx id) r refl p)
          (Serves-if owner ctx.tenant_id (not answers) (threw, r) _
            (record { reply = tt; store = p })
            (option-intro (λ (d : DeviceRow Reading). owner d.device_id ≡ d.tenant_id)
              (Serves owner ctx.tenant_id) (get_device_with_telemetry db id)
              (get_device_with_telemetry-owner owner db id consistent)
              (record { reply = tt; store = p })
              (λ d h.
                guarded_row d.tenant_id (device_key ctx id) (device d) 300 r refl (λ e. h ∙ e) p)))
          (λ j h. record { reply = h; store = p })

    get_device_telemetry-owner :
        (id : String)
        → Maybe
            (λ (t : Telemetry Reading). owner t.device_id ≡ t.tenant_id)
            (get_device_telemetry db id)
    unfolding get_device_telemetry
    get_device_telemetry-owner id =
        All-find (λ (t : Telemetry Reading). owner t.device_id ≡ t.tenant_id)
          (λ (t : Telemetry Reading). t.device_id == id) db.telemetry consistent.telemetry

    telemetry_body-Serves :
        (id : String) (r : Store Reading)
        → IsPartitioned owner r
        → Serves owner ctx.tenant_id (telemetry_body answers db now ctx id r)
    telemetry_body-Serves id r p =
        Serves-if owner ctx.tenant_id (not answers) (threw, r) _ (record { reply = tt; store = p })
          (option-intro (λ (t : Telemetry Reading). owner t.device_id ≡ t.tenant_id)
            (Serves owner ctx.tenant_id) (get_device_telemetry db id)
            (get_device_telemetry-owner id) (record { reply = tt; store = p })
            (λ t h.
              guarded_row t.tenant_id (device_telemetry_key ctx id) (telemetry_node (node_of t)) 30
                r refl (λ e. h ∙ e) p))

    after_miss-Serves :
        (k : Key) (body : Store Reading → Reply Reading × Store Reading) (o : Option (Json Reading))
        (r : Store Reading)
        → ((s : Store Reading) → IsPartitioned owner s → Serves owner ctx.tenant_id (body s))
        → Maybe (Owned owner ctx.tenant_id) o
        → IsPartitioned owner r
        → Serves owner ctx.tenant_id (after_lock k body ((o, false), r))
    after_miss-Serves k body none r h m p = record { reply = (h r p).reply; store = (h r p).store }
    after_miss-Serves k body (some j) r h m p = record { reply = m; store = p }

    -- The lock, a body that serves, and the release of the lock.
    pub after_lock-Serves :
        (k : Key) (body : Store Reading → Reply Reading × Store Reading) (r : Store Reading)
        → k.tenant ≡ some ctx.tenant_id
        → ((s : Store Reading) → IsPartitioned owner s → Serves owner ctx.tenant_id (body s))
        → IsPartitioned owner r
        → Serves owner ctx.tenant_id (after_lock k body (cache_get_or_lock now k r))
    unfolding cache_get_or_lock
    after_lock-Serves k body r e h p = elim (Bool-cases (acquire_lock now k 5 r).0) [
      | inl q ↦ rw q (
          let s = h (acquire_lock now k 5 r).1 (acquire_lock-IsPartitioned owner now 5 k r p) in
          record { reply = s.reply; store = release_lock-IsPartitioned owner k _ s.store })
      | inr q ↦
          rw q (
            after_miss-Serves k body (get now k r) r h (get-Owned owner ctx.tenant_id now k r e p)
              p)
    ]

    pub resolve_device_telemetry-Serves :
        (id : String) (r : Store Reading)
        → IsPartitioned owner r
        → Serves owner ctx.tenant_id (resolve_device_telemetry answers db now ctx id r)
    unfolding resolve_device_telemetry
    resolve_device_telemetry-Serves id r p =
        option-intro (Owned owner ctx.tenant_id) (Serves owner ctx.tenant_id)
          (get now (device_telemetry_key ctx id) r)
          (get-Owned owner ctx.tenant_id now (device_telemetry_key ctx id) r refl p)
          (after_lock-Serves (device_telemetry_key ctx id) (telemetry_body answers db now ctx id) r
            refl (telemetry_body-Serves id) p)
          (λ j h. record { reply = h; store = p })
