-- ===== src/Gateway/Tenancy/KeyRows.antt =====
-- The API keys of the tenants that a request is not about.
use grain_guard.Prelude.{
  ℕ, String, true, false, ◌≡◌, refl, Option, List, any, if-intro, ◌==◌, eq_iff, arith,
}
use grain_guard.Gateway.Team.{User, is_admin}
use grain_guard.Gateway.Keys.{
  ApiKey, KeyRequest, KeyReply, list_keys, create_key, revoke_key, is_live_key, is_unnamed, revoke,
  post_key, route_keys, handle_keys,
}
use grain_guard.Gateway.Tenancy.Rows.{of_tenant, of_tenant-update}

module _ (t : String) (u : User) (stranger : (u.tenant_id == t) ≡ false) where
  is_live_key-Spares :
      (i : String) (k : ApiKey) → is_live_key i u.tenant_id k ≡ true → (k.tenant_id == t) ≡ false
  is_live_key-Spares i k e = ground (arith, e, stranger, eq_iff k.tenant_id u.tenant_id)

  module _ (trim digest : String → String) (rows : List ApiKey) where
    pub record SparesKeys (r : KeyReply × List ApiKey) : Type 0 where
      pub keys :
          of_tenant (λ (k : ApiKey). k.tenant_id) t r.1
          ≡ of_tenant (λ (k : ApiKey). k.tenant_id) t rows

    post_key-Spares :
        (name : Option String) (days : Option ℕ) (id raw : String) (now : ℕ)
        → SparesKeys (post_key trim digest u name days id raw now rows)
    unfolding post_key
    post_key-Spares name days id raw now =
        if-intro SparesKeys (is_unnamed trim name) (record { keys = refl })
          (record { keys = rw stranger refl })

    route_keys-Spares :
        (q : KeyRequest) (now : ℕ) → SparesKeys (route_keys trim digest u q now rows)
    unfolding route_keys
    route_keys-Spares list_keys now = record { keys = refl }
    route_keys-Spares (create_key name days id raw) now = post_key-Spares name days id raw now
    route_keys-Spares (revoke_key i) now =
        if-intro SparesKeys (any (is_live_key i u.tenant_id) rows)
          (record {
            keys =
                of_tenant-update (λ (k : ApiKey). k.tenant_id) t (is_live_key i u.tenant_id)
                  (revoke now) rows (is_live_key-Spares i) (λ k. refl);
          })
          (record { keys = refl })

    pub handle_keys-Spares :
        (q : KeyRequest) (now : ℕ) → SparesKeys (handle_keys trim digest u q now rows)
    unfolding handle_keys
    handle_keys-Spares q now =
        if-intro SparesKeys (is_admin u) (route_keys-Spares q now) (record { keys = refl })
