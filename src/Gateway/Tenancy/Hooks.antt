-- ===== src/Gateway/Tenancy/Hooks.antt =====
-- The webhook endpoints of the tenants that a request is not about.
use grain_guard.Prelude.{
  String, Bool, true, false, not, ◌≡◌, refl, Option, none, some, List, find, any, is_empty,
  if-intro, any-intro, ◌==◌, eq_iff, arith,
}
use text.Mathlib.Text.{starts_with}
use grain_guard.Gateway.Team.{User, is_admin}
use grain_guard.Gateway.Webhooks.{
  Webhook, Endpoints, Call, Response, list_webhooks, create_webhook, patch_webhook, delete_webhook,
  list_deliveries, test_webhook, patched, post_webhook, patch, remove, route_webhooks,
  handle_webhooks, is_list, is_webhook, is_taken,
}
use grain_guard.Gateway.Tenancy.Rows.{of_tenant, of_tenant-update, of_tenant-select}

module _ (t : String) (u : User) (stranger : (u.tenant_id == t) ≡ false) where
  abbrev pub webhooks_of : List Webhook → List Webhook
  webhooks_of rows = of_tenant (λ (w : Webhook). w.tenant_id) t rows

  is_webhook-Spares :
      (i : String) (w : Webhook) → is_webhook i u.tenant_id w ≡ true → (w.tenant_id == t) ≡ false
  is_webhook-Spares i w e = ground (arith, e, stranger, eq_iff w.tenant_id u.tenant_id)

  module _ (db : Endpoints) where
    pub record SparesWebhooks (r : Response × Endpoints) : Type 0 where
      pub webhooks : webhooks_of r.1.webhooks ≡ webhooks_of db.webhooks

    patch-Spares :
        (i : String) (description : Option String) (enabled : Option Bool)
        (types : Option (List String))
        → SparesWebhooks (patch u i description enabled types db)
    unfolding patch
    patch-Spares i description enabled types =
        any-intro SparesWebhooks (find (is_webhook i u.tenant_id) db.webhooks)
          (record { webhooks = refl })
          (λ w. record {
            webhooks =
                of_tenant-update (λ (v : Webhook). v.tenant_id) t (is_webhook i u.tenant_id)
                  (patched description enabled types) db.webhooks (is_webhook-Spares i) (λ v. refl);
          })

    remove-Spares : (i : String) → SparesWebhooks (remove u i db)
    unfolding remove
    remove-Spares i =
        if-intro SparesWebhooks (any (is_webhook i u.tenant_id) db.webhooks)
          (record {
            webhooks =
                of_tenant-select (λ (v : Webhook). v.tenant_id) t (is_webhook i u.tenant_id)
                  db.webhooks (is_webhook-Spares i);
          })
          (record { webhooks = refl })

    post_webhook-Spares :
        (trim : String → String) (parses : String → Bool) (url description : Option String)
        (types : Option (List String)) (id secret : String)
        → SparesWebhooks (post_webhook trim parses u url description types id secret db)
    unfolding post_webhook
    post_webhook-Spares trim parses none description types id secret = record { webhooks = refl }
    post_webhook-Spares trim parses (some url) description types id secret =
        if-intro SparesWebhooks (is_empty (trim url)) (record { webhooks = refl })
          (if-intro SparesWebhooks (not (parses url)) (record { webhooks = refl })
            (if-intro SparesWebhooks (not (starts_with url "https://")) (record { webhooks = refl })
              (if-intro SparesWebhooks (any (is_taken u.tenant_id (trim url)) db.webhooks)
                (record { webhooks = refl }) (record { webhooks = rw stranger refl }))))

    route_webhooks-Spares :
        (trim : String → String) (parses : String → Bool) (q : Call)
        → SparesWebhooks (route_webhooks trim parses u q db)
    unfolding route_webhooks
    route_webhooks-Spares trim parses list_webhooks = record { webhooks = refl }
    route_webhooks-Spares trim parses (create_webhook url description types id secret) =
        post_webhook-Spares trim parses url description types id secret
    route_webhooks-Spares trim parses (patch_webhook i description enabled types) =
        patch-Spares i description enabled types
    route_webhooks-Spares trim parses (delete_webhook i) = remove-Spares i
    route_webhooks-Spares trim parses (list_deliveries i) = record { webhooks = refl }
    route_webhooks-Spares trim parses (test_webhook i success status) = record { webhooks = refl }

    pub handle_webhooks-Spares :
        (trim : String → String) (parses : String → Bool) (q : Call)
        → SparesWebhooks (handle_webhooks trim parses u q db)
    unfolding handle_webhooks
    handle_webhooks-Spares trim parses q =
        let r = route_webhooks-Spares trim parses q in
        if-intro SparesWebhooks (is_list q) r
          (if-intro SparesWebhooks (is_admin u) r (record { webhooks = refl }))
