-- ===== src/Gateway/Tenancy/Serve.antt =====
-- Which tenants' rows the requests of a user reach.
use grain_guard.Prelude.{ℕ, String, Bool, false, ◌≡◌, refl, sym, ap, ◌∙◌, List, [], ◌∷◌, All, ◌==◌}
use grain_guard.Database.{TenantUser}
use grain_guard.Gateway.Team.{User, Invite}
use grain_guard.Gateway.Team.Members.{handle}
use grain_guard.Gateway.Team.Tenancy.{is_accept, handle-others}
use grain_guard.Gateway.Tenancy.{
  Api, ApiRequest, on_team, on_webhooks, on_rules, on_keys, Signed, own, serve_request, serve,
}
use grain_guard.Gateway.Tenancy.Hooks.{handle_webhooks-Spares}
use grain_guard.Gateway.Tenancy.KeyRows.{handle_keys-Spares}
use grain_guard.Gateway.Tenancy.Alerts.{handle_rules-Spares}
use grain_guard.Gateway.Tenancy.Rows.{of_tenant, of_tenant-others}

-- An acceptance of an invitation joins the tenant of the invitation.
abbrev pub joins : {Number : Type 0} → ApiRequest Number → Bool
joins (on_team q) = is_accept q
joins (on_webhooks q) = false
joins (on_rules q) = false
joins (on_keys q) = false

module _ {Number : Type 0} (trim lower digest : String → String) (parses : String → Bool)
    (t : String) where
  serve_request-own :
      (u : User) (q : ApiRequest Number) (now : ℕ) (api : Api Number)
      → (u.tenant_id == t) ≡ false
      → joins q ≡ false
      → own t (serve_request trim lower digest parses u q now api) ≡ own t api
  serve_request-own u (on_webhooks q) now api n j =
      rw ((handle_webhooks-Spares t u n api.endpoints trim parses q).webhooks) refl
  serve_request-own u (on_rules q) now api n j =
      rw ((handle_rules-Spares t u n api.rules trim q now).rules) refl
  serve_request-own u (on_keys q) now api n j =
      rw ((handle_keys-Spares t u n trim digest api.keys q now).keys) refl
  serve_request-own u (on_team q) now api n j =
      let o = handle-others trim lower u q now api.team j in
      let users =
        sym (
          of_tenant-others (λ (r : TenantUser). r.tenant_id) t u.tenant_id
            (handle trim lower u q now api.team).1.users n)
        ∙ ap (of_tenant (λ (r : TenantUser). r.tenant_id) t) o.0
        ∙ of_tenant-others (λ (r : TenantUser). r.tenant_id) t u.tenant_id api.team.users n in
      let invites =
        sym (
          of_tenant-others (λ (r : Invite). r.tenant_id) t u.tenant_id
            (handle trim lower u q now api.team).1.invites n)
        ∙ ap (of_tenant (λ (r : Invite). r.tenant_id) t) o.1
        ∙ of_tenant-others (λ (r : Invite). r.tenant_id) t u.tenant_id api.team.invites n in
      rw (users, invites) refl

  pub record IsStranger (s : Signed Number) : Type 0 where
    pub elsewhere : (s.user.tenant_id == t) ≡ false
    pub stays : joins s.request ≡ false

  -- In a run of requests on teams, webhooks, alert rules and API keys by users of other tenants than
  -- `t`, of whatever roles and naming whatever identifiers, of which none accepts an invitation, the
  -- members, the invitations, the webhook endpoints, the alert rules and the API keys of tenant `t` stay
  -- as they are.
  pub serve-own :
      (requests : List (Signed Number)) (api : Api Number)
      → All IsStranger requests
      → own t (serve trim lower digest parses requests api) ≡ own t api
  serve-own [] api h = refl
  serve-own (s ∷ rest) api h =
      serve-own rest (serve_request trim lower digest parses s.user s.request s.now api) h.1
      ∙ serve_request-own s.user s.request s.now api h.0.elsewhere h.0.stays
