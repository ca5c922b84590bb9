-- ===== src/Gateway/Sso/Tests.antt =====
-- A tenant that sets up SAML, then OIDC, and then switches single sign-on off.
use grain_guard.Prelude.{◌≡◌, refl, true, false, none, some, List, [], ◌∷◌}
use grain_guard.Gateway.Team.{User}
use grain_guard.Gateway.Auth0.{Outcome, mgmt}
use grain_guard.Gateway.Sso.{
  SsoTenant, Sso, ConnectionBody, SsoCall, post_org, post_saml, post_oidc, connection_of, row_at,
  handle_sso, run_sso, create_org, connect_saml, connect_oidc, disconnect,
}
use grain_guard.Gateway.Sso.Linked.{is_enabled, IsLinked, run_sso-IsLinked}
use grain_guard.Gateway.Sso.Replaced.{replaced_connection_stays}

abbrev ada : User
ada = record { sub = "auth0|ada"; tenant_id = "t1"; roles = "admin" ∷ [] }

abbrev ends : {A : Type 0} → A → Outcome A
ends a = record {
  configured = true;
  now = 5;
  token = some (record { access_token = "k"; expires_in = 86400 });
  received_at = 6;
  response = some a;
  took_effect = false;
  stored = true;
}

abbrev breaks : {A : Type 0} → Outcome A
breaks = record {
  configured = true;
  now = 5;
  token = none;
  received_at = 6;
  response = none;
  took_effect = false;
  stored = true;
}

-- A call that takes effect at Auth0 and whose answer is lost.
abbrev lost : {A : Type 0} → Outcome A
lost = record {
  configured = true;
  now = 5;
  token = some (record { access_token = "k"; expires_in = 86400 });
  received_at = 6;
  response = none;
  took_effect = true;
  stored = true;
}

-- A call that returns, before an UPDATE that fails.
abbrev unstored : {A : Type 0} → A → Outcome A
unstored a = record (ends a) { stored = false }

abbrev body : ConnectionBody
body = record { fields = "Okta" ∷ "https://okta" ∷ []; email_domains = "silo.org" ∷ [] }

abbrev silo : SsoTenant
silo = record {
  id = "t1";
  name = "Silo";
  auth0_org_id = none;
  sso_connection_id = none;
  sso_connection_type = none;
}

abbrev fresh : Sso
fresh = record {
  tenants = silo ∷ [];
  auth0 = record { cached_token = none; token_expiry = 0; calls = [] };
}

abbrev calls : List (User × SsoCall)
calls =
    (ada, post_org (ends "org1"))
    ∷ (ada, post_saml body (ends "c1") (ends tt))
    ∷ (ada, post_oidc body (ends "c2") breaks)
    ∷ (ada, post_oidc body (ends "c3") lost)
    ∷ (ada, post_oidc body (ends "c4") (unstored tt))
    ∷ []

run_sso-IsLinked_example : IsLinked "t1" (run_sso calls fresh)
run_sso-IsLinked_example =
    run_sso-IsLinked "t1" calls fresh (refl, (refl, (refl, (refl, (refl, tt)))))
      (tt, (tt, (tt, (tt, (tt, tt))))) tt

-- The set-ups that broke off left the first connection in the row.
calls_leave : connection_of (row_at "t1" (run_sso calls fresh)) ≡ some "c1"
unfolding handle_sso create_org connect_saml connect_oidc mgmt
calls_leave = refl

abbrev with_org1 : Sso
with_org1 = record fresh { tenants = record silo { auth0_org_id = some "org1" } ∷ [] }

replaced_connection_stays_example :
    (connection_of (
        row_at "t1"
          (disconnect "t1"
            (ends tt)
            (connect_oidc "t1" body
              (ends "c2")
              (ends tt)
              (connect_saml "t1" body (ends "c1") (ends tt) with_org1).1).1).1)
      ≡ none)
    × (is_enabled "org1" "c1"
          (disconnect "t1"
            (ends tt)
            (connect_oidc "t1" body
              (ends "c2")
              (ends tt)
              (connect_saml "t1" body (ends "c1") (ends tt) with_org1).1).1).1.auth0.calls
        ≡ true)
unfolding connect_saml connect_oidc disconnect mgmt
replaced_connection_stays_example =
    replaced_connection_stays "t1" "org1" "c1" "c2" body body (ends "c1") (ends "c2") (ends tt)
      (ends tt) (ends tt) with_org1 refl refl refl refl refl

abbrev set_up : Sso
set_up =
    run_sso ((ada, post_org (ends "org1")) ∷ (ada, post_saml body (ends "c1") (ends tt)) ∷ []) fresh

-- A DELETE whose UPDATE fails leaves the row with a connection that is disabled.
unstored_delete :
    let left = (disconnect "t1" (unstored tt) set_up).1 in
    (connection_of (row_at "t1" left) ≡ some "c1")
    × (is_enabled "org1" "c1" left.auth0.calls ≡ false)
unfolding handle_sso create_org connect_saml disconnect mgmt
unstored_delete = (refl, refl)
