-- ===== src/Gateway/Auth/Tokens.antt =====
-- Which tokens let a request in.
use grain_guard.Prelude.{
  ◌≡◌, refl, subst, String, false, Option, none, some, Bool-cases, or_else, inl, inr, is_empty,
}
use grain_guard.Dashboard.ExportCsv.{Text}
use grain_guard.Gateway.Team.{User}
use grain_guard.Gateway.Auth.{
  Claims, Environment, AuthHeaders, Authentication, next, missing_token, tenant_missing,
  invalid_token, is_value, first_filled, bearer, roles_of, claimed, payload_of, is_bypassed,
  verified, auth_middleware,
}

-- A user as the claims of a token say.
pub record IsClaimed (c : Claims) (u : User) : Type 0 where
  pub sub : u.sub ≡ or_else c.sub ""
  pub tenant : first_filled c.tenant_id c.own_tenant_id ≡ some u.tenant_id
  pub named : is_empty u.tenant_id ≡ false
  pub roles : u.roles ≡ roles_of c.roles c.own_roles

-- The header of a request has a token that verifies, with claims that say who the user is.
pub record IsVerified (verify : Text → Option Claims) (h : AuthHeaders) (u : User) : Type 0 where
  pub token : Text
  pub claims : Claims
  pub sent : bearer h.authorization ≡ some token
  pub valid : verify token ≡ some claims
  pub user : IsClaimed claims u

abbrev Granted : (User → Type 0) → Authentication → Type 0
Granted P (next u) = P u
Granted P missing_token = Unit
Granted P tenant_missing = Unit
Granted P invalid_token = Unit

claimed-IsClaimed :
    (c : Claims) (o : Option String)
    → first_filled c.tenant_id c.own_tenant_id ≡ o
    → Granted (IsClaimed c) (claimed c o)
claimed-IsClaimed c none e = tt
claimed-IsClaimed c (some t) e = elim (Bool-cases (is_empty t)) [
  | inl b ↦ rw b tt
  | inr b ↦ rw b (record { sub = refl; tenant = e; named = b; roles = refl })
]

imp-Granted :
    (P Q : User → Type 0) (a : Authentication)
    → ((u : User) → P u → Q u)
    → Granted P a
    → Granted Q a
imp-Granted P Q (next u) f p = f u p
imp-Granted P Q missing_token f p = tt
imp-Granted P Q tenant_missing f p = tt
imp-Granted P Q invalid_token f p = tt

module _ (verify : Text → Option Claims) (h : AuthHeaders) where
  payload-IsVerified :
      (token : Text) (o : Option Claims)
      → bearer h.authorization ≡ some token
      → verify token ≡ o
      → Granted (IsVerified verify h) (payload_of o)
  payload-IsVerified token none s v = tt
  payload-IsVerified token (some c) s v =
      imp-Granted (IsClaimed c) (IsVerified verify h)
        (claimed c (first_filled c.tenant_id c.own_tenant_id))
        (λ u k. record { token = token; claims = c; sent = s; valid = v; user = k })
        (claimed-IsClaimed c (first_filled c.tenant_id c.own_tenant_id) refl)

  verified-IsVerified :
      (o : Option Text)
      → bearer h.authorization ≡ o
      → Granted (IsVerified verify h) (verified verify o)
  verified-IsVerified none s = tt
  verified-IsVerified (some token) s = payload-IsVerified token (verify token) s refl

  production_checks :
      (env : Environment) → env.node_env ≡ some "production" → is_bypassed env ≡ false
  production_checks env p = elim (Bool-cases (is_value "false" env.auth_enabled)) [
    | inl b ↦ rw (b, p) refl
    | inr b ↦ rw b refl
  ]

  -- In production, a request is let in as a user only where its header has a bearer token that
  -- verifies; the identifier of the user, the tenant, which is not empty, and the roles are those
  -- that the claims of the token name, where an identifier that is missing is the empty text.
  pub auth_middleware-IsVerified :
      (env : Environment) (u : User)
      → env.node_env ≡ some "production"
      → auth_middleware verify env h ≡ next u
      → IsVerified verify h u
  unfolding auth_middleware
  auth_middleware-IsVerified env u p e =
      let n = production_checks env p in
      subst (Granted (IsVerified verify h)) e
        (rw n (verified-IsVerified (bearer h.authorization) refl))
