-- ===== src/Gateway/Auth.antt =====
-- apps/gateway/src/middleware/auth.ts: who a request is from. `verify` stands for jwtVerify with the
-- key set, the issuer and the audience of the gateway, none where it throws. The scopes, which nothing
-- reads, are left out, and a claim has the type that the source expects of it, but for the roles.
pub mod Tokens
use grain_guard.Prelude.{
  ℕ, String, Bool, true, false, not, ◌&&◌, Option, none, some, List, [], ◌∷◌, nat_eq, or_else,
  is_empty, if◌then◌else◌, ◌==◌,
}
use grain_guard.Dashboard.ExportCsv.{Text, units}
use grain_guard.Gateway.Team.{User}

-- A claim of roles that is there.
pub data RoleClaim : Type 0 where
  array : List String → RoleClaim
  no_array : RoleClaim

-- The claims of a token, and those under https://grainguard.com/.
pub record Claims : Type 0 where
  pub sub : Option String
  pub tenant_id : Option String
  pub roles : Option RoleClaim
  pub own_tenant_id : Option String
  pub own_roles : Option RoleClaim

pub record Environment : Type 0 where
  pub auth_enabled : Option String
  pub node_env : Option String

pub record AuthHeaders : Type 0 where
  pub authorization : Option Text
  pub x_tenant_id : Option String

pub data Authentication : Type 0 where
  next : User → Authentication
  missing_token tenant_missing invalid_token : Authentication

abbrev pub is_value : String → Option String → Bool
is_value s none = false
is_value s (some v) = v == s

-- `a || b` on texts that may be missing.
abbrev pub first_filled : Option String → Option String → Option String
first_filled none b = b
first_filled (some a) b = if is_empty a then b else some a

-- startsWith and substring: the text after a prefix.
abbrev pub strip_prefix : Text → Text → Option Text
strip_prefix [] s = some s
strip_prefix (p ∷ ps) [] = none
strip_prefix (p ∷ ps) (c ∷ cs) = let rest = strip_prefix ps cs in if nat_eq p c then rest else none

abbrev pub bearer : Option Text → Option Text
bearer none = none
bearer (some header) = strip_prefix (units "Bearer ") header

abbrev pub roles_of : Option RoleClaim → Option RoleClaim → List String
roles_of none none = []
roles_of none (some no_array) = []
roles_of none (some (array roles)) = roles
roles_of (some no_array) own = []
roles_of (some (array roles)) own = roles

abbrev pub dev_user : AuthHeaders → User
dev_user h = record {
  sub = "dev-user";
  tenant_id = or_else (first_filled h.x_tenant_id none) "11111111-1111-1111-1111-111111111111";
  roles = "admin" ∷ "member" ∷ [];
}

abbrev pub claimed : Claims → Option String → Authentication
claimed c none = tenant_missing
claimed c (some t) =
    if is_empty t
    then tenant_missing
    else next
        (record { sub = or_else c.sub ""; tenant_id = t; roles = roles_of c.roles c.own_roles })

abbrev pub is_bypassed : Environment → Bool
is_bypassed env = is_value "false" env.auth_enabled && not (is_value "production" env.node_env)

abbrev pub payload_of : Option Claims → Authentication
payload_of none = invalid_token
payload_of (some c) = claimed c (first_filled c.tenant_id c.own_tenant_id)

module _ (verify : Text → Option Claims) where
  abbrev pub verified : Option Text → Authentication
  verified none = missing_token
  verified (some token) = payload_of (verify token)

  unfoldable pub auth_middleware : Environment → AuthHeaders → Authentication
  auth_middleware env h =
      if is_bypassed env then next (dev_user h) else verified (bearer h.authorization)
