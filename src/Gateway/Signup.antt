-- ===== src/Gateway/Signup.antt =====
-- apps/gateway/src/routes/tenants.ts: the sign-up of a tenant, and which tenants Auth0 writes into the
-- tokens of its users (setUserTenantId of lib/auth0Management.ts). `trim` and `lower` stand for
-- JavaScript's trim and toLowerCase on lists of code units; the identifiers are arguments. A column
-- that is only stored is left out, but for the slug, which the reply has.
pub mod Starts
pub mod Slugs
mod Tests
use grain_guard.Prelude.{
  ℕ, String, Bool, true, false, not, ◌&&◌, ◌||◌, Option, none, some, List, [], ◌∷◌, leb, nat_eq,
  is_empty, if◌then◌else◌, ◌==◌,
}
use grain_guard.Database.{Tenant, TenantUser, Database}

abbrev pub Text : Type 0
Text = List ℕ

-- [a-z0-9]
abbrev pub is_slug_char : ℕ → Bool
is_slug_char c = leb b'a' c && leb c b'z' || leb b'0' c && leb c b'9'

-- .replace(/[^a-z0-9]/g, "-")
abbrev pub dashed : Text → Text
dashed [] = []
dashed (c ∷ cs) = (if is_slug_char c then c else b'-') ∷ dashed cs

-- .replace(/-+/g, "-"): a dash that follows a dash goes. The flag says whether one came before.
abbrev pub collapsed : Bool → Text → Text
collapsed after [] = []
collapsed after (c ∷ cs) =
    let rest = collapsed (nat_eq c b'-') cs in if after && nat_eq c b'-' then rest else c ∷ rest

abbrev pub slug_of : (Text → Text) → Text → Text
slug_of lower name = collapsed false (dashed (lower name))

-- How the transaction ends: with its COMMIT, with the violation of a unique constraint, or with
-- another error.
pub data Transaction : Type 0 where
  commits duplicate breaks : Transaction

pub record SignupBody : Type 0 where
  pub org_name : Option Text
  pub email : Option String
  pub auth_user_id : Option String

pub data SignupReply : Type 0 where
  missing already_exists internal_error : SignupReply
  registered : String → Text → SignupReply

-- The database, and what Auth0 has of its users: app_metadata.tenant_id, and the roles assigned.
pub record Platform : Type 0 where
  pub db : Database
  pub metadata : String → Option String
  pub assigned : List (String × String)

-- Which of the two calls of Auth0 it takes; a refusal is caught.
pub record Auth0Answers : Type 0 where
  pub tenant_id : Bool
  pub role : Bool

abbrev pub with_metadata : String → String → (String → Option String) → String → Option String
with_metadata user tenant m v = if user == v then some tenant else m v

abbrev pub first_admin : String → String → String → String → TenantUser
first_admin i t sub email = record {
  id = i;
  tenant_id = t;
  auth_user_id = sub;
  email = email;
  role = "admin";
}

abbrev pub new_tenant : String → Tenant
new_tenant t = record {
  id = t;
  plan = "free";
  subscription_status = "trialing";
  current_period_end = none;
}

abbrev pub with_tenant : String → TenantUser → Database → Database
with_tenant t admin db = record db { tenants = new_tenant t ∷ db.tenants; users = admin ∷ db.users }

module _ (trim : String → String) (trim_text lower : Text → Text) where
  abbrev is_blank : Option String → Bool
  is_blank none = true
  is_blank (some s) = is_empty (trim s)

  abbrev is_blank_text : Option Text → Bool
  is_blank_text none = true
  is_blank_text (some s) = elim (trim_text s) [ [] ↦ true | c ∷ cs ↦ false ]

  abbrev text_of : Option Text → Text
  text_of none = []
  text_of (some s) = s

  abbrev string_of : Option String → String
  string_of none = ""
  string_of (some s) = s

  -- The statements of the transaction and what follows its end.
  abbrev pub registered_as :
      String → String → SignupBody → Transaction → Auth0Answers → Platform → SignupReply × Platform
  registered_as t i b commits answers p = (
    registered t (slug_of lower (text_of b.org_name)),
    record {
      db =
          with_tenant t (first_admin i t (string_of b.auth_user_id) (trim (string_of b.email)))
            p.db;
      metadata =
          if answers.tenant_id
          then with_metadata (string_of b.auth_user_id) t p.metadata
          else p.metadata;
      assigned =
          if answers.role then (string_of b.auth_user_id, "admin") ∷ p.assigned else p.assigned;
    },
  )
  registered_as t i b duplicate answers p = (already_exists, p)
  registered_as t i b breaks answers p = (internal_error, p)

  -- POST /tenants/register, which asks for no token.
  unfoldable pub register :
      String → String → SignupBody → Transaction → Auth0Answers → Platform → SignupReply × Platform
  register t i b transaction answers p =
      if is_blank_text b.org_name || is_blank b.email || is_blank b.auth_user_id
      then (missing, p)
      else registered_as t i b transaction answers p
