-- ===== src/Gateway/Keys.antt =====
-- apps/gateway/src/routes/apiKeys.ts: the API keys of a tenant. `trim` stands for JavaScript's trim and
-- `digest` for the hexadecimal SHA-256 of a text; identifiers and keys are arguments. The time is in
-- milliseconds. A query that fails is left out.
use grain_guard.Prelude.{
  ℕ, ◌+◌, ◌*◌, String, Bool, true, false, ◌&&◌, Option, none, some, List, ◌∷◌, map, select,
  sort_descending, update, any, is_empty, nat_eq, if◌then◌else◌, ◌==◌,
}
use grain_guard.Gateway.Team.{User, is_admin}

-- api_keys
pub record ApiKey : Type 0 where
  pub id : String
  pub tenant_id : String
  pub name : String
  pub key_hash : String
  pub created_at : ℕ
  pub expires_at : Option ℕ
  pub revoked_at : Option ℕ

-- The columns that a listing selects; last_used_at is left out.
pub record KeyView : Type 0 where
  pub id : String
  pub name : String
  pub created_at : ℕ
  pub expires_at : Option ℕ
  pub revoked_at : Option ℕ

abbrev view_of_key : ApiKey → KeyView
view_of_key k = record {
  id = k.id;
  name = k.name;
  created_at = k.created_at;
  expires_at = k.expires_at;
  revoked_at = k.revoked_at;
}

-- ORDER BY created_at DESC
abbrev list_of : String → List ApiKey → List KeyView
list_of t rows = map view_of_key (
    sort_descending (λ (k : ApiKey). k.created_at) (select (λ (k : ApiKey). k.tenant_id == t) rows))

pub data KeyRequest : Type 0 where
  list_keys : KeyRequest
  create_key : Option String → Option ℕ → String → String → KeyRequest
  revoke_key : String → KeyRequest

pub data KeyReply : Type 0 where
  refused : ℕ → String → KeyReply
  keys : List KeyView → KeyReply
  issued : String → String → ℕ → Option ℕ → String → KeyReply
  revoked : KeyReply

abbrev pub is_unnamed : (String → String) → Option String → Bool
is_unnamed trim none = true
is_unnamed trim (some name) = is_empty (trim name)

abbrev key_name : (String → String) → Option String → String
key_name trim none = ""
key_name trim (some name) = trim name

-- expiresInDays ? … : null
abbrev expiry : ℕ → Option ℕ → Option ℕ
expiry now none = none
expiry now (some days) = if nat_eq days 0 then none else some (now + days * 24 * 60 * 60 * 1000)

abbrev is_unrevoked : ApiKey → Bool
is_unrevoked k = elim k.revoked_at [ none ↦ true | some t ↦ false ]

-- WHERE id = $1 AND tenant_id = $2 AND revoked_at IS NULL
abbrev pub is_live_key : String → String → ApiKey → Bool
is_live_key i t k = k.id == i && k.tenant_id == t && is_unrevoked k

abbrev pub revoke : ℕ → ApiKey → ApiKey
revoke now k = record k { revoked_at = some now }

module _ (trim digest : String → String) where
  abbrev pub new_key : User → Option String → Option ℕ → String → String → ℕ → ApiKey
  new_key u name days id raw now = record {
    id = id;
    tenant_id = u.tenant_id;
    name = key_name trim name;
    key_hash = digest raw;
    created_at = now;
    expires_at = expiry now days;
    revoked_at = none;
  }

  unfoldable pub post_key :
      User → Option String → Option ℕ → String → String → ℕ → List ApiKey → KeyReply × List ApiKey
  post_key u name days id raw now rows =
      if is_unnamed trim name then (refused 400 "name is required", rows) else (
        issued id (key_name trim name) now (expiry now days) raw,
        new_key u name days id raw now ∷ rows,
      )

  unfoldable pub route_keys : User → KeyRequest → ℕ → List ApiKey → KeyReply × List ApiKey
  unfolding post_key
  route_keys u list_keys now rows = (keys (list_of u.tenant_id rows), rows)
  route_keys u (create_key name days id raw) now rows = post_key u name days id raw now rows
  route_keys u (revoke_key i) now rows =
      if any (is_live_key i u.tenant_id) rows
      then (revoked, update (is_live_key i u.tenant_id) (revoke now) rows)
      else (refused 404 "key_not_found_or_already_revoked", rows)

  -- A request of a signed-in user; requireAdmin comes first.
  unfoldable pub handle_keys : User → KeyRequest → ℕ → List ApiKey → KeyReply × List ApiKey
  unfolding route_keys
  handle_keys u q now rows =
      let r = route_keys u q now rows in if is_admin u then r else (refused 403 "forbidden", rows)
