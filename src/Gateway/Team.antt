-- ===== src/Gateway/Team.antt =====
-- apps/gateway/src/routes/teamMembers.ts: members and invitations of a tenant. `trim` and `lower`
-- stand for JavaScript's trim and toLowerCase; identifiers and tokens made by uuid are arguments.
-- The mail and role calls to Auth0, whose failures are ignored, are left out.
-- A query outside the transaction of an acceptance does not reject.
pub mod Invitations
pub mod Members
pub mod Roles
pub mod Tokens
pub mod Tenancy
mod Tests
use grain_guard.Prelude.{
  ℕ, ◌+◌, String, Bool, true, false, not, ◌&&◌, Option, none, some, List, [], ◌∷◌, ◌++◌, select,
  find, update, any, includes, is_empty, if◌then◌else◌, ltb, ◌==◌,
}
use grain_guard.Database.{TenantUser}

pub record User : Type 0 where
  pub sub : String
  pub tenant_id : String
  pub roles : List String

pub record Invite : Type 0 where
  pub id : String
  pub tenant_id : String
  pub email : String
  pub role : String
  pub invited_by : String
  pub token : String
  pub accepted_at : Option ℕ
  pub expires_at : ℕ

pub record AuditEntry : Type 0 where
  pub tenant_id : String
  pub actor_id : String
  pub event_type : String
  pub resource_id : String

-- The tables tenant_users and tenant_invites, the names of the tenants, and the audit log.
pub record Team : Type 0 where
  pub users : List TenantUser
  pub invites : List Invite
  pub names : List (String × String)
  pub audit : List AuditEntry

pub data Reply : Type 0 where
  error : ℕ → String → Reply
  members : List TenantUser → Reply
  invites : List Invite → Reply
  invited : String → String → String → Reply
  invite_info : String → String → Reply
  accepted : String → String → Reply
  changed : TenantUser → Reply
  deleted : Reply

pub data Request : Type 0 where
  list_members list_invites : Request
  invite : Option String → Option String → String → String → Request
  info : String → Request
  accept : String → String → Bool → Request
  set_role : String → String → Request
  remove_member revoke_invite : String → Request

abbrev pub write_audit_log : User → String → String → String → Team → Team
write_audit_log u tenant event resource db = record db {
  audit =
      record { tenant_id = tenant; actor_id = u.sub; event_type = event; resource_id = resource }
      ∷ db.audit;
}

-- WHERE id = i AND tenant_id = t
abbrev pub is_member : String → String → TenantUser → Bool
is_member i t r = r.id == i && r.tenant_id == t

abbrev pub is_invite : String → String → Invite → Bool
is_invite i t r = r.id == i && r.tenant_id == t

abbrev pub is_admin : User → Bool
is_admin u = includes "admin" u.roles

-- accepted_at IS NULL AND expires_at > NOW()
abbrev pub is_open : ℕ → Invite → Bool
is_open now r = elim r.accepted_at [ none ↦ ltb now r.expires_at | some t ↦ false ]

abbrev pub week : ℕ
week = 604800000
