-- ===== src/Gateway/Team/Members.antt =====
-- teamMembers.ts: the lists, the role of a member, removals, and the router.
use grain_guard.Prelude.{
  ℕ, String, Bool, true, false, not, none, some, [], ◌∷◌, select, find, update, any, includes,
  if◌then◌else◌, ◌==◌,
}
use grain_guard.Database.{TenantUser}
use grain_guard.Gateway.Team.{
  User, Invite, Team, Reply, error, members, invites, changed, deleted, Request, list_members,
  list_invites, invite, info, accept, set_role, remove_member, revoke_invite, write_audit_log,
  is_member, is_invite, is_admin,
}
use grain_guard.Gateway.Team.Invitations.{post_invite, get_info, post_accept}

abbrev pub with_role : String → TenantUser → TenantUser
with_role role r = record r { role = role }

-- PUT /team/members/:id/role, after requireAdmin
unfoldable pub put_role : User → String → String → Team → Reply × Team
put_role u i role db =
    if not (includes role ("admin" ∷ "member" ∷ []))
    then (error 400 "role must be 'admin' or 'member'", db)
    else elim (find (is_member i u.tenant_id) db.users) [
      | none ↦ (error 404 "member_not_found", db)
      | some r ↦ (
        changed (with_role role r),
        write_audit_log u u.tenant_id "team.member_role_changed" i
            (record db { users = update (is_member i u.tenant_id) (with_role role) db.users }),
      )
    ]

-- DELETE /team/members/:id, after requireAdmin
unfoldable pub delete_member : User → String → Team → Reply × Team
delete_member u i db = elim (find (is_member i u.tenant_id) db.users) [
  | none ↦ (error 404 "member_not_found", db)
  | some r ↦ if r.auth_user_id == u.sub then (error 400 "cannot_remove_self", db) else (
    deleted,
    write_audit_log u u.tenant_id "team.member_removed" i
        (record db { users = select (λ m. not (is_member i u.tenant_id m)) db.users }),
  )
]

-- DELETE /team/invites/:id, after requireAdmin
unfoldable pub delete_invite : User → String → Team → Reply × Team
delete_invite u i db =
    if any (is_invite i u.tenant_id) db.invites
    then (
      deleted,
      write_audit_log u u.tenant_id "team.invite_revoked" i
          (record db { invites = select (λ r. not (is_invite i u.tenant_id r)) db.invites }),
    )
    else (error 404 "invite_not_found", db)

-- The requests that start with requireAdmin.
abbrev pub needs_admin : Request → Bool
needs_admin list_members = false
needs_admin (info token) = false
needs_admin (accept token id fails) = false
needs_admin list_invites = true
needs_admin (invite email role id token) = true
needs_admin (set_role i role) = true
needs_admin (remove_member i) = true
needs_admin (revoke_invite i) = true

module _ (trim lower : String → String) where
  unfoldable pub route : User → Request → ℕ → Team → Reply × Team
  unfolding post_invite get_info post_accept put_role delete_member delete_invite
  route u list_members now db =
      (members (select (λ (r : TenantUser). r.tenant_id == u.tenant_id) db.users), db)
  route u list_invites now db =
      (invites (select (λ (r : Invite). r.tenant_id == u.tenant_id) db.invites), db)
  route u (info token) now db = (get_info token now db, db)
  route u (accept token id fails) now db = post_accept u token id now fails db db
  route u (invite email role id token) now db = post_invite trim lower u email role id token now db
  route u (set_role i role) now db = put_role u i role db
  route u (remove_member i) now db = delete_member u i db
  route u (revoke_invite i) now db = delete_invite u i db

  -- A request of a signed-in user; requireAdmin comes first where the route has it.
  unfoldable pub handle : User → Request → ℕ → Team → Reply × Team
  unfolding route
  handle u q now db =
      let r = route u q now db in
      if needs_admin q then (if is_admin u then r else (error 403 "admin_required", db)) else r
