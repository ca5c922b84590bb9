-- ===== src/Gateway/Team/Invitations.antt =====
-- teamMembers.ts: inviting, the public page of an invitation, and accepting one.
use grain_guard.Prelude.{
  ℕ, ◌+◌, String, Bool, ◌&&◌, Option, none, some, List, ◌∷◌, find, update, any, is_empty,
  if◌then◌else◌, ltb, ◌==◌,
}
use grain_guard.Database.{TenantUser}
use grain_guard.Gateway.Team.{
  User, Invite, Team, Reply, error, invited, invite_info, accepted, write_audit_log, is_open, week,
}

abbrev pub member_role : Option String → String
member_role none = "member"
member_role (some role) = if role == "admin" then "admin" else "member"

abbrev invite_email : User → String → Option String → String → String → ℕ → Team → Reply × Team
invite_email u email role id token now db =
    if any (λ (r : TenantUser). r.tenant_id == u.tenant_id && r.email == email) db.users
    then (error 409 "user_already_member", db)
    else if any (λ (r : Invite). r.tenant_id == u.tenant_id && r.email == email && is_open now r)
        db.invites
    then (error 409 "invite_already_pending", db)
    else (
      invited email (member_role role) token,
      write_audit_log u u.tenant_id "team.member_invited" id (record db {
        invites =
            record {
              id = id;
              tenant_id = u.tenant_id;
              email = email;
              role = member_role role;
              invited_by = u.sub;
              token = token;
              accepted_at = none;
              expires_at = now + week;
            }
            ∷ db.invites;
      }),
    )

module _ (trim lower : String → String) where
  -- POST /team/invite, after requireAdmin
  unfoldable pub post_invite :
      User → Option String → Option String → String → String → ℕ → Team → Reply × Team
  post_invite u none role id token now db = (error 400 "email is required", db)
  post_invite u (some email) role id token now db =
      if is_empty (trim email)
      then (error 400 "email is required", db)
      else invite_email u (lower (trim email)) role id token now db

abbrev name_of : String → List (String × String) → Option (String × String)
name_of t names = find (λ (n : String × String). n.0 == t) names

-- new Date(invite.expires_at) < new Date()
abbrev info_of : ℕ → Invite → String → Reply
info_of now r name = elim r.accepted_at [
  | none ↦ if ltb r.expires_at now then error 410 "invite_expired" else invite_info name r.role
  | some t ↦ error 410 "invite_expired"
]

-- GET /team/invite/info
unfoldable pub get_info : String → ℕ → Team → Reply
get_info token now db =
    if is_empty token
    then error 400 "token is required"
    else elim (find (λ (r : Invite). r.token == token) db.invites) [
      | none ↦ error 404 "invite_not_found"
      | some r ↦ elim (name_of r.tenant_id db.names) [
        | none ↦ error 404 "invite_not_found"
        | some name ↦ info_of now r name.1
      ]
    ]

abbrev pub mark_accepted : ℕ → Invite → Invite
mark_accepted now r = record r { accepted_at = some now }

-- The transaction: the UNIQUE (tenant_id, auth_user_id) of tenant_users refuses a second row
-- (23505), and `fails` says whether a query of the transaction rejects for another reason.
unfoldable pub accept_invite : User → String → ℕ → Bool → Invite → Team → Reply × Team
accept_invite u id now fails r db =
    if any (λ (m : TenantUser). m.tenant_id == r.tenant_id && m.auth_user_id == u.sub) db.users
    then (error 409 "already_a_member", db)
    else if fails
    then (error 500 "internal_error", db)
    else (
      accepted r.tenant_id r.role,
      write_audit_log u r.tenant_id "team.invite_accepted" r.id (record db {
        users =
            record {
              id = id;
              tenant_id = r.tenant_id;
              auth_user_id = u.sub;
              email = r.email;
              role = r.role;
            }
            ∷ db.users;
        invites = update (λ (i : Invite). i.id == r.id) (mark_accepted now) db.invites;
      }),
    )

-- POST /team/invite/accept: the invitation is looked up in the tables as `seen`, and the transaction
-- finds them as `db`, where other requests may have committed in between.
unfoldable pub post_accept : User → String → String → ℕ → Bool → Team → Team → Reply × Team
post_accept u token id now fails seen db =
    if is_empty token
    then (error 400 "token is required", db)
    else elim (find (λ (r : Invite). r.token == token && is_open now r) seen.invites) [
      | none ↦ (error 404 "invite_not_found_or_expired", db)
      | some r ↦ accept_invite u id now fails r db
    ]
