-- ===== src/Gateway/Team/Tests.antt =====
-- A team of two tenants, and the requests of an administrator and of a member.
use grain_guard.Prelude.{String, ◌≡◌, refl, inl, inr, none, [], ◌∷◌, false}
use grain_guard.Database.{TenantUser}
use grain_guard.Gateway.Team.{User, Invite, Team, Reply, error, accepted, revoke_invite}
use grain_guard.Gateway.Team.Invitations.{post_accept, accept_invite}
use grain_guard.Gateway.Team.Members.{handle, delete_member}
use grain_guard.Gateway.Team.Roles.{handle-not_admin, HasRoles}
use grain_guard.Gateway.Team.Tokens.{post_accept-once}

abbrev same : String → String
same s = s

abbrev ada : User
ada = record { sub = "auth0|ada"; tenant_id = "t1"; roles = "admin" ∷ [] }

abbrev bob : User
bob = record { sub = "auth0|bob"; tenant_id = "t1"; roles = "member" ∷ [] }

abbrev ada_row : TenantUser
ada_row = record {
  id = "m1";
  tenant_id = "t1";
  auth_user_id = "auth0|ada";
  email = "ada@x.org";
  role = "admin";
}

abbrev eve_row : TenantUser
eve_row = record {
  id = "m2";
  tenant_id = "t2";
  auth_user_id = "auth0|eve";
  email = "eve@y.org";
  role = "member";
}

abbrev bob_invite : Invite
bob_invite = record {
  id = "i1";
  tenant_id = "t1";
  email = "bob@x.org";
  role = "member";
  invited_by = "auth0|ada";
  token = "k1";
  accepted_at = none;
  expires_at = 1000;
}

abbrev team : Team
team = record {
  users = ada_row ∷ eve_row ∷ [];
  invites = bob_invite ∷ [];
  names = ("t1", "Silo One") ∷ ("t2", "Silo Two") ∷ [];
  audit = [];
}

handle-not_admin_example :
    handle same same bob (revoke_invite "i1") 5 team ≡ (error 403 "admin_required", team)
handle-not_admin_example = handle-not_admin same same bob (revoke_invite "i1") 5 team refl refl

team-HasRoles : HasRoles team
team-HasRoles = ((inl refl, (inr refl, tt)), (inr refl, tt))

post_accept-once_example :
    let left = (post_accept bob "k1" "m3" 5 false team team).1 in
    post_accept bob "k1" "m4" 6 false left left ≡ (error 404 "invite_not_found_or_expired", left)
unfolding post_accept accept_invite
post_accept-once_example =
    let left = (post_accept bob "k1" "m3" 5 false team team).1 in
    post_accept-once bob bob "k1" "m3" "m4" "i1" "t1" "member" 5 6 false false team team left
      ((λ e. refl), tt) ((λ e. refl), tt) refl

abbrev carl : User
carl = record { sub = "auth0|carl"; tenant_id = "t9"; roles = [] }

-- Bob and Carl look up the same token before either accepts: both become members.
abbrev bob_accepts : Reply × Team
bob_accepts = post_accept bob "k1" "m3" 5 false team team

both_accept :
    (bob_accepts.0 ≡ accepted "t1" "member")
    × ((post_accept carl "k1" "m4" 6 false team bob_accepts.1).0 ≡ accepted "t1" "member")
unfolding post_accept accept_invite
both_accept = (refl, refl)

self_removal : delete_member ada "m1" team ≡ (error 400 "cannot_remove_self", team)
unfolding delete_member
self_removal = refl
