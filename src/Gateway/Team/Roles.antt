-- ===== src/Gateway/Team/Roles.antt =====
-- Who may change a team, and which roles its rows can hold.
use grain_guard.Prelude.{
  ℕ, String, Bool, true, false, not, ◌≡◌, ◌⊎◌, inl, inr, refl, sym, Option, none, some, [], ◌∷◌,
  All, find, includes, if◌then◌else◌, arith, All-select, All-update, All-find, Bool-cases, if-intro,
  option-intro, is_empty, ◌==◌, eq_iff,
}
use grain_guard.Database.{TenantUser}
use grain_guard.Gateway.Team.{
  User, Invite, Team, Reply, error, Request, list_members, list_invites, invite, info, accept,
  set_role, remove_member, revoke_invite, is_member, is_invite, is_admin,
}
use grain_guard.Gateway.Team.Invitations.{
  member_role, mark_accepted, post_invite, post_accept, accept_invite,
}
use grain_guard.Gateway.Team.Members.{
  handle, route, needs_admin, with_role, put_role, delete_member, delete_invite,
}

-- A user whose token has no role "admin" is answered 403 by every route that needs it, and the
-- tables and the audit log stay as they are.
pub handle-not_admin :
    (trim lower : String → String) (u : User) (q : Request) (now : ℕ) (db : Team)
    → needs_admin q ≡ true
    → is_admin u ≡ false
    → handle trim lower u q now db ≡ (error 403 "admin_required", db)
unfolding handle
handle-not_admin trim lower u q now db h k = rw (h, k)

abbrev pub IsRole : String → Type 0
IsRole role = (role ≡ "admin") ⊎ (role ≡ "member")

-- The CHECK of the column role in both tables.
abbrev pub HasRoles : Team → Type 0
HasRoles db =
    All (λ (r : TenantUser). IsRole r.role) db.users
    × All (λ (r : Invite). IsRole r.role) db.invites

member_role-IsRole : (role : Option String) → IsRole (member_role role)
member_role-IsRole none = inr refl
member_role-IsRole (some role) = if-intro IsRole (role == "admin") (inl refl) (inr refl)

-- What a handler leaves in the tables.
record Leaves (r : Reply × Team) : Type 0 where
  roles : HasRoles r.1

abbrev RoleOk : Invite → Type 0
RoleOk r = IsRole r.role

abbrev MemberOk : TenantUser → Type 0
MemberOk r = IsRole r.role

Leaves-if : (b : Bool) (x y : Reply × Team) → Leaves x → Leaves y → Leaves (if b then x else y)
Leaves-if true x y h k = h
Leaves-if false x y h k = k

Leaves-same : (reply : Reply) (db : Team) → HasRoles db → Leaves (reply, db)
Leaves-same reply db h = record { roles = h }

accept_invite-HasRoles :
    (u : User) (id : String) (now : ℕ) (fails : Bool) (r : Invite) (db : Team)
    → HasRoles db
    → IsRole r.role
    → Leaves (accept_invite u id now fails r db)
unfolding accept_invite
accept_invite-HasRoles u id now fails r db h k =
    let invited' =
      All-update RoleOk (λ i. i.id == r.id) (mark_accepted now) db.invites (λ i e. e) h.1 in
    search (Leaves-if, Leaves-same, h, k, invited') depth 9

post_accept-HasRoles :
    (u : User) (token id : String) (now : ℕ) (fails : Bool) (db : Team)
    → HasRoles db
    → Leaves (post_accept u token id now fails db db)
unfolding post_accept
post_accept-HasRoles u token id now fails db h =
    Leaves-if (is_empty token) _ _ (record { roles = h })
      (option-intro RoleOk Leaves _ (All-find RoleOk _ db.invites h.1) (record { roles = h })
        (λ r k. accept_invite-HasRoles u id now fails r db h k))

post_invite-HasRoles :
    (trim lower : String → String) (u : User) (email role : Option String) (id token : String)
    (now : ℕ) (db : Team)
    → HasRoles db
    → Leaves (post_invite trim lower u email role id token now db)
unfolding post_invite
post_invite-HasRoles trim lower u none role id token now db h = record { roles = h }
post_invite-HasRoles trim lower u (some email) role id token now db h =
    search (Leaves-if, Leaves-same, h, member_role-IsRole role) depth 9

includes-IsRole : (role : String) → includes role ("admin" ∷ "member" ∷ []) ≡ true → IsRole role
includes-IsRole role h = elim (Bool-cases ("admin" == role)) [
  | inl e ↦ inl (sym ((eq_iff "admin" role).0 e))
  | inr e ↦ elim (Bool-cases ("member" == role)) [
    | inl m ↦ inr (sym ((eq_iff "member" role).0 m))
    | inr m ↦ ground arith
  ]
]

put_role-HasRoles :
    (u : User) (i role : String) (db : Team) → HasRoles db → Leaves (put_role u i role db)
unfolding put_role
put_role-HasRoles u i role db h = elim (Bool-cases (includes role ("admin" ∷ "member" ∷ []))) [
  | inr e ↦ rw e (record { roles = h })
  | inl e ↦ rw e (
      option-intro MemberOk Leaves (find (is_member i u.tenant_id) db.users)
        (All-find MemberOk (is_member i u.tenant_id) db.users h.0) (record { roles = h })
        (λ r k. record {
          roles = (
            All-update MemberOk _ (with_role role) db.users (λ x hx. includes-IsRole role e) h.0,
            h.1,
          );
        }))
]

delete_member-HasRoles :
    (u : User) (i : String) (db : Team) → HasRoles db → Leaves (delete_member u i db)
unfolding delete_member
delete_member-HasRoles u i db h =
    option-intro MemberOk Leaves (find (is_member i u.tenant_id) db.users)
      (All-find MemberOk (is_member i u.tenant_id) db.users h.0) (record { roles = h })
      (λ r k.
        let rest = All-select MemberOk (λ m. not (is_member i u.tenant_id m)) db.users h.0 in
        search (Leaves-if, Leaves-same, h, rest) depth 9)

delete_invite-HasRoles :
    (u : User) (i : String) (db : Team) → HasRoles db → Leaves (delete_invite u i db)
unfolding delete_invite
delete_invite-HasRoles u i db h =
    let rest = All-select RoleOk (λ r. not (is_invite i u.tenant_id r)) db.invites h.1 in
    search (Leaves-if, Leaves-same, h, rest) depth 9

route-HasRoles :
    (trim lower : String → String) (u : User) (q : Request) (now : ℕ) (db : Team)
    → HasRoles db
    → Leaves (route trim lower u q now db)
unfolding route
route-HasRoles trim lower u list_members now db h = record { roles = h }
route-HasRoles trim lower u list_invites now db h = record { roles = h }
route-HasRoles trim lower u (info token) now db h = record { roles = h }
route-HasRoles trim lower u (accept token id fails) now db h =
    post_accept-HasRoles u token id now fails db h
route-HasRoles trim lower u (invite email role id token) now db h =
    post_invite-HasRoles trim lower u email role id token now db h
route-HasRoles trim lower u (set_role i role) now db h = put_role-HasRoles u i role db h
route-HasRoles trim lower u (remove_member i) now db h = delete_member-HasRoles u i db h
route-HasRoles trim lower u (revoke_invite i) now db h = delete_invite-HasRoles u i db h

-- Every request, whatever its user and its body, keeps the roles of the members and of the
-- invitations among "admin" and "member".
pub handle-HasRoles :
    (trim lower : String → String) (u : User) (q : Request) (now : ℕ) (db : Team)
    → HasRoles db
    → HasRoles (handle trim lower u q now db).1
unfolding handle
handle-HasRoles trim lower u q now db h =
    let left = route-HasRoles trim lower u q now db h in
    (Leaves-if (needs_admin q) _ _
      (Leaves-if (is_admin u) _ (error 403 "admin_required", db) left (record { roles = h }))
      left).roles
