-- ===== src/Gateway/Team/Tenancy.antt =====
-- Which rows the requests of a user reach.
use grain_guard.Prelude.{
  ℕ, String, Bool, true, false, not, ◌≡◌, inl, inr, refl, sym, Option, none, some, List, [], ◌∷◌,
  All, find, update, select, arith, ◌==◌, eq_iff, eq_refl, Bool-cases, Option-cases, subst,
  All-find_where, if◌then◌else◌, includes, any, Maybe,
}
use grain_guard.Database.{TenantUser}
use grain_guard.Gateway.Team.{
  User, Invite, Team, Reply, error, Request, list_members, list_invites, invite, info, accept,
  set_role, remove_member, revoke_invite, is_member, is_invite, is_admin,
}
use grain_guard.Gateway.Team.Invitations.{post_invite}
use grain_guard.Gateway.Team.Members.{
  handle, route, needs_admin, with_role, put_role, delete_member, delete_invite,
}

-- The rows of every tenant but `t`.
abbrev pub other_users : String → List TenantUser → List TenantUser
other_users t rows = select (λ (r : TenantUser). not (r.tenant_id == t)) rows

abbrev pub other_invites : String → List Invite → List Invite
other_invites t rows = select (λ (r : Invite). not (r.tenant_id == t)) rows

abbrev pub own_users : String → List TenantUser → List TenantUser
own_users sub rows = select (λ (r : TenantUser). r.auth_user_id == sub) rows

other_users-update :
    (t i role : String) (rows : List TenantUser)
    → other_users t (update (is_member i t) (with_role role) rows) ≡ other_users t rows
other_users-update t i role [] = refl
other_users-update t i role (r ∷ rows) = ground (arith, other_users-update t i role rows)

other_users-select :
    (t i : String) (rows : List TenantUser)
    → other_users t (select (λ r. not (is_member i t r)) rows) ≡ other_users t rows
other_users-select t i [] = refl
other_users-select t i (r ∷ rows) = ground (arith, other_users-select t i rows)

other_invites-select :
    (t i : String) (rows : List Invite)
    → other_invites t (select (λ r. not (is_invite i t r)) rows) ≡ other_invites t rows
other_invites-select t i [] = refl
other_invites-select t i (r ∷ rows) = ground (arith, other_invites-select t i rows)

own_users-select :
    (sub t i a : String) (rows : List TenantUser)
    → (a == sub) ≡ false
    → All (λ (r : TenantUser). r.id ≡ i → r.auth_user_id ≡ a) rows
    → own_users sub (select (λ r. not (is_member i t r)) rows) ≡ own_users sub rows
own_users-select sub t i a [] n h = refl
own_users-select sub t i a (r ∷ rows) n h =
    ground
      (arith, eq_iff r.id i, eq_iff r.auth_user_id a, h.0, own_users-select sub t i a rows n h.1)

abbrev pub is_accept : Request → Bool
is_accept q = elim q [ accept _ _ _ ↦ true | _ ↦ false ]

module _ (t : String) (db : Team) where
  -- What a handler leaves of the other tenants' rows.
  record Apart (r : Reply × Team) : Type 0 where
    users : other_users t r.1.users ≡ other_users t db.users
    invites : other_invites t r.1.invites ≡ other_invites t db.invites

  Apart-if : (b : Bool) (x y : Reply × Team) → Apart x → Apart y → Apart (if b then x else y)
  Apart-if true x y h k = h
  Apart-if false x y h k = k

  Apart-same : (reply : Reply) → Apart (reply, db)
  Apart-same reply = record { users = refl; invites = refl }

ruleset apart =
    (Apart-if, Apart-same, other_users-update, other_users-select, other_invites-select, refl)

post_invite-Apart :
    (trim lower : String → String) (u : User) (email role : Option String) (id token : String)
    (now : ℕ) (db : Team)
    → Apart u.tenant_id db (post_invite trim lower u email role id token now db)
unfolding post_invite
post_invite-Apart trim lower u none role id token now db = search apart
post_invite-Apart trim lower u (some email) role id token now db =
    let own : (u.tenant_id == u.tenant_id) ≡ true = eq_refl u.tenant_id in
    search (Apart-if, Apart-same, own) depth 9

put_role-Apart :
    (u : User) (i role : String) (db : Team) → Apart u.tenant_id db (put_role u i role db)
unfolding put_role
put_role-Apart u i role db = elim (Bool-cases (includes role ("admin" ∷ "member" ∷ []))) [
  | inr e ↦ rw e (Apart-same u.tenant_id db (error 400 "role must be 'admin' or 'member'"))
  | inl e ↦ elim (Option-cases (find (is_member i u.tenant_id) db.users)) [
    | inl f ↦ rw (e, f) (Apart-same u.tenant_id db (error 404 "member_not_found"))
    | inr (r, f) ↦
        rw (e, f)
          (record { users = other_users-update u.tenant_id i role db.users; invites = refl })
  ]
]

delete_member-Apart :
    (u : User) (i : String) (db : Team) → Apart u.tenant_id db (delete_member u i db)
unfolding delete_member
delete_member-Apart u i db = elim (Option-cases (find (is_member i u.tenant_id) db.users)) [
  | inl f ↦ rw (f, delete_member) (Apart-same u.tenant_id db (error 404 "member_not_found"))
  | inr (r, f) ↦ elim (Bool-cases (r.auth_user_id == u.sub)) [
    | inl e ↦ rw (f, delete_member, e) (Apart-same u.tenant_id db (error 400 "cannot_remove_self"))
    | inr e ↦
        rw (f, delete_member, e)
          (record { users = other_users-select u.tenant_id i db.users; invites = refl })
  ]
]

delete_invite-Apart :
    (u : User) (i : String) (db : Team) → Apart u.tenant_id db (delete_invite u i db)
unfolding delete_invite
delete_invite-Apart u i db = elim (Bool-cases (any (is_invite i u.tenant_id) db.invites)) [
  | inl e ↦ rw e (record { users = refl; invites = other_invites-select u.tenant_id i db.invites })
  | inr e ↦ rw e (Apart-same u.tenant_id db (error 404 "invite_not_found"))
]

route-Apart :
    (trim lower : String → String) (u : User) (q : Request) (now : ℕ) (db : Team)
    → is_accept q ≡ false
    → Apart u.tenant_id db (route trim lower u q now db)
unfolding route
route-Apart trim lower u list_members now db h = record { users = refl; invites = refl }
route-Apart trim lower u list_invites now db h = record { users = refl; invites = refl }
route-Apart trim lower u (info token) now db h = record { users = refl; invites = refl }
route-Apart trim lower u (accept token id fails) now db h = ground arith
route-Apart trim lower u (invite email role id token) now db h =
    post_invite-Apart trim lower u email role id token now db
route-Apart trim lower u (set_role i role) now db h = put_role-Apart u i role db
route-Apart trim lower u (remove_member i) now db h = delete_member-Apart u i db
route-Apart trim lower u (revoke_invite i) now db h = delete_invite-Apart u i db

handle-Apart :
    (trim lower : String → String) (u : User) (q : Request) (now : ℕ) (db : Team)
    → is_accept q ≡ false
    → Apart u.tenant_id db (handle trim lower u q now db)
unfolding handle
handle-Apart trim lower u q now db h =
    let left = route-Apart trim lower u q now db h in
    let refused = Apart-same u.tenant_id db (error 403 "admin_required") in
    Apart-if u.tenant_id db (needs_admin q) _ _
      (Apart-if u.tenant_id db (is_admin u) _ _ left refused) left

-- A request other than accepting an invitation leaves the members and the invitations of every
-- tenant but the user's own as they are.
pub handle-others :
    (trim lower : String → String) (u : User) (q : Request) (now : ℕ) (db : Team)
    → is_accept q ≡ false
    → let after = (handle trim lower u q now db).1 in
      (other_users u.tenant_id after.users ≡ other_users u.tenant_id db.users)
      × (other_invites u.tenant_id after.invites ≡ other_invites u.tenant_id db.invites)
handle-others trim lower u q now db h =
    let left = handle-Apart trim lower u q now db h in (left.users, left.invites)

where_id :
    (t i a : String) (rows : List TenantUser)
    → All (λ (r : TenantUser). r.id ≡ i → r.auth_user_id ≡ a) rows
    → All (λ (r : TenantUser). is_member i t r ≡ true → r.auth_user_id ≡ a) rows
where_id t i a [] h = tt
where_id t i a (r ∷ rows) h = ((λ e. ground (arith, eq_iff r.id i, h.0)), where_id t i a rows h.1)

found-auth_user :
    (t i a : String) (rows : List TenantUser) (r : TenantUser)
    → All (λ (m : TenantUser). m.id ≡ i → m.auth_user_id ≡ a) rows
    → find (is_member i t) rows ≡ some r
    → r.auth_user_id ≡ a
found-auth_user t i a rows r h f =
    let P : TenantUser → Type 0 = λ m. m.auth_user_id ≡ a in
    subst (Maybe P) f (All-find_where P (is_member i t) rows (where_id t i a rows h))

-- Removing a member never removes a row of the user who asks, in whatever tenant, where the rows
-- with the member's id belong to one user (id is the primary key).
pub delete_member-own :
    (u : User) (i a : String) (db : Team)
    → All (λ (r : TenantUser). r.id ≡ i → r.auth_user_id ≡ a) db.users
    → own_users u.sub (delete_member u i db).1.users ≡ own_users u.sub db.users
unfolding delete_member
delete_member-own u i a db h = elim (Option-cases (find (is_member i u.tenant_id) db.users)) [
  | inl f ↦ rw (f, delete_member) refl
  | inr (r, f) ↦ elim (Bool-cases (r.auth_user_id == u.sub)) [
    | inl e ↦ rw (f, delete_member, e) refl
    | inr e ↦
        rw (f, delete_member, e)
          (own_users-select u.sub u.tenant_id i a db.users
            (rw (sym (found-auth_user u.tenant_id i a db.users r h f)) e) h)
  ]
]
