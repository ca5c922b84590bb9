-- ===== src/Gateway/Team/Tokens.antt =====
-- Using an invitation's token twice.
use grain_guard.Prelude.{
  ℕ, String, Bool, true, false, ◌&&◌, ◌≡◌, inl, inr, refl, sym, none, List, [], ◌∷◌, All, find,
  update, arith, ◌==◌, eq_iff, Bool-cases, subst, option-intro, All-find_where, if◌then◌else◌,
  is_empty,
}
use grain_guard.Gateway.Team.{User, Invite, Team, Reply, error, accepted, is_open}
use grain_guard.Gateway.Team.Invitations.{mark_accepted, post_accept, accept_invite}

-- The UNIQUE token of tenant_invites: every row with the token is the row `i`.
abbrev pub IsOnly : String → String → List Invite → Type 0
IsOnly token i rows = All (λ (r : Invite). r.token ≡ token → r.id ≡ i) rows

abbrev opens : String → ℕ → Invite → Bool
opens token now r = r.token == token && is_open now r

accept_one :
    (token i : String) (now later : ℕ) (r : Invite)
    → (r.token ≡ token → r.id ≡ i)
    → opens token later (if r.id == i then mark_accepted now r else r) ≡ false
accept_one token i now later r h = ground (arith, eq_iff r.token token, eq_iff r.id i)

find-update :
    (token i : String) (now later : ℕ) (rows : List Invite)
    → IsOnly token i rows
    → find (opens token later) (update (λ (r : Invite). r.id == i) (mark_accepted now) rows) ≡ none
find-update token i now later [] h = refl
find-update token i now later (r ∷ rows) h =
    rw (accept_one token i now later r h.0) (find-update token i now later rows h.1)

opens-token :
    (token i : String) (now : ℕ) (rows : List Invite)
    → IsOnly token i rows
    → All (λ (r : Invite). opens token now r ≡ true → r.id ≡ i) rows
opens-token token i now [] h = tt
opens-token token i now (r ∷ rows) h =
    ((λ e. ground (arith, eq_iff r.token token, h.0)), opens-token token i now rows h.1)

module _ (token : String) (v : User) (j : String) (later : ℕ) (broken : Bool) where
  -- What a request that looks up the token afterwards is answered, whatever its transaction would find.
  record Spent (r : Reply × Team) : Type 0 where
    again :
        (t role : String) (found : Team)
        → r.0 ≡ accepted t role
        → post_accept v token j later broken r.1 found
          ≡ (error 404 "invite_not_found_or_expired", found)

  Spent-if : (b : Bool) (x y : Reply × Team) → Spent x → Spent y → Spent (if b then x else y)
  Spent-if true x y h k = h
  Spent-if false x y h k = k

  Spent-error : (n : ℕ) (code : String) (db : Team) → Spent (error n code, db)
  Spent-error n code db = record { again = λ t role found e. ground arith }

  accept_invite-Spent :
      (u : User) (i : String) (now : ℕ) (fails : Bool) (r : Invite) (db : Team)
      → is_empty token ≡ false
      → IsOnly token r.id db.invites
      → Spent (accept_invite u i now fails r db)
  unfolding accept_invite post_accept
  accept_invite-Spent u i now fails r db n h =
      Spent-if _ _ _ (Spent-error 409 "already_a_member" db) (
        Spent-if fails _ _ (Spent-error 500 "internal_error" db) (record {
          again = λ t role found e. rw (n, find-update token r.id now later db.invites h) refl;
        }))

  post_accept-Spent :
      (u : User) (i k : String) (now : ℕ) (fails : Bool) (seen db : Team)
      → IsOnly token k seen.invites
      → IsOnly token k db.invites
      → Spent (post_accept u token i now fails seen db)
  unfolding post_accept
  post_accept-Spent u i k now fails seen db g h = elim (Bool-cases (is_empty token)) [
    | inl e ↦ rw e (Spent-error 400 "token is required" db)
    | inr e ↦ rw e (
        option-intro (λ (r : Invite). r.id ≡ k) Spent (find (opens token now) seen.invites)
          (All-find_where (λ (r : Invite). r.id ≡ k) (opens token now) seen.invites
            (opens-token token k now seen.invites g))
          (Spent-error 404 "invite_not_found_or_expired" db)
          (λ r f.
            accept_invite-Spent u i now fails r db e
              (subst (λ x. IsOnly token x db.invites) (sym f) h)))
  ]

-- Once an invitation has been accepted, a request that looks up its token afterwards is answered 404
-- whoever sends it, at whatever time, and changes nothing, if no two invitations have the token (it is
-- UNIQUE); what the requests' transactions find may have changed since their look-ups.
pub post_accept-once :
    (u v : User) (token i j k t role : String) (now later : ℕ) (fails broken : Bool)
    (seen db found : Team)
    → IsOnly token k seen.invites
    → IsOnly token k db.invites
    → (post_accept u token i now fails seen db).0 ≡ accepted t role
    → let left = (post_accept u token i now fails seen db).1 in
      post_accept v token j later broken left found
      ≡ (error 404 "invite_not_found_or_expired", found)
post_accept-once u v token i j k t role now later fails broken seen db found g h e =
    (post_accept-Spent token v j later broken u i k now fails seen db g h).again t role found e
