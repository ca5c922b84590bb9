-- ===== src/Gateway/Sso/Linked.antt =====
-- The connection that the table names and the connections that Auth0 has enabled.
use grain_guard.Prelude.{
  ◌≡◌, refl, sym, ap, ◌∙◌, subst, String, Bool, true, false, ◌&&◌, Option, none, some, List, [],
  ◌∷◌, find, update, is_empty, if◌then◌else◌, if-intro, option-with, All, Bool-cases, inl, inr,
  ◌==◌, eq_refl,
}
use grain_guard.Gateway.Team.{User, is_admin}
use grain_guard.Gateway.Auth0.{
  Auth0Call, sets_tenant, lists_roles, assigns_role, creates_organization, creates_saml,
  creates_oidc, enables, disables, lists, Management, Outcome, mgmt, mgmt-intro,
}
use grain_guard.Gateway.Sso.{
  SsoTenant, Sso, ConnectionBody, SsoCall, get_sso, post_org, post_saml, post_oidc, delete_sso,
  SsoReply, refused, present, is_tenant, org_of, connection_of, row_at, with_org, with_connection,
  without_connection, set_row, listed, created_org, enabled_on, enable_on, disabled_on,
  is_incomplete, list_connections, create_org, connect_saml, connect_oidc, disconnect, route_sso,
  handle_sso, run_sso,
}

-- Whether the calls, the last one first, leave a connection enabled on an organization.
abbrev pub is_enabled : String → String → List Auth0Call → Bool
is_enabled org c [] = false
is_enabled org c (enables o d ∷ rest) = if o == org && d == c then true else is_enabled org c rest
is_enabled org c (disables o d ∷ rest) = if o == org && d == c then false else is_enabled org c rest
is_enabled org c (sets_tenant u t ∷ rest) = is_enabled org c rest
is_enabled org c (lists_roles ∷ rest) = is_enabled org c rest
is_enabled org c (assigns_role u r ∷ rest) = is_enabled org c rest
is_enabled org c (creates_organization t n ∷ rest) = is_enabled org c rest
is_enabled org c (creates_saml t ∷ rest) = is_enabled org c rest
is_enabled org c (creates_oidc t ∷ rest) = is_enabled org c rest
is_enabled org c (lists o ∷ rest) = is_enabled org c rest

-- A connection is named only where there is an organization, on which it is enabled.
abbrev Linked : List Auth0Call → Option String → Option String → Type 0
Linked calls org none = Unit
Linked calls none (some c) = ⊥
Linked calls (some org) (some c) = is_enabled org c calls ≡ true

abbrev pub IsLinked : String → Sso → Type 0
IsLinked t s = Linked s.auth0.calls (org_of (row_at t s)) (connection_of (row_at t s))

-- Where the call of a DELETE throws, it has had no effect, and its UPDATE goes through.
abbrev pub IsSettled : SsoCall → Type 0
IsSettled (get_sso o) = Unit
IsSettled (post_org o) = Unit
IsSettled (post_saml b o e) = Unit
IsSettled (post_oidc b o e) = Unit
IsSettled (delete_sso o) = (o.took_effect ≡ false) × (o.stored ≡ true)

-- A call that disables nothing.
abbrev Harmless : Auth0Call → Type 0
Harmless call =
    (org c : String) (calls : List Auth0Call)
    → is_enabled org c calls ≡ true
    → is_enabled org c (call ∷ calls) ≡ true

-- Enabling a connection leaves the others enabled.
pub enables-keeps : (x d : String) → Harmless (enables x d)
enables-keeps x d org c calls h = if-intro (λ b. b ≡ true) (x == org && d == c) {x = true} refl h

Linked-Harmless :
    (call : Auth0Call) (calls : List Auth0Call) (org c : Option String)
    → Harmless call
    → Linked calls org c
    → Linked (call ∷ calls) org c
Linked-Harmless call calls org none n h = tt
Linked-Harmless call calls none (some c) n h = h
Linked-Harmless call calls (some org) (some c) n h = n org c calls h

Linked-none :
    (calls : List Auth0Call) (org c : Option String) → org ≡ none → Linked calls org c → c ≡ none
Linked-none calls org none e h = refl
Linked-none calls none (some c) e h = absurd h
Linked-none calls (some org) (some c) e h = cc

pub enables_lem :
    (org c : String) (calls : List Auth0Call) → is_enabled org c (enables org c ∷ calls) ≡ true
enables_lem org c calls = rw (eq_refl org, eq_refl c) refl

disables_lem :
    (org c : String) (calls : List Auth0Call) → is_enabled org c (disables org c ∷ calls) ≡ false
disables_lem org c calls = rw (eq_refl org, eq_refl c) refl

-- The row of a tenant after a change of its row.
abbrev pub changed : (SsoTenant → SsoTenant) → Option SsoTenant → Option SsoTenant
changed f none = none
changed f (some r) = some (f r)

module _ (t : String) (f : SsoTenant → SsoTenant) (same : (r : SsoTenant) → (f r).id ≡ r.id) where
  pub find-update :
      (rows : List SsoTenant)
      → find (is_tenant t) (update (is_tenant t) f rows) ≡ changed f (find (is_tenant t) rows)
  find-update [] = refl
  find-update (r ∷ rows) = elim (Bool-cases (r.id == t)) [
    | inl e ↦ rw (e, same r, e) refl
    | inr e ↦ rw (e, e) (find-update rows)
  ]

module _ (t : String) (s : Sso) where
  abbrev org : Option String
  org = org_of (row_at t s)

  abbrev connection : Option String
  connection = connection_of (row_at t s)

  keeps : (m : Management) → Linked m.calls org connection → IsLinked t (record s { auth0 = m })
  keeps m h = h

  org-with_connection :
      (r : Option SsoTenant) (c kind : String)
      → org_of (changed (with_connection c kind) r) ≡ org_of r
  org-with_connection none c kind = refl
  org-with_connection (some r) c kind = refl

  Linked-with_connection :
      (r : Option SsoTenant) (o c kind : String) (calls : List Auth0Call)
      → org_of r ≡ some o
      → Linked
          (enables o c ∷ calls)
          (org_of (changed (with_connection c kind) r))
          (connection_of (changed (with_connection c kind) r))
  Linked-with_connection none o c kind calls e = cc
  Linked-with_connection (some r) o c kind calls e =
      rw e
        (elim (Bool-cases (is_empty c)) [ inl f ↦ rw f tt | inr f ↦ rw f (enables_lem o c calls) ])

  Linked-without_connection :
      (r : Option SsoTenant) (calls : List Auth0Call)
      → Linked calls
          (org_of (changed without_connection r))
          (connection_of (changed without_connection r))
  Linked-without_connection none calls = tt
  Linked-without_connection (some r) calls = tt

  Linked-with_org :
      (r : Option SsoTenant) (o : String) (calls : List Auth0Call)
      → connection_of r ≡ none
      → Linked calls (org_of (changed (with_org o) r)) (connection_of (changed (with_org o) r))
  Linked-with_org none o calls e = tt
  Linked-with_org (some r) o calls e = rw e tt

  set_row-IsLinked :
      (f : SsoTenant → SsoTenant) (m : Management)
      → ((r : SsoTenant) → (f r).id ≡ r.id)
      → Linked m.calls (org_of (changed f (row_at t s))) (connection_of (changed f (row_at t s)))
      → IsLinked t (set_row t f m s)
  set_row-IsLinked f m same h = rw (find-update t f same s.tenants) h

  abbrev Ends : SsoReply × Sso → Type 0
  Ends r = IsLinked t r.1

  module _ (h : IsLinked t s) where
    harmless :
        (call : Auth0Call) (m : Management)
        → Harmless call
        → m.calls ≡ call ∷ s.auth0.calls
        → Linked m.calls org connection
    harmless call m n q = rw q (Linked-Harmless call s.auth0.calls org connection n h)

    unchanged : (m : Management) → m.calls ≡ s.auth0.calls → Linked m.calls org connection
    unchanged m q = rw q h

    both :
        (call : Auth0Call) (x c : String) (m m' : Management)
        → Harmless call
        → m.calls ≡ call ∷ s.auth0.calls
        → m'.calls ≡ enables x c ∷ m.calls
        → Linked m'.calls org connection
    both call x c m m' n q q' = rw q' (
        Linked-Harmless (enables x c) m.calls org connection (enables-keeps x c)
          (harmless call m n q))

    enable_on-Ends :
        (kind x : String) (call : Auth0Call) (o : Outcome String) (e : Outcome (Unit {0}))
        → Harmless call
        → org ≡ some x
        → Ends (enable_on t kind x e s (mgmt call o s.auth0))
    enable_on-Ends kind x call o e n r =
        mgmt-intro (λ y. Ends (enable_on t kind x e s y)) call o s.auth0 unchanged
          (λ m z w q. harmless call m n q)
          (λ c m q.
            mgmt-intro (λ y. Ends (enabled_on t kind c e.stored s y)) (enables x c) e m
              (λ m' q'. harmless call m' n (q' ∙ q)) (λ m' z w q'. both call x c m m' n q q')
              (λ y m' q'.
                if-intro Ends e.stored
                  (set_row-IsLinked (with_connection c kind) m' (λ z. refl)
                    (rw q' (Linked-with_connection (row_at t s) x c kind m.calls r)))
                  (both call x c m m' n q q')))

    connect_saml-Ends :
        (b : ConnectionBody) (o : Outcome String) (e : Outcome (Unit {0}))
        → Ends (connect_saml t b o e s)
    unfolding connect_saml
    connect_saml-Ends b o e =
        if-intro Ends (is_incomplete b) {x = (refused 400 "missing_fields", s)} h (
          option-with Ends org (λ z. h)
            (λ x r. enable_on-Ends "saml" x (creates_saml t) o e (λ y c calls k. k) r))

    connect_oidc-Ends :
        (b : ConnectionBody) (o : Outcome String) (e : Outcome (Unit {0}))
        → Ends (connect_oidc t b o e s)
    unfolding connect_oidc
    connect_oidc-Ends b o e =
        if-intro Ends (is_incomplete b) {x = (refused 400 "missing_fields", s)} h (
          option-with Ends org (λ z. h)
            (λ x r. enable_on-Ends "oidc" x (creates_oidc t) o e (λ y c calls k. k) r))

    list_connections-Ends : (o : Outcome (List String)) → Ends (list_connections t o s)
    unfolding list_connections
    list_connections-Ends o =
        option-with Ends org (λ z. h)
          (λ x r.
            mgmt-intro (λ y. Ends (listed x s y)) (lists x) o s.auth0 unchanged
              (λ m z w q. harmless (lists x) m (λ y d calls k. k) q)
              (λ c m q. harmless (lists x) m (λ y d calls k. k) q))

    create_org-Ends : (o : Outcome String) → Ends (create_org t o s)
    unfolding create_org
    create_org-Ends o =
        option-with Ends (row_at t s) (λ z. h)
          (λ r p.
            option-with Ends (present r.auth0_org_id)
              (λ z.
                mgmt-intro (λ y. Ends (created_org t o.stored s y)) (creates_organization t r.name)
                  o s.auth0 unchanged
                  (λ m v w q. harmless (creates_organization t r.name) m (λ y d calls k. k) q)
                  (λ x m q.
                    if-intro Ends o.stored
                      (set_row-IsLinked (with_org x) m (λ y. refl)
                        (Linked-with_org (row_at t s) x m.calls
                          (Linked-none s.auth0.calls org connection (ap org_of p ∙ z) h)))
                      (harmless (creates_organization t r.name) m (λ y d calls k. k) q)))
              (λ x z. h))

    disconnect-Ends : (o : Outcome (Unit {0})) → IsSettled (delete_sso o) → Ends (disconnect t o s)
    unfolding disconnect
    disconnect-Ends o k =
        option-with Ends org (λ z. h)
          (λ x r.
            option-with Ends connection (λ z. h)
              (λ c p.
                mgmt-intro (λ y. Ends (disabled_on t o.stored s y)) (disables x c) o s.auth0
                  unchanged (λ m z w q. cc)
                  (λ y m q. rw k.1 (
                    set_row-IsLinked without_connection m (λ z. refl)
                      (Linked-without_connection (row_at t s) m.calls)))))

    route_sso-Ends : (q : SsoCall) → IsSettled q → Ends (route_sso t q s)
    unfolding route_sso
    route_sso-Ends (get_sso o) k = list_connections-Ends o
    route_sso-Ends (post_org o) k = create_org-Ends o
    route_sso-Ends (post_saml b o e) k = connect_saml-Ends b o e
    route_sso-Ends (post_oidc b o e) k = connect_oidc-Ends b o e
    route_sso-Ends (delete_sso o) k = disconnect-Ends o k

handle_sso-IsLinked :
    (u : User) (q : SsoCall) (s : Sso)
    → IsSettled q
    → IsLinked u.tenant_id s
    → IsLinked u.tenant_id (handle_sso u q s).1
unfolding handle_sso
handle_sso-IsLinked u q s k h =
    if-intro (λ (r : SsoReply × Sso). IsLinked u.tenant_id r.1) (is_admin u)
      {y = (refused 403 "forbidden", s)} (route_sso-Ends u.tenant_id s h q k) h

-- In a run of requests on the single sign-on of one tenant, one after the other, the connection that the
-- tenant's row names stays one that is enabled on the tenant's organization, whichever calls of Auth0
-- fail, with or without an effect, and whichever UPDATE fails, but for those of DELETE: a call that
-- throws there has had no effect, and the UPDATE after one that returns goes through.
pub run_sso-IsLinked :
    (t : String) (requests : List (User × SsoCall)) (s : Sso)
    → All (λ (r : User × SsoCall). r.0.tenant_id ≡ t) requests
    → All (λ (r : User × SsoCall). IsSettled r.1) requests
    → IsLinked t s
    → IsLinked t (run_sso requests s)
run_sso-IsLinked t [] s a k h = h
run_sso-IsLinked t ((u, q) ∷ rest) s a k h = run_sso-IsLinked t rest (handle_sso u q s).1 a.1 k.1 (
    subst (λ x. IsLinked x (handle_sso u q s).1) a.0
      (handle_sso-IsLinked u q s k.0 (subst (λ x. IsLinked x s) (sym a.0) h)))
