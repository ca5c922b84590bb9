-- ===== src/Gateway/Sso/Replaced.antt =====
-- A connection that is replaced by another before single sign-on is switched off.
use grain_guard.Prelude.{
  ◌≡◌, refl, sym, ◌∙◌, subst, String, true, false, Option, none, some, List, ◌∷◌, if-intro,
  option-with, arith, ◌==◌,
}
use grain_guard.Gateway.Auth0.{
  Auth0Call, creates_saml, creates_oidc, enables, disables, Management, Outcome, mgmt, mgmt-intro,
}
use grain_guard.Gateway.Sso.{
  SsoTenant, Sso, ConnectionBody, SsoReply, refused, disabled, connected, present, org_of,
  connection_of, row_at, with_connection, without_connection, set_row, enabled_on, enable_on,
  disabled_on, is_incomplete, connect_saml, connect_oidc, disconnect,
}
use grain_guard.Gateway.Sso.Linked.{is_enabled, find-update, changed, enables_lem, enables-keeps}

present-some : (c d : String) → present (some c) ≡ some d → c ≡ d
present-some c d h = ground arith

-- Disabling a connection leaves those of other names enabled.
disables-keeps :
    (org c x d : String) (calls : List Auth0Call)
    → (d == c) ≡ false
    → is_enabled org c calls ≡ true
    → is_enabled org c (disables x d ∷ calls) ≡ true
disables-keeps org c x d calls n h = ground (arith, n, h)

module _ (t org : String) (s : Sso) where
  -- What a set-up that is answered `connected c` leaves.
  record Connects (c : String) (u : Sso) : Type 0 where
    org_kept : org_of (row_at t u) ≡ some org
    named : connection_of (row_at t u) ≡ present (some c)
    linked : is_enabled org c u.auth0.calls ≡ true
    kept :
        (d : String) → is_enabled org d s.auth0.calls ≡ true → is_enabled org d u.auth0.calls ≡ true

  abbrev WhereConnects : String → SsoReply × Sso → Type 0
  WhereConnects c r = r.0 ≡ connected c → Connects c r.1

  row-with_connection :
      (r : Option SsoTenant) (c kind : String)
      → org_of r ≡ some org
      → (org_of (changed (with_connection c kind) r) ≡ some org)
        × (connection_of (changed (with_connection c kind) r) ≡ present (some c))
  row-with_connection none c kind h = cc
  row-with_connection (some r) c kind h = (h, refl)

  enabled_on-Connects :
      (kind c : String) (m : Management)
      → org_of (row_at t s) ≡ some org
      → is_enabled org c m.calls ≡ true
      → ((d : String) → is_enabled org d s.auth0.calls ≡ true → is_enabled org d m.calls ≡ true)
      → Connects c (set_row t (with_connection c kind) m s)
  enabled_on-Connects kind c m h l k =
      let w = row-with_connection (row_at t s) c kind h in
      let f = find-update t (with_connection c kind) (λ r. refl) s.tenants in
      record { org_kept = rw f w.0; named = rw f w.1; linked = l; kept = k }

  connected_eq : (c d : String) → ◌≡◌ {A = SsoReply} (connected c) (connected d) → c ≡ d
  connected_eq c d h = cc

  enable_on-Connects :
      (kind c : String) (call : Auth0Call) (o : Outcome String) (e : Outcome (Unit {0}))
      → ((d : String) (calls : List Auth0Call)
          → is_enabled org d (call ∷ calls) ≡ is_enabled org d calls)
      → org_of (row_at t s) ≡ some org
      → WhereConnects c (enable_on t kind org e s (mgmt call o s.auth0))
  enable_on-Connects kind c call o e n h =
      mgmt-intro (λ y. WhereConnects c (enable_on t kind org e s y)) call o s.auth0 (λ m q. cc)
        (λ m z w q. cc)
        (λ x m q.
          mgmt-intro (λ y. WhereConnects c (enabled_on t kind x e.stored s y)) (enables org x) e m
            (λ m' q'. cc) (λ m' z w q'. cc)
            (λ y m' q'.
              if-intro (WhereConnects c) e.stored
                (λ r.
                  subst (λ z. Connects z (set_row t (with_connection x kind) m' s))
                    (connected_eq x c r)
                    (enabled_on-Connects kind x m' h (rw q' (enables_lem org x m.calls)) (λ d k.
                      rw (q', q)
                        (enables-keeps org x org d (call ∷ s.auth0.calls)
                          (n d s.auth0.calls ∙ k)))))
                (cc)))

  module _ (h : org_of (row_at t s) ≡ some org) where
    connect_saml-Connects :
        (c : String) (b : ConnectionBody) (o : Outcome String) (e : Outcome (Unit {0}))
        → WhereConnects c (connect_saml t b o e s)
    unfolding connect_saml
    connect_saml-Connects c b o e =
        if-intro (WhereConnects c) (is_incomplete b) {x = (refused 400 "missing_fields", s)} (cc)
          (rw h (enable_on-Connects "saml" c (creates_saml t) o e (λ d calls. refl) h))

    connect_oidc-Connects :
        (c : String) (b : ConnectionBody) (o : Outcome String) (e : Outcome (Unit {0}))
        → WhereConnects c (connect_oidc t b o e s)
    unfolding connect_oidc
    connect_oidc-Connects c b o e =
        if-intro (WhereConnects c) (is_incomplete b) {x = (refused 400 "missing_fields", s)} (cc)
          (rw h (enable_on-Connects "oidc" c (creates_oidc t) o e (λ d calls. refl) h))

    -- What switching off leaves of a connection that the row does not name.
    record Leaves (d : String) (u : Sso) : Type 0 where
      forgotten : connection_of (row_at t u) ≡ none
      left : is_enabled org d u.auth0.calls ≡ true

    row-without_connection :
        (r : Option SsoTenant) → connection_of (changed without_connection r) ≡ none
    row-without_connection none = refl
    row-without_connection (some r) = refl

    disconnect-Leaves :
        (c d : String) (o : Outcome (Unit {0}))
        → connection_of (row_at t s) ≡ present (some c)
        → (c == d) ≡ false
        → is_enabled org d s.auth0.calls ≡ true
        → (disconnect t o s).0 ≡ disabled
        → Leaves d (disconnect t o s).1
    unfolding disconnect
    disconnect-Leaves c d o p n k =
        rw (h, disconnect)
          (option-with (λ (r : SsoReply × Sso). r.0 ≡ disabled → Leaves d r.1)
            (connection_of (row_at t s)) (λ z. cc)
            (λ x z.
              mgmt-intro
                (λ y.
                  (disabled_on t o.stored s y).0 ≡ disabled
                  → Leaves d (disabled_on t o.stored s y).1)
                (disables org x) o s.auth0 (λ m q. cc) (λ m v w q. cc)
                (λ y m q.
                  if-intro (λ (r : SsoReply × Sso). r.0 ≡ disabled → Leaves d r.1) o.stored
                    (λ r.
                      let e = present-some c x (sym p ∙ z) in
                      record {
                        forgotten =
                            rw (find-update t without_connection (λ w. refl) s.tenants)
                              (row-without_connection (row_at t s));
                        left = rw q (
                            disables-keeps org d org x s.auth0.calls
                              (subst (λ w. (w == d) ≡ false) e n) k);
                      })
                    (cc))))

-- Where a tenant has an organization and sets up a SAML connection and then an OIDC connection of
-- another identifier, both with success, a DELETE that answers that single sign-on is disabled leaves
-- the tenant's row with no connection, and the SAML connection enabled on the organization.
pub replaced_connection_stays :
    (t org c d : String) (b b' : ConnectionBody) (o o' : Outcome String)
    (e e' off : Outcome (Unit {0})) (s : Sso)
    → org_of (row_at t s) ≡ some org
    → (connect_saml t b o e s).0 ≡ connected c
    → (connect_oidc t b' o' e' (connect_saml t b o e s).1).0 ≡ connected d
    → (d == c) ≡ false
    → (disconnect t off (connect_oidc t b' o' e' (connect_saml t b o e s).1).1).0 ≡ disabled
    → (connection_of
          (row_at t (disconnect t off (connect_oidc t b' o' e' (connect_saml t b o e s).1).1).1)
        ≡ none)
      × (is_enabled org c
            (disconnect t off (connect_oidc t b' o' e' (connect_saml t b o e s).1).1).1.auth0.calls
          ≡ true)
replaced_connection_stays t org c d b b' o o' e e' off s h saml oidc n gone =
    let u = (connect_saml t b o e s).1 in
    let v = (connect_oidc t b' o' e' u).1 in
    let first = connect_saml-Connects t org s h c b o e saml in
    let second = connect_oidc-Connects t org u first.org_kept d b' o' e' oidc in
    let l =
      disconnect-Leaves t org v second.org_kept d c off second.named n (second.kept c first.linked)
        gone in
    (l.forgotten, l.left)
