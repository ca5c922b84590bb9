-- ===== src/Gateway/Auth0.antt =====
-- apps/gateway/src/lib/auth0Management.ts: the calls of the Auth0 Management API, with the token that
-- they share. What Auth0 answers is an argument, and so are the times; the state records the calls
-- that have taken effect at Auth0, the last one first. The texts of requests are left out.
use grain_guard.Prelude.{
  ℕ, ◌+◌, ◌*◌, ◌≡◌, refl, String, Bool, true, false, not, ◌&&◌, Option, none, some, List, ◌∷◌,
  is_empty, ltb, if◌then◌else◌, if-intro, arith,
}

pub data Auth0Call : Type 0 where
  sets_tenant : String → String → Auth0Call
  lists_roles : Auth0Call
  assigns_role : String → String → Auth0Call
  creates_organization : String → String → Auth0Call
  creates_saml creates_oidc : String → Auth0Call
  enables disables : String → String → Auth0Call
  lists : String → Auth0Call

pub record Management : Type 0 where
  pub cached_token : Option String
  pub token_expiry : ℕ
  pub calls : List Auth0Call

-- An answer to a request for a token: the token and expires_in.
pub record Token : Type 0 where
  pub access_token : String
  pub expires_in : ℕ

-- How the requests of one call end, where none stands for a refusal or no answer: that for a token,
-- which comes at `received_at`, and the call. `took_effect` says whether a call that throws has taken
-- effect all the same, and `stored` whether the query of the route that follows goes through.
pub record Outcome (A : Type 0) : Type 0 where
  pub configured : Bool
  pub now : ℕ
  pub token : Option Token
  pub received_at : ℕ
  pub response : Option A
  pub took_effect : Bool
  pub stored : Bool

abbrev usable : ℕ → Management → Option String → Bool
usable now m none = false
usable now m (some t) = not (is_empty t) && ltb (now + 60000) m.token_expiry

-- `tokenExpiry - 60_000` is compared without the subtraction.
abbrev get_management_token : {A : Type 0} → Outcome A → Management → Bool × Management
get_management_token o m =
    if not o.configured
    then (false, m)
    else if usable o.now m m.cached_token
    then (true, m)
    else elim o.token [
      | none ↦ (false, m)
      | some t ↦ (
        true,
        record m {
          cached_token = some t.access_token;
          token_expiry = o.received_at + t.expires_in * 1000;
        },
      )
    ]

abbrev recorded : {A : Type 0} → Option A → Bool → Auth0Call → Management → Option A × Management
recorded none false call m = (none, m)
recorded none true call m = (none, record m { calls = call ∷ m.calls })
recorded (some a) took_effect call m = (some a, record m { calls = call ∷ m.calls })

unfoldable pub mgmt : {A : Type 0} → Auth0Call → Outcome A → Management → Option A × Management
mgmt call o m =
    let (ok, m') = get_management_token o m in
    if ok then recorded o.response o.took_effect call m' else (none, m')

get_management_token-calls :
    {A : Type 0} (o : Outcome A) (m : Management) → (get_management_token o m).1.calls ≡ m.calls
get_management_token-calls o m = ground arith

-- A call throws, with or without an effect, or returns, whatever becomes of the token.
module _ {ℓ} {A : Type 0} (Q : Option A × Management → Type ℓ) (call : Auth0Call) (o : Outcome A)
    (m : Management) (throws : (m' : Management) → m'.calls ≡ m.calls → Q (none, m'))
    (lost : (m' : Management)
      → o.response ≡ none
      → o.took_effect ≡ true
      → m'.calls ≡ call ∷ m.calls
      → Q (none, m'))
    (returns : (a : A) (m' : Management) → m'.calls ≡ call ∷ m.calls → Q (some a, m')) where
  recorded-intro :
      (a : Option A) (b : Bool) (m' : Management)
      → o.response ≡ a
      → o.took_effect ≡ b
      → m'.calls ≡ m.calls
      → Q (recorded a b call m')
  recorded-intro none false m' p q e = throws m' e
  recorded-intro none true m' p q e = lost (record m' { calls = call ∷ m'.calls }) p q (rw e refl)
  recorded-intro (some a) b m' p q e = returns a (record m' { calls = call ∷ m'.calls }) (rw e refl)

  pub mgmt-intro : Q (mgmt call o m)
  unfolding mgmt
  mgmt-intro =
      let m' = (get_management_token o m).1 in
      let e = get_management_token-calls o m in
      if-intro Q (get_management_token o m).0
        (recorded-intro o.response o.took_effect m' refl refl e) (throws m' e)
