-- ===== src/Jobs/Webhook/Health/Rows.antt =====
-- What the updates of the status leave in the rows of endpoints.
use grain_guard.Prelude.{
  ℕ, ◌≡◌, refl, sym, subst, String, Bool, true, false, ◌&&◌, Option, none, some, inl, inr, List, [],
  ◌∷◌, any, All, All-update, if-intro, if◌then◌else◌, Bool-cases, Option-cases, ◌==◌, eq_iff, arith,
}
use grain_guard.Dashboard.ExportCsv.{Text}
use grain_guard.Jobs.Webhook.{
  EndpointStatus, WebhookTables, is_endpoint, cleared, with_error, is_due, updated,
}

abbrev pub has_error : Option Text → Bool
has_error none = false
has_error (some message) = true

-- Whether the row of an endpoint has an error.
abbrev pub shown : String → EndpointStatus → Bool
shown e r = r.id == e && has_error r.last_error

abbrev pub shows_error : String → WebhookTables → Bool
shows_error e db = any (shown e) db.endpoints

-- A row without an error has no time of an error.
abbrev pub IsTogether : EndpointStatus → Type 0
IsTogether r = r.last_error ≡ none → r.last_error_at ≡ none

module _ (e i : String) (now : ℕ) where
  pub any-endpoint :
      (error : Option Text) (rows : List EndpointStatus)
      → any (is_endpoint e) (updated i now error rows) ≡ any (is_endpoint e) rows
  any-endpoint none [] = refl
  any-endpoint (some t) [] = refl
  any-endpoint none (r ∷ rows) = ground (arith, any-endpoint none rows)
  any-endpoint (some t) (r ∷ rows) = ground (arith, any-endpoint (some t) rows)

  pub updated-AreTogether :
      (error : Option Text) (rows : List EndpointStatus)
      → All IsTogether rows
      → All IsTogether (updated i now error rows)
  updated-AreTogether none rows h = All-update IsTogether _ cleared rows (λ r k x. refl) h
  updated-AreTogether (some t) rows h =
      All-update IsTogether _ (with_error t now) rows (λ r k x. cc) h

  other_id : (i == e) ≡ false → (r : EndpointStatus) → (r.id == i) ≡ true → (r.id == e) ≡ false
  other_id n r h = subst (λ x. (x == e) ≡ false) (sym ((eq_iff r.id i).0 h)) n

  cleared-other :
      (i == e) ≡ false
      → (r : EndpointStatus) → shown e (if is_endpoint i r then cleared r else r) ≡ shown e r
  cleared-other n r = elim (Bool-cases (r.id == i)) [
    | inl h ↦ let q = other_id n r h in rw (h, q) refl
    | inr h ↦ rw h refl
  ]

  failed-other :
      (t : Text)
      → (i == e) ≡ false
      → (r : EndpointStatus)
      → shown e (if is_endpoint i r && is_due now r then with_error t now r else r) ≡ shown e r
  failed-other t n r = elim (Bool-cases (r.id == i)) [
    | inl h ↦
        let q = other_id n r h in
        if-intro (λ x. shown e x ≡ shown e r) (is_endpoint i r && is_due now r) (rw q refl) refl
    | inr h ↦ rw h refl
  ]

  -- Of another endpoint nothing changes.
  pub other-shown :
      (error : Option Text) (rows : List EndpointStatus)
      → (i == e) ≡ false
      → any (shown e) (updated i now error rows) ≡ any (shown e) rows
  other-shown none [] n = refl
  other-shown (some t) [] n = refl
  other-shown none (r ∷ rows) n = rw (cleared-other n r, other-shown none rows n) refl
  other-shown (some t) (r ∷ rows) n = rw (failed-other t n r, other-shown (some t) rows n) refl

module _ (e : String) (now : ℕ) where
  pub cleared-shown : (rows : List EndpointStatus) → any (shown e) (updated e now none rows) ≡ false
  cleared-shown [] = refl
  cleared-shown (r ∷ rows) = elim (Bool-cases (r.id == e)) [
    | inl h ↦ let k = cleared-shown rows in rw (h, h, k) refl
    | inr h ↦ let k = cleared-shown rows in rw (h, h, k) refl
  ]

  failed_row :
      (t : Text) (r : EndpointStatus)
      → IsTogether r
      → shown e (if is_endpoint e r && is_due now r then with_error t now r else r)
        ≡ is_endpoint e r
  failed_row t r a = elim (Bool-cases (r.id == e)) [
    | inl h ↦ elim (Option-cases r.last_error) [
      | inl n ↦ let d = a n in rw (h, d, h) refl
      | inr m ↦
          let w = m.1 in
          if-intro (λ x. shown e x ≡ is_endpoint e r) (is_endpoint e r && is_due now r) (rw h refl)
            (rw (h, w) refl)
    ]
    | inr h ↦ rw (h, h) refl
  ]

  pub failed-shown :
      (t : Text) (rows : List EndpointStatus)
      → All IsTogether rows
      → any (shown e) (updated e now (some t) rows) ≡ any (is_endpoint e) rows
  failed-shown t [] a = refl
  failed-shown t (r ∷ rows) a = rw (failed_row t r a.0, failed-shown t rows a.1) refl
