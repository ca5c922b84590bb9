-- ===== src/Gateway/Preferences/Effect.antt =====
-- What a change of the preferences does to the e-mails of alerts.
use grain_guard.Prelude.{
  String, true, false, ◌&&◌, ◌||◌, ◌≡◌, refl, sym, subst, Option, some, List, [], ◌∷◌, map, find,
  update, any, includes, is_empty, or_else, ◌==◌, eq_refl, arith, Bool-cases, inl, inr,
}
use grain_guard.Database.{TenantUser}
use grain_guard.Gateway.Team.{User}
use grain_guard.Jobs.Alert.{
  Preferences, Answers, Tables, user_of, preferences_of, should_send_email,
}
use grain_guard.Gateway.Preferences.{
  PreferenceRow, PreferenceBody, row_of_preferences, is_own, overwritten, upsert, has_bad_level,
  put_preferences, as_preferences,
}

-- The row that the handler finds wants what a new row wants.
record IsFound (new : PreferenceRow) (o : Option Preferences) : Type 0 where
  row : Preferences
  found : o ≡ some row
  emails : row.email_alerts ≡ new.email_alerts
  levels : row.alert_levels ≡ some new.alert_levels

module _ (u : User) (new : PreferenceRow) where
  abbrev looked_up : List PreferenceRow → Option Preferences
  looked_up rows =
      find (λ (p : Preferences). p.tenant_id == u.tenant_id && p.user_id == u.sub)
        (map as_preferences rows)

  update-IsFound :
      (rows : List PreferenceRow)
      → any (is_own u) rows ≡ true
      → IsFound new (looked_up (update (is_own u) (overwritten new) rows))
  update-IsFound [] h = absurd (ground arith)
  update-IsFound (r ∷ rows) h = elim (Bool-cases (is_own u r)) [
    | inl e ↦
        rw (e, e)
          (record {
            row = as_preferences (overwritten new r);
            found = refl;
            emails = refl;
            levels = refl;
          })
    | inr e ↦ rw (e, e) (update-IsFound rows (rw e at h))
  ]

  insert-IsFound :
      (rows : List PreferenceRow) → is_own u new ≡ true → IsFound new (looked_up (new ∷ rows))
  insert-IsFound rows e =
      rw e (record { row = as_preferences new; found = refl; emails = refl; levels = refl })

  upsert-IsFound :
      (rows : List PreferenceRow)
      → is_own u new ≡ true
      → IsFound new (looked_up (upsert u new rows))
  upsert-IsFound rows e = elim (Bool-cases (any (is_own u) rows)) [
    | inl h ↦ rw h (update-IsFound rows h)
    | inr h ↦ rw h (insert-IsFound rows e)
  ]

own_row : (u : User) (body : PreferenceBody) → is_own u (row_of_preferences u body) ≡ true
own_row u body = rw (eq_refl u.tenant_id, eq_refl u.sub) refl

-- After a change that is accepted, the alert handler, where its queries answer and find the recipient as
-- the user, sends an e-mail exactly where the body of that change asks for it: e-mails are on unless
-- the body turns them off, and the levels are warn and critical unless the body names others, whatever
-- the user had set before.
pub put_preferences-should_send_email :
    (lower : String → String) (answers : Answers) (u : User) (body : PreferenceBody)
    (rows : List PreferenceRow) (tables : Tables) (recipient level : String) (member : TenantUser)
    → has_bad_level body.alert_levels ≡ false
    → tables.preferences ≡ map as_preferences (put_preferences u body rows).1
    → answers.user recipient ≡ true
    → answers.preferences recipient ≡ true
    → user_of lower answers tables u.tenant_id recipient ≡ some member
    → member.auth_user_id ≡ u.sub
    → should_send_email lower answers tables u.tenant_id recipient level ≡ (
        or_else body.email_alerts true
        && (is_empty level
            || includes level (or_else body.alert_levels ("warn" ∷ "critical" ∷ []))))
unfolding should_send_email put_preferences
put_preferences-should_send_email lower answers u body rows tables recipient level member v q a b f
      s =
    let w = upsert-IsFound u (row_of_preferences u body) rows (own_row u body) in
    let stored : tables.preferences
        ≡ map as_preferences (upsert u (row_of_preferences u body) rows) =
      rw v at q in
    let found =
      subst
        (λ ps.
          find (λ (p : Preferences). p.tenant_id == u.tenant_id && p.user_id == u.sub) ps
          ≡ some w.row)
        (sym stored) w.found in
    let g =
      subst (λ id. preferences_of lower answers tables u.tenant_id id ≡ some w.row) (sym s) found in
    rw (a, f, b, g, w.emails, w.levels) refl
