-- ===== src/Gateway/Tenancy/Alerts.antt =====
-- The alert rules of the tenants that a request is not about.
use grain_guard.Prelude.{
  ℕ, String, Bool, true, false, not, ◌||◌, ◌≡◌, refl, List, find, includes, or_else, if◌then◌else◌,
  if-intro, any-intro, ◌==◌, eq_iff, arith, Bool-cases, inl, inr,
}
use grain_guard.Gateway.Team.{User}
use grain_guard.Gateway.Rules.{
  Rule, Rules, RuleBody, RuleReply, RuleRequest, list_rules, create_rule, update_rule, delete_rule,
  is_rule, insert_rule, post_rule, put_rule, drop_rule, edit, handle_rules, row_of_body,
  valid_levels, valid_metrics, valid_operators, is_missing, is_bad_level, rejected,
}
use grain_guard.Gateway.Tenancy.Rows.{of_tenant, of_tenant-update, of_tenant-select}

module _ {Number : Type 0} (t : String) (u : User) (stranger : (u.tenant_id == t) ≡ false) where
  abbrev pub rules_of : List (Rule Number) → List (Rule Number)
  rules_of rows = of_tenant (λ (r : Rule Number). r.tenant_id) t rows

  is_rule-Spares :
      (i : String) (r : Rule Number) → is_rule i u.tenant_id r ≡ true → (r.tenant_id == t) ≡ false
  is_rule-Spares i r e = ground (arith, e, stranger, eq_iff r.tenant_id u.tenant_id)

  module _ (db : Rules Number) where
    pub record SparesRules (r : RuleReply Number × Rules Number) : Type 0 where
      pub rules : rules_of r.1.rules ≡ rules_of db.rules

    guard-Spares :
        (b : Bool) (reply : RuleReply Number) (x : RuleReply Number × Rules Number)
        → SparesRules x
        → SparesRules (if b then (reply, db) else x)
    guard-Spares true reply x h = record { rules = refl }
    guard-Spares false reply x h = record { rules = h.rules }

    insert_rule-Spares :
        (row : Rule Number) → (row.tenant_id == t) ≡ false → SparesRules (insert_rule u row db)
    insert_rule-Spares row n = elim (Bool-cases (includes row.level valid_levels)) [
      | inl e ↦ rw e (record { rules = rw n refl })
      | inr e ↦ rw e (record { rules = refl })
    ]

    post_rule-Spares :
        (trim : String → String) (body : RuleBody Number) (id : String) (now : ℕ)
        → SparesRules (post_rule trim u body id now db)
    unfolding post_rule
    post_rule-Spares trim body id now =
        any-intro SparesRules body.threshold (record { rules = refl })
          (λ threshold.
            guard-Spares
              (is_missing trim body.name
                || is_missing trim body.metric
                || is_missing trim body.operator)
              (rejected 400 "name, metric, operator, threshold are required") _
              (guard-Spares (not (includes (or_else body.metric "") valid_metrics))
                (rejected 400 "metric must be one of") _
                (guard-Spares (not (includes (or_else body.operator "") valid_operators))
                  (rejected 400 "operator must be one of") _
                  (guard-Spares (is_bad_level body.level) (rejected 400 "level must be one of") _
                    (insert_rule-Spares (row_of_body trim u body threshold id now) stranger)))))

    put_rule-Spares :
        (i : String) (body : RuleBody Number) (now : ℕ) → SparesRules (put_rule u i body now db)
    unfolding put_rule
    put_rule-Spares i body now =
        any-intro SparesRules (find (is_rule i u.tenant_id) db.rules) (record { rules = refl })
          (λ r.
            if-intro SparesRules (includes (edit body now r).level valid_levels)
              (record {
                rules =
                    of_tenant-update (λ (s : Rule Number). s.tenant_id) t (is_rule i u.tenant_id)
                      (edit body now) db.rules (is_rule-Spares i) (λ s. refl);
              })
              (record { rules = refl }))

    drop_rule-Spares : (i : String) → SparesRules (drop_rule u i db)
    unfolding drop_rule
    drop_rule-Spares i =
        any-intro SparesRules (find (is_rule i u.tenant_id) db.rules) (record { rules = refl })
          (λ r. record {
            rules =
                of_tenant-select (λ (s : Rule Number). s.tenant_id) t (is_rule i u.tenant_id)
                  db.rules (is_rule-Spares i);
          })

    pub handle_rules-Spares :
        (trim : String → String) (q : RuleRequest Number) (now : ℕ)
        → SparesRules (handle_rules trim u q now db)
    unfolding handle_rules
    handle_rules-Spares trim list_rules now = record { rules = refl }
    handle_rules-Spares trim (create_rule body id) now = post_rule-Spares trim body id now
    handle_rules-Spares trim (update_rule i body) now = put_rule-Spares i body now
    handle_rules-Spares trim (delete_rule i) now = drop_rule-Spares i
