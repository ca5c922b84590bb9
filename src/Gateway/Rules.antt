-- ===== src/Gateway/Rules.antt =====
-- apps/gateway/src/routes/alertRules.ts: the alert rules of a tenant. `Number` is the type of a
-- threshold, `trim` stands for JavaScript's trim, and identifiers are arguments. A query that fails for
-- another reason than the CHECK on level is left out.
use grain_guard.Prelude.{
  ℕ, String, Bool, true, false, not, ◌&&◌, ◌||◌, Option, none, some, List, [], ◌∷◌, select, find,
  update, includes, is_empty, or_else, if◌then◌else◌, ◌==◌,
}
use grain_guard.Gateway.Team.{User, AuditEntry}

module _ (Number : Type 0) where
  -- alert_rules
  pub record Rule : Type 0 where
    pub id : String
    pub tenant_id : String
    pub name : String
    pub metric : String
    pub operator : String
    pub threshold : Number
    pub level : String
    pub enabled : Bool
    pub updated_at : ℕ

  pub record Rules : Type 0 where
    pub rules : List Rule
    pub audit : List AuditEntry

  -- req.body
  pub record RuleBody : Type 0 where
    pub name : Option String
    pub metric : Option String
    pub operator : Option String
    pub threshold : Option Number
    pub level : Option String
    pub enabled : Option Bool

  pub data RuleRequest : Type 0 where
    list_rules : RuleRequest
    create_rule : RuleBody → String → RuleRequest
    update_rule : String → RuleBody → RuleRequest
    delete_rule : String → RuleRequest

  pub data RuleReply : Type 0 where
    rejected : ℕ → String → RuleReply
    broken removed : RuleReply
    shown : List Rule → RuleReply
    made : Rule → RuleReply
    edited : Rule → RuleReply

abbrev pub valid_metrics : List String
valid_metrics = "temperature" ∷ "humidity" ∷ "co2" ∷ "battery" ∷ []

abbrev pub valid_operators : List String
valid_operators = ">=" ∷ ">" ∷ "<=" ∷ "<" ∷ "==" ∷ []

abbrev pub valid_levels : List String
valid_levels = "warn" ∷ "critical" ∷ []

-- !text?.trim()
abbrev pub is_missing : (String → String) → Option String → Bool
is_missing trim none = true
is_missing trim (some s) = is_empty (trim s)

-- level && !VALID_LEVELS.includes(level)
abbrev pub is_bad_level : Option String → Bool
is_bad_level none = false
is_bad_level (some level) = not (is_empty level) && not (includes level valid_levels)

abbrev pub log_rule : User → String → String → List AuditEntry → List AuditEntry
log_rule u event id entries =
    record { tenant_id = u.tenant_id; actor_id = u.sub; event_type = event; resource_id = id }
    ∷ entries

module _ {Number : Type 0} where
  -- WHERE id = i AND tenant_id = t
  abbrev pub is_rule : String → String → Rule Number → Bool
  is_rule i t r = r.id == i && r.tenant_id == t

  abbrev pub row_of_body :
      (String → String) → User → RuleBody Number → Number → String → ℕ → Rule Number
  row_of_body trim u body threshold id now = record {
    id = id;
    tenant_id = u.tenant_id;
    name = trim (or_else body.name "");
    metric = or_else body.metric "";
    operator = or_else body.operator "";
    threshold = threshold;
    level = or_else body.level "warn";
    enabled = or_else body.enabled true;
    updated_at = now;
  }

  -- INSERT, which the CHECK on level may refuse, and the audit log
  abbrev pub insert_rule : User → Rule Number → Rules Number → RuleReply Number × Rules Number
  insert_rule u row db =
      if includes row.level valid_levels
      then (
        made row,
        record db {
          rules = row ∷ db.rules;
          audit = log_rule u "alert_rule.created" row.id db.audit;
        },
      )
      else (broken, db)

  unfoldable pub post_rule :
      (String → String)
      → User
      → RuleBody Number
      → String
      → ℕ
      → Rules Number
      → RuleReply Number × Rules Number
  post_rule trim u body id now db = elim body.threshold [
    | none ↦ (rejected 400 "name, metric, operator, threshold are required", db)
    | some threshold ↦
        if is_missing trim body.name || is_missing trim body.metric || is_missing trim body.operator
        then (rejected 400 "name, metric, operator, threshold are required", db)
        else if not (includes (or_else body.metric "") valid_metrics)
        then (rejected 400 "metric must be one of", db)
        else if not (includes (or_else body.operator "") valid_operators)
        then (rejected 400 "operator must be one of", db)
        else if is_bad_level body.level
        then (rejected 400 "level must be one of", db)
        else insert_rule u (row_of_body trim u body threshold id now) db
  ]

  -- SET … = COALESCE($1, …)
  abbrev pub edit : RuleBody Number → ℕ → Rule Number → Rule Number
  edit body now r = record r {
    name = or_else body.name r.name;
    metric = or_else body.metric r.metric;
    operator = or_else body.operator r.operator;
    threshold = or_else body.threshold r.threshold;
    level = or_else body.level r.level;
    enabled = or_else body.enabled r.enabled;
    updated_at = now;
  }

  unfoldable pub put_rule :
      User → String → RuleBody Number → ℕ → Rules Number → RuleReply Number × Rules Number
  put_rule u i body now db = elim (find (is_rule i u.tenant_id) db.rules) [
    | none ↦ (rejected 404 "alert_rule_not_found", db)
    | some r ↦
        if includes (edit body now r).level valid_levels
        then (
          edited (edit body now r),
          record db {
            rules = update (is_rule i u.tenant_id) (edit body now) db.rules;
            audit = log_rule u "alert_rule.updated" i db.audit;
          },
        )
        else (broken, db)
  ]

  unfoldable pub drop_rule : User → String → Rules Number → RuleReply Number × Rules Number
  drop_rule u i db = elim (find (is_rule i u.tenant_id) db.rules) [
    | none ↦ (rejected 404 "alert_rule_not_found", db)
    | some r ↦ (
      removed,
      record db {
        rules = select (λ s. not (is_rule i u.tenant_id s)) db.rules;
        audit = log_rule u "alert_rule.deleted" i db.audit;
      },
    )
  ]

  -- A request of a signed-in user, of whatever role.
  unfoldable pub handle_rules :
      (String → String)
      → User
      → RuleRequest Number
      → ℕ
      → Rules Number
      → RuleReply Number × Rules Number
  unfolding post_rule put_rule drop_rule
  handle_rules trim u list_rules now db =
      (shown (select (λ (r : Rule Number). r.tenant_id == u.tenant_id) db.rules), db)
  handle_rules trim u (create_rule body id) now db = post_rule trim u body id now db
  handle_rules trim u (update_rule i body) now db = put_rule u i body now db
  handle_rules trim u (delete_rule i) now db = drop_rule u i db
