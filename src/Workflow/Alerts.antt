-- ===== src/Workflow/Alerts.antt =====
-- apps/workflow-alerts/src/index.ts: normalising a risk score, choosing the alert, and the two maps
-- that hold back a repeated one. `Num` is JavaScript's number with its order. The fields of a
-- message are read as the code reads them: a number that is none counts as missing, while device_id,
-- tenant_id and level, whose type the code does not test, are taken to be texts where they are there,
-- as the risk engine sends them.
pub mod Spacing
pub mod Jobs
pub mod Sweeping
mod Tests
use Prim.Native.String.{◌++◌}
use grain_guard.Prelude.{
  ℕ, ◌+◌, String, Bool, true, false, not, ◌&&◌, ◌||◌, Option, none, some, List, [], ◌∷◌, or_else,
  is_empty, if◌then◌else◌, ltb, leb, ◌==◌,
}

-- The parsed JSON object.
pub record RiskScoreEvent (Num : Type 0) : Type 0 where
  pub device_id : Option String
  pub tenant_id : Option String
  pub level : Option String
  pub score : Option Num
  pub temperature : Option Num
  pub humidity : Option Num
  pub t_score : Option Num
  pub h_score : Option Num
  pub t_threshold : Option Num
  pub h_threshold : Option Num
  pub recipients : Option (List (Option String))
  pub source_event_id : Option String

-- What normalizeRiskEvent returns.
pub record NormalEvent (Num : Type 0) : Type 0 where
  pub device_id : String
  pub tenant_id : String
  pub score : Num
  pub level : String
  pub temperature : Option Num
  pub humidity : Option Num
  pub t_score : Num
  pub h_score : Num
  pub t_threshold : Option Num
  pub h_threshold : Option Num
  pub recipients : List String
  pub source_event_id : Option String

pub data AlertType : Type 0 where
  temperature humidity : AlertType

pub record AlertJob (Num : Type 0) : Type 0 where
  pub tenant_id : String
  pub device_id : String
  pub serial_number : String
  pub alert_type : AlertType
  pub value : Option Num
  pub threshold : Option Num
  pub score : Num
  pub level : String
  pub recipients : List String

-- recipients.filter(recipient => typeof recipient === "string" && recipient.length > 0)
abbrev pub string_recipients : List (Option String) → List String
string_recipients [] = []
string_recipients (none ∷ rs) = string_recipients rs
string_recipients (some r ∷ rs) =
    let rest = string_recipients rs in if is_empty r then rest else r ∷ rest

abbrev pub event_recipients : Option (List (Option String)) → List String
event_recipients none = []
event_recipients (some rs) = string_recipients rs

-- COOLDOWN_MS and PROCESSED_EVENT_TTL_MS
abbrev pub cooldown_ms : ℕ
cooldown_ms = 300000

abbrev pub processed_event_ttl_ms : ℕ
processed_event_ttl_ms = 1800000

-- A Map<string, number>.
abbrev pub Times : Type 0
Times = String → Option ℕ

abbrev pub set : String → ℕ → Times → Times
set key now m k = if key == k then some now else m k

-- !!last && now - last < ttl
abbrev pub is_recent : ℕ → ℕ → Option ℕ → Bool
is_recent ttl now none = false
is_recent ttl now (some last) = ltb 0 last && ltb now (last + ttl)

-- The entries that the setInterval callback leaves.
abbrev pub keep_recent : ℕ → ℕ → Option ℕ → Option ℕ
keep_recent ttl now none = none
keep_recent ttl now (some last) = if leb (last + ttl) now then none else some last

abbrev pub cooldown_key : String → String → String
cooldown_key device tenant = tenant ++ ":" ++ device

-- `serial` is the query: none where it throws or has no row.
abbrev pub resolve_serial_number : (String → Option String) → String → String
resolve_serial_number serial device = or_else (serial device) device

pub data Outcome : Type 0 where
  ignored duplicate on_cooldown failed queued : Outcome

module _ (Num : Type 0) where
  pub record State : Type 0 where
    pub cooldowns : Times
    pub processed_events : Times
    pub published : List (AlertJob Num)

abbrev pub text : Option String → String
text s = or_else s ""

module _ {Num : Type 0} where
  abbrev pub is_some : Option Num → Bool
  is_some none = false
  is_some (some x) = true

  abbrev pub event_key : NormalEvent Num → String
  event_key e = elim e.source_event_id [
    | some id ↦ id ++ ":" ++ e.level
    | none ↦ e.tenant_id ++ ":" ++ e.device_id ++ ":" ++ e.level
  ]

  -- The callback of setInterval.
  unfoldable pub sweep : ℕ → State Num → State Num
  sweep now s = record s {
    cooldowns = λ k. keep_recent cooldown_ms now (s.cooldowns k);
    processed_events = λ k. keep_recent processed_event_ttl_ms now (s.processed_events k);
  }

module _ {Num : Type 0} (zero_num : Num) (at_least : Num → Num → Bool) where
  abbrev pub normal_event : String → String → String → RiskScoreEvent Num → NormalEvent Num
  normal_event device tenant level e = record {
    device_id = device;
    tenant_id = tenant;
    score = or_else e.score zero_num;
    level = level;
    temperature = e.temperature;
    humidity = e.humidity;
    t_score = or_else e.t_score zero_num;
    h_score = or_else e.h_score zero_num;
    t_threshold = e.t_threshold;
    h_threshold = e.h_threshold;
    recipients = event_recipients e.recipients;
    source_event_id = e.source_event_id;
  }

  unfoldable pub normalize_risk_event : RiskScoreEvent Num → Option (NormalEvent Num)
  normalize_risk_event e =
      if is_empty (text e.device_id) || is_empty (text e.tenant_id) || is_empty (text e.level)
      then none
      else if text e.level == "safe"
      then none
      else some (normal_event (text e.device_id) (text e.tenant_id) (text e.level) e)

  unfoldable pub infer_alert_type : NormalEvent Num → AlertType × Option Num × Option Num
  infer_alert_type e =
      if at_least e.t_score e.h_score && is_some e.temperature || not (is_some e.humidity)
      then (temperature, e.temperature, e.t_threshold)
      else (humidity, e.humidity, e.h_threshold)

  abbrev pub alert_job : (String → Option String) → NormalEvent Num → AlertJob Num
  alert_job serial e = record {
    tenant_id = e.tenant_id;
    device_id = e.device_id;
    serial_number = resolve_serial_number serial e.device_id;
    alert_type = (infer_alert_type e).0;
    value = (infer_alert_type e).1;
    threshold = (infer_alert_type e).2;
    score = e.score;
    level = e.level;
    recipients = e.recipients;
  }

  -- A normalised event at `now`; the alert is published by `later`, or cannot be even after a new
  -- connection (`reachable`).
  unfoldable pub each_event :
      (String → Option String) → ℕ → ℕ → Bool → NormalEvent Num → State Num → Outcome × State Num
  each_event serial now later reachable e s =
      if is_recent processed_event_ttl_ms now (s.processed_events (event_key e))
      then (duplicate, s)
      else if is_recent cooldown_ms now (s.cooldowns (cooldown_key e.device_id e.tenant_id))
      then (on_cooldown, s)
      else if reachable
      then (
        queued,
        record {
          cooldowns = set (cooldown_key e.device_id e.tenant_id) later s.cooldowns;
          processed_events = set (event_key e) later s.processed_events;
          published = alert_job serial e ∷ s.published;
        },
      )
      else (failed, s)

  -- eachMessage, on a message whose value is a JSON object
  unfoldable pub each_message :
      (String → Option String) → ℕ → ℕ → Bool → RiskScoreEvent Num → State Num → Outcome × State Num
  each_message serial now later reachable e s = elim (normalize_risk_event e) [
    | none ↦ (ignored, s)
    | some n ↦ each_event serial now later reachable n s
  ]
