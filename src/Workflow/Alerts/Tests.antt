-- ===== src/Workflow/Alerts/Tests.antt =====
-- The alerts of one device, with numbers for the scores.
use grain_guard.Prelude.{ℕ, leb, String, Bool, ◌≡◌, refl, Option, none, some, [], ◌∷◌, true, arith}
use grain_guard.Workflow.Alerts.{
  State, RiskScoreEvent, NormalEvent, humidity, queued, each_message, each_event,
  normalize_risk_event, normal_event, infer_alert_type,
}
use grain_guard.Workflow.Alerts.Spacing.{message, swept, apply_each, alerts_of, alert_spacing}

abbrev at_least : ℕ → ℕ → Bool
at_least a b = leb b a

abbrev serial : String → Option String
serial device = some "SN0001"

abbrev damp : RiskScoreEvent ℕ
damp = record {
  device_id = some "d1";
  tenant_id = some "t1";
  level = some "critical";
  score = some 93;
  temperature = some 21;
  humidity = some 88;
  t_score = some 10;
  h_score = some 93;
  t_threshold = some 30;
  h_threshold = some 70;
  recipients = some (some "ada@x.org" ∷ none ∷ some "" ∷ []);
  source_event_id = none;
}

abbrev damp_event : NormalEvent ℕ
damp_event = normal_event 0 at_least "d1" "t1" "critical" damp

abbrev start : State ℕ
start = record { cooldowns = λ k. none; processed_events = λ k. none; published = [] }

damp_queued : (each_message 0 at_least serial 1000 1001 true damp start).0 ≡ queued
unfolding each_message each_event normalize_risk_event
damp_queued = refl

damp_type : (infer_alert_type 0 at_least damp_event).0 ≡ humidity
unfolding infer_alert_type
damp_type = refl

alert_spacing_example :
    let after = (each_event 0 at_least serial 1000 1001 true damp_event start).1 in
    alerts_of "t1:d1"
      (apply_each 0 at_least serial (swept 200000 ∷ message 250000 250001 true damp ∷ []) after)
    ≡ 1
unfolding each_event
alert_spacing_example =
    alert_spacing 0 at_least serial 1000 1001 damp_event
      (swept 200000 ∷ message 250000 250001 true damp ∷ []) start (omega arith) refl
      (omega arith, (omega arith, tt))
