-- ===== src/Workflow/Alerts/Jobs.antt =====
-- What is published.
use grain_guard.Prelude.{
  ℕ, ◌≡◌, String, Bool, false, Option, none, some, List, [], ◌∷◌, All, is_empty, Maybe,
  option-intro, Bool-cases, inl, inr, ◌==◌,
}
use grain_guard.Workflow.Alerts.{
  State, RiskScoreEvent, NormalEvent, AlertJob, Outcome, each_message, each_event,
  normalize_risk_event, alert_job, string_recipients, event_recipients, text, is_recent,
  processed_event_ttl_ms, cooldown_ms, event_key, cooldown_key,
}

-- A job that the alert worker can handle: it names its device and tenant, its level is one that
-- asks for an alert, and each of its recipients is an address.
abbrev pub IsAlert : {Num : Type 0} → AlertJob Num → Type 0
IsAlert j =
    (is_empty j.device_id ≡ false)
    × (is_empty j.tenant_id ≡ false)
    × (is_empty j.level ≡ false)
    × ((j.level == "safe") ≡ false)
    × All (λ r. is_empty r ≡ false) j.recipients

string_recipients-All :
    (rs : List (Option String)) → All (λ r. is_empty r ≡ false) (string_recipients rs)
string_recipients-All [] = tt
string_recipients-All (none ∷ rs) = string_recipients-All rs
string_recipients-All (some r ∷ rs) = elim (Bool-cases (is_empty r)) [
  | inl e ↦ rw e (string_recipients-All rs)
  | inr e ↦ rw e (e, string_recipients-All rs)
]

event_recipients-All :
    (o : Option (List (Option String))) → All (λ r. is_empty r ≡ false) (event_recipients o)
event_recipients-All none = tt
event_recipients-All (some rs) = string_recipients-All rs

module _ {Num : Type 0} (zero_num : Num) (at_least : Num → Num → Bool)
    (serial : String → Option String) where
  abbrev MakesAlert : NormalEvent Num → Type 0
  MakesAlert n = IsAlert (alert_job zero_num at_least serial n)

  normalize_risk_event-MakesAlert :
      (e : RiskScoreEvent Num) → Maybe MakesAlert (normalize_risk_event zero_num at_least e)
  unfolding normalize_risk_event
  normalize_risk_event-MakesAlert e = elim (Bool-cases (is_empty (text e.device_id))) [
    | inl d ↦ rw d tt
    | inr d ↦ elim (Bool-cases (is_empty (text e.tenant_id))) [
      | inl t ↦ rw (d, t) tt
      | inr t ↦ elim (Bool-cases (is_empty (text e.level))) [
        | inl l ↦ rw (d, t, l) tt
        | inr l ↦ elim (Bool-cases (text e.level == "safe")) [
          | inl f ↦ rw (d, t, l, f) tt
          | inr f ↦ rw (d, t, l, f) (d, t, l, f, event_recipients-All e.recipients)
        ]
      ]
    ]
  ]

  each_event-IsAlert :
      (now later : ℕ) (reachable : Bool) (n : NormalEvent Num) (s : State Num)
      → All IsAlert s.published
      → MakesAlert n
      → All IsAlert (each_event zero_num at_least serial now later reachable n s).1.published
  unfolding each_event
  each_event-IsAlert now later reachable n s h k =
      elim (Bool-cases (is_recent processed_event_ttl_ms now (s.processed_events (event_key n)))) [
        | inl f ↦ rw f h
        | inr f ↦
            elim (Bool-cases
              (is_recent cooldown_ms now (s.cooldowns (cooldown_key n.device_id n.tenant_id)))) [
                | inl g ↦ rw (f, g) h
                | inr g ↦ elim (Bool-cases reachable) [
                  | inl r ↦ rw (f, g, r) (k, h)
                  | inr r ↦ rw (f, g, r) h
                ]
              ]
      ]

  -- Handling a message, whatever it holds, keeps every published job one that the alert worker can
  -- handle: with a device, a tenant, a level other than "safe", and no empty recipient.
  pub each_message-IsAlert :
      (now later : ℕ) (reachable : Bool) (e : RiskScoreEvent Num) (s : State Num)
      → All IsAlert s.published
      → All IsAlert (each_message zero_num at_least serial now later reachable e s).1.published
  unfolding each_message
  each_message-IsAlert now later reachable e s h =
      option-intro MakesAlert (λ (r : Outcome × State Num). All IsAlert r.1.published)
        (normalize_risk_event zero_num at_least e) (normalize_risk_event-MakesAlert e) h
        (λ n k. each_event-IsAlert now later reachable n s h k)
