-- ===== src/Workflow/Alerts/Sweeping.antt =====
-- The periodic sweep of the two maps.
use grain_guard.Prelude.{
  ℕ, ◌≤◌, ◌≡◌, refl, String, Bool, Option, none, some, arith, Option-cases, Bool-cases, inl, inr,
}
use grain_guard.Workflow.Alerts.{
  State, RiskScoreEvent, NormalEvent, Outcome, is_recent, keep_recent, each_message, each_event,
  sweep, normalize_risk_event, event_key, cooldown_key, cooldown_ms, processed_event_ttl_ms,
}

is_recent-keep_recent :
    (ttl t now : ℕ) (o : Option ℕ)
    → t ≤ now
    → is_recent ttl now (keep_recent ttl t o) ≡ is_recent ttl now o
is_recent-keep_recent ttl t now none h = refl
is_recent-keep_recent ttl t now (some last) h = ground arith

-- The same outcome and the same alerts.
abbrev pub Agrees : {Num : Type 0} → Outcome × State Num → Outcome × State Num → Type 0
Agrees r q = (r.0 ≡ q.0) × (r.1.published ≡ q.1.published)

module _ {Num : Type 0} (zero_num : Num) (at_least : Num → Num → Bool)
    (serial : String → Option String) where
  each_event-sweep :
      (t now later : ℕ) (reachable : Bool) (e : NormalEvent Num) (s : State Num)
      → t ≤ now
      → Agrees
          (each_event zero_num at_least serial now later reachable e (sweep t s))
          (each_event zero_num at_least serial now later reachable e s)
  unfolding each_event sweep
  each_event-sweep t now later reachable e s h =
      let p =
        is_recent-keep_recent processed_event_ttl_ms t now (s.processed_events (event_key e)) h in
      let c =
        is_recent-keep_recent cooldown_ms t now (s.cooldowns (cooldown_key e.device_id e.tenant_id))
          h in
      elim (Bool-cases (is_recent processed_event_ttl_ms now (s.processed_events (event_key e)))) [
        | inl f ↦ rw (p, f) (refl, refl)
        | inr f ↦
            elim (Bool-cases
              (is_recent cooldown_ms now (s.cooldowns (cooldown_key e.device_id e.tenant_id)))) [
                | inl g ↦ rw (p, f, c, g) (refl, refl)
                | inr g ↦ elim (Bool-cases reachable) [
                  | inl k ↦ rw (p, f, c, g, k) (refl, refl)
                  | inr k ↦ rw (p, f, c, g, k) (refl, refl)
                ]
              ]
      ]

  -- A message is handled the same, with the same alert where it has one, whether or not a sweep of
  -- the two maps ran at or before its time.
  pub each_message-sweep :
      (t now later : ℕ) (reachable : Bool) (e : RiskScoreEvent Num) (s : State Num)
      → t ≤ now
      → Agrees
          (each_message zero_num at_least serial now later reachable e (sweep t s))
          (each_message zero_num at_least serial now later reachable e s)
  unfolding each_message sweep
  each_message-sweep t now later reachable e s h =
      elim (Option-cases (normalize_risk_event zero_num at_least e)) [
        | inl f ↦ rw (f, each_message) (refl, refl)
        | inr (n, f) ↦ rw (f, each_message) (each_event-sweep t now later reachable n s h)
      ]
