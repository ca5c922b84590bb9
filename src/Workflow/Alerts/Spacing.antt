-- ===== src/Workflow/Alerts/Spacing.antt =====
-- The distance between two alerts of one device.
use grain_guard.Prelude.{
  ℕ, ◌+◌, ◌≤◌, ◌<◌, ◌≡◌, refl, String, Bool, true, Option, some, List, [], ◌∷◌, All, Bool-cases,
  Option-cases, inl, inr, arith, select, length, subst, sym, ◌∙◌, ◌==◌, eq_iff, eq_refl,
}
use grain_guard.Workflow.Alerts.{
  State, RiskScoreEvent, NormalEvent, AlertJob, queued, each_message, each_event,
  normalize_risk_event, event_key, cooldown_key, cooldown_ms, processed_event_ttl_ms, is_recent,
  sweep,
}

-- What happens in the service, in its order: a message at `now` whose alert is out by `later`, or a
-- sweep.
pub data Operation (Num : Type 0) : Type 0 where
  message : ℕ → ℕ → Bool → RiskScoreEvent Num → Operation Num
  swept : ℕ → Operation Num

module _ {Num : Type 0} where
  -- The operation comes before the end of the cooldown that starts at `t`.
  abbrev pub Within : ℕ → Operation Num → Type 0
  Within t (message now later reachable e) = now < t + cooldown_ms
  Within t (swept now) = now < t + cooldown_ms

  -- The alerts of a device that were published.
  abbrev pub alerts_of : String → State Num → ℕ
  alerts_of key s =
      length
        (select (λ (j : AlertJob Num). cooldown_key j.device_id j.tenant_id == key) s.published)

  -- The device's last alert was at `t` or later.
  abbrev pub Cold : String → ℕ → State Num → Type 0
  Cold key t s = (last : ℕ) × (s.cooldowns key ≡ some last) × (t ≤ last)

module _ {Num : Type 0} (zero_num : Num) (at_least : Num → Num → Bool)
    (serial : String → Option String) where
  unfoldable pub apply : Operation Num → State Num → State Num
  apply (message now later reachable e) s =
      (each_message zero_num at_least serial now later reachable e s).1
  apply (swept now) s = sweep now s

  unfoldable pub apply_each : List (Operation Num) → State Num → State Num
  apply_each [] s = s
  apply_each (o ∷ os) s = apply_each os (apply o s)

  -- The same alerts of the device, and a cooldown that still starts at `t` or later.
  abbrev Quiet : String → ℕ → State Num → State Num → Type 0
  Quiet key t s s' = Cold key t s' × (alerts_of key s' ≡ alerts_of key s)

  recent_within :
      (t now : ℕ) (o : Option ℕ)
      → (last : ℕ) × (o ≡ some last) × (t ≤ last)
      → 1 ≤ t
      → now < t + cooldown_ms
      → is_recent cooldown_ms now o ≡ true
  recent_within t now o (last, e, h) p w = rw e (ground arith)

  each_event-Quiet :
      (key : String) (t now later : ℕ) (reachable : Bool) (n : NormalEvent Num) (s : State Num)
      → Cold key t s
      → 1 ≤ t
      → now < t + cooldown_ms
      → Quiet key t s (each_event zero_num at_least serial now later reachable n s).1
  unfolding each_event
  each_event-Quiet key t now later reachable n s c p w =
      elim (Bool-cases (is_recent processed_event_ttl_ms now (s.processed_events (event_key n)))) [
        | inl f ↦ rw f (c, refl)
        | inr f ↦
            elim (Bool-cases
              (is_recent cooldown_ms now (s.cooldowns (cooldown_key n.device_id n.tenant_id)))) [
                | inl g ↦ rw (f, g) (c, refl)
                | inr g ↦ elim (Bool-cases reachable) [
                  | inr r ↦ rw (f, g, r) (c, refl)
                  | inl r ↦ elim (Bool-cases (cooldown_key n.device_id n.tenant_id == key)) [
                    | inr k ↦ rw (f, g, r, k) (c, refl)
                    | inl k ↦ absurd (
                        ground (
                          arith,
                          g,
                          recent_within t now (s.cooldowns (cooldown_key n.device_id n.tenant_id))
                              (subst (λ x. (last : ℕ) × (s.cooldowns x ≡ some last) × (t ≤ last))
                                (sym ((eq_iff (cooldown_key n.device_id n.tenant_id) key).0 k)) c)
                              p w,
                        ))
                  ]
                ]
              ]
      ]

  each_message-Quiet :
      (key : String) (t now later : ℕ) (reachable : Bool) (e : RiskScoreEvent Num) (s : State Num)
      → Cold key t s
      → 1 ≤ t
      → now < t + cooldown_ms
      → Quiet key t s (each_message zero_num at_least serial now later reachable e s).1
  unfolding each_message
  each_message-Quiet key t now later reachable e s c p w =
      elim (Option-cases (normalize_risk_event zero_num at_least e)) [
        | inl f ↦ rw (f, each_message) (c, refl)
        | inr (n, f) ↦ rw (f, each_message) (each_event-Quiet key t now later reachable n s c p w)
      ]

  sweep-Quiet :
      (key : String) (t now : ℕ) (s : State Num)
      → Cold key t s
      → now < t + cooldown_ms
      → Quiet key t s (sweep now s)
  unfolding sweep
  sweep-Quiet key t now s (last, e, h) w = ((last, rw e (ground arith), h), refl)

  apply_each-Quiet :
      (key : String) (t : ℕ) (os : List (Operation Num)) (s : State Num)
      → Cold key t s
      → 1 ≤ t
      → All (Within t) os
      → alerts_of key (apply_each os s) ≡ alerts_of key s
  unfolding apply_each apply
  apply_each-Quiet key t [] s c p w = refl
  apply_each-Quiet key t (message now later reachable e ∷ os) s c p w =
      let q = each_message-Quiet key t now later reachable e s c p w.0 in
      apply_each-Quiet key t os (apply (message now later reachable e) s) q.0 p w.1 ∙ q.1
  apply_each-Quiet key t (swept now ∷ os) s c p w =
      let q = sweep-Quiet key t now s c w.0 in
      apply_each-Quiet key t os (apply (swept now) s) q.0 p w.1 ∙ q.1

  queued-cooldown :
      (now t : ℕ) (n : NormalEvent Num) (s : State Num)
      → (each_event zero_num at_least serial now t true n s).0 ≡ queued
      → (each_event zero_num at_least serial now t true n s).1.cooldowns
          (cooldown_key n.device_id n.tenant_id)
        ≡ some t
  unfolding each_event
  queued-cooldown now t n s e = ground (arith, eq_refl (cooldown_key n.device_id n.tenant_id))

  -- After an alert for a device at `t`, no second alert for the device is published in the five
  -- minutes from `t`, whatever messages of whatever devices and sweeps these bring.
  pub alert_spacing :
      (now t : ℕ) (n : NormalEvent Num) (os : List (Operation Num)) (s : State Num)
      → 1 ≤ t
      → (each_event zero_num at_least serial now t true n s).0 ≡ queued
      → All (Within t) os
      → let key = cooldown_key n.device_id n.tenant_id in
        let after = (each_event zero_num at_least serial now t true n s).1 in
        alerts_of key (apply_each os after) ≡ alerts_of key after
  alert_spacing now t n os s p e w =
      let key = cooldown_key n.device_id n.tenant_id in
      apply_each-Quiet key t os (each_event zero_num at_least serial now t true n s).1
        (t, queued-cooldown now t n s e, omega arith) p w
