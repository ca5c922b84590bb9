-- ===== src/Gateway/Plan/Tiers.antt =====
-- The plans as a ladder.
use grain_guard.Prelude.{
  ℕ, zero, suc, ◌+◌, ◌-◌, ◌||◌, subst, String, ◌≡◌, ◌≤◌, refl, Bool, true, false, not, arith,
  if◌then◌else◌, ℤ, is_minus_one, reaches, ◌==◌, Bool-cases, inl, inr, eq_iff,
}
use grain_guard.Gateway.Plan.{
  PlanLimits, free, starter, professional, enterprise, plan_limits, is_off, Feature,
}

-- 0 for the free plan and for every name that is not in the table.
unfoldable pub tier : String → ℕ
tier plan =
    if plan == "starter"
    then 1
    else if plan == "professional"
    then 2
    else if plan == "enterprise"
    then 3
    else 0

abbrev limits_of : ℕ → PlanLimits
limits_of zero = free
limits_of (suc zero) = starter
limits_of (suc (suc zero)) = professional
limits_of (suc (suc (suc n))) = enterprise

limits_of-tier : (plan : String) → plan_limits plan ≡ limits_of (tier plan)
unfolding plan_limits tier
limits_of-tier plan = elim (Bool-cases (plan == "free")) [
  | inl e ↦ rw ((eq_iff plan "free").0 e)
  | inr f ↦ elim (Bool-cases (plan == "starter")) [
    | inl e ↦ rw ((eq_iff plan "starter").0 e)
    | inr s ↦ elim (Bool-cases (plan == "professional")) [
      | inl e ↦ rw ((eq_iff plan "professional").0 e)
      | inr p ↦ elim (Bool-cases (plan == "enterprise")) [
        | inl e ↦ rw ((eq_iff plan "enterprise").0 e)
        | inr e ↦ rw (f, s, p, e)
      ]
    ]
  ]
]

-- `limit === -1`, or the guard's test `count >= limit` fails.
abbrev pub allows : ℤ → ℕ → Bool
allows limit n = is_minus_one limit || not (reaches n limit)

-- Whatever `l` allows, `m` allows.
pub record Covers (m l : PlanLimits) : Type 0 where
  pub devices : (n : ℕ) → allows l.devices n ≡ true → allows m.devices n ≡ true
  pub alert_rules : (n : ℕ) → allows l.alert_rules n ≡ true → allows m.alert_rules n ≡ true
  pub features : (f : Feature) → is_off l f ≡ false → is_off m f ≡ false
  pub rate : l.api_rate_limit ≤ m.api_rate_limit

Covers-refl : (l : PlanLimits) → Covers l l
Covers-refl l = record {
  devices = λ n h. h;
  alert_rules = λ n h. h;
  features = λ f h. h;
  rate = omega arith;
}

Covers-trans : {l m n : PlanLimits} → Covers n m → Covers m l → Covers n l
Covers-trans c d = record {
  devices = λ n h. c.devices n (d.devices n h);
  alert_rules = λ n h. c.alert_rules n (d.alert_rules n h);
  features = λ f h. c.features f (d.features f h);
  rate = omega (arith, c.rate, d.rate);
}

Covers-next : (n : ℕ) → Covers (limits_of (suc n)) (limits_of n)
unfolding is_off
Covers-next zero = record {
  devices = λ n h. ground arith;
  alert_rules = λ n h. ground arith;
  features = λ f h. ground arith;
  rate = omega arith;
}
Covers-next (suc zero) = record {
  devices = λ n h. ground arith;
  alert_rules = λ n h. ground arith;
  features = λ f h. ground arith;
  rate = omega arith;
}
Covers-next (suc (suc zero)) = record {
  devices = λ n h. refl;
  alert_rules = λ n h. refl;
  features = λ f h. ground arith;
  rate = omega arith;
}
Covers-next (suc (suc (suc n))) = Covers-refl enterprise

abbrev above : ℕ → ℕ → ℕ
above zero m = m
above (suc k) m = suc (above k m)

above_add : (k m : ℕ) → above k m ≡ k + m
above_add zero m = omega arith
above_add (suc k) m = omega (arith, above_add k m)

Covers-above : (k m : ℕ) → Covers (limits_of (above k m)) (limits_of m)
Covers-above zero m = Covers-refl (limits_of m)
Covers-above (suc k) m = Covers-trans (Covers-next (above k m)) (Covers-above k m)

-- From one plan to a plan of the same or a higher tier, in the order free (and any unknown name),
-- starter, professional, enterprise: every count of devices and of alert rules to which the guards
-- let one more be added, every feature that is not off, and the rate limit are kept.
pub upgrade-Covers : (p q : String) → tier p ≤ tier q → Covers (plan_limits q) (plan_limits p)
upgrade-Covers p q h =
    let e : above (tier q - tier p) (tier p) ≡ tier q =
      omega (arith, above_add (tier q - tier p) (tier p)) in
    rw (limits_of-tier p, limits_of-tier q)
      (subst (λ n. Covers (limits_of n) (limits_of (tier p))) e
        (Covers-above (tier q - tier p) (tier p)))
