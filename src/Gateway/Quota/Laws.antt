-- ===== src/Gateway/Quota/Laws.antt =====
-- Whom the quota middleware lets through.
use grain_guard.Prelude.{
  ℕ, zero, suc, String, ◌≡◌, ◌≢◌, ◌<◌, ◌↔◌, eq_iff, ℤ, pos, negsuc, reaches, is_minus_one, is_empty,
  not, refl, true, false, none, some, arith, if◌then◌else◌, inl, inr, Option-cases,
}
use grain_guard.Database.{Database, Tenant, device_count, tenant_row}
use grain_guard.Gateway.Quota.{
  check_device_quota, quota_decision, effective_plan, quota_limit_for_plan, QuotaResult, next,
  payment_required, device_quota_middleware,
}

-- There is room for one more among `n` under the limit.
abbrev pub HasRoom : ℤ → ℕ → Type 0
HasRoom (pos k) n = n < k
HasRoom (negsuc zero) n = Unit {0}
HasRoom (negsuc (suc m)) n = ⊥

room_of_limit :
    (limit : ℤ) (n : ℕ)
    → (if is_minus_one limit then true else if reaches n limit then false else true) ≡ true
    → HasRoom limit n
room_of_limit (pos k) n h = ground arith
room_of_limit (negsuc zero) n h = tt
room_of_limit (negsuc (suc m)) n h = cc

limit_of_room :
    (limit : ℤ) (n : ℕ)
    → HasRoom limit n
    → (if is_minus_one limit then true else if reaches n limit then false else true) ≡ true
limit_of_room (pos k) n h = ground arith
limit_of_room (negsuc zero) n h = refl
limit_of_room (negsuc (suc m)) n h = absurd h

pub allowed_lem :
    (now : ℕ) (t : Tenant) (n : ℕ)
    → (quota_decision now t n).allowed ≡ (
        let limit = quota_limit_for_plan (effective_plan now t) in
        if is_minus_one limit then true else if reaches n limit then false else true)
unfolding quota_decision
allowed_lem now t n = ground arith

middleware_known :
    (now : ℕ) (db : Database) (id : String)
    → is_empty id ≡ false
    → device_quota_middleware now (some db) (some id) ≡ (
        if not (check_device_quota now db id).allowed
        then payment_required (check_device_quota now db id)
        else next)
unfolding device_quota_middleware
middleware_known now db id e = rw e

check_known :
    (now : ℕ) (db : Database) (id : String) (t : Tenant)
    → tenant_row db id ≡ some t
    → check_device_quota now db id ≡ quota_decision now t (device_count db id)
unfolding check_device_quota
check_known now db id t row = rw (row, check_device_quota)

check_unknown :
    (now : ℕ) (db : Database) (id : String)
    → tenant_row db id ≡ none
    → (check_device_quota now db id).allowed ≡ false
unfolding check_device_quota
check_unknown now db id row = rw (row, check_device_quota)

next_of_allowed :
    (r : QuotaResult)
    → ((if not r.allowed then payment_required r else next) ≡ next) ↔ (r.allowed ≡ true)
next_of_allowed r = ground arith

-- For a tenant with a non-empty id and a database that answers, a request goes on exactly when the
-- tenant exists and the limit of its effective plan is -1 or above the number of its devices.
pub device_quota_middleware_next_iff :
    (now : ℕ) (db : Database) (id : String)
    → id ≢ ""
    → (device_quota_middleware now (some db) (some id) ≡ next) ↔ (
        (t : Tenant) × (tenant_row db id ≡ some t)
        × HasRoom (quota_limit_for_plan (effective_plan now t)) (device_count db id))
device_quota_middleware_next_iff now db id ne =
    let named : is_empty id ≡ false = ground (arith, eq_iff id "") in
    rw (middleware_known now db id named) (elim (Option-cases (tenant_row db id)) [
      | inl missing ↦ (
        (λ p. cc (
          (next_of_allowed (check_device_quota now db id)).0 p,
          check_unknown now db id missing,
        )),
        (λ h. cc (missing, h.1)),
      )
      | inr (t, row) ↦ (
        (λ p. (
          t,
          row,
          room_of_limit (quota_limit_for_plan (effective_plan now t)) (device_count db id) (
              cc (
                (next_of_allowed (check_device_quota now db id)).0 p,
                check_known now db id t row,
                allowed_lem now t (device_count db id),
              )),
        )),
        (λ h. (next_of_allowed (check_device_quota now db id)).1 (
            cc (
              check_known now db id h.0 h.1,
              allowed_lem now h.0 (device_count db id),
              limit_of_room (quota_limit_for_plan (effective_plan now h.0)) (device_count db id)
                  h.2,
            ))),
      )
    ])
