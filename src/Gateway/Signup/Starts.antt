-- ===== src/Gateway/Signup/Starts.antt =====
-- What a tenant starts with.
use grain_guard.Prelude.{
  ℕ, ◌≤◌, ◌≡◌, refl, ap, ◌∙◌, String, some, List, All, All-imp, select, length, arith, if-intro,
  ◌==◌, eq_refl,
}
use grain_guard.Database.{Device, tenant_row, device_count}
use grain_guard.Gateway.Quota.{quota_limit_for_plan, effective_plan}
use grain_guard.Gateway.Account.Erasure.{HasAdmin}
use grain_guard.Gateway.Devices.{DeviceCall, run_devices}
use grain_guard.Gateway.Devices.Bounds.{Asks, Fits, AtMost, run_devices-le}
use grain_guard.Gateway.Signup.{
  Text, Transaction, commits, duplicate, breaks, SignupBody, Auth0Answers, SignupReply, registered,
  missing, Platform, new_tenant, registered_as, register,
}

free_limit :
    (now : ℕ) (t : String) → AtMost 5 (quota_limit_for_plan (effective_plan now (new_tenant t)))
unfolding quota_limit_for_plan effective_plan
free_limit now t = omega arith

all_fit :
    (t : String) (named : t ≡ "" → ⊥) (calls : List DeviceCall)
    → All (λ (c : DeviceCall). Asks c.request) calls
    → All (Fits t named 5 (new_tenant t)) calls
all_fit t named calls h =
    All-imp (λ (c : DeviceCall). Asks c.request) (Fits t named 5 (new_tenant t)) calls
      (λ c a. record { asks = a; limit = free_limit c.now t }) h

module _ (trim : String → String) (trim_text lower : Text → Text) (t i : String) (b : SignupBody)
    (answers : Auth0Answers) (p : Platform) where
  -- What a sign-up that is answered with a slug has written.
  record Registers (r : SignupReply × Platform) : Type 0 where
    known : tenant_row r.1.db t ≡ some (new_tenant t)
    has_admin : HasAdmin t r.1.db
    devices : r.1.db.devices ≡ p.db.devices

  abbrev WhereRegistered : Text → SignupReply × Platform → Type 0
  WhereRegistered slug r = r.0 ≡ registered t slug → Registers r

  registered_as-Registers :
      (slug : Text) (transaction : Transaction)
      → WhereRegistered slug (registered_as trim trim_text lower t i b transaction answers p)
  registered_as-Registers slug duplicate h = cc
  registered_as-Registers slug breaks h = cc
  registered_as-Registers slug commits h = record {
    known = rw (eq_refl t) refl;
    has_admin = rw (eq_refl t) refl;
    devices = refl;
  }

  register-Registers :
      (slug : Text) (transaction : Transaction)
      → WhereRegistered slug (register trim trim_text lower t i b transaction answers p)
  unfolding register
  register-Registers slug transaction =
      if-intro (WhereRegistered slug) _ {x = (missing, p)} (cc)
        (registered_as-Registers slug transaction)

  -- A tenant whose sign-up is answered with a slug, under an identifier that is not empty and that no
  -- device has yet, has an administrator, and after any requests through the routes of routes/devices.ts
  -- alone (the bulk import is none of them), one after the other, by any users and at any times, it has
  -- at most five devices, where the queries of the quota answer and nothing else changes its plan.
  pub register-devices_le :
      (slug : Text) (transaction : Transaction) (calls : List DeviceCall)
      → (register trim trim_text lower t i b transaction answers p).0 ≡ registered t slug
      → (t ≡ "" → ⊥)
      → device_count p.db t ≡ 0
      → All (λ (c : DeviceCall). Asks c.request) calls
      → HasAdmin t (register trim trim_text lower t i b transaction answers p).1.db
        × (device_count
              (run_devices calls (register trim trim_text lower t i b transaction answers p).1.db)
              t
            ≤ 5)
  register-devices_le slug transaction calls h named fresh a =
      let r = register-Registers slug transaction h in
      let none_yet =
        ap (λ ds. length (select (λ (d : Device). d.tenant_id == t) ds)) r.devices ∙ fresh in
      (
        r.has_admin,
        run_devices-le t named 5 (new_tenant t) calls
            (register trim trim_text lower t i b transaction answers p).1.db
            (all_fit t named calls a) r.known (omega (arith, none_yet)),
      )
