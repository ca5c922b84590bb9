-- ===== src/Bff/Redis.antt =====
-- apps/bff/src/datasources/redis.ts: the cache and its locks. A key is the record of the parts of its
-- text: `tenant` is none where the text has "global", and tenant ids are UUIDs (server.ts), so that
-- two records never have the same text. Times are milliseconds. A command that Redis rejects ends
-- the request with an error and is left out.
use grain_guard.Prelude.{
  ℕ, ◌+◌, ◌*◌, ◌≡◌, refl, String, Bool, true, false, ◌&&◌, Option, none, some, ltb, nat_eq,
  if◌then◌else◌, arith, ◌==◌, eq_iff, eq_refl, ap,
}

-- "device:full", "telemetry:device", "telemetry:all", "devices:all", "devices:telemetry" and
-- "devices:count"
pub data Kind : Type 0 where
  device_full telemetry_device telemetry_all devices_all devices_telemetry devices_count : Kind

abbrev kind_code : Kind → ℕ
kind_code device_full = 0
kind_code telemetry_device = 1
kind_code telemetry_all = 2
kind_code devices_all = 3
kind_code devices_telemetry = 4
kind_code devices_count = 5

pub record Key : Type 0 where
  pub kind : Kind
  pub tenant : Option String
  pub device : String
  pub limit : ℕ

abbrev same_tenant : Option String → Option String → Bool
same_tenant none none = true
same_tenant none (some t) = false
same_tenant (some t) none = false
same_tenant (some t) (some u) = t == u

unfoldable pub key_eq : Key → Key → Bool
key_eq j k =
    nat_eq (kind_code j.kind) (kind_code k.kind)
    && same_tenant j.tenant k.tenant
    && j.device == k.device
    && nat_eq j.limit k.limit

same_tenant_refl : (a : Option String) → same_tenant a a ≡ true
same_tenant_refl none = refl
same_tenant_refl (some t) = eq_refl t

kind_refl : (k : Kind) → nat_eq (kind_code k) (kind_code k) ≡ true
kind_refl k = ground arith

pub key_eq_refl : (k : Key) → key_eq k k ≡ true
unfolding key_eq
key_eq_refl k = ground (arith, same_tenant_refl k.tenant, eq_refl k.device)

same_tenant-eq : (a b : Option String) → same_tenant a b ≡ true → a ≡ b
same_tenant-eq none none h = refl
same_tenant-eq none (some t) h = ground arith
same_tenant-eq (some t) none h = ground arith
same_tenant-eq (some t) (some u) h = ap some ((eq_iff t u).0 h)

pub key_eq-tenant : (j k : Key) → key_eq j k ≡ true → j.tenant ≡ k.tenant
unfolding key_eq
key_eq-tenant j k h = same_tenant-eq j.tenant k.tenant (ground arith)

abbrev pub is_held : ℕ → Option ℕ → Bool
is_held now none = false
is_held now (some expiry) = ltb now expiry

module _ (Json : Type 0) where
  -- The entries with the time at which they expire, and likewise the locks.
  pub record Redis : Type 0 where
    pub entries : Key → Option (Json × ℕ)
    pub locks : Key → Option ℕ

module _ {Json : Type 0} where
  abbrev pub live : ℕ → Option (Json × ℕ) → Option Json
  live now none = none
  live now (some (value, expiry)) = if ltb now expiry then some value else none

  -- cache.get, and cache.getMany for each key
  unfoldable pub get : ℕ → Key → Redis Json → Option Json
  get now k r = live now (r.entries k)

  -- cache.set with EX
  unfoldable pub set : ℕ → Key → Json → ℕ → Redis Json → Redis Json
  set now k value ttl r = record r {
    entries = λ j. if key_eq j k then some (value, now + ttl * 1000) else r.entries j;
  }

  -- cache.acquireLock: SET … NX
  unfoldable pub acquire_lock : ℕ → Key → ℕ → Redis Json → Bool × Redis Json
  acquire_lock now k ttl r = if is_held now (r.locks k) then (false, r) else (
    true,
    record r { locks = λ j. if key_eq j k then some (now + ttl * 1000) else r.locks j },
  )

  -- cache.releaseLock without a token, as every caller calls it
  unfoldable pub release_lock : Key → Redis Json → Redis Json
  release_lock k r = record r { locks = λ j. if key_eq j k then none else r.locks j }
