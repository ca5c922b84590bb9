-- ===== src/Bff/Resolvers/Isolation/Entries.antt =====
-- The commands of Redis, entry by entry.
use grain_guard.Prelude.{
  ℕ, ◌≡◌, subst, String, Bool, true, false, Option, none, some, ltb, Maybe, if-intro, Bool-cases,
  inl, inr, if◌then◌else◌,
}
use grain_guard.Bff.Redis.{
  Key, get, set, acquire_lock, release_lock, live, is_held, key_eq, key_eq-tenant,
}
use grain_guard.Bff.Source.{Json}
use grain_guard.Bff.Resolvers.{Store, Reply}
use grain_guard.Bff.Resolvers.Isolation.{Owned, OwnedEntry, IsPartitioned, Serves}

module _ {Reading : Type 0} (owner : String → String) where
  live-Owned :
      (tenant : String) (now : ℕ) (o : Option (Json Reading × ℕ))
      → OwnedEntry owner tenant o
      → Maybe (Owned owner tenant) (live now o)
  live-Owned tenant now none h = tt
  live-Owned tenant now (some (j, expiry)) h =
      if-intro (Maybe (Owned owner tenant)) (ltb now expiry) {x = some j} {y = none} h tt

  pub get-Owned :
      (tenant : String) (now : ℕ) (k : Key) (r : Store Reading)
      → k.tenant ≡ some tenant
      → IsPartitioned owner r
      → Maybe (Owned owner tenant) (get now k r)
  unfolding get
  get-Owned tenant now k r e h = live-Owned tenant now (r.entries k) (h.entry k tenant e)

  set_entry :
      (tenant : String) (now ttl : ℕ) (k : Key) (j : Json Reading) (r : Store Reading)
      → k.tenant ≡ some tenant
      → Owned owner tenant j
      → IsPartitioned owner r
      → (k' : Key) (tenant' : String) → k'.tenant ≡ some tenant'
      → OwnedEntry owner tenant' ((set now k j ttl r).entries k')
  unfolding set
  set_entry tenant now ttl k j r e h p k' tenant' e' = elim (Bool-cases (key_eq k' k)) [
    | inr q ↦ rw q (p.entry k' tenant' e')
    | inl q ↦ rw q (subst (λ t. Owned owner t j) (cc (e, e', key_eq-tenant k' k q)) h)
  ]

  pub set-IsPartitioned :
      (tenant : String) (now ttl : ℕ) (k : Key) (j : Json Reading) (r : Store Reading)
      → k.tenant ≡ some tenant
      → Owned owner tenant j
      → IsPartitioned owner r
      → IsPartitioned owner (set now k j ttl r)
  unfolding set
  set-IsPartitioned tenant now ttl k j r e h p = record {
    entry = set_entry tenant now ttl k j r e h p;
  }

  pub acquire_lock-IsPartitioned :
      (now ttl : ℕ) (k : Key) (r : Store Reading)
      → IsPartitioned owner r
      → IsPartitioned owner (acquire_lock now k ttl r).1
  unfolding acquire_lock
  acquire_lock-IsPartitioned now ttl k r p = elim (Bool-cases (is_held now (r.locks k))) [
    | inl q ↦ rw q p
    | inr q ↦ rw q (record { entry = p.entry })
  ]

  pub release_lock-IsPartitioned :
      (k : Key) (r : Store Reading) → IsPartitioned owner r → IsPartitioned owner (release_lock k r)
  unfolding release_lock
  release_lock-IsPartitioned k r p = record { entry = p.entry }

  pub Serves-if :
      (tenant : String) (b : Bool) (x y : Reply Reading × Store Reading)
      → Serves owner tenant x
      → Serves owner tenant y
      → Serves owner tenant (if b then x else y)
  Serves-if tenant true x y h k = h
  Serves-if tenant false x y h k = k
