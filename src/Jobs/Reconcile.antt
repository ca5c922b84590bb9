-- ===== src/Jobs/Reconcile.antt =====
-- `reconcileTenantDevices` of apps/jobs-worker/src/handlers/stripe.ts: its two UPDATE statements.
pub mod Ranks
pub mod Capacity
pub mod Gateway
use Prim.Native.String.{compare}
use text.Mathlib.Text.{is_lt}
use grain_guard.Prelude.{
  ℕ, suc, String, Bool, true, false, ◌&&◌, ◌||◌, Option, none, some, List, [], ◌∷◌, map, ℤ,
  is_minus_one, exceeds, ltb, nat_eq, select, update, if◌then◌else◌, ◌==◌,
}
use grain_guard.Database.{Database, Device}

-- ORDER BY created_at ASC, id ASC
pub comes_before : Device → Device → Bool
comes_before d e =
    ltb d.created_at e.created_at || (nat_eq d.created_at e.created_at && is_lt (compare d.id e.id))

unfoldable pub insert_device : Device → List Device → List Device
insert_device d [] = d ∷ []
insert_device d (e ∷ es) = if comes_before d e then d ∷ e ∷ es else e ∷ insert_device d es

unfoldable pub sort_devices : List Device → List Device
unfolding insert_device
sort_devices [] = []
sort_devices (d ∷ ds) = insert_device d (sort_devices ds)

-- ROW_NUMBER(), from `n` on
unfoldable pub number_from : ℕ → List Device → List (String × ℕ)
number_from n [] = []
number_from n (d ∷ ds) = (d.id, n) ∷ number_from (suc n) ds

-- WITH ranked AS (…)
unfoldable pub ranked : String → List Device → List (String × ℕ)
unfolding sort_devices number_from comes_before
ranked tenant_id ds = number_from 1 (sort_devices (select (λ d. d.tenant_id == tenant_id) ds))

unfoldable pub rank_of : String → List (String × ℕ) → Option ℕ
rank_of id [] = none
rank_of id ((j, rn) ∷ rest) = if j == id then some rn else rank_of id rest

-- SET disabled = ranked.rn > limit FROM ranked WHERE d.id = ranked.id
unfoldable pub set_disabled : List (String × ℕ) → ℤ → Device → Device
unfolding rank_of
set_disabled ranks limit d = elim (rank_of d.id ranks) [
  | none ↦ d
  | some rn ↦ record d { disabled = exceeds rn limit }
]

unfoldable pub reconcile_devices : String → ℤ → List Device → List Device
unfolding ranked set_disabled
reconcile_devices tenant_id limit ds =
    if is_minus_one limit
    then update (λ (d : Device). d.tenant_id == tenant_id && d.disabled)
        (λ d. record d { disabled = false }) ds
    else map (set_disabled (ranked tenant_id ds) limit) ds

unfoldable pub reconcile_tenant_devices : String → ℤ → Database → Database
unfolding reconcile_devices
reconcile_tenant_devices tenant_id limit db = record db {
  devices = reconcile_devices tenant_id limit db.devices;
}
