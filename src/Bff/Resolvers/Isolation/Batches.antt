-- ===== src/Bff/Resolvers/Isolation/Batches.antt =====
-- The batched query of several devices.
use grain_guard.Prelude.{
  ℕ, ◌≡◌, refl, String, Bool, false, not, ◌&&◌, some, List, [], ◌∷◌, any, select, All, All-find,
  option-intro, ◌==◌,
}
use mathlib.Core.List.{reverse, reverse_aux}
use grain_guard.Bff.Redis.{get, set}
use grain_guard.Bff.Source.{Telemetry, Tables, Json, telemetry_node, get_many_device_telemetry}
use grain_guard.Bff.Resolvers.{Context, device_telemetry_key, Store, threw, node_of}
use grain_guard.Bff.Resolvers.Handlers.{
  resolve_many_device_telemetry, fill, last_row, push, is_missed,
}
use grain_guard.Bff.Resolvers.Isolation.{IsConsistent, RowOf, Owned, IsPartitioned, Serves}
use grain_guard.Bff.Resolvers.Isolation.Entries.{get-Owned, set-IsPartitioned, Serves-if}
use grain_guard.Bff.Resolvers.Isolation.Queries.{get_many_device_telemetry-Owned}

All-reverse_aux {ℓ κ} :
    {A : Type ℓ} (P : A → Type κ) (xs ys : List A) → All P xs → All P ys → All P (reverse_aux xs ys)
All-reverse_aux P [] ys h k = k
All-reverse_aux P (x ∷ xs) ys h k = All-reverse_aux P xs (x ∷ ys) h.1 (h.0, k)

All-reverse {ℓ κ} : {A : Type ℓ} (P : A → Type κ) (xs : List A) → All P xs → All P (reverse xs)
All-reverse P xs h = All-reverse_aux P xs [] h tt

module _ {Reading : Type 0} (owner : String → String) where
  module _ (answers : Bool) (db : Tables Reading) (now : ℕ) (ctx : Context)
      (member : ctx.is_super_admin ≡ false) (consistent : IsConsistent owner db) where
    record Fills (x : List (Json Reading) × Store Reading) : Type 0 where
      filled : All (Owned owner ctx.tenant_id) x.0
      store : IsPartitioned owner x.1

    push-Fills :
        (j : Json Reading) (x : List (Json Reading) × Store Reading)
        → Owned owner ctx.tenant_id j
        → Fills x
        → Fills (push j x)
    push-Fills j x h f = record { filled = (h, f.filled); store = f.store }

    fill-Fills :
        (hits : Store Reading) (rows : List (Telemetry Reading)) (ids : List String)
        (r : Store Reading)
        → All (RowOf owner ctx.tenant_id) rows
        → IsPartitioned owner hits
        → IsPartitioned owner r
        → Fills (fill now ctx hits rows ids r)
    unfolding fill
    fill-Fills hits rows [] r h k p = record { filled = tt; store = p }
    fill-Fills hits rows (id ∷ ids) r h k p =
        option-intro (Owned owner ctx.tenant_id) Fills (get now (device_telemetry_key ctx id) hits)
          (get-Owned owner ctx.tenant_id now (device_telemetry_key ctx id) hits refl k)
          (option-intro (RowOf owner ctx.tenant_id) Fills (last_row rows id)
            (All-find (RowOf owner ctx.tenant_id) (λ (t : Telemetry Reading). t.device_id == id)
              (reverse rows) (All-reverse (RowOf owner ctx.tenant_id) rows h))
            (fill-Fills hits rows ids r h k p)
            (λ row o. push-Fills (telemetry_node (node_of row)) _ o (
              fill-Fills hits rows ids
                (set now (device_telemetry_key ctx id) (telemetry_node (node_of row)) 30 r) h k
                (set-IsPartitioned owner ctx.tenant_id now 30 (device_telemetry_key ctx id)
                  (telemetry_node (node_of row)) r refl o p))))
          (λ hit o. push-Fills hit _ o (fill-Fills hits rows ids r h k p))

    pub resolve_many_device_telemetry-Serves :
        (ids : List String) (r : Store Reading)
        → IsPartitioned owner r
        → Serves owner ctx.tenant_id (resolve_many_device_telemetry answers db now ctx ids r)
    unfolding resolve_many_device_telemetry
    resolve_many_device_telemetry-Serves ids r p = simp member (
        let rows =
          get_many_device_telemetry db (select (is_missed now ctx r) ids) (some ctx.tenant_id) in
        let f =
          fill-Fills r rows ids r
            (get_many_device_telemetry-Owned owner db (select (is_missed now ctx r) ids)
              ctx.tenant_id consistent)
            p p in
        Serves-if owner ctx.tenant_id (any (is_missed now ctx r) ids && not answers) (threw, r) _
          (record { reply = tt; store = p }) (record { reply = f.filled; store = f.store }))
