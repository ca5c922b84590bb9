-- ===== src/Bff/Resolvers/Isolation/Runs.antt =====
-- Runs of requests on one cache, each with the tables as it finds them.
use grain_guard.Prelude.{ℕ, ◌≡◌, String, Bool, false, none, List, [], ◌∷◌, All}
use grain_guard.Bff.Source.{Tables}
use grain_guard.Bff.Resolvers.{
  Context, or_twenty, Request, device_by_id, device_telemetry, devices_list, all_telemetry,
  many_device_telemetry, Store, Reply,
}
use grain_guard.Bff.Resolvers.Handlers.{resolve}
use grain_guard.Bff.Resolvers.Isolation.{IsConsistent, OwnedReply, IsPartitioned, Serves}
use grain_guard.Bff.Resolvers.Isolation.Replies.{
  resolve_device-Serves, resolve_device_telemetry-Serves,
}
use grain_guard.Bff.Resolvers.Isolation.Listings.{
  resolve_devices-Serves, resolve_all_telemetry-Serves,
}
use grain_guard.Bff.Resolvers.Isolation.Batches.{resolve_many_device_telemetry-Serves}

module _ (Reading : Type 0) where
  -- A request, the tables as it finds them, whether the database answers, and when it runs.
  pub record Arrival : Type 0 where
    pub context : Context
    pub request : Request
    pub tables : Tables Reading
    pub answers : Bool
    pub now : ℕ
    pub later : ℕ

module _ {Reading : Type 0} where
  abbrev pub empty : Store Reading
  empty = record { entries = λ k. none; locks = λ k. none }

  abbrev pub answer : Arrival Reading → Store Reading → Reply Reading × Store Reading
  answer a r = resolve a.answers a.tables a.now a.later a.context a.request r

  -- The replies, each with its requester.
  abbrev pub run : List (Arrival Reading) → Store Reading → List (Context × Reply Reading)
  run [] r = []
  run (a ∷ rest) r = (a.context, (answer a r).0) ∷ run rest (answer a r).1

module _ {Reading : Type 0} (owner : String → String) where
  pub record IsMember (a : Arrival Reading) : Type 0 where
    pub member : a.context.is_super_admin ≡ false
    pub consistent : IsConsistent owner a.tables

  resolve-Serves :
      (answers : Bool) (db : Tables Reading) (now later : ℕ) (ctx : Context) (q : Request)
      (r : Store Reading)
      → ctx.is_super_admin ≡ false
      → IsConsistent owner db
      → IsPartitioned owner r
      → Serves owner ctx.tenant_id (resolve answers db now later ctx q r)
  unfolding resolve
  resolve-Serves answers db now later ctx (device_by_id id) r m c p =
      resolve_device-Serves owner answers db now later ctx m c id r p
  resolve-Serves answers db now later ctx (device_telemetry id) r m c p =
      resolve_device_telemetry-Serves owner answers db now later ctx m c id r p
  resolve-Serves answers db now later ctx (devices_list limit) r m c p =
      resolve_devices-Serves owner answers db now later ctx m c (or_twenty limit) r p
  resolve-Serves answers db now later ctx (all_telemetry limit) r m c p =
      resolve_all_telemetry-Serves owner answers db now later ctx m c (or_twenty limit) r p
  resolve-Serves answers db now later ctx (many_device_telemetry ids) r m c p =
      resolve_many_device_telemetry-Serves owner answers db now ctx m c ids r p

  pub run-Owned :
      (arrivals : List (Arrival Reading)) (r : Store Reading)
      → All IsMember arrivals
      → IsPartitioned owner r
      → All (λ (x : Context × Reply Reading). OwnedReply owner x.0.tenant_id x.1) (run arrivals r)
  run-Owned [] r h p = tt
  run-Owned (a ∷ rest) r h p =
      let s =
        resolve-Serves a.answers a.tables a.now a.later a.context a.request r h.0.member
          h.0.consistent p in
      (s.reply, run-Owned rest (answer a r).1 h.1 s.store)

  empty-IsPartitioned : IsPartitioned owner (empty {Reading = Reading})
  empty-IsPartitioned = record { entry = λ k tenant e. tt }

  -- Where the requests of a run, one after another, come from members who are no super administrators,
  -- and each finds tables whose rows carry the tenant that owns their device, the run that starts from
  -- an empty cache gives every requester only rows and objects about devices of the requester's tenant,
  -- whichever tenants share the cache, whether or not the database answers, and however the times run.
  pub run-IsIsolated :
      (arrivals : List (Arrival Reading))
      → All IsMember arrivals
      → All
          (λ (x : Context × Reply Reading). OwnedReply owner x.0.tenant_id x.1)
          (run arrivals empty)
  run-IsIsolated arrivals h = run-Owned arrivals empty h empty-IsPartitioned
