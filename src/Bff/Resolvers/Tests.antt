-- ===== src/Bff/Resolvers/Tests.antt =====
-- Concrete requests.
use grain_guard.Prelude.{
  ℕ, ◌+◌, ◌*◌, ◌<◌, ◌≡◌, refl, String, true, false, none, some, List, [], ◌∷◌, All, arith, ◌==◌,
  if◌then◌else◌,
}
use grain_guard.Bff.Redis.{get, set, key_eq}
use grain_guard.Bff.Source.{
  Tables, Projection, telemetry_key, telemetry_nodes, get_device_with_telemetry,
}
use grain_guard.Bff.Resolvers.{
  Context, device_by_id, devices_list, many_device_telemetry, Reply, value, null,
}
use grain_guard.Bff.Resolvers.Handlers.{resolve_device, resolve_all_telemetry}
use grain_guard.Bff.Resolvers.Isolation.{IsConsistent, OwnedReply}
use grain_guard.Bff.Resolvers.Isolation.Runs.{Arrival, IsMember, run, run-IsIsolated, empty}
use grain_guard.Bff.Resolvers.Starvation.{resolve_all_telemetry-miss}

abbrev silo : Projection
silo = record { device_id = "d1"; tenant_id = "a"; serial_number = "S1"; created_at = 5 }

abbrev barn : Projection
barn = record { device_id = "d2"; tenant_id = "b"; serial_number = "S2"; created_at = 7 }

abbrev tables : Tables ℕ
tables = record {
  projections = silo ∷ barn ∷ [];
  telemetry =
      record { device_id = "d1"; tenant_id = "a"; updated_at = 6; reading = 21 }
      ∷ record { device_id = "d2"; tenant_id = "b"; updated_at = 8; reading = 22 }
      ∷ [];
}

abbrev owner : String → String
owner id = if id == "d1" then "a" else "b"

abbrev member : String → Context
member tenant = record { tenant_id = tenant; is_super_admin = false }

abbrev arrivals : List (Arrival ℕ)
arrivals =
    record {
      context = member "a";
      request = device_by_id "d2";
      tables = tables;
      answers = true;
      now = 1000;
      later = 1100;
    }
    ∷ record {
      context = member "b";
      request = device_by_id "d2";
      tables = tables;
      answers = true;
      now = 1200;
      later = 1300;
    }
    ∷ record {
      context = member "a";
      request = devices_list none;
      tables = tables;
      answers = true;
      now = 1200;
      later = 1300;
    }
    ∷ record {
      context = member "a";
      request = many_device_telemetry ("d1" ∷ "d2" ∷ []);
      tables = tables;
      answers = true;
      now = 1400;
      later = 1500;
    }
    ∷ []

tables-IsConsistent : IsConsistent owner tables
tables-IsConsistent = record { projections = (refl, (refl, tt)); telemetry = (refl, (refl, tt)) }

arrivals_members : All (IsMember owner) arrivals
arrivals_members = (
  record { member = refl; consistent = tables-IsConsistent },
  (
    record { member = refl; consistent = tables-IsConsistent },
    (
      record { member = refl; consistent = tables-IsConsistent },
      (record { member = refl; consistent = tables-IsConsistent }, tt),
    ),
  ),
)

run-IsIsolated_example :
    All (λ (x : Context × Reply ℕ). OwnedReply owner x.0.tenant_id x.1) (run arrivals empty)
run-IsIsolated_example = run-IsIsolated owner arrivals arrivals_members

resolve_all_telemetry-miss_example :
    (resolve_all_telemetry true tables 1000 1100 (member "a") 20 empty).0
      ≡ value (telemetry_nodes [])
    × ((t : ℕ)
        → t < 1100 + 30 * 1000
        → get t
            (telemetry_key 20 (some "a"))
            (resolve_all_telemetry true tables 1000 1100 (member "a") 20 empty).1
          ≡ some (telemetry_nodes []))
unfolding get
resolve_all_telemetry-miss_example =
    resolve_all_telemetry-miss true tables 1000 1100 (member "a") 20 empty (ground arith) refl

abbrev super : Context
super = record { tenant_id = "a"; is_super_admin = true }

-- A super administrator of tenant a looks at a device of tenant b, and then so does a member of
-- tenant a.
leak :
    (resolve_device true tables 2000
      (member "a")
      "d2"
      (resolve_device true tables 1000 super "d2" empty).1).0
    ≡ (resolve_device true tables 1000 super "d2" empty).0
unfolding resolve_device get set key_eq get_device_with_telemetry
leak = refl

no_leak : (resolve_device true tables 2000 (member "a") "d2" empty).0 ≡ null
unfolding resolve_device get get_device_with_telemetry
no_leak = refl
