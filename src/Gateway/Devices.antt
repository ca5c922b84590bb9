-- ===== src/Gateway/Devices.antt =====
-- apps/gateway/src/routes/devices.ts: the devices of a tenant. createDevice calls the telemetry
-- service, which is no TypeScript: whether it answers, and with which identifier, is an argument; it
-- inserts the row of the tenant of the call, unless the device of that serial number is there already.
-- The events of the day are left out of the quota.
pub mod Bounds
use grain_guard.Prelude.{
  ℕ, String, Bool, true, false, not, ◌&&◌, Option, none, some, ℤ, List, [], ◌∷◌, select, any,
  if◌then◌else◌, ◌==◌,
}
use grain_guard.Database.{Device, Database}
use grain_guard.Gateway.Import.{Text}
use grain_guard.Gateway.Import.Job.{is_serial}
use grain_guard.Gateway.Quota.{
  QuotaResult, Verdict, next, payment_required, check_device_quota, device_quota_middleware,
}
use grain_guard.Gateway.Team.{User}

-- For POST: the serial number, whether the query of the quota answers, and the identifier of the
-- device that is made.
pub data DeviceRequest : Type 0 where
  get_quota : DeviceRequest
  delete_device : String → DeviceRequest
  post_device : Option Text → Bool → Option String → DeviceRequest

pub data DeviceReply : Type 0 where
  quota : String → ℕ → ℤ → DeviceReply
  refused : QuotaResult → DeviceReply
  device_not_found deleted invalid_serial_number threw : DeviceReply
  registered : String → DeviceReply

-- WHERE id = $1 AND tenant_id = $2
abbrev pub is_device : String → String → Device → Bool
is_device i t d = d.id == i && d.tenant_id == t

abbrev pub new_device : String → String → ℕ → Device
new_device i t now = record { id = i; tenant_id = t; created_at = now; disabled = false }

abbrev has_serial : Option Text → Bool
has_serial none = false
has_serial (some s) = is_serial s

-- What createDevice ends with.
abbrev pub created_device : User → ℕ → Option String → Database → DeviceReply × Database
created_device u now none db = (threw, db)
created_device u now (some i) db =
    if any (is_device i u.tenant_id) db.devices
    then (registered i, db)
    else (registered i, record db { devices = new_device i u.tenant_id now ∷ db.devices })

-- POST /devices behind the middleware.
abbrev pub register_device :
    User → ℕ → Option Text → Option String → Database → DeviceReply × Database
register_device u now serial created db =
    if has_serial serial then created_device u now created db else (invalid_serial_number, db)

abbrev pub behind_quota : Verdict → DeviceReply × Database → Database → DeviceReply × Database
behind_quota next r db = r
behind_quota (payment_required q) r db = (refused q, db)

unfoldable pub post :
    User → ℕ → Option Text → Bool → Option String → Database → DeviceReply × Database
post u now serial answers created db =
    behind_quota
      (device_quota_middleware now (if answers then some db else none) (some u.tenant_id))
      (register_device u now serial created db) db

unfoldable pub delete : User → String → Database → DeviceReply × Database
delete u i db =
    if any (is_device i u.tenant_id) db.devices
    then (deleted, record db { devices = select (λ d. not (is_device i u.tenant_id d)) db.devices })
    else (device_not_found, db)

-- A request of a signed-in user, of whatever roles.
unfoldable pub handle_devices : User → DeviceRequest → ℕ → Database → DeviceReply × Database
unfolding post delete
handle_devices u get_quota now db =
    let q = check_device_quota now db u.tenant_id in
    (quota q.plan q.current_count q.max_devices, db)
handle_devices u (delete_device i) now db = delete u i db
handle_devices u (post_device serial answers created) now db = post u now serial answers created db

pub record DeviceCall : Type 0 where
  pub user : User
  pub request : DeviceRequest
  pub now : ℕ

abbrev pub run_devices : List DeviceCall → Database → Database
run_devices [] db = db
run_devices (c ∷ rest) db = run_devices rest (handle_devices c.user c.request c.now db).1
