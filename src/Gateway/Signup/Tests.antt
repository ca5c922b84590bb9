-- ===== src/Gateway/Signup/Tests.antt =====
-- A sign-up, and the devices after it.
use grain_guard.Prelude.{◌≤◌, ◌≡◌, refl, String, true, none, some, List, [], ◌∷◌, arith, eq_iff}
use grain_guard.Dashboard.ExportCsv.{units}
use grain_guard.Database.{device_count}
use grain_guard.Gateway.Account.Erasure.{HasAdmin}
use grain_guard.Gateway.Team.{User}
use grain_guard.Gateway.Devices.{DeviceCall, post_device, delete_device, run_devices}
use grain_guard.Gateway.Signup.{
  Auth0Answers, Text, SignupBody, Platform, commits, register, with_metadata,
}
use grain_guard.Gateway.Signup.Starts.{register-devices_le}

abbrev same : String → String
same s = s

abbrev as_is : Text → Text
as_is s = s

abbrev eve_body : SignupBody
eve_body = record {
  org_name = some (units "eve & co.");
  email = some "eve@x.org";
  auth_user_id = some "auth0|ada";
}

abbrev both : Auth0Answers
both = record { tenant_id = true; role = true }

abbrev silo : Platform
silo = record {
  db = record { tenants = []; devices = []; billing = []; users = []; stripe_events = [] };
  metadata = with_metadata "auth0|ada" "t1" (λ v. none);
  assigned = [];
}

abbrev eve : User
eve = record { sub = "auth0|eve"; tenant_id = "t9"; roles = [] }

abbrev post_as : String → DeviceCall
post_as i = record {
  user = eve;
  request = post_device (some (units "SN-1")) true (some i);
  now = 5;
}

abbrev calls : List DeviceCall
calls =
    post_as "d1" ∷ post_as "d2" ∷ record { user = eve; request = delete_device "d1"; now = 6 } ∷ []

register-devices_le_example :
    HasAdmin "t9" (register same as_is as_is "t9" "m1" eve_body commits both silo).1.db
    × (device_count
          (run_devices calls (register same as_is as_is "t9" "m1" eve_body commits both silo).1.db)
          "t9"
        ≤ 5)
unfolding register
register-devices_le_example =
    register-devices_le same as_is as_is "t9" "m1" eve_body both silo (units "eve-co-") commits
      calls refl (λ e. ground (arith, e, eq_iff "t9" "")) refl (refl, (refl, (tt, tt)))

-- Whoever signs up names the user that becomes the administrator, and that user's tenant in Auth0 is
-- overwritten.
moves_user :
    (register same as_is as_is "t9" "m1" eve_body commits both silo).1.metadata "auth0|ada"
    ≡ some "t9"
unfolding register
moves_user = refl
