-- ===== src/Jobs/Digest/Tests.antt =====
-- Two tenants with a subscriber each, where the counts of the first do not answer.
use grain_guard.Prelude.{◌≡◌, refl, String, not, true, false, List, [], ◌∷◌, any, map, ◌==◌}
use grain_guard.Database.{TenantUser}
use grain_guard.Gateway.Preferences.{PreferenceRow}
use grain_guard.Jobs.Digest.{
  DigestTables, Digest, DigestAnswers, DigestEmail, run_digest_cycle, send_digest_for_tenant,
}
use grain_guard.Jobs.Digest.Reaches.{is_to, run_digest_cycle-reaches}

abbrev member : String → String → TenantUser
member t name = record {
  id = name;
  tenant_id = t;
  auth_user_id = name;
  email = name;
  role = "member";
}

abbrev weekly : String → String → PreferenceRow
weekly t name = record {
  tenant_id = t;
  user_id = name;
  email_alerts = false;
  email_weekly_digest = true;
  webhook_alerts = false;
  alert_levels = [];
}

abbrev tables : DigestTables
tables = record {
  tenants =
      record { id = "t1"; name = "Silo" }
      ∷ record { id = "t2"; name = "Barn" }
      ∷ record { id = "t3"; name = "Mill" }
      ∷ [];
  users = member "t1" "ada" ∷ member "t2" "gil" ∷ member "t2" "bob" ∷ [];
  preferences = weekly "t1" "ada" ∷ weekly "t2" "gil" ∷ weekly "t1" "bob" ∷ [];
  devices = [];
  audit = [];
}

abbrev answering : DigestAnswers
answering = record { tenants = true; users = λ t. true; counts = λ t. not (t == "t1") }

abbrev text : String → Digest → String
text name digest = name

abbrev title : String → String
title name = name

run_digest_cycle-reaches_example :
    any (is_to "t2" "gil") (run_digest_cycle text title answering 0 tables) ≡ true
run_digest_cycle-reaches_example = run_digest_cycle-reaches text title answering 0 tables "t2" "gil"

abbrev receivers : List DigestEmail → List String
receivers mails = map (λ (e : DigestEmail). e.to) mails

run_reaches : receivers (run_digest_cycle text title answering 0 tables) ≡ "gil" ∷ []
unfolding run_digest_cycle send_digest_for_tenant
run_reaches = refl
