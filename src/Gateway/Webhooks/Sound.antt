-- ===== src/Gateway/Webhooks/Sound.antt =====
-- The endpoints that the routes let into the table, and the alerts that go to them.
use grain_guard.Prelude.{
  String, ◌≡◌, sym, subst, Bool, true, not, Option, none, some, List, [], ◌∷◌, map, select, find,
  any, includes, is_empty, or_else, All, All-select, All-update, All-find, All-map, if-intro,
  option-intro, Bool-cases, inl, inr,
}
use text.Mathlib.Text.{starts_with}
use grain_guard.Gateway.Team.{User, is_admin}
use grain_guard.Jobs.Alert.{
  AlertJob, Answers, Endpoint, Tables, WebhookJob, process_alert, fan_out_to_webhooks, subscribes,
  webhook_job,
}
use grain_guard.Gateway.Webhooks.{
  Webhook, Endpoints, Call, Response, list_webhooks, create_webhook, patch_webhook, delete_webhook,
  list_deliveries, test_webhook, allowed_types, allowed_event_types, patched, post_webhook, patch,
  remove, route_webhooks, handle_webhooks, run_webhooks, is_list, is_webhook, is_taken,
}

-- An address that is fetched over TLS, and event types that exist.
pub record IsSound (w : Webhook) : Type 0 where
  pub secure : starts_with w.url "https://" ≡ true
  pub known : All (λ (t : String). includes t allowed_event_types ≡ true) w.event_types

abbrev pub AreSound : Endpoints → Type 0
AreSound db = All IsSound db.webhooks

record Keeps (r : Response × Endpoints) : Type 0 where
  sound : AreSound r.1

allowed_types-known :
    (types : List String)
    → All (λ (t : String). includes t allowed_event_types ≡ true) (allowed_types types)
allowed_types-known [] = tt
allowed_types-known (t ∷ types) = elim (Bool-cases (includes t allowed_event_types)) [
  | inl e ↦ rw e (e, allowed_types-known types)
  | inr e ↦ rw e (allowed_types-known types)
]

patched-IsSound :
    (description : Option String) (enabled : Option Bool) (types : Option (List String))
    (w : Webhook)
    → IsSound w
    → IsSound (patched description enabled types w)
patched-IsSound description enabled none w h = record { secure = h.secure; known = h.known }
patched-IsSound description enabled (some types) w h = record {
  secure = h.secure;
  known = allowed_types-known types;
}

patch-Keeps :
    (u : User) (i : String) (description : Option String) (enabled : Option Bool)
    (types : Option (List String)) (db : Endpoints)
    → AreSound db
    → Keeps (patch u i description enabled types db)
unfolding patch
patch-Keeps u i description enabled types db h =
    option-intro IsSound Keeps (find (is_webhook i u.tenant_id) db.webhooks)
      (All-find IsSound (is_webhook i u.tenant_id) db.webhooks h) (record { sound = h })
      (λ w k. record {
        sound =
            All-update IsSound (is_webhook i u.tenant_id) (patched description enabled types)
              db.webhooks (patched-IsSound description enabled types) h;
      })

remove-Keeps : (u : User) (i : String) (db : Endpoints) → AreSound db → Keeps (remove u i db)
unfolding remove
remove-Keeps u i db h =
    if-intro Keeps (any (is_webhook i u.tenant_id) db.webhooks)
      (record { sound = All-select IsSound (λ w. not (is_webhook i u.tenant_id w)) db.webhooks h })
      (record { sound = h })

-- `trim` takes only blanks from the ends of a text: an address keeps its scheme.
module _ (trim : String → String) (parses : String → Bool)
    (trim_scheme : (s : String)
      → starts_with s "https://" ≡ true
      → starts_with (trim s) "https://" ≡ true) where
  post_webhook-Keeps :
      (u : User) (url description : Option String) (types : Option (List String))
      (id secret : String) (db : Endpoints)
      → AreSound db
      → Keeps (post_webhook trim parses u url description types id secret db)
  unfolding post_webhook
  post_webhook-Keeps u none description types id secret db h = record { sound = h }
  post_webhook-Keeps u (some url) description types id secret db h =
      elim (Bool-cases (starts_with url "https://")) [
        | inl e ↦ rw e (
            if-intro Keeps (is_empty (trim url)) (record { sound = h })
              (if-intro Keeps (not (parses url)) (record { sound = h })
                (if-intro Keeps (any (is_taken u.tenant_id (trim url)) db.webhooks)
                  (record { sound = h })
                  (record {
                    sound = (
                      record {
                        secure = trim_scheme url e;
                        known = allowed_types-known (or_else types []);
                      },
                      h,
                    );
                  }))))
        | inr e ↦ rw e (
            if-intro Keeps (is_empty (trim url)) (record { sound = h })
              (if-intro Keeps (not (parses url)) (record { sound = h }) (record { sound = h })))
      ]

  route_webhooks-Keeps :
      (u : User) (q : Call) (db : Endpoints)
      → AreSound db
      → Keeps (route_webhooks trim parses u q db)
  unfolding route_webhooks
  route_webhooks-Keeps u list_webhooks db h = record { sound = h }
  route_webhooks-Keeps u (create_webhook url description types id secret) db h =
      post_webhook-Keeps u url description types id secret db h
  route_webhooks-Keeps u (patch_webhook i description enabled types) db h =
      patch-Keeps u i description enabled types db h
  route_webhooks-Keeps u (delete_webhook i) db h = remove-Keeps u i db h
  route_webhooks-Keeps u (list_deliveries i) db h = record { sound = h }
  route_webhooks-Keeps u (test_webhook i success status) db h = record { sound = h }

  handle_webhooks-Keeps :
      (u : User) (q : Call) (db : Endpoints)
      → AreSound db
      → Keeps (handle_webhooks trim parses u q db)
  unfolding handle_webhooks
  handle_webhooks-Keeps u q db h =
      let r = route_webhooks-Keeps u q db h in
      if-intro Keeps (is_list q) r (if-intro Keeps (is_admin u) r (record { sound = h }))

  run_webhooks-AreSound :
      (calls : List (User × Call)) (db : Endpoints)
      → AreSound db
      → AreSound (run_webhooks trim parses calls db)
  run_webhooks-AreSound [] db h = h
  run_webhooks-AreSound ((u, q) ∷ rest) db h =
      run_webhooks-AreSound rest (handle_webhooks trim parses u q db).1
        (handle_webhooks-Keeps u q db h).sound

-- The columns that the alert handler reads.
abbrev pub endpoint_of : Webhook → Endpoint
endpoint_of w = record {
  id = w.id;
  tenant_id = w.tenant_id;
  url = w.url;
  secret = w.secret;
  enabled = w.enabled;
  event_types = w.event_types;
}

abbrev IsSecure : Endpoint → Type 0
IsSecure e = starts_with e.url "https://" ≡ true

module _ (lower : String → String) (answers : Answers) {Content : Type 0}
    (render : AlertJob Content → String → String) (job : AlertJob Content) where
  abbrev IsSecureJob : WebhookJob Content → Type 0
  IsSecureJob w = starts_with w.url "https://" ≡ true

  fan_out-secure :
      (db : Tables)
      → All IsSecure db.endpoints
      → All IsSecureJob (process_alert lower answers db render job).1
  unfolding process_alert fan_out_to_webhooks
  fan_out-secure db h =
      if-intro (All IsSecureJob) answers.endpoints
        (All-map IsSecureJob IsSecure (webhook_job lower answers db render job)
          (select (subscribes job.tenant_id) db.endpoints) (λ e k. k)
          (All-select IsSecure (subscribes job.tenant_id) db.endpoints h))
        tt

  -- Whatever requests on webhooks users make, of whatever roles and tenants, where `trim` keeps the
  -- scheme of an address: every endpoint in the table keeps an address that begins with https:// and
  -- event types that exist, and every webhook job that the worker makes of an alert, with the endpoints
  -- as they are then, has an address that begins with https://.
  pub run_webhooks-AreSound_jobs :
      (trim : String → String) (parses : String → Bool)
      → ((s : String) → starts_with s "https://" ≡ true → starts_with (trim s) "https://" ≡ true)
      → (calls : List (User × Call)) (db : Endpoints) (tables : Tables) → AreSound db
      → tables.endpoints ≡ map endpoint_of (run_webhooks trim parses calls db).webhooks
      → AreSound (run_webhooks trim parses calls db)
        × All
            (λ (w : WebhookJob Content). starts_with w.url "https://" ≡ true)
            (process_alert lower answers tables render job).1
  run_webhooks-AreSound_jobs trim parses k calls db tables h e =
      let sound = run_webhooks-AreSound trim parses k calls db h in
      let secure =
        All-map IsSecure IsSound endpoint_of (run_webhooks trim parses calls db).webhooks
          (λ w s. s.secure) sound in
      (sound, fan_out-secure tables (subst (All IsSecure) (sym e) secure))
