-- ===== src/Gateway/Latest/Runs.antt =====
-- Any number of requests over one Redis, one table and one breaker, a call at a time, beside the
-- service that fills the table and the cache (apps/read-model-builder).
use grain_guard.Prelude.{
  ℕ, String, Bool, true, false, Option, none, some, nat_eq, if◌then◌else◌, ◌&&◌, ◌==◌,
}
use grain_guard.Gateway.Latest.{
  CacheBreaker, record_failure, record_success, allow_request, Answer, threw, answer, Latest,
  Program, reply, allowed, failed, succeeded, get_version, get_row, set_lock, set_row, set_version,
  release, query, get_device_latest_telemetry,
}

module _ (Reading : Type 0) where
  -- `rows d v` is the key `device:<d>:v<v>`, `versions d` the key `device:<d>:latest_version`.
  pub record Store : Type 0 where
    pub table : String → Option (Latest Reading)
    pub versions : String → Option ℕ
    pub rows : String → ℕ → Option (Latest Reading)
    pub locks : String → Option String
    pub breaker : CacheBreaker

  pub record Thread : Type 0 where
    pub device : String
    pub program : Program Reading

  pub record World : Type 0 where
    pub store : Store
    pub threads : ℕ → Thread

abbrev pub put : {A : Type 0} → String → Option A → (String → Option A) → String → Option A
put d x f e = if d == e then x else f e

abbrev pub put_row :
    {A : Type 0} → String → ℕ → Option A → (String → ℕ → Option A) → String → ℕ → Option A
put_row d v x f e w = if d == e && nat_eq v w then x else f e w

abbrev pub put_thread : {A : Type 0} → ℕ → A → (ℕ → A) → ℕ → A
put_thread i x f j = if nat_eq i j then x else f j

abbrev is_none : {A : Type 0} → Option A → Bool
is_none none = true
is_none (some x) = false

-- SET … NX
abbrev pub locked : {A : Type 0} → String → A → (String → Option A) → String → Option A
locked d value locks = if is_none (locks d) then put d (some value) locks else locks

abbrev holds : Option String → String → Bool
holds none value = false
holds (some v) value = v == value

-- The script that deletes the key where it still has the value.
abbrev pub released : String → String → (String → Option String) → String → Option String
released d value locks = if holds (locks d) value then put d none locks else locks

module _ {Reading : Type 0} where
  -- A call of one request. A call of Redis or of the database may throw, whether or not it has had its
  -- effect.
  pub data Move (s : Store Reading)
      : Program Reading → Store Reading → Program Reading → Type 0 where
    asks :
        {k : Bool → Program Reading} (now : ℕ)
        → Move s
            (allowed k)
            (record s { breaker = (allow_request now s.breaker).1 })
            (k (allow_request now s.breaker).0)
    fails :
        {p : Program Reading} (now : ℕ)
        → Move s (failed p) (record s { breaker = record_failure now s.breaker }) p
    succeeds :
        {p : Program Reading}
        → Move s (succeeded p) (record s { breaker = record_success s.breaker }) p
    gets_version :
        {d : String} {k : Answer (Option ℕ) → Program Reading}
        → Move s (get_version d k) s (k (answer (s.versions d)))
    version_throws :
        {d : String} {k : Answer (Option ℕ) → Program Reading}
        → Move s (get_version d k) s (k threw)
    gets_row :
        {d : String} {v : ℕ} {k : Answer (Option (Latest Reading)) → Program Reading}
        → Move s (get_row d v k) s (k (answer (s.rows d v)))
    row_throws :
        {d : String} {v : ℕ} {k : Answer (Option (Latest Reading)) → Program Reading}
        → Move s (get_row d v k) s (k threw)
    locks :
        {d value : String} {k : Answer Bool → Program Reading}
        → Move s
            (set_lock d value k)
            (record s { locks = locked d value s.locks })
            (k (answer (is_none (s.locks d))))
    lock_throws :
        {d value : String} {k : Answer Bool → Program Reading} (done : Bool)
        → Move s
            (set_lock d value k)
            (record s { locks = if done then locked d value s.locks else s.locks })
            (k threw)
    sets_row :
        {d : String} {row : Latest Reading} {k : Bool → Program Reading} (answers : Bool)
        → Move s
            (set_row d row k)
            (record s { rows = put_row d row.version (some row) s.rows })
            (k answers)
    set_row_throws :
        {d : String} {row : Latest Reading} {k : Bool → Program Reading}
        → Move s (set_row d row k) s (k false)
    sets_version :
        {d : String} {v : ℕ} {k : Bool → Program Reading} (answers : Bool)
        → Move s (set_version d v k) (record s { versions = put d (some v) s.versions }) (k answers)
    set_version_throws :
        {d : String} {v : ℕ} {k : Bool → Program Reading} → Move s (set_version d v k) s (k false)
    releases :
        {d value : String} {k : Bool → Program Reading} (answers : Bool)
        → Move s (release d value k) (record s { locks = released d value s.locks }) (k answers)
    release_throws :
        {d value : String} {k : Bool → Program Reading} → Move s (release d value k) s (k false)
    queries :
        {d : String} {k : Answer (Option (Latest Reading)) → Program Reading}
        → Move s (query d k) s (k (answer (s.table d)))
    query_throws :
        {d : String} {k : Answer (Option (Latest Reading)) → Program Reading}
        → Move s (query d k) s (k threw)

  module _ (Genuine : String → Latest Reading → Type 0) where
    -- A request arrives or makes a call; a row is committed, deleted, or published in the cache; a key
    -- of Redis expires. A committed or published row is genuine for its device.
    pub data Step (w : World Reading) : World Reading → Type 0 where
      arrives :
          (i : ℕ) (d value : String)
          → Step w (record w {
            threads =
                put_thread i
                  (record { device = d; program = get_device_latest_telemetry d value })
                  w.threads;
          })
      moves :
          (i : ℕ) {s : Store Reading} {p : Program Reading}
          → Move w.store (w.threads i).program s p
          → Step w (record {
            store = s;
            threads =
                put_thread i (record { device = (w.threads i).device; program = p }) w.threads;
          })
      commits :
          (d : String) (row : Latest Reading)
          → Genuine d row
          → Step w (record w { store = record w.store { table = put d (some row) w.store.table } })
      deletes :
          (d : String)
          → Step w (record w { store = record w.store { table = put d none w.store.table } })
      publishes :
          (d : String) (row : Latest Reading)
          → Genuine d row
          → Step w (record w {
            store = record w.store { rows = put_row d row.version (some row) w.store.rows };
          })
      announces :
          (d : String) (v : Option ℕ)
          → Step w (record w { store = record w.store { versions = put d v w.store.versions } })
      row_expires :
          (d : String) (v : ℕ)
          → Step w (record w { store = record w.store { rows = put_row d v none w.store.rows } })
      lock_expires :
          (d : String)
          → Step w (record w { store = record w.store { locks = put d none w.store.locks } })

    pub data Reach (s : World Reading) : World Reading → Type 0 where
      here : Reach s s
      next : {t u : World Reading} → Reach s t → Step t u → Reach s u

  -- Redis and the table are empty, and no request has come.
  abbrev pub start : World Reading
  start = record {
    store = record {
      table = λ d. none;
      versions = λ d. none;
      rows = λ d v. none;
      locks = λ d. none;
      breaker = record { failure_count = 0; is_open = false; opened_at = 0 };
    };
    threads = λ i. record { device = ""; program = reply none };
  }
