-- ===== src/Gateway/Latest/Genuine.antt =====
-- What a request about a device is answered, whatever other requests do at the same time.
use grain_guard.Prelude.{
  ℕ, zero, suc, ◌≡◌, refl, subst, String, Bool, false, Option, none, some, nat_eq, if◌then◌else◌,
  if-intro, Maybe, Bool-cases, inl, inr, ◌==◌, eq_iff,
}
use grain_guard.Gateway.Latest.{
  Answer, threw, answer, Latest, Program, reply, crash, allowed, failed, succeeded, get_version,
  get_row, set_lock, set_row, set_version, release, query, query_db_and_return, read_cache,
  return_hit, wait_loop, unlock, write_cache, own_lock, acquire, get_device_latest_telemetry,
}
use grain_guard.Gateway.Latest.Runs.{
  Store, Thread, World, put, put_row, put_thread, Move, Step, Reach, start, arrives, moves, commits,
  deletes, publishes, announces, row_expires, lock_expires, here, next, asks, fails, succeeds,
  gets_version, version_throws, gets_row, row_throws, locks, lock_throws, sets_row, set_row_throws,
  sets_version, set_version_throws, releases, release_throws, queries, query_throws,
}

module _ {Reading : Type 0} (Genuine : String → Latest Reading → Type 0) where
  abbrev Row : String → Answer (Option (Latest Reading)) → Type 0
  Row d threw = Unit
  Row d (answer o) = Maybe (Genuine d) o

  -- A program that is about one device only: it answers rows that are genuine for the device, given
  -- that what it reads is, and writes no others.
  abbrev IsAbout : String → Program Reading → Type 0
  IsAbout d (reply o) = Maybe (Genuine d) o
  IsAbout d crash = Unit
  IsAbout d (allowed k) = (b : Bool) → IsAbout d (k b)
  IsAbout d (failed p) = IsAbout d p
  IsAbout d (succeeded p) = IsAbout d p
  IsAbout d (get_version e k) = (a : Answer (Option ℕ)) → IsAbout d (k a)
  IsAbout d (get_row e v k) =
      (e ≡ d) × ((a : Answer (Option (Latest Reading))) → Row d a → IsAbout d (k a))
  IsAbout d (set_lock e value k) = (a : Answer Bool) → IsAbout d (k a)
  IsAbout d (set_row e row k) = Genuine e row × ((b : Bool) → IsAbout d (k b))
  IsAbout d (set_version e v k) = (b : Bool) → IsAbout d (k b)
  IsAbout d (release e value k) = (b : Bool) → IsAbout d (k b)
  IsAbout d (query e k) =
      (e ≡ d) × ((a : Answer (Option (Latest Reading))) → Row d a → IsAbout d (k a))

  -- What an answer leads to, case by case.
  after_read :
      (d : String) (a : Answer (Option (Latest Reading))) (x y : Program Reading)
      (f : Latest Reading → Program Reading)
      → IsAbout d x
      → IsAbout d y
      → ((row : Latest Reading) → Genuine d row → IsAbout d (f row))
      → Row d a
      → IsAbout d (elim a [ threw ↦ x | answer none ↦ y | answer (some row) ↦ f row ])
  after_read d threw x y f hx hy hf g = hx
  after_read d (answer none) x y f hx hy hf g = hy
  after_read d (answer (some row)) x y f hx hy hf g = hf row g

  module _ (d : String) where
    after_query :
        (a : Answer (Option (Latest Reading)))
        → Row d a
        → IsAbout d (elim a [ threw ↦ crash | answer row ↦ reply row ])
    after_query threw g = tt
    after_query (answer o) g = g

    query_db_and_return-IsAbout : IsAbout d (query_db_and_return d)
    unfolding query_db_and_return
    query_db_and_return-IsAbout = (refl, after_query)

    read_cache-IsAbout :
        (hit : Latest Reading → Program Reading) (miss failure : Program Reading)
        → ((row : Latest Reading) → Genuine d row → IsAbout d (hit row))
        → IsAbout d miss
        → IsAbout d failure
        → IsAbout d (read_cache d hit miss failure)
    unfolding read_cache
    read_cache-IsAbout hit miss failure h m f = by_version
      where
        by_version :
            (a : Answer (Option ℕ))
            → IsAbout d (elim a [
              | threw ↦ failure
              | answer none ↦ miss
              | answer (some v) ↦ get_row d v (λ r. elim r [
                | threw ↦ failure
                | answer none ↦ miss
                | answer (some row) ↦ hit row
              ])
            ])
        by_version threw = f
        by_version (answer none) = m
        by_version (answer (some v)) = (refl, λ r. after_read d r failure miss hit f m h)

    return_hit-IsAbout : (row : Latest Reading) → Genuine d row → IsAbout d (return_hit row)
    unfolding return_hit
    return_hit-IsAbout row g = g

    wait_loop-IsAbout : (n : ℕ) → IsAbout d (wait_loop n d)
    unfolding wait_loop
    wait_loop-IsAbout zero = query_db_and_return-IsAbout
    wait_loop-IsAbout (suc n) = λ ok.
        if-intro (IsAbout d) ok
          (read_cache-IsAbout return_hit (wait_loop n d) (failed (query_db_and_return d))
            return_hit-IsAbout (wait_loop-IsAbout n) query_db_and_return-IsAbout)
          query_db_and_return-IsAbout

    module _ (value : String) where
      unlock-IsAbout : (p : Program Reading) → IsAbout d p → IsAbout d (unlock d value p)
      unfolding unlock
      unlock-IsAbout p h = λ ok.
          if-intro (IsAbout d) ok {x = release d value (λ done. if done then p else failed p)}
            (λ done. if-intro (IsAbout d) done {x = p} {y = failed p} h h) h

      write_cache-IsAbout :
          (row : Latest Reading) (p : Program Reading)
          → Genuine d row
          → IsAbout d p
          → IsAbout d (write_cache d row p)
      unfolding write_cache
      write_cache-IsAbout row p g h = λ ok.
          let version =
            set_version d row.version (λ both. if both then succeeded p else failed p) in
          if-intro (IsAbout d) ok {x = set_row d row (λ done. if done then version else failed p)}
            (
              g,
              λ done.
                  if-intro (IsAbout d) done {x = version} {y = failed p}
                    (λ both. if-intro (IsAbout d) both {x = succeeded p} {y = failed p} h h) h,
            )
            h

      own_lock-IsAbout : IsAbout d (own_lock d value)
      unfolding own_lock
      own_lock-IsAbout = (
        refl,
        λ a.
            after_read d a (unlock d value crash) (unlock d value (reply none))
              (λ row. write_cache d row (unlock d value (reply (some row))))
              (unlock-IsAbout crash tt) (unlock-IsAbout (reply none) tt)
              (λ row g.
                write_cache-IsAbout row (unlock d value (reply (some row))) g
                  (unlock-IsAbout (reply (some row)) g)),
      )

      after_set_lock :
          (a : Answer Bool)
          → IsAbout d (elim a [
            | threw ↦ failed (query_db_and_return d)
            | answer acquired ↦ if acquired then own_lock d value else wait_loop 10 d
          ])
      after_set_lock threw = query_db_and_return-IsAbout
      after_set_lock (answer acquired) =
          if-intro (IsAbout d) acquired own_lock-IsAbout (wait_loop-IsAbout 10)

      acquire-IsAbout : IsAbout d (acquire d value)
      unfolding acquire
      acquire-IsAbout = λ ok.
          if-intro (IsAbout d) ok
            {x = set_lock d value (λ a. elim a [
              | threw ↦ failed (query_db_and_return d)
              | answer acquired ↦ if acquired then own_lock d value else wait_loop 10 d
            ])}
            after_set_lock query_db_and_return-IsAbout

      get_device_latest_telemetry-IsAbout : IsAbout d (get_device_latest_telemetry d value)
      unfolding get_device_latest_telemetry
      get_device_latest_telemetry-IsAbout = λ ok.
          if-intro (IsAbout d) ok
            (read_cache-IsAbout return_hit (acquire d value) (failed (acquire d value))
              return_hit-IsAbout acquire-IsAbout acquire-IsAbout)
            acquire-IsAbout

  -- What the table and the cache hold for a device is genuine.
  record IsSound (s : Store Reading) : Type 0 where
    table : (d : String) → Maybe (Genuine d) (s.table d)
    rows : (d : String) (v : ℕ) → Maybe (Genuine d) (s.rows d v)

  record IsSafe (w : World Reading) : Type 0 where
    store : IsSound w.store
    threads : (i : ℕ) → IsAbout (w.threads i).device (w.threads i).program

  put-genuine :
      (d : String) (o : Option (Latest Reading)) (f : String → Option (Latest Reading))
      → Maybe (Genuine d) o
      → ((e : String) → Maybe (Genuine e) (f e))
      → (e : String) → Maybe (Genuine e) (put d o f e)
  put-genuine d o f g h e = elim (Bool-cases (d == e)) [
    | inl q ↦ rw q (subst (λ c. Maybe (Genuine c) o) ((eq_iff d e).0 q) g)
    | inr q ↦ rw q (h e)
  ]

  put_row-genuine :
      (d : String) (v : ℕ) (o : Option (Latest Reading)) (f : String → ℕ → Option (Latest Reading))
      → Maybe (Genuine d) o
      → ((e : String) (u : ℕ) → Maybe (Genuine e) (f e u))
      → (e : String) (u : ℕ) → Maybe (Genuine e) (put_row d v o f e u)
  put_row-genuine d v o f g h e u = elim (Bool-cases (d == e)) [
    | inl q ↦ rw q (
        if-intro (Maybe (Genuine e)) (nat_eq v u)
          (subst (λ c. Maybe (Genuine c) o) ((eq_iff d e).0 q) g) (h e u))
    | inr q ↦ rw q (h e u)
  ]

  -- A call of a program about a device keeps the store sound, and what is left is about it too.
  module _ {s : Store Reading} (sound : IsSound s) (d : String) where
    Move-IsAbout :
        {p : Program Reading} {u : Store Reading} {q : Program Reading}
        → Move s p u q
        → IsAbout d p
        → IsAbout d q
    Move-IsAbout (asks {k} now) h = h _
    Move-IsAbout (fails now) h = h
    Move-IsAbout succeeds h = h
    Move-IsAbout gets_version h = h _
    Move-IsAbout version_throws h = h _
    Move-IsAbout (gets_row {d = e} {v} {k}) h =
        h.1 (answer (s.rows e v)) (subst (λ c. Maybe (Genuine c) (s.rows e v)) h.0 (sound.rows e v))
    Move-IsAbout row_throws h = h.1 threw tt
    Move-IsAbout locks h = h _
    Move-IsAbout (lock_throws done) h = h _
    Move-IsAbout (sets_row b) h = h.1 b
    Move-IsAbout set_row_throws h = h.1 false
    Move-IsAbout (sets_version b) h = h b
    Move-IsAbout set_version_throws h = h false
    Move-IsAbout (releases b) h = h b
    Move-IsAbout release_throws h = h false
    Move-IsAbout (queries {d = e} {k}) h =
        h.1 (answer (s.table e)) (subst (λ c. Maybe (Genuine c) (s.table e)) h.0 (sound.table e))
    Move-IsAbout query_throws h = h.1 threw tt

    Move-IsSound :
        {p : Program Reading} {u : Store Reading} {q : Program Reading}
        → Move s p u q
        → IsAbout d p
        → IsSound u
    Move-IsSound (asks now) h = record { table = sound.table; rows = sound.rows }
    Move-IsSound (fails now) h = record { table = sound.table; rows = sound.rows }
    Move-IsSound succeeds h = record { table = sound.table; rows = sound.rows }
    Move-IsSound gets_version h = sound
    Move-IsSound version_throws h = sound
    Move-IsSound gets_row h = sound
    Move-IsSound row_throws h = sound
    Move-IsSound locks h = record { table = sound.table; rows = sound.rows }
    Move-IsSound (lock_throws done) h = record { table = sound.table; rows = sound.rows }
    Move-IsSound (sets_row {d = e} {row} b) h = record {
      table = sound.table;
      rows = put_row-genuine e row.version (some row) s.rows h.0 sound.rows;
    }
    Move-IsSound set_row_throws h = sound
    Move-IsSound (sets_version b) h = record { table = sound.table; rows = sound.rows }
    Move-IsSound set_version_throws h = sound
    Move-IsSound (releases b) h = record { table = sound.table; rows = sound.rows }
    Move-IsSound release_throws h = sound
    Move-IsSound queries h = sound
    Move-IsSound query_throws h = sound

  put_thread-IsAbout :
      (i : ℕ) (x : Thread Reading) (f : ℕ → Thread Reading)
      → IsAbout x.device x.program
      → ((j : ℕ) → IsAbout (f j).device (f j).program)
      → (j : ℕ) → IsAbout (put_thread i x f j).device (put_thread i x f j).program
  put_thread-IsAbout i x f h k j = elim (Bool-cases (nat_eq i j)) [
    | inl e ↦ rw e h
    | inr e ↦ rw e (k j)
  ]

  Step-IsSafe : {w u : World Reading} → Step Genuine w u → IsSafe w → IsSafe u
  Step-IsSafe {w} (arrives i d value) h = record {
    store = h.store;
    threads =
        put_thread-IsAbout i _ w.threads (get_device_latest_telemetry-IsAbout d value) h.threads;
  }
  Step-IsSafe {w} (moves i m) h = record {
    store = Move-IsSound h.store (w.threads i).device m (h.threads i);
    threads =
        put_thread-IsAbout i _ w.threads (Move-IsAbout h.store (w.threads i).device m (h.threads i))
          h.threads;
  }
  Step-IsSafe {w} (commits d row g) h = record {
    store = record {
      table = put-genuine d (some row) w.store.table g h.store.table;
      rows = h.store.rows;
    };
    threads = h.threads;
  }
  Step-IsSafe {w} (deletes d) h = record {
    store = record {
      table = put-genuine d none w.store.table tt h.store.table;
      rows = h.store.rows;
    };
    threads = h.threads;
  }
  Step-IsSafe {w} (publishes d row g) h = record {
    store = record {
      table = h.store.table;
      rows = put_row-genuine d row.version (some row) w.store.rows g h.store.rows;
    };
    threads = h.threads;
  }
  Step-IsSafe (announces d v) h = record {
    store = record { table = h.store.table; rows = h.store.rows };
    threads = h.threads;
  }
  Step-IsSafe {w} (row_expires d v) h = record {
    store = record {
      table = h.store.table;
      rows = put_row-genuine d v none w.store.rows tt h.store.rows;
    };
    threads = h.threads;
  }
  Step-IsSafe (lock_expires d) h = record {
    store = record { table = h.store.table; rows = h.store.rows };
    threads = h.threads;
  }

  Reach-IsSafe : {w : World Reading} → Reach Genuine start w → IsSafe w
  Reach-IsSafe here = record {
    store = record { table = λ d. tt; rows = λ d v. tt };
    threads = λ i. tt;
  }
  Reach-IsSafe (next r st) = Step-IsSafe st (Reach-IsSafe r)

  -- Whatever holds of each row that is committed or published for its device also holds of each row
  -- that a finished request about a device answers, however many requests are interleaved with one
  -- another and with the service that fills the table and the cache, whichever calls of Redis and of
  -- the database throw, and whichever keys expire.
  pub Reach-reply :
      {w : World Reading}
      → Reach Genuine start w
      → (i : ℕ) (row : Latest Reading) → (w.threads i).program ≡ reply (some row)
      → Genuine (w.threads i).device row
  Reach-reply {w} r i row e = subst (IsAbout (w.threads i).device) e ((Reach-IsSafe r).threads i)
