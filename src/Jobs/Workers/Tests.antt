-- ===== src/Jobs/Workers/Tests.antt =====
-- The workers on concrete queues.
use grain_guard.Prelude.{◌≡◌, ◌+◌, refl, none, some, inl, [], ◌∷◌, arith, length}
use grain_guard.Jobs.Workers.{email, webhook, Message, Broker, failed, done, run, max_retries}
use grain_guard.Jobs.Workers.Conservation.{held, run-held, run-dead_letters}
use grain_guard.Jobs.Workers.Draining.{run-backlog}

abbrev first : Message
first = record { content = "first"; retry_count = none }

abbrev second : Message
second = record { content = "second"; retry_count = some 2 }

abbrev two_queued : Broker
two_queued = record { queue = first ∷ second ∷ []; dlq = []; acked = [] }

run-held_example :
    held (run email (failed none ∷ failed (some 404) ∷ failed none ∷ failed none ∷ []) two_queued)
    ≡ 2
run-held_example =
    run-held email (failed none ∷ failed (some 404) ∷ failed none ∷ failed none ∷ []) two_queued
      (inl refl) (tt, (tt, (tt, (tt, tt))))

run-dead_letters_example :
    let b =
      run webhook
        (failed none ∷ failed (some 500) ∷ [])
        (record { queue = first ∷ []; dlq = []; acked = [] }) in
    (length b.queue ≡ 1) × (length b.dlq ≡ 2 + 0)
unfolding max_retries
run-dead_letters_example =
    run-dead_letters webhook (failed none ∷ failed (some 500) ∷ []) first [] [] (inl refl)
      (tt, (tt, tt)) (omega arith)

run-backlog_example :
    (run email (failed none ∷ done ∷ failed none ∷ failed none ∷ []) two_queued).queue ≡ []
unfolding max_retries
run-backlog_example =
    run-backlog email (failed none ∷ done ∷ failed none ∷ failed none ∷ []) two_queued (omega arith)
