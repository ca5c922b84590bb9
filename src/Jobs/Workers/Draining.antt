-- ===== src/Jobs/Workers/Draining.antt =====
-- How many deliveries the workers need: the bound that MAX_RETRIES gives.
use grain_guard.Prelude.{
  ℕ, suc, ◌+◌, ◌-◌, ◌≤◌, ◌≡◌, refl, some, List, [], ◌∷◌, ◌++◌, arith, length, ap,
}
use grain_guard.Jobs.Workers.{
  Worker, email, webhook, alert, stripe, export, max_retries, Message, attempt, Result, malformed,
  done, failed, Broker, deliver, step, run,
}

-- The deliveries that a queued message may still take.
abbrev pub backlog : Worker → List Message → ℕ
backlog w [] = 0
backlog w (m ∷ q) = suc (max_retries w - 1 - attempt m) + backlog w q

backlog-snoc :
    (w : Worker) (q : List Message) (m : Message)
    → backlog w (q ++ m ∷ []) ≡ backlog w q + suc (max_retries w - 1 - attempt m)
backlog-snoc w [] m = omega arith
backlog-snoc w (n ∷ q) m = omega (arith, backlog-snoc w q m)

pub deliver-backlog :
    (w : Worker) (r : Result) (m : Message) (q : List Message) (b : Broker)
    → suc (backlog w (deliver w r (m ∷ q) b).queue) ≤ backlog w (m ∷ q)
unfolding deliver
deliver-backlog w malformed m q b = grind arith
deliver-backlog w done m q b = grind arith
deliver-backlog email (failed s) m q b =
    ground (arith, backlog-snoc email q (record m { retry_count = some (attempt m + 1) }))
deliver-backlog stripe (failed s) m q b =
    ground (arith, backlog-snoc stripe q (record m { retry_count = some (attempt m + 1) }))
deliver-backlog webhook (failed s) m q b =
    ground (arith, backlog-snoc webhook q (record m { retry_count = some (attempt m + 1) }))
deliver-backlog alert (failed s) m q b =
    ground (arith, backlog-snoc alert q (record m { retry_count = some (attempt m + 1) }))
deliver-backlog export (failed s) m q b =
    ground (arith, backlog-snoc export q (record m { retry_count = some (attempt m + 1) }))

deliver-backlog_pred :
    (w : Worker) (r : Result) (q : List Message) (b : Broker)
    → b.queue ≡ q
    → backlog w (deliver w r q b).queue ≤ backlog w q - 1
unfolding deliver
deliver-backlog_pred w r [] b e = omega (arith, ap (backlog w) e)
deliver-backlog_pred w r (m ∷ q) b e = omega (arith, deliver-backlog w r m q b)

backlog-zero : (w : Worker) (q : List Message) → backlog w q ≤ 0 → q ≡ []
backlog-zero w [] h = refl
backlog-zero w (m ∷ q) h = ground arith

-- After as many deliveries as the queued messages have attempts left (one for a message beyond its
-- last attempt), whatever their results, the worker's queue is empty.
pub run-backlog :
    (w : Worker) (rs : List Result) (b : Broker)
    → backlog w b.queue ≤ length rs
    → (run w rs b).queue ≡ []
unfolding run step
run-backlog w [] b h = backlog-zero w b.queue h
run-backlog w (r ∷ rs) b h =
    run-backlog w rs (step w r b) (omega (arith, deliver-backlog_pred w r b.queue b refl, h))
