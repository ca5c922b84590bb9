-- ===== src/Jobs/Workers/Conservation.antt =====
-- The number of messages that the broker holds, through deliveries that fail.
use grain_guard.Prelude.{
  ℕ, suc, ◌+◌, ◌<◌, ◌≡◌, ◌⊎◌, inl, inr, refl, some, List, [], ◌∷◌, ◌++◌, All, arith, length, ◌∙◌,
  ap,
}
use grain_guard.Jobs.Workers.{
  Worker, email, webhook, alert, stripe, export, max_retries, Message, attempt, Result, malformed,
  done, failed, settle, Broker, perform, deliver, step, run,
}

-- The messages in the queue and in its dead-letter queue.
abbrev pub held : Broker → ℕ
held b = length b.queue + length b.dlq

abbrev pub IsFailure : Result → Type 0
IsFailure malformed = Unit
IsFailure done = ⊥
IsFailure (failed s) = Unit

abbrev pub Moves : Worker → Type 0
Moves w = (w ≡ email) ⊎ (w ≡ stripe)

abbrev pub Copies : Worker → Type 0
Copies w = (w ≡ webhook) ⊎ ((w ≡ alert) ⊎ (w ≡ export))

length-snoc : {A : Type 0} (xs : List A) (x : A) → length (xs ++ x ∷ []) ≡ suc (length xs)
length-snoc [] x = refl
length-snoc (y ∷ xs) x = ap suc (length-snoc xs x)

deliver-held :
    (w : Worker) (r : Result) (q : List Message) (b : Broker)
    → Moves w
    → IsFailure r
    → length b.queue ≡ length q
    → held (deliver w r q b) ≡ held b
unfolding deliver
deliver-held w r [] b h f e = refl
deliver-held email (failed s) (m ∷ rest) b h f e =
    ground (arith, length-snoc rest (record m { retry_count = some (attempt m + 1) }))
deliver-held stripe (failed s) (m ∷ rest) b h f e =
    ground (arith, length-snoc rest (record m { retry_count = some (attempt m + 1) }))
deliver-held email malformed (m ∷ rest) b h f e = omega arith
deliver-held stripe malformed (m ∷ rest) b h f e = omega arith
deliver-held w done (m ∷ rest) b h f e = absurd f
deliver-held webhook r (m ∷ rest) b h f e = ground arith
deliver-held alert r (m ∷ rest) b h f e = ground arith
deliver-held export r (m ∷ rest) b h f e = ground arith

-- For the e-mail and the Stripe worker, deliveries that all fail, in whatever way and however
-- often, leave the number of messages in the queue and its dead-letter queue unchanged: a failing
-- message is neither lost nor duplicated.
pub run-held :
    (w : Worker) (rs : List Result) (b : Broker)
    → Moves w
    → All IsFailure rs
    → held (run w rs b) ≡ held b
unfolding run step deliver
run-held w [] b h f = refl
run-held w (r ∷ rs) b h f = run-held w rs (step w r b) h f.1 ∙ deliver-held w r b.queue b h f.0 refl

abbrev pub IsError : Result → Type 0
IsError malformed = ⊥
IsError done = ⊥
IsError (failed s) = Unit

abbrev pub dead_letters : Broker → ℕ
dead_letters b = length b.dlq

-- The webhook, the alert and the export worker, while a message fails and has attempts left, keep it in the
-- queue and at each failure put it into the dead-letter queue as well: after `length rs` such
-- failures the queue has the message and the dead-letter queue has `length rs` messages more.
pub run-dead_letters :
    (w : Worker) (rs : List Result) (m : Message) (d a : List Message)
    → Copies w
    → All IsError rs
    → attempt m + length rs < max_retries w
    → let b = run w rs (record { queue = m ∷ []; dlq = d; acked = a }) in
      (length b.queue ≡ 1) × (length b.dlq ≡ length rs + length d)
unfolding run step deliver settle perform max_retries
run-dead_letters w [] m d a h f l = (refl, omega arith)
run-dead_letters w (malformed ∷ rs) m d a h f l = absurd f.0
run-dead_letters w (done ∷ rs) m d a h f l = absurd f.0
run-dead_letters webhook (failed s ∷ rs) m d a h f l = ground (
  arith,
  run-dead_letters webhook rs (record m { retry_count = some (attempt m + 1) }) (m ∷ d) a (inl refl)
      f.1,
)
run-dead_letters alert (failed s ∷ rs) m d a h f l = ground (
  arith,
  run-dead_letters alert rs (record m { retry_count = some (attempt m + 1) }) (m ∷ d) a
      (inr (inl refl)) f.1,
)
run-dead_letters export (failed s ∷ rs) m d a h f l = ground (
  arith,
  run-dead_letters export rs (record m { retry_count = some (attempt m + 1) }) (m ∷ d) a
      (inr (inr refl)) f.1,
)
run-dead_letters email (failed s ∷ rs) m d a h f l = ground arith
run-dead_letters stripe (failed s ∷ rs) m d a h f l = ground arith
