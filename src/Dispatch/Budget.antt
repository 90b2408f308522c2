-- ===== src/Dispatch/Budget.antt =====
-- The budget of sends (waitSendBudget of pkg/dispatcher/durable.go): one clock of reservations for
-- all workers.
use notification_manager.Base.{
  ℕ, ◌+◌, ◌-◌, Option, none, some, List, [], ◌∷◌, leb, ◌==◌, if◌then◌else◌,
}
use notification_manager.Dispatch.Outcome.{SendError}

-- The two readings of the clock under the lock: time.Until(d.nextSend), and time.Now().
pub record Lap : Type 0 where
  pub until : ℕ
  pub now : ℕ

pub data Reservation : Type 0 where
  granted : (next_send : ℕ) → Reservation
  waits : (wait : ℕ) → Reservation

-- The section of the loop under the lock.
unfoldable pub reserve : ℕ → Lap → ℕ → Reservation
reserve send_interval lap next_send =
    if leb next_send lap.until
    then granted (lap.now + send_interval)
    else waits (next_send - lap.until)

-- A round of the loop: the error of the context when it begins, the lap, and the error if the
-- context ends before the timer does.
pub record Turn : Type 0 where
  pub ended : Option SendError
  pub lap : Lap
  pub cut : Option SendError

-- The loop of one call over the rounds that it makes. The result is the error, if any, with the
-- next reservation; `none` if it still waits after these rounds.
unfoldable pub wait_send_budget : ℕ → List Turn → ℕ → Option (Option SendError × ℕ)
unfolding reserve
wait_send_budget send_interval [] next_send =
    if send_interval == 0 then some (none, next_send) else none
wait_send_budget send_interval (turn ∷ turns) next_send =
    let rest = wait_send_budget send_interval turns next_send in
    if send_interval == 0 then some (none, next_send) else elim turn.ended [
      | some e ↦ some (some e, next_send)
      | none ↦ elim (reserve send_interval turn.lap next_send) [
        | granted next ↦ some (none, next)
        | waits wait ↦ elim turn.cut [ some e ↦ some (some e, next_send) | none ↦ rest ]
      ]
    ]

-- The laps of all workers, in the order in which they hold the lock, that are granted a send.
unfoldable pub grants : ℕ → List Lap → ℕ → List Lap
unfolding reserve
grants send_interval [] next_send = []
grants send_interval (lap ∷ laps) next_send = elim (reserve send_interval lap next_send) [
  | granted next ↦ lap ∷ grants send_interval laps next
  | waits wait ↦ grants send_interval laps next_send
]
