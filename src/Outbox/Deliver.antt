-- ===== src/Outbox/Deliver.antt =====
-- deliverEnvelope, moveToDeadLetter and retryDelay (pkg/jevshadow/receipt_outbox.go).
use notification_manager.Base.{
  ℕ, zero, suc, ◌+◌, ◌-◌, ◌*◌, ◌/◌, Bool, some, Str, ltb, leb, ◌||◌, if◌then◌else◌,
}
use notification_manager.Bolt.{Bolt}
use notification_manager.Outbox.Envelope.{Envelope, bounded_receipt_error, dead_name}
use notification_manager.Outbox.Disk.{Ending, Outbox, write_pending, remove_pending, rename_to_dead}

pub record OutboxConfig : Type 0 where
  pub max_attempts : ℕ
  pub retry_min : ℕ
  pub retry_max : ℕ

-- The rounds of the loop that are left, and the delay so far.
unfoldable pub doubled : ℕ → ℕ → ℕ → ℕ
doubled zero retry_max delay = if ltb retry_max delay then retry_max else delay
doubled (suc rounds) retry_max delay =
    let rest = doubled rounds retry_max (delay * 2) in
    if ltb delay retry_max
    then (if ltb (retry_max / 2) delay then retry_max else rest)
    else (if ltb retry_max delay then retry_max else delay)

-- `attempt` rounds less one.
unfoldable pub retry_delay : OutboxConfig → ℕ → ℕ
unfolding doubled
retry_delay config attempt = doubled (attempt - 1) config.retry_max config.retry_min

-- What `deliver` returns: nil, or an error with its permanence and its text.
pub data Reply : Type 0 where
  accepted : Reply
  refused : (permanent : Bool) (message : Str) → Reply

-- The files of one delivery: the move to completed, the write and the move of a dead letter, the
-- write of a retry; and the clock.
pub record DeliverDisk : Type 0 where
  pub completion : Ending
  pub dead_write : Ending
  pub dead_move : Ending
  pub retry_write : Ending
  pub now : ℕ

abbrev pub failed_once : Envelope → Str → Envelope
failed_once e message = record e {
  attempts = e.attempts + 1;
  last_error = bounded_receipt_error message;
}

module _ ⦃B : Bolt⦄ where
  open B use {get}

  unfoldable pub move_to_dead_letter : DeliverDisk → Str → Envelope → Outbox → Outbox
  unfolding write_pending rename_to_dead dead_name
  move_to_dead_letter disk name e o =
      let written =
        write_pending disk.dead_write name (record e { dead_lettered_at = some disk.now }) o in
      if written.0
      then (rename_to_dead disk.dead_move name (dead_name e.id disk.now) written.1).1
      else written.1

  -- A failure to keep the new state is logged only.
  unfoldable pub deliver_envelope :
      OutboxConfig → DeliverDisk → Reply → Str → Envelope → Outbox → Outbox
  unfolding move_to_dead_letter remove_pending retry_delay
  deliver_envelope config disk accepted name e o = (remove_pending disk.completion name o).1
  deliver_envelope config disk (refused permanent message) name e o =
      let failed = failed_once e message in
      if permanent || leb config.max_attempts failed.attempts
      then move_to_dead_letter disk name failed o
      else (write_pending disk.retry_write name
          (record failed { next_attempt_at = disk.now + retry_delay config failed.attempts }) o).1
