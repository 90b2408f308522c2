-- ===== src/Spool/Counter.antt =====
-- The counter of active targets (pkg/notification_spool/maintenance.go), and queue keys.
use notification_manager.Base.{
  ℕ, zero, suc, ◌+◌, ◌-◌, ◌/◌, ◌%◌, Bool, true, false, ◌∷◌, Str, ltb, if◌then◌else◌,
}
use notification_manager.Bolt.{Bolt}
use notification_manager.Spool.Types.{
  State, pending, sending, delivered, retryable, unknown, dead_letter, other, Target, Db, Result,
  ok, err, counter_underflow,
}

unfoldable pub active_state : State → Bool
active_state pending = true
active_state retryable = true
active_state sending = true
active_state unknown = true
active_state delivered = false
active_state dead_letter = false
active_state (other s) = false

-- uint64 arithmetic wraps.
abbrev pub u64 : ℕ → ℕ
u64 n = n % 18446744073709551616

module _ ⦃B : Bolt⦄ where
  unfoldable pub set_active_count : Db → ℕ → Db
  set_active_count db value = record db { active_targets = value }

  -- changeActiveCount with a delta of at least 0, and with a negative one.
  unfoldable pub raise_active_count : Db → ℕ → Db
  unfolding set_active_count
  raise_active_count db delta = set_active_count db (u64 (db.active_targets + delta))

  unfoldable pub lower_active_count : Db → ℕ → Result Db
  unfolding set_active_count
  lower_active_count db delta =
      if ltb db.active_targets delta
      then err counter_underflow
      else ok (set_active_count db (db.active_targets - delta))

-- %020d: the last `width` decimal digits, and all of them when there are more.
unfoldable pub last_digits : ℕ → ℕ → Str → Str
last_digits zero n rest = rest
last_digits (suc width) n rest = last_digits width (n / 10) ((b'0' + n % 10) ∷ rest)

-- The nanoseconds of a time.Time fit an int64, so that 20 digits are enough. Times before 1970, which
-- the code prints with a sign, are left out.
unfoldable pub queue_key : Target → Str
unfolding last_digits
queue_key t = last_digits 20 t.available_at (b':' ∷ t.id)
