-- ===== src/Spool/Open.antt =====
-- Open: the defaults of the limits, and the takeover of the file from a previous owner
-- (pkg/notification_spool/store.go). The lock, the file mode and the path are the system's.
use notification_manager.Base.{
  ℕ, suc, ◌+◌, Bool, false, not, Option, none, some, List, [], ◌∷◌, Str, str_eq, lit, ◌==◌,
  if◌then◌else◌,
}
use notification_manager.Bolt.{Bolt}
use notification_manager.Spool.Types.{
  unknown, Target, Limits, Env, Db, Result, ok, ◌>>=◌, ◌>>◌, refuse_if, or_err, no_random,
  unsupported_version,
}
use notification_manager.Spool.Counter.{active_state, u64, set_active_count}
use notification_manager.Spool.Finish.{is_sending}
use notification_manager.Spool.Health.{Store, healthy}

unfoldable pub default_limits : Limits → Limits
default_limits l = record {
  max_targets = if l.max_targets == 0 then 100000 else l.max_targets;
  max_bytes = if l.max_bytes == 0 then 8589934592 else l.max_bytes;
  reserve_bytes = if l.reserve_bytes == 0 then 67108864 else l.reserve_bytes;
}

unfoldable pub interrupted : ℕ → Target → Target
interrupted now t = record t {
  state = unknown;
  outcome = lit "previous_owner_interrupted";
  updated_at = now;
}

-- The two results of the pass over the targets: how many are active, and what to change.
unfoldable pub count_active : List (Str × Target) → ℕ
count_active [] = 0
count_active ((key, t) ∷ rest) =
    let n = count_active rest in if active_state t.state then u64 (n + 1) else n

-- Each change reads the clock anew, from its i-th reading on.
unfoldable pub interruptions : (ℕ → ℕ) → ℕ → List (Str × Target) → List Target
unfolding interrupted
interruptions clock i [] = []
interruptions clock i ((key, t) ∷ rest) =
    let later = interruptions clock (if is_sending t.state then suc i else i) rest in
    if is_sending t.state then interrupted (clock i) t ∷ later else later

abbrev pub other_version : Option Str → Bool
other_version none = false
other_version (some v) = not (str_eq v (lit "1"))

module _ ⦃B : Bolt⦄ where
  open B use {put, entries}

  unfoldable pub put_targets : List Target → Db → Db
  put_targets [] db = db
  put_targets (t ∷ ts) db = put_targets ts (record db { targets = put db.targets t.id t })

  unfoldable pub take_over : Env → Str → Db → Result Db
  unfolding count_active interruptions set_active_count put_targets
  take_over env owner db = do
    refuse_if (other_version db.version) unsupported_version
    let owned = record db { version = some (lit "1"); owner = owner }
    let counted = set_active_count owned (count_active (entries db.targets))
    ok (put_targets (interruptions env.clock 0 (entries db.targets)) counted)

  -- The new identity is drawn before the transaction.
  unfoldable pub open_store : Env → Limits → Db → Result Store
  unfolding default_limits take_over
  open_store env limits db = do
    owner ← or_err (env.random 0) no_random
    db' ← take_over env owner db
    ok (record {
      db = db';
      owner = owner;
      limits = default_limits limits;
      storage_write_failures = 0;
      last_storage_error = healthy;
    })
