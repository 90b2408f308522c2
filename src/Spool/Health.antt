-- ===== src/Spool/Health.antt =====
-- Store.update and the health of the storage (pkg/notification_spool/health.go, store.go), and the
-- calls of a Store by way of it.
use notification_manager.Base.{
  ℕ, ◌+◌, Bool, true, false, Option, none, some, Str, leb, if◌then◌else◌,
}
use notification_manager.Bolt.{Bolt}
use notification_manager.Spool.Types.{
  Limits, Env, Db, Result, ok, err, ◌>>◌, refuse_if, capacity, storage, storage_outage,
}
use notification_manager.Spool.Counter.{u64}
use notification_manager.Spool.Submit.{check_capacity}

-- The class of an error of a commit, by errors.Is.
pub data CommitError : Type 0 where
  enospc efbig erofs eio unclassified : CommitError

-- The strings that lastStorageError takes; `healthy` is the empty one.
pub data StorageError : Type 0 where
  healthy storage_write_failed storage_no_space storage_file_limit : StorageError
  storage_read_only storage_io_error : StorageError

unfoldable pub classify : CommitError → StorageError
classify enospc = storage_no_space
classify efbig = storage_file_limit
classify erofs = storage_read_only
classify eio = storage_io_error
classify unclassified = storage_write_failed

abbrev pub is_healthy : StorageError → Bool
is_healthy StorageError.healthy = true
is_healthy _ = false

module _ ⦃B : Bolt⦄ where
  pub record Store : Type 0 where
    pub db : Db
    pub owner : Str
    pub limits : Limits
    pub storage_write_failures : ℕ
    pub last_storage_error : StorageError

  abbrev pub commit : {A : Type 0} → Store → Option CommitError → A → Db → Store × Result A
  commit s none a db = (record s { db = db; last_storage_error = StorageError.healthy }, ok a)
  commit s (some e) a db = (
    record s {
      storage_write_failures = u64 (s.storage_write_failures + 1);
      last_storage_error = classify e;
    },
    err storage,
  )

  -- db.Update commits what the function did, unless it returns an error; then nothing is kept.
  -- `failure` is the error of the commit, if it has one.
  unfoldable pub update :
      {A : Type 0} → (Db → Result (A × Db)) → Option CommitError → Store → Store × Result A
  unfolding classify
  update f failure s = elim (f s.db) [ err e ↦ (s, err e) | ok (a, db) ↦ commit s failure a db ]

  -- Store.Ready: nil, or the reason why no new work is accepted.
  unfoldable pub check_ready : Env → Store → Result (Unit {0})
  unfolding check_capacity
  check_ready env s = do
    refuse_if (if is_healthy s.last_storage_error then false else true) storage_outage
    check_capacity env s.limits
    refuse_if (leb s.limits.max_targets s.db.active_targets) capacity
