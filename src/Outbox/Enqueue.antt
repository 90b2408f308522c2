-- ===== src/Outbox/Enqueue.antt =====
-- receiptOutbox.Enqueue (pkg/jevshadow/receipt_outbox.go).
use notification_manager.Base.{
  ℕ, ◌+◌, ◌*◌, Bool, true, false, Option, none, some, List, [], ◌∷◌, ◌++◌, Str, lit, ltb, leb, ◌&&◌,
  ◌||◌, not, length, if◌then◌else◌,
}
use notification_manager.Bolt.{Bolt}
use notification_manager.Spool.Counter.{u64}
use notification_manager.Outbox.Envelope.{
  Receipt, Envelope, receipt_envelope_id, file_name, has_prefix, has_suffix,
}
use notification_manager.Outbox.Disk.{Ending, Outbox, write_pending}

pub data OutboxError : Type 0 where
  outbox_closing stat_failed already_dead read_failed statfs_failed : OutboxError
  outbox_full not_persisted : OutboxError

-- What the calls on the file system return: whether a stat or a read fails otherwise than by a
-- missing file, and the available blocks with their size.
pub record EnqueueDisk : Type 0 where
  pub completed_unreadable : Bool
  pub pending_unreadable : Bool
  pub directory_unreadable : Bool
  pub statfs : Option (ℕ × ℕ)
  pub write : Ending

abbrev pub is_there : {A : Type 0} → Option A → Bool
is_there none = false
is_there (some a) = true

-- filepath.Glob of the pattern id-*.json.
unfoldable pub has_dead : {V : Type 0} → Str → List (Str × V) → Bool
unfolding has_prefix has_suffix
has_dead id [] = false
has_dead id ((name, f) ∷ r) =
    (has_prefix name (id ++ lit "-") && has_suffix name (lit ".json")) || has_dead id r

-- 64 MiB and room for one envelope.
abbrev pub free_reserve : ℕ
free_reserve = 67108864 + 16777216

abbrev pub lacks_room : Option (ℕ × ℕ) → ℕ → Bool
lacks_room none count = true
lacks_room (some (blocks, size)) count = leb 50000 count || ltb (u64 (blocks * size)) free_reserve

abbrev pub new_envelope : (Str → Str) → Receipt → ℕ → ℕ → Envelope
new_envelope hash r created next = record {
  version = 1;
  id = receipt_envelope_id hash r;
  receipt = r;
  created_at = created;
  attempts = 0;
  next_attempt_at = next;
  last_error = [];
  dead_lettered_at = none;
}

module _ ⦃B : Bolt⦄ where
  open B use {get, entries}

  unfoldable pub count_entries : Outbox → ℕ
  count_entries o =
      length (entries o.pending) + length (entries o.dead) + length (entries o.completed)

  abbrev pub admit_envelope : EnqueueDisk → Envelope → Outbox → Option OutboxError × Outbox
  admit_envelope disk e o =
      if disk.directory_unreadable
      then (some read_failed, o)
      else if not (is_there disk.statfs)
      then (some statfs_failed, o)
      else if lacks_room disk.statfs (count_entries o)
      then (some outbox_full, o)
      else (let written = write_pending disk.write (file_name e.id) e o in
          (if written.0 then none else some not_persisted, written.1))

  -- The error, `none` for nil, and the outbox. `created` and `next` are two readings of the clock.
  unfoldable pub enqueue :
      (Str → Str) → EnqueueDisk → Receipt → ℕ → ℕ → Outbox → Option OutboxError × Outbox
  unfolding receipt_envelope_id file_name has_dead write_pending count_entries
  enqueue hash disk r created next o =
      let e = new_envelope hash r created next in
      if o.closing
      then (some outbox_closing, o)
      else if disk.completed_unreadable
      then (some stat_failed, o)
      else if is_there (get o.completed (file_name e.id))
      then (none, o)
      else if has_dead e.id (entries o.dead)
      then (some already_dead, o)
      else if disk.pending_unreadable
      then (some stat_failed, o)
      else if is_there (get o.pending (file_name e.id))
      then (none, o)
      else admit_envelope disk e o
