-- ===== src/Outbox/Disk.antt =====
-- The directories of the outbox and what may go wrong with a file (writeReceiptEnvelope, os.Rename
-- and syncDirectory in pkg/jevshadow/receipt_outbox.go).
use notification_manager.Base.{Bool, true, false, none, some, Str}
use notification_manager.Bolt.{Bolt}
use notification_manager.Outbox.Envelope.{Envelope, File, json}

-- How a write or a move ends: an error before the rename leaves everything as it was, an error
-- after it (syncDirectory) leaves the file in its new place.
pub data Ending : Type 0 where
  completes fails_before fails_after : Ending

abbrev pub takes_place : Ending → Bool
takes_place fails_before = false
takes_place _ = true

abbrev pub succeeds : Ending → Bool
succeeds completes = true
succeeds _ = false

-- os.ReadDir lists a directory in the order of the names, as a cursor does the keys of a bucket: a
-- directory is a map of the same interface.
module _ ⦃B : Bolt⦄ where
  open B use {Bucket, get, put, delete}

  pub record Outbox : Type 0 where
    pub pending : Bucket File
    pub dead : Bucket File
    pub completed : Bucket File
    pub closing : Bool

  -- A temporary file is written, and renamed onto the name. An envelope is taken to be of at most 16
  -- MiB as text: the code writes a longer one, and reads no more of it than that.
  unfoldable pub write_pending : Ending → Str → Envelope → Outbox → Bool × Outbox
  write_pending ending name e o = (
    succeeds ending,
    elim (takes_place ending) [
      | true ↦ record o { pending = put o.pending name (json e) }
      | false ↦ o
    ],
  )

  abbrev pub moved_to_completed : Str → File → Outbox → Outbox
  moved_to_completed name f o = record o {
    pending = delete o.pending name;
    completed = put o.completed name f;
  }

  abbrev pub moved_to_dead : Str → Str → File → Outbox → Outbox
  moved_to_dead name new_name f o = record o {
    pending = delete o.pending name;
    dead = put o.dead new_name f;
  }

  -- removePending: a file that is not there is no error.
  unfoldable pub remove_pending : Ending → Str → Outbox → Bool × Outbox
  remove_pending ending name o = (
    succeeds ending,
    elim (get o.pending name) [
      | none ↦ o
      | some f ↦ elim (takes_place ending) [ true ↦ moved_to_completed name f o | false ↦ o ]
    ],
  )

  unfoldable pub rename_to_dead : Ending → Str → Str → Outbox → Bool × Outbox
  rename_to_dead ending name new_name o = elim (get o.pending name) [
    | none ↦ (false, o)
    | some f ↦ (
      succeeds ending,
      elim (takes_place ending) [ true ↦ moved_to_dead name new_name f o | false ↦ o ],
    )
  ]
