-- ===== src/Outbox/Scan.antt =====
-- nextEnvelope, processNext and drainPending (pkg/jevshadow/receipt_outbox.go).
use notification_manager.Base.{
  ℕ, ◌-◌, Bool, true, false, Option, none, some, List, [], ◌∷◌, Str, lit, ltb, leb, ◌==◌,
  if◌then◌else◌,
}
use notification_manager.Bolt.{Bolt}
use notification_manager.Outbox.Envelope.{
  Envelope, File, other, read_envelope, has_suffix, corrupt_name, note_name,
}
use notification_manager.Outbox.Disk.{Ending, Outbox, rename_to_dead}
use notification_manager.Outbox.Deliver.{OutboxConfig, Reply, DeliverDisk, deliver_envelope}

-- The order of the candidates: by the next attempt, then by the creation.
unfoldable pub is_before : Envelope → Envelope → Bool
is_before a b =
    if a.next_attempt_at == b.next_attempt_at
    then ltb a.created_at b.created_at
    else ltb a.next_attempt_at b.next_attempt_at

-- The first candidate after the sort; of equal ones the first in the directory.
unfoldable pub earliest : List (Str × Envelope) → Option (Str × Envelope)
unfolding is_before
earliest [] = none
earliest (c ∷ cs) = elim (earliest cs) [
  | none ↦ some c
  | some b ↦ if is_before b.1 c.1 then some b else some c
]

-- How the move of each unreadable file ends, the clock when it is moved, and what then stands in the
-- file with the reason, `none` if that file is not made.
pub record Quarantine : Type 0 where
  pub move : Str → Ending
  pub at : Str → ℕ
  pub note : Str → Option Str

pub data Next : Type 0 where
  idles : Next
  waits : ℕ → Next
  takes : Str → Envelope → Next

module _ ⦃B : Bolt⦄ where
  open B use {get, put, entries}

  -- os.WriteFile of the reason, after a move without error.
  abbrev pub write_note : Bool → Option Str → Str → Outbox → Outbox
  write_note true (some text) name o = record o { dead = put o.dead name (other text) }
  write_note true none name o = o
  write_note false text name o = o

  -- moveCorruptToDeadLetterLocked.
  unfoldable pub quarantine : Quarantine → Str → Outbox → Outbox
  unfolding rename_to_dead corrupt_name
  quarantine q name o =
      let moved = rename_to_dead (q.move name) name (corrupt_name name (q.at name)) o in
      write_note moved.0 (q.note name) (note_name (corrupt_name name (q.at name))) moved.1

  -- The loop over the directory as it was read: the candidates, and the outbox.
  unfoldable pub scan_entries :
      (Str → Str) → Quarantine → List (Str × File) → Outbox → List (Str × Envelope) × Outbox
  unfolding quarantine read_envelope has_suffix
  scan_entries hash q [] o = ([], o)
  scan_entries hash q ((name, f) ∷ r) o = elim (has_suffix name (lit ".json")) [
    | false ↦ scan_entries hash q r o
    | true ↦ elim (read_envelope hash (get o.pending name)) [
      | none ↦ scan_entries hash q r (quarantine q name o)
      | some e ↦ let rest = scan_entries hash q r o in ((name, e) ∷ rest.0, rest.1)
    ]
  ]

  -- `unreadable` if os.ReadDir fails.
  unfoldable pub next_envelope : (Str → Str) → Bool → Quarantine → ℕ → Outbox → Next × Outbox
  unfolding scan_entries earliest
  next_envelope hash unreadable q now o =
      if unreadable
      then (idles, o)
      else (let scanned = scan_entries hash q (entries o.pending) o in
          elim (earliest scanned.0) [
            | none ↦ (idles, scanned.1)
            | some (name, e) ↦ (
              if leb e.next_attempt_at now then takes name e else waits (e.next_attempt_at - now),
              scanned.1,
            )
          ])

  -- Whether an envelope was processed, and the outbox.
  unfoldable pub process_next :
      (Str → Str)
      → OutboxConfig
      → Bool
      → Quarantine
      → ℕ
      → DeliverDisk
      → Reply
      → Outbox
      → Bool × Outbox
  unfolding next_envelope deliver_envelope
  process_next hash config unreadable q now disk reply o =
      let found = next_envelope hash unreadable q now o in
      elim found.0 [
        | idles ↦ (false, found.1)
        | waits d ↦ (false, found.1)
        | takes name e ↦ (true, deliver_envelope config disk reply name e found.1)
      ]

  -- A file of the drain: whether the deadline has passed, and the delivery.
  unfoldable pub drain_paths :
      (Str → Str)
      → OutboxConfig
      → Quarantine
      → (Str → Bool)
      → (Str → DeliverDisk)
      → (Str → Reply)
      → List Str
      → Outbox
      → Outbox
  unfolding quarantine read_envelope deliver_envelope
  drain_paths hash config q expired disk reply [] o = o
  drain_paths hash config q expired disk reply (name ∷ names) o =
      if expired name then o else elim (read_envelope hash (get o.pending name)) [
        | none ↦ drain_paths hash config q expired disk reply names (quarantine q name o)
        | some e ↦
            drain_paths hash config q expired disk reply names
              (deliver_envelope config (disk name) (reply name) name e o)
      ]

  abbrev pub json_names : List (Str × File) → List Str
  json_names [] = []
  json_names ((name, f) ∷ r) =
      let rest = json_names r in if has_suffix name (lit ".json") then name ∷ rest else rest

  unfoldable pub drain_pending :
      (Str → Str)
      → OutboxConfig
      → Bool
      → Quarantine
      → (Str → Bool)
      → (Str → DeliverDisk)
      → (Str → Reply)
      → Outbox
      → Outbox
  unfolding drain_paths
  drain_pending hash config unreadable q expired disk reply o =
      if unreadable
      then o
      else drain_paths hash config q expired disk reply (json_names (entries o.pending)) o

  unfoldable pub close : Outbox → Outbox
  close o = record o { closing = true }
