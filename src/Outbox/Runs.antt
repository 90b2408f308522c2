-- ===== src/Outbox/Runs.antt =====
-- The steps of the outbox, and that a run of them loses no receipt.
use notification_manager.Base.{
  ℕ, ◌≡◌, ◌≢◌, inl, inr, refl, sym, ap, ◌∙◌, subst, Bool, true, false, Option, none, some, [], ◌∷◌,
  ◌++◌, Str, lit, dec_str, arith,
}
use notification_manager.Bolt.{Bolt}
use notification_manager.Bolt.Laws.{get-put_self, get-put_ne}
use notification_manager.Outbox.Envelope.{
  Receipt, Envelope, File, json, other, read_envelope, dead_name, corrupt_name, note_name,
  file_name, receipt_envelope_id,
}
use notification_manager.Outbox.Disk.{
  Ending, completes, fails_before, fails_after, Outbox, write_pending, rename_to_dead,
}
use notification_manager.Outbox.Enqueue.{EnqueueDisk, OutboxError, enqueue, new_envelope}
use notification_manager.Outbox.Deliver.{OutboxConfig, Reply, DeliverDisk, deliver_envelope}
use notification_manager.Outbox.Scan.{Quarantine, write_note, quarantine, close}
use notification_manager.Outbox.Places.{Keeps, Accounted, IsApart, Safe, Safe-same, Safe-trans}
use notification_manager.Outbox.Losses.{rename_to_dead-Safe, deliver_envelope-Safe, enqueue-Safe}

append_apart : (s r : Str) (c : ℕ) → s ≢ s ++ (c ∷ r)
append_apart [] r c = λ e. cc
append_apart (x ∷ s) r c = λ e. append_apart s r c (cc)

longer_name : (name : Str) → name ≢ note_name name
longer_name name = append_apart name (lit "error") b'.'

module _ ⦃B : Bolt⦄ where
  open B use {get, put, delete, entries}

  -- A note under a name that is not in use takes the place of no receipt.
  write_note-Safe :
      (made : Bool) (text : Option Str) (name : Str) (o : Outbox)
      → IsApart o
      → get o.dead name ≡ none
      → Safe o (write_note made text name o)
  write_note-Safe true none name o apart fresh = Safe-same o o apart refl
  write_note-Safe false text name o apart fresh = Safe-same o o apart refl
  write_note-Safe true (some text) name o apart fresh = record {
    apart = apart;
    accounted = λ r a. keeps_on r a;
  }
    where
      keeps_on :
          (r : Receipt)
          → Accounted o r
          → Accounted (record o { dead = put o.dead name (other text) }) r
      keeps_on r (n, inl p) = (n, inl p)
      keeps_on r (n, inr (inl c)) = (n, inr (inl c))
      keeps_on r (n, inr (inr d)) = elim (dec_str name n) [
        | no m ↦ (
          n,
          inr (inr (subst (λ z. Keeps z r) (sym (get-put_ne o.dead name (other text) n m)) d)),
        )
        | yes same ↦ absurd (subst (λ z. Keeps z r) (sym (ap (get o.dead) same) ∙ fresh) d)
      ]

  rename_to_dead_others :
      (ending : Ending) (name new_name other_name : Str) (f : File) (o : Outbox)
      → get o.pending name ≡ some f
      → new_name ≢ other_name
      → get (rename_to_dead ending name new_name o).1.dead other_name ≡ get o.dead other_name
  unfolding rename_to_dead
  rename_to_dead_others completes name new_name other_name f o here apart =
      rw (here, rename_to_dead) (get-put_ne o.dead new_name f other_name apart)
  rename_to_dead_others fails_after name new_name other_name f o here apart =
      rw (here, rename_to_dead) (get-put_ne o.dead new_name f other_name apart)
  rename_to_dead_others fails_before name new_name other_name f o here apart =
      rw (here, rename_to_dead) refl

  quarantine-Safe :
      (q : Quarantine) (name : Str) (f : File) (o : Outbox)
      → IsApart o
      → get o.pending name ≡ some f
      → get o.dead (corrupt_name name (q.at name)) ≡ none
      → get o.dead (note_name (corrupt_name name (q.at name))) ≡ none
      → Safe o (quarantine q name o)
  unfolding quarantine
  quarantine-Safe q name f o apart here fresh unused =
      let new_name = corrupt_name name (q.at name) in
      let moved = rename_to_dead (q.move name) name new_name o in
      let kept = rename_to_dead-Safe (q.move name) name new_name f o apart fresh here in
      Safe-trans o moved.1 (write_note moved.0 (q.note name) (note_name new_name) moved.1) kept (
        write_note-Safe moved.0 (q.note name) (note_name new_name) moved.1 kept.apart (
          rename_to_dead_others (q.move name) name new_name (note_name new_name) f o here
            (longer_name new_name)
          ∙ unused))

  -- What may happen to the outbox. The names under which letters are buried, and those of the
  -- notes beside corrupt ones, carry the time, and are not in use.
  pub data OutboxStep (hash : Str → Str) (config : OutboxConfig) (o o' : Outbox) : Type 0 where
    enqueues :
        (disk : EnqueueDisk) (r : Receipt) (created next_at : ℕ)
        → o' ≡ (enqueue hash disk r created next_at o).1
        → OutboxStep hash config o o'
    delivers :
        (disk : DeliverDisk) (reply : Reply) (name : Str) (e : Envelope)
        → read_envelope hash (get o.pending name) ≡ some e
        → get o.dead (dead_name e.id disk.now) ≡ none
        → o' ≡ deliver_envelope config disk reply name e o
        → OutboxStep hash config o o'
    quarantines :
        (q : Quarantine) (name : Str) (f : File)
        → get o.pending name ≡ some f
        → get o.dead (corrupt_name name (q.at name)) ≡ none
        → get o.dead (note_name (corrupt_name name (q.at name))) ≡ none
        → o' ≡ quarantine q name o
        → OutboxStep hash config o o'
    closes : o' ≡ close o → OutboxStep hash config o o'

  pub data OutboxRun (hash : Str → Str) (config : OutboxConfig) (o : Outbox) : Outbox → Type 0 where
    here : OutboxRun hash config o o
    next :
        {o' o'' : Outbox}
        → OutboxRun hash config o o'
        → OutboxStep hash config o' o''
        → OutboxRun hash config o o''

  -- What is read from a file is what it holds.
  pub read_envelope-json :
      (hash : Str → Str) (x : Option File) (e : Envelope)
      → read_envelope hash x ≡ some e
      → x ≡ some (json e)
  unfolding read_envelope
  read_envelope-json hash none e h = cc
  read_envelope-json hash (some (other s)) e h = cc
  read_envelope-json hash (some (json e')) e h = ground arith

  OutboxStep-Safe :
      {hash : Str → Str} {config : OutboxConfig} {o o' : Outbox}
      → OutboxStep hash config o o'
      → IsApart o
      → Safe o o'
  OutboxStep-Safe {hash} {config} {o} (enqueues disk r created next_at e) apart =
      subst (Safe o) (sym e) (enqueue-Safe hash disk r created next_at o apart)
  OutboxStep-Safe {hash} {config} {o} (delivers disk reply name v found fresh e) apart =
      subst (Safe o) (sym e) (
        deliver_envelope-Safe config disk reply name v o apart
          (read_envelope-json hash (get o.pending name) v found) fresh)
  OutboxStep-Safe {hash} {config} {o} (quarantines q name f there fresh unused e) apart =
      subst (Safe o) (sym e) (quarantine-Safe q name f o apart there fresh unused)
  OutboxStep-Safe {hash} {config} {o} (closes e) apart =
      subst (Safe o) (sym e) (unfold close in record { apart = apart; accounted = λ r a. a })

  OutboxRun-Safe :
      {hash : Str → Str} {config : OutboxConfig} {o o' : Outbox}
      → IsApart o
      → OutboxRun hash config o o'
      → Safe o o'
  OutboxRun-Safe {hash} {config} {o} apart here = Safe-same o o apart refl
  OutboxRun-Safe {hash} {config} {o} apart (next r st) =
      let before = OutboxRun-Safe apart r in
      Safe-trans _ _ _ before (OutboxStep-Safe st before.apart)

  enqueue_new :
      (hash : Str → Str) (disk : EnqueueDisk) (r : Receipt) (created next_at : ℕ) (o o' : Outbox)
      → enqueue hash disk r created next_at o ≡ (none, o')
      → get o.pending (file_name (receipt_envelope_id hash r)) ≡ none
      → get o.completed (file_name (receipt_envelope_id hash r)) ≡ none
      → Accounted o' r
  unfolding enqueue write_pending
  enqueue_new hash disk r created next_at o o' ok absent free = (
    file_name (receipt_envelope_id hash r),
    inl (
        keeps_json (get o'.pending (file_name (receipt_envelope_id hash r)))
          (new_envelope hash r created next_at)
          (ground (
            arith,
            get-put_self o.pending (file_name (receipt_envelope_id hash r))
                (json (new_envelope hash r created next_at)),
            absent,
            free,
          ))),
  )
    where
      keeps_json : (x : Option File) (e : Envelope) → x ≡ some (json e) → Keeps x e.receipt
      keeps_json x e h = subst (λ z. Keeps z e.receipt) (sym h) refl

  -- After Enqueue accepted a new receipt, it stays in one of the three directories through every
  -- sequence of enqueues, deliveries, quarantines and closings, whatever file operations fail, if no
  -- name is both pending and completed before and the names of dead letters, and of the notes beside
  -- corrupt ones, are fresh.
  pub accepted-Accounted :
      (hash : Str → Str) (config : OutboxConfig) (disk : EnqueueDisk) (r : Receipt)
      (created next_at : ℕ) (o o' o'' : Outbox)
      → IsApart o
      → get o.pending (file_name (receipt_envelope_id hash r)) ≡ none
      → get o.completed (file_name (receipt_envelope_id hash r)) ≡ none
      → enqueue hash disk r created next_at o ≡ (none, o')
      → OutboxRun hash config o' o''
      → Accounted o'' r
  accepted-Accounted hash config disk r created next_at o o' o'' apart absent free ok run =
      (OutboxRun-Safe o'-apart run).accounted r
        (enqueue_new hash disk r created next_at o o' ok absent free)
    where
      o'-apart : IsApart o'
      o'-apart =
          subst (λ (p : Option OutboxError × Outbox). IsApart p.1) ok
            (enqueue-Safe hash disk r created next_at o apart).apart
