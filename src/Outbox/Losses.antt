-- ===== src/Outbox/Losses.antt =====
-- That no operation of the outbox loses a receipt.
use notification_manager.Base.{
  ℕ, ◌+◌, ◌≡◌, ◌⊎◌, inl, inr, refl, sym, ap, subst, ◌∙◌, Bool, true, false, Option, none, some, Str,
  leb, ◌||◌, if◌then◌else◌, not,
}
use notification_manager.Bolt.{Bolt}
use notification_manager.Bolt.Laws.{get-put_self}
use notification_manager.Outbox.Envelope.{Receipt, Envelope, File, json, dead_name, file_name}
use notification_manager.Outbox.Disk.{
  Ending, completes, fails_before, fails_after, succeeds, Outbox, write_pending, remove_pending,
  rename_to_dead,
}
use notification_manager.Outbox.Enqueue.{
  EnqueueDisk, enqueue, new_envelope, is_there, has_dead, lacks_room, count_entries,
}
use notification_manager.Outbox.Deliver.{
  OutboxConfig, Reply, accepted, refused, DeliverDisk, failed_once, move_to_dead_letter,
  deliver_envelope, retry_delay,
}
use notification_manager.Outbox.Places.{
  Keeps, IsApart, Safe, Safe-same, Safe-trans, put_pending-Safe, complete-Safe, bury-Safe,
}

module _ ⦃B : Bolt⦄ where
  open B use {get, put, delete, entries}

  write_pending-Safe :
      (ending : Ending) (name : Str) (e : Envelope) (o : Outbox)
      → IsApart o
      → get o.completed name ≡ none
      → (get o.pending name ≡ none) ⊎ Keeps (get o.pending name) e.receipt
      → Safe o (write_pending ending name e o).1
  unfolding write_pending
  write_pending-Safe fails_before name e o apart free old = Safe-same o o apart refl
  write_pending-Safe completes name e o apart free old = put_pending-Safe o name e apart free old
  write_pending-Safe fails_after name e o apart free old = put_pending-Safe o name e apart free old

  remove_pending-Safe :
      (ending : Ending) (name : Str) (f : File) (o : Outbox)
      → IsApart o
      → get o.pending name ≡ some f
      → Safe o (remove_pending ending name o).1
  unfolding remove_pending
  remove_pending-Safe completes name f o apart here = rw here (complete-Safe o name f apart here)
  remove_pending-Safe fails_after name f o apart here = rw here (complete-Safe o name f apart here)
  remove_pending-Safe fails_before name f o apart here = rw here (Safe-same o o apart refl)

  pub rename_to_dead-Safe :
      (ending : Ending) (name new_name : Str) (f : File) (o : Outbox)
      → IsApart o
      → get o.dead new_name ≡ none
      → get o.pending name ≡ some f
      → Safe o (rename_to_dead ending name new_name o).1
  unfolding rename_to_dead
  rename_to_dead-Safe completes name new_name f o apart fresh here =
      rw (here, rename_to_dead) (bury-Safe o name new_name f apart fresh here)
  rename_to_dead-Safe fails_after name new_name f o apart fresh here =
      rw (here, rename_to_dead) (bury-Safe o name new_name f apart fresh here)
  rename_to_dead-Safe fails_before name new_name f o apart fresh here =
      rw (here, rename_to_dead) (Safe-same o o apart refl)

  Safe-if :
      (o : Outbox) (b : Bool) (x y : Outbox)
      → (b ≡ true → Safe o x)
      → (b ≡ false → Safe o y)
      → Safe o (if b then x else y)
  Safe-if o true x y p q = p refl
  Safe-if o false x y p q = q refl

  Safe-if_pair :
      {A : Type 0} (o : Outbox) (b : Bool) (x y : A × Outbox)
      → Safe o x.1
      → (b ≡ false → Safe o y.1)
      → Safe o (if b then x else y).1
  Safe-if_pair o true x y p q = p
  Safe-if_pair o false x y p q = q refl

  write_pending_there :
      (ending : Ending) (name : Str) (e : Envelope) (o : Outbox)
      → succeeds ending ≡ true
      → get (write_pending ending name e o).1.pending name ≡ some (json e)
  unfolding write_pending
  write_pending_there completes name e o h = get-put_self o.pending name (json e)
  write_pending_there fails_before name e o h = cc
  write_pending_there fails_after name e o h = cc

  write_pending-dead :
      (ending : Ending) (name : Str) (e : Envelope) (o : Outbox)
      → (write_pending ending name e o).1.dead ≡ o.dead
  unfolding write_pending
  write_pending-dead completes name e o = refl
  write_pending-dead fails_before name e o = refl
  write_pending-dead fails_after name e o = refl

  move_to_dead_letter-Safe :
      (disk : DeliverDisk) (name : Str) (e e' : Envelope) (o : Outbox)
      → IsApart o
      → get o.pending name ≡ some (json e)
      → e'.receipt ≡ e.receipt
      → get o.dead (dead_name e'.id disk.now) ≡ none
      → Safe o (move_to_dead_letter disk name e' o)
  unfolding move_to_dead_letter
  move_to_dead_letter-Safe disk name e e' o apart here same fresh =
      Safe-trans o written.1
        (if written.0
          then (rename_to_dead disk.dead_move name (dead_name e'.id disk.now) written.1).1
          else written.1)
        kept
        (Safe-if written.1 written.0
          (rename_to_dead disk.dead_move name (dead_name e'.id disk.now) written.1).1 written.1
          (λ done.
            rename_to_dead-Safe disk.dead_move name (dead_name e'.id disk.now) (json buried)
              written.1 kept.apart
              (ap (λ d. get d (dead_name e'.id disk.now))
                  (write_pending-dead disk.dead_write name buried o)
                ∙ fresh)
              (write_pending_there disk.dead_write name buried o done))
          (λ _. Safe-same written.1 written.1 kept.apart refl))
    where
      buried : Envelope
      buried = record e' { dead_lettered_at = some disk.now }

      written : Bool × Outbox
      written = write_pending disk.dead_write name buried o

      kept : Safe o written.1
      kept =
          write_pending-Safe disk.dead_write name buried o apart (apart name (json e) here)
            (inr (subst (λ z. Keeps z buried.receipt) (sym here) (sym same)))

  pub deliver_envelope-Safe :
      (config : OutboxConfig) (disk : DeliverDisk) (reply : Reply) (name : Str) (e : Envelope)
      (o : Outbox)
      → IsApart o
      → get o.pending name ≡ some (json e)
      → get o.dead (dead_name e.id disk.now) ≡ none
      → Safe o (deliver_envelope config disk reply name e o)
  unfolding deliver_envelope
  deliver_envelope-Safe config disk accepted name e o apart here fresh =
      remove_pending-Safe disk.completion name (json e) o apart here
  deliver_envelope-Safe config disk (refused permanent message) name e o apart here fresh =
      Safe-if o (permanent || leb config.max_attempts (e.attempts + 1))
        (move_to_dead_letter disk name (failed_once e message) o)
        (write_pending disk.retry_write name delayed o).1
        (λ _. move_to_dead_letter-Safe disk name e (failed_once e message) o apart here refl fresh)
        (λ _.
          write_pending-Safe disk.retry_write name delayed o apart (apart name (json e) here)
            (inr (subst (λ z. Keeps z e.receipt) (sym here) refl)))
    where
      delayed : Envelope
      delayed = record (failed_once e message) {
        next_attempt_at = disk.now + retry_delay config (e.attempts + 1);
      }

  not_there : {A : Type 0} (x : Option A) → is_there x ≡ false → x ≡ none
  not_there none h = refl
  not_there (some a) h = cc

  pub enqueue-Safe :
      (hash : Str → Str) (disk : EnqueueDisk) (r : Receipt) (created next : ℕ) (o : Outbox)
      → IsApart o
      → Safe o (enqueue hash disk r created next o).1
  unfolding enqueue
  enqueue-Safe hash disk r created next o apart = Safe-if_pair o o.closing _ _ same λ _.
      Safe-if_pair o disk.completed_unreadable _ _ same λ _.
        Safe-if_pair o (is_there (get o.completed name)) _ _ same λ free.
          Safe-if_pair o (has_dead e.id (entries o.dead)) _ _ same λ _.
            Safe-if_pair o disk.pending_unreadable _ _ same λ _.
              Safe-if_pair o (is_there (get o.pending name)) _ _ same λ absent.
                Safe-if_pair o disk.directory_unreadable _ _ same λ _.
                  Safe-if_pair o (not (is_there disk.statfs)) _ _ same λ _.
                    Safe-if_pair o (lacks_room disk.statfs (count_entries o)) _ _ same λ _.
                      write_pending-Safe disk.write name e o apart
                        (not_there (get o.completed name) free)
                        (inl (not_there (get o.pending name) absent))
    where
      e : Envelope
      e = new_envelope hash r created next

      name : Str
      name = file_name e.id

      same : Safe o o
      same = Safe-same o o apart refl
