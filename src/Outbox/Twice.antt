-- ===== src/Outbox/Twice.antt =====
-- A receipt is enqueued once.
use mathlib.Core.List.{Memᴰ, append_assoc}
use notification_manager.Base.{
  ℕ, ◌≡◌, refl, sym, ap, subst, ◌∙◌, Bool, true, false, Option, none, some, List, [], ◌∷◌, ◌++◌,
  Str, lit, arith,
}
use notification_manager.Bolt.{Bolt}
use notification_manager.Bolt.Laws.{get-put_self, mem_of_get}
use notification_manager.Outbox.Envelope.{
  Receipt, Envelope, json, dead_name, decimal, file_name, receipt_envelope_id, has_prefix,
  has_suffix,
}
use notification_manager.Outbox.Disk.{
  Outbox, write_pending, remove_pending, rename_to_dead, moved_to_completed,
}
use notification_manager.Outbox.Enqueue.{
  EnqueueDisk, OutboxError, already_dead, enqueue, is_there, has_dead, new_envelope,
}
use notification_manager.Outbox.Deliver.{
  OutboxConfig, Reply, accepted, refused, DeliverDisk, failed_once, move_to_dead_letter,
  deliver_envelope,
}
use notification_manager.Outbox.Places.{IsApart}
use notification_manager.Outbox.Ends.{healthy_disk}

abbrev pub IsReadable : EnqueueDisk → Type 0
IsReadable disk = (disk.completed_unreadable ≡ false) × (disk.pending_unreadable ≡ false)

has_prefix-append : (s t : Str) → has_prefix (s ++ t) s ≡ true
unfolding has_prefix
has_prefix-append [] [] = refl
has_prefix-append [] (c ∷ t) = refl
has_prefix-append (c ∷ s) t = ground (arith, has_prefix-append s t)

has_suffix-append : (s t : Str) → has_suffix (s ++ t) t ≡ true
unfolding has_suffix
has_suffix-append [] [] = refl
has_suffix-append [] (c ∷ t) = ground arith
has_suffix-append (c ∷ s) t = ground (arith, has_suffix-append s t)

has_dead_of_mem :
    {V : Type 0} (id name : Str) (f : V) (l : List (Str × V))
    → has_prefix name (id ++ lit "-") ≡ true
    → has_suffix name (lit ".json") ≡ true
    → Memᴰ (name, f) l
    → has_dead id l ≡ true
unfolding has_dead
has_dead_of_mem id name f [] p s m = elim m [ ]
has_dead_of_mem id name f ((n, g) ∷ l) p s (Memᴰ.head e) =
    let same : name ≡ n = ap (λ z. z.0) e in rw (← same, p, s) refl
has_dead_of_mem id name f ((n, g) ∷ l) p s (Memᴰ.tail m) =
    ground (arith, has_dead_of_mem id name f l p s m)

dead_name-has_dead :
    (id : Str) (now : ℕ)
    → (has_prefix (dead_name id now) (id ++ lit "-") ≡ true)
      × (has_suffix (dead_name id now) (lit ".json") ≡ true)
unfolding dead_name
dead_name-has_dead id now = (
  subst (λ z. has_prefix z (id ++ lit "-") ≡ true) (append_assoc id (lit "-") rest)
      (has_prefix-append (id ++ lit "-") rest),
  subst (λ z. has_suffix z (lit ".json") ≡ true)
      (append_assoc (id ++ lit "-") (decimal now) (lit ".json") ∙ append_assoc id (lit "-") rest)
      (has_suffix-append ((id ++ lit "-") ++ decimal now) (lit ".json")),
)
  where
    rest : Str
    rest = decimal now ++ lit ".json"

module _ ⦃B : Bolt⦄ where
  open B use {get, put, delete, entries}

  -- Right after Enqueue returned nil, enqueueing the same receipt again, if it can inspect the
  -- completed and pending files, returns nil and changes nothing, whatever the time and the room left.
  pub enqueue_twice :
      (hash : Str → Str) (disk disk' : EnqueueDisk) (r : Receipt) (created next created' next' : ℕ)
      (o o' : Outbox)
      → IsReadable disk'
      → enqueue hash disk r created next o ≡ (none, o')
      → enqueue hash disk' r created' next' o' ≡ (none, o')
  unfolding enqueue write_pending
  enqueue_twice hash disk disk' r created next created' next' o o' ok first = ground (
    arith,
    get-put_self o.pending (file_name (receipt_envelope_id hash r))
        (json (new_envelope hash r created next)),
  )

  -- The delivery settles the receipt: it was taken, or refused for good.
  abbrev pub IsFinal : Reply → Type 0
  IsFinal accepted = Unit
  IsFinal (refused permanent message) = permanent ≡ true

  abbrev pub later_answer : Reply → Option OutboxError
  later_answer accepted = none
  later_answer (refused permanent message) = some already_dead

  buried_there :
      (now : ℕ) (name : Str) (e : Envelope) (o : Outbox)
      → has_dead e.id (entries (move_to_dead_letter (healthy_disk now) name e o).dead) ≡ true
  unfolding move_to_dead_letter
  buried_there now name e o =
      let buried : Envelope = record e { dead_lettered_at = some now } in
      let (p, s) = dead_name-has_dead e.id now in
      rw (get-put_self o.pending name (json buried), rename_to_dead)
        (has_dead_of_mem e.id (dead_name e.id now) (json buried)
          (entries (put o.dead (dead_name e.id now) (json buried))) p s
          (mem_of_get (put o.dead (dead_name e.id now) (json buried)) (dead_name e.id now)
            (json buried) (get-put_self o.dead (dead_name e.id now) (json buried))))

  bury-completed :
      (now : ℕ) (name : Str) (e : Envelope) (o : Outbox)
      → (move_to_dead_letter (healthy_disk now) name e o).completed ≡ o.completed
  unfolding move_to_dead_letter
  bury-completed now name e o =
      rw
        (
          get-put_self o.pending name (json (record e { dead_lettered_at = some now })),
          rename_to_dead,
        )
        refl

  bury-closing :
      (now : ℕ) (name : Str) (e : Envelope) (o : Outbox)
      → (move_to_dead_letter (healthy_disk now) name e o).closing ≡ o.closing
  unfolding move_to_dead_letter
  bury-closing now name e o =
      rw
        (
          get-put_self o.pending name (json (record e { dead_lettered_at = some now })),
          rename_to_dead,
        )
        refl

  enqueue_completed :
      (hash : Str → Str) (disk : EnqueueDisk) (r : Receipt) (created next : ℕ) (id : Str)
      (o : Outbox)
      → o.closing ≡ false
      → IsReadable disk
      → id ≡ receipt_envelope_id hash r
      → is_there (get o.completed (file_name id)) ≡ true
      → enqueue hash disk r created next o ≡ (none, o)
  unfolding enqueue
  enqueue_completed hash disk r created next id o open_yet ok is_id there =
      ground (arith, ap (λ i. is_there (get o.completed (file_name i))) (sym is_id) ∙ there)

  enqueue_dead :
      (hash : Str → Str) (disk : EnqueueDisk) (r : Receipt) (created next : ℕ) (id : Str)
      (o : Outbox)
      → o.closing ≡ false
      → IsReadable disk
      → id ≡ receipt_envelope_id hash r
      → is_there (get o.completed (file_name id)) ≡ false
      → has_dead id (entries o.dead) ≡ true
      → enqueue hash disk r created next o ≡ (some already_dead, o)
  unfolding enqueue
  enqueue_dead hash disk r created next id o open_yet ok is_id free dead = ground (
    arith,
    ap (λ i. is_there (get o.completed (file_name i))) (sym is_id) ∙ free,
    ap (λ i. has_dead i (entries o.dead)) (sym is_id) ∙ dead,
  )

  deliver_for_good :
      (config : OutboxConfig) (disk : DeliverDisk) (permanent : Bool) (message name : Str)
      (e : Envelope) (o : Outbox)
      → permanent ≡ true
      → deliver_envelope config disk (refused permanent message) name e o
        ≡ move_to_dead_letter disk name (failed_once e message) o
  unfolding deliver_envelope
  deliver_for_good config disk permanent message name e o final = rw final refl

  -- A pending receipt of an open outbox, where no name is both pending and completed, is not enqueued
  -- again after its delivery on a disk in order was taken or refused for good: the next enqueue, if it
  -- can inspect the completed and pending files, answers nil, or that it is a dead letter, and changes
  -- nothing.
  pub settled_once :
      (hash : Str → Str) (config : OutboxConfig) (now : ℕ) (reply : Reply) (e : Envelope)
      (o : Outbox) (disk : EnqueueDisk) (created next : ℕ)
      → IsApart o
      → o.closing ≡ false
      → e.id ≡ receipt_envelope_id hash e.receipt
      → get o.pending (file_name e.id) ≡ some (json e)
      → IsFinal reply
      → IsReadable disk
      → let o' = deliver_envelope config (healthy_disk now) reply (file_name e.id) e o in
        enqueue hash disk e.receipt created next o' ≡ (later_answer reply, o')
  settled_once hash config now accepted e o disk created next apart open_yet is_id here final ok =
      unfold deliver_envelope in
      rw (here, remove_pending)
        (enqueue_completed hash disk e.receipt created next e.id
          (moved_to_completed (file_name e.id) (json e) o) open_yet ok is_id
          (ap is_there (get-put_self o.completed (file_name e.id) (json e))))
  settled_once hash config now (refused permanent message) e o disk created next apart open_yet
        is_id here final ok =
      subst (λ (o' : Outbox). enqueue hash disk e.receipt created next o' ≡ (some already_dead, o'))
        (sym
          (deliver_for_good config (healthy_disk now) permanent message (file_name e.id) e o final))
        (enqueue_dead hash disk e.receipt created next e.id buried
          (bury-closing now (file_name e.id) failed o ∙ open_yet) ok is_id
          (ap is_there (
            ap (λ c. get c (file_name e.id)) (bury-completed now (file_name e.id) failed o)
            ∙ apart (file_name e.id) (json e) here))
          (buried_there now (file_name e.id) failed o))
    where
      failed : Envelope
      failed = failed_once e message

      buried : Outbox
      buried = move_to_dead_letter (healthy_disk now) (file_name e.id) failed o
