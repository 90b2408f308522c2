-- ===== src/Outbox/Examples.antt =====
-- Instances of the theorems on the outbox, on directories that are sorted lists.
use notification_manager.Base.{
  inl, ◌≤◌, ◌≡◌, refl, true, false, none, some, [], ◌∷◌, Str, lit, arith, dec_str, str_lt,
  replicate, ◌==◌, if◌then◌else◌,
}
use notification_manager.Bolt.{lookup, upsert}
use notification_manager.Bolt.Listed.{listed}
use notification_manager.Outbox.Envelope.{
  Receipt, Envelope, json, receipt_envelope_id, file_name, read_envelope, has_suffix,
}
use notification_manager.Outbox.Disk.{completes, fails_after, Outbox}
use notification_manager.Outbox.Enqueue.{already_dead, EnqueueDisk, enqueue, new_envelope}
use notification_manager.Outbox.Deliver.{
  OutboxConfig, refused, DeliverDisk, deliver_envelope, retry_delay,
}
use notification_manager.Outbox.Scan.{Quarantine, takes, next_envelope}
use notification_manager.Outbox.Backoff.{min, retry_delay-eq-min}
use notification_manager.Outbox.Places.{Accounted, IsApart}
use notification_manager.Outbox.Runs.{delivers, here, next, accepted-Accounted}
use notification_manager.Outbox.Ends.{healthy_disk, deliveries, deliveries-none}
use notification_manager.Outbox.Twice.{later_answer, enqueue_twice, settled_once}
use notification_manager.Outbox.Post.{
  Scope, service, no_services, status, Posts, post_delivery_receipt,
}
use notification_manager.Outbox.Foreign.{foreign_once}
use notification_manager.Outbox.Choice.{ComesFirst, next_envelope-least}

abbrev pub digest : Str → Str
digest s = replicate 64 b'a'

abbrev pub first_receipt : Receipt
first_receipt = record {
  profile_id = [];
  profile_version = [];
  card_owner_id = [];
  execution_domain = [];
  sender_app = [];
  delivery_id = lit "d";
  message_id = lit "m";
  observation = none;
  content = [];
}

abbrev pub first_name : Str
first_name = file_name (digest [])

abbrev pub first_envelope : Envelope
first_envelope = new_envelope digest first_receipt 5 5

abbrev pub config : OutboxConfig
config = record { max_attempts = 2; retry_min = 10; retry_max = 25 }

abbrev pub enqueue_disk : EnqueueDisk
enqueue_disk = record {
  completed_unreadable = false;
  pending_unreadable = false;
  directory_unreadable = false;
  statfs = some (1000000, 4096);
  write = completes;
}

-- The disk fails while a refused receipt is kept for later.
abbrev pub failing_disk : DeliverDisk
failing_disk = record {
  completion = completes;
  dead_write = completes;
  dead_move = completes;
  retry_write = fails_after;
  now = 7;
}

abbrev pub nothing_yet : Outbox
nothing_yet = record {
  pending = listed.empty;
  dead = listed.empty;
  completed = listed.empty;
  closing = false;
}

abbrev pub one_pending : Outbox
one_pending = record nothing_yet {
  pending = listed.put listed.empty first_name (json first_envelope);
}

abbrev pub quiet : Quarantine
quiet = record { move = λ s. completes; at = λ s. 7; note = λ s. some (lit "corrupt") }

first_enqueue : enqueue digest enqueue_disk first_receipt 5 5 nothing_yet ≡ (none, one_pending)
unfolding enqueue lookup
first_enqueue = refl

first_read : read_envelope digest (listed.get one_pending.pending first_name) ≡ some first_envelope
unfolding read_envelope lookup upsert dec_str file_name
first_read = refl

nothing_yet-IsApart : IsApart nothing_yet
unfolding lookup
nothing_yet-IsApart name f h = refl

one_pending-IsApart : IsApart one_pending
unfolding lookup
one_pending-IsApart name f h = refl

retry_delay-eq-min_example : retry_delay config 3 ≡ min 40 25
retry_delay-eq-min_example = retry_delay-eq-min config 3

abbrev pub after_refusal : Outbox
after_refusal =
    deliver_envelope config failing_disk (refused false (lit "busy")) first_name first_envelope
      one_pending

accepted-Accounted_example : Accounted after_refusal first_receipt
unfolding lookup deliver_envelope
accepted-Accounted_example =
    accepted-Accounted digest config enqueue_disk first_receipt 5 5 nothing_yet one_pending
      after_refusal nothing_yet-IsApart refl refl first_enqueue
      (next here (
        delivers failing_disk (refused false (lit "busy")) first_name first_envelope first_read refl
          refl))

deliveries-none_example :
    listed.get
      (deliveries digest config first_name
        ((refused false (lit "busy"), 7) ∷ (refused false (lit "busy"), 17) ∷ [])
        one_pending).pending
      first_name
    ≡ none
deliveries-none_example =
    deliveries-none digest config first_name
      ((refused false (lit "busy"), 7) ∷ (refused false (lit "busy"), 17) ∷ []) first_envelope
      one_pending first_read (omega arith) (omega arith)

enqueue_twice_example :
    enqueue digest enqueue_disk first_receipt 9 9 one_pending ≡ (none, one_pending)
enqueue_twice_example =
    enqueue_twice digest enqueue_disk enqueue_disk first_receipt 5 5 9 9 nothing_yet one_pending
      (refl, refl) first_enqueue

settled_once_example :
    let o' =
      deliver_envelope config
        (healthy_disk 7)
        (refused true (lit "gone"))
        first_name
        first_envelope
        one_pending in
    enqueue digest enqueue_disk first_receipt 9 9 o'
    ≡ (later_answer (refused true (lit "gone")), o')
unfolding lookup upsert dec_str file_name receipt_envelope_id
settled_once_example =
    settled_once digest config 7 (refused true (lit "gone")) first_envelope one_pending enqueue_disk
      9 9 one_pending-IsApart refl refl refl refl (refl, refl)

abbrev pub digest_of : Str → Str
digest_of [] = []
digest_of (c ∷ s) = replicate 64 (if c == b'd' then b'a' else b'b')

abbrev pub second_receipt : Receipt
second_receipt = record first_receipt { delivery_id = lit "e" }

-- It was created earlier than the first receipt, and is due later.
abbrev pub second_envelope : Envelope
second_envelope = new_envelope digest_of second_receipt 3 6

abbrev pub second_name : Str
second_name = file_name second_envelope.id

abbrev pub two_pending : Outbox
two_pending = record nothing_yet {
  pending =
      listed.put (listed.put listed.empty first_name (json first_envelope)) second_name
        (json second_envelope);
}

first_of_two :
    next_envelope digest_of false quiet 7 two_pending
    ≡ (takes first_name first_envelope, two_pending)
unfolding next_envelope upsert file_name dec_str lookup receipt_envelope_id str_lt
first_of_two = refl

second_read :
    read_envelope digest_of (listed.get two_pending.pending second_name) ≡ some second_envelope
unfolding read_envelope lookup upsert dec_str file_name receipt_envelope_id str_lt
second_read = refl

next_envelope-least_example :
    (first_envelope.next_attempt_at ≤ 7) × ComesFirst first_envelope second_envelope
unfolding has_suffix file_name dec_str lookup upsert receipt_envelope_id str_lt
next_envelope-least_example =
    next_envelope-least digest_of quiet 7 two_pending two_pending first_name second_name
      (json second_envelope) first_envelope second_envelope first_of_two refl json_name second_read
  where
    json_name : has_suffix second_name (lit ".json") ≡ true
    json_name = refl

abbrev pub scoped_receipt : Receipt
scoped_receipt = record first_receipt { profile_id = lit "p" }

abbrev pub scoped_envelope : Envelope
scoped_envelope = new_envelope digest scoped_receipt 5 5

abbrev pub scoped_pending : Outbox
scoped_pending = record nothing_yet {
  pending = listed.put listed.empty first_name (json scoped_envelope);
}

abbrev pub other_scope : Scope
other_scope = record {
  expected_profile_id = lit "q";
  expected_profile_version = [];
  card_owner_id = [];
  execution_domain = [];
  sender_app = [];
}

abbrev pub posts : Posts
posts = record { observation_post = status 200; receipt_post = status 200 }

foreign_once_example :
    let delivery = post_delivery_receipt (service other_scope no_services) scoped_receipt posts in
    let o' =
      deliver_envelope config
        (healthy_disk 7)
        delivery.1
        first_name
        scoped_envelope
        scoped_pending in
    (delivery.0 ≡ [])
    × (enqueue digest enqueue_disk scoped_receipt 9 9 o' ≡ (some already_dead, o'))
unfolding lookup upsert dec_str file_name receipt_envelope_id
foreign_once_example =
    foreign_once digest config 7 other_scope no_services posts scoped_envelope scoped_pending
      enqueue_disk 9 9 (λ name f h. refl) refl refl refl (refl, refl) refl refl
      (inl (λ e. ground arith))
