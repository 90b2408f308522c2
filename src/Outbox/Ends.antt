-- ===== src/Outbox/Ends.antt =====
-- A receipt leaves the pending directory after a bounded number of deliveries.
use notification_manager.Base.{
  ℕ, ◌+◌, ◌≤◌, ◌<◌, ◌≡◌, ◌⊎◌, inl, inr, refl, ap, ◌∙◌, Bool, true, false, Option, none, some, List,
  [], ◌∷◌, Str, arith, Bool-cases, leb, ◌||◌, length,
}
use notification_manager.Bolt.{Bolt}
use notification_manager.Bolt.Laws.{get-delete, get-put_self}
use notification_manager.Outbox.Envelope.{
  Envelope, File, json, other, read_envelope, validate_envelope,
}
use notification_manager.Outbox.Disk.{
  completes, Outbox, write_pending, remove_pending, rename_to_dead,
}
use notification_manager.Outbox.Deliver.{
  OutboxConfig, Reply, accepted, refused, DeliverDisk, failed_once, move_to_dead_letter,
  deliver_envelope, retry_delay,
}
use notification_manager.Outbox.Runs.{read_envelope-json}

abbrev pub healthy_disk : ℕ → DeliverDisk
healthy_disk now = record {
  completion = completes;
  dead_write = completes;
  dead_move = completes;
  retry_write = completes;
  now = now;
}

module _ ⦃B : Bolt⦄ where
  open B use {Bucket, get, put, delete}

  -- The deliveries of one name, each with its reply and its time, for as long as it can be read.
  unfoldable pub deliveries : (Str → Str) → OutboxConfig → Str → List (Reply × ℕ) → Outbox → Outbox
  deliveries hash config name [] o = o
  deliveries hash config name ((reply, now) ∷ rest) o =
      elim (read_envelope hash (get o.pending name)) [
        | none ↦ o
        | some e ↦
            deliveries hash config name rest
              (deliver_envelope config (healthy_disk now) reply name e o)
      ]

  read_valid :
      (hash : Str → Str) (x : Option File) (e : Envelope)
      → read_envelope hash x ≡ some e
      → validate_envelope hash e ≡ true
  unfolding read_envelope
  read_valid hash none e h = cc
  read_valid hash (some (other s)) e h = cc
  read_valid hash (some (json e')) e h = ground arith

  read_none : (hash : Str → Str) (x : Option File) → x ≡ none → read_envelope hash x ≡ none
  unfolding read_envelope
  read_none hash x e = rw e refl

  get-delete_self : (b : Bucket File) (k : Str) → get (delete b k) k ≡ none
  get-delete_self b k = ground (arith, get-delete b k k)

  deliver_accepted :
      (config : OutboxConfig) (now : ℕ) (name : Str) (e : Envelope) (o : Outbox)
      → get o.pending name ≡ some (json e)
      → get (deliver_envelope config (healthy_disk now) accepted name e o).pending name ≡ none
  unfolding deliver_envelope
  deliver_accepted config now name e o here =
      rw (here, remove_pending) (get-delete_self o.pending name)

  bury_healthy :
      (now : ℕ) (name : Str) (e : Envelope) (o : Outbox)
      → get (move_to_dead_letter (healthy_disk now) name e o).pending name ≡ none
  unfolding move_to_dead_letter
  bury_healthy now name e o =
      let buried : Envelope = record e { dead_lettered_at = some now } in
      rw (get-put_self o.pending name (json buried), rename_to_dead)
        (get-delete_self (put o.pending name (json buried)) name)

  delayed : OutboxConfig → ℕ → Str → Envelope → Envelope
  delayed config now message e = record (failed_once e message) {
    next_attempt_at = now + retry_delay config (e.attempts + 1);
  }

  delayed_valid :
      (hash : Str → Str) (config : OutboxConfig) (now : ℕ) (message : Str) (e : Envelope)
      → validate_envelope hash e ≡ true
      → read_envelope hash (some (json (delayed config now message e)))
        ≡ some (delayed config now message e)
  unfolding read_envelope delayed
  delayed_valid hash config now message e h = rw h refl

  delayed_there :
      (hash : Str → Str) (config : OutboxConfig) (now : ℕ) (permanent : Bool) (message name : Str)
      (e : Envelope) (o : Outbox)
      → validate_envelope hash e ≡ true
      → (permanent || leb config.max_attempts (e.attempts + 1)) ≡ false
      → read_envelope hash (
          get
            (deliver_envelope config
              (healthy_disk now)
              (refused permanent message)
              name
              e
              o).pending
            name)
        ≡ some (delayed config now message e)
  unfolding deliver_envelope write_pending delayed
  delayed_there hash config now permanent message name e o valid again = rw again (
      ap (read_envelope hash) (get-put_self o.pending name (json (delayed config now message e)))
      ∙ delayed_valid hash config now message e valid)

  deliver_cases :
      (hash : Str → Str) (config : OutboxConfig) (now : ℕ) (reply : Reply) (name : Str)
      (e : Envelope) (o : Outbox)
      → read_envelope hash (get o.pending name) ≡ some e
      → let o' = deliver_envelope config (healthy_disk now) reply name e o in
        (get o'.pending name ≡ none)
        ⊎ ((e' : Envelope) × (read_envelope hash (get o'.pending name) ≡ some e')
            × (e'.attempts ≡ e.attempts + 1)
            × (e'.attempts < config.max_attempts))
  deliver_cases hash config now accepted name e o found =
      inl (
        deliver_accepted config now name e o (read_envelope-json hash (get o.pending name) e found))
  deliver_cases hash config now (refused permanent message) name e o found =
      elim (Bool-cases (permanent || leb config.max_attempts (e.attempts + 1))) [
        | inl over ↦
            inl
              (unfold deliver_envelope in rw over (bury_healthy now name (failed_once e message) o))
        | inr again ↦ inr (
          delayed config now message e,
          delayed_there hash config now permanent message name e o
              (read_valid hash (get o.pending name) e found) again,
          unfold delayed in refl,
          unfold delayed in ground (arith, again),
        )
      ]

  -- On a healthy disk a receipt is delivered at most max_attempts times: after as many deliveries as
  -- it has attempts left, and at least one, its name is pending no longer.
  pub deliveries-none :
      (hash : Str → Str) (config : OutboxConfig) (name : Str) (replies : List (Reply × ℕ))
      (e : Envelope) (o : Outbox)
      → read_envelope hash (get o.pending name) ≡ some e
      → 0 < length replies
      → config.max_attempts ≤ e.attempts + length replies
      → get (deliveries hash config name replies o).pending name ≡ none
  unfolding deliveries
  deliveries-none hash config name [] e o found some_reply enough = absurd (omega arith)
  deliveries-none hash config name ((reply, now) ∷ rest) e o found some_reply enough =
      rw (found, deliveries)
        (elim (deliver_cases hash config now reply name e o found) [
          | inl gone ↦ stops rest (deliver_envelope config (healthy_disk now) reply name e o) gone
          | inr (e', again, more, left) ↦
              deliveries-none hash config name rest e'
                (deliver_envelope config (healthy_disk now) reply name e o) again (omega arith)
                (omega arith)
        ])
    where
      stops :
          (l : List (Reply × ℕ)) (o' : Outbox)
          → get o'.pending name ≡ none
          → get (deliveries hash config name l o').pending name ≡ none
      stops [] o' gone = gone
      stops ((reply', now') ∷ l) o' gone =
          rw (read_none hash (get o'.pending name) gone, deliveries) gone
