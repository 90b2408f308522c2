-- ===== src/Spool/Invariant/Moves.antt =====
-- The changes that operations make to the targets and the two indexes keep the indexes sound.
use notification_manager.Base.{
  ℕ, ◌+◌, ◌-◌, ◌≤◌, ◌≡◌, sym, ap, ◌∙◌, ◌⊎◌, inl, inr, true, false, none, some, Str, arith,
  Option-cases,
}
use notification_manager.Bolt.{Bolt}
use notification_manager.Bolt.Laws.{get-put, get-delete, count-put, count-delete, weight}
use notification_manager.Spool.Types.{pending, Target}
use notification_manager.Spool.Counter.{queue_key}
use notification_manager.Spool.Claim.{is_claimable}
use notification_manager.Spool.QueueKey.{queue_key-id}
use notification_manager.Spool.Invariant.{IsIndexed, IsTallied, is_active, BlockedAt}

module _ ⦃B : Bolt⦄ where
  open B use {Bucket, get, put, delete}

  module _ {targets : Bucket Target} {ready blocked : Bucket Str} where
    pub unblocked :
        (inv : IsIndexed targets ready blocked) (id : Str)
        → (get blocked id ≡ none) ⊎ BlockedAt (get targets id)
    unblocked inv id = elim (Option-cases (get blocked id)) [
      | inl e ↦ inl e
      | inr (x, e) ↦ inr (inv.blocked_sound id (e ∙ ap some (sym (inv.blocked_key id x e))))
    ]

    -- A stored target is replaced by one with the same identity.
    module _ (inv : IsIndexed targets ready blocked) (t t' : Target)
        (stored : get targets t.id ≡ some t) (same : t'.id ≡ t.id) where
      -- It leaves the queue.
      pub retire :
          is_claimable t'.state ≡ false
          → get ready (queue_key t) ≡ some t.id
          → IsIndexed (put targets t'.id t') (delete ready (queue_key t)) blocked
      retire idle first = record {
        keyed = λ id u h. ground (arith, get-put targets t'.id t' id, inv.keyed id u);
        ready_sound = λ k id h. ground (
          arith,
          get-put targets t'.id t' id,
          get-delete ready (queue_key t) k,
          inv.ready_sound k id,
        );
        blocked_key = λ k id h. inv.blocked_key k id h;
        blocked_sound = λ id h. ground (
          arith,
          get-put targets t'.id t' id,
          inv.blocked_sound id,
          inv.apart (queue_key t) t.id,
        );
        apart = λ k id h. ground (arith, get-delete ready (queue_key t) k, inv.apart k id);
        queued = λ id u h c. ground (
          arith,
          get-put targets t'.id t' id,
          get-delete ready (queue_key t) (queue_key u),
          inv.queued id u,
          inv.keyed id u,
          queue_key-id t u,
        );
      }

      -- It is in no index before and after.
      pub stay :
          is_claimable t.state ≡ false
          → is_claimable t'.state ≡ false
          → IsIndexed (put targets t'.id t') ready blocked
      stay busy idle = record {
        keyed = λ id u h. ground (arith, get-put targets t'.id t' id, inv.keyed id u);
        ready_sound = λ k id h. ground (arith, get-put targets t'.id t' id, inv.ready_sound k id);
        blocked_key = λ k id h. inv.blocked_key k id h;
        blocked_sound = λ id h. ground (arith, get-put targets t'.id t' id, inv.blocked_sound id);
        apart = λ k id h. inv.apart k id h;
        queued = λ id u h c. ground (arith, get-put targets t'.id t' id, inv.queued id u);
      }

      -- It comes back to the queue.
      pub requeue :
          is_claimable t.state ≡ false
          → is_claimable t'.state ≡ true
          → IsIndexed (put targets t'.id t') (put ready (queue_key t') t'.id) blocked
      requeue busy idle = record {
        keyed = λ id u h. ground (arith, get-put targets t'.id t' id, inv.keyed id u);
        ready_sound = λ k id h. ground (
          arith,
          get-put targets t'.id t' id,
          get-put ready (queue_key t') t'.id k,
          inv.ready_sound k id,
        );
        blocked_key = λ k id h. inv.blocked_key k id h;
        blocked_sound = λ id h. ground (arith, get-put targets t'.id t' id, inv.blocked_sound id);
        apart = λ k id h.
            ground (arith, get-put ready (queue_key t') t'.id k, inv.apart k id, unblocked inv id);
        queued = λ id u h c. ground (
          arith,
          get-put targets t'.id t' id,
          get-put ready (queue_key t') t'.id (queue_key u),
          inv.queued id u,
          inv.keyed id u,
          queue_key-id t' u,
        );
      }

      -- It moves from the blocked index to the queue.
      pub release :
          get blocked t.id ≡ some t.id
          → is_claimable t'.state ≡ true
          → IsIndexed (put targets t'.id t') (put ready (queue_key t') t'.id) (delete blocked t'.id)
      release waits idle = record {
        keyed = λ id u h. ground (arith, get-put targets t'.id t' id, inv.keyed id u);
        ready_sound = λ k id h. ground (
          arith,
          get-put targets t'.id t' id,
          get-put ready (queue_key t') t'.id k,
          inv.ready_sound k id,
          inv.apart k id,
        );
        blocked_key = λ k id h. ground (arith, get-delete blocked t'.id k, inv.blocked_key k id);
        blocked_sound = λ id h.
            ground (
              arith,
              get-put targets t'.id t' id,
              get-delete blocked t'.id id,
              inv.blocked_sound id,
            );
        apart = λ k id h. ground (
          arith,
          get-put ready (queue_key t') t'.id k,
          get-delete blocked t'.id id,
          inv.apart k id,
        );
        queued = λ id u h c. ground (
          arith,
          get-put targets t'.id t' id,
          get-put ready (queue_key t') t'.id (queue_key u),
          get-delete blocked t'.id id,
          inv.queued id u,
          inv.keyed id u,
          queue_key-id t' u,
        );
      }

      -- It is removed.
      pub drop :
          is_claimable t.state ≡ false
          → IsIndexed (delete targets t.id) (delete ready (queue_key t)) (delete blocked t.id)
      drop busy = record {
        keyed = λ id u h. ground (arith, get-delete targets t.id id, inv.keyed id u);
        ready_sound = λ k id h. ground (
          arith,
          get-delete targets t.id id,
          get-delete ready (queue_key t) k,
          inv.ready_sound k id,
        );
        blocked_key = λ k id h. ground (arith, get-delete blocked t.id k, inv.blocked_key k id);
        blocked_sound = λ id h.
            ground
              (arith, get-delete targets t.id id, get-delete blocked t.id id, inv.blocked_sound id);
        apart = λ k id h.
            ground
              (arith, get-delete ready (queue_key t) k, get-delete blocked t.id id, inv.apart k id);
        queued = λ id u h c. ground (
          arith,
          get-delete targets t.id id,
          get-delete ready (queue_key t) (queue_key u),
          get-delete blocked t.id id,
          inv.queued id u,
          inv.keyed id u,
          queue_key-id t u,
        );
      }

    -- A target under a new identity.
    module _ (inv : IsIndexed targets ready blocked) (t : Target) (fresh : get targets t.id ≡ none)
        (open_state : t.state ≡ pending) where
      pub insert_ready : IsIndexed (put targets t.id t) (put ready (queue_key t) t.id) blocked
      insert_ready = record {
        keyed = λ id u h. ground (arith, get-put targets t.id t id, inv.keyed id u);
        ready_sound = λ k id h. ground (
          arith,
          get-put targets t.id t id,
          get-put ready (queue_key t) t.id k,
          inv.ready_sound k id,
        );
        blocked_key = λ k id h. inv.blocked_key k id h;
        blocked_sound = λ id h. ground (arith, get-put targets t.id t id, inv.blocked_sound id);
        apart = λ k id h.
            ground (arith, get-put ready (queue_key t) t.id k, inv.apart k id, unblocked inv id);
        queued = λ id u h c. ground (
          arith,
          get-put targets t.id t id,
          get-put ready (queue_key t) t.id (queue_key u),
          inv.queued id u,
          inv.keyed id u,
          queue_key-id t u,
        );
      }

      pub insert_blocked : IsIndexed (put targets t.id t) ready (put blocked t.id t.id)
      insert_blocked = record {
        keyed = λ id u h. ground (arith, get-put targets t.id t id, inv.keyed id u);
        ready_sound = λ k id h. ground (arith, get-put targets t.id t id, inv.ready_sound k id);
        blocked_key = λ k id h. ground (arith, get-put blocked t.id t.id k, inv.blocked_key k id);
        blocked_sound = λ id h.
            ground (
              arith,
              get-put targets t.id t id,
              get-put blocked t.id t.id id,
              inv.blocked_sound id,
            );
        apart = λ k id h.
            ground (arith, get-put blocked t.id t.id id, inv.apart k id, inv.ready_sound k id);
        queued = λ id u h c.
            ground
              (arith, get-put targets t.id t id, get-put blocked t.id t.id id, inv.queued id u);
      }

-- The counter under the same changes.
module _ ⦃B : Bolt⦄ where
  open B use {Bucket, get, put, delete, entries}

  module _ {targets : Bucket Target} {n : ℕ} (inv : IsTallied targets n) where
    pub tally_same :
        (id : Str) (t : Target)
        → weight is_active (get targets id) ≡ weight is_active (some t)
        → IsTallied (put targets id t) n
    tally_same id t h = record {
      counted = omega (arith, count-put is_active targets id t, inv.counted);
      bounded = inv.bounded;
    }

    pub tally_less :
        (id : Str) (t : Target)
        → weight is_active (get targets id) ≡ weight is_active (some t) + 1
        → IsTallied (put targets id t) (n - 1)
    tally_less id t h = record {
      counted = omega (arith, count-put is_active targets id t, inv.counted);
      bounded = omega (arith, inv.bounded);
    }

    pub tally_more :
        (id : Str) (t : Target)
        → weight is_active (get targets id) + 1 ≡ weight is_active (some t)
        → n + 1 ≤ 9223372036854775807
        → IsTallied (put targets id t) (n + 1)
    tally_more id t h le = record {
      counted = omega (arith, count-put is_active targets id t, inv.counted);
      bounded = le;
    }

    pub tally_drop :
        (id : Str) → weight is_active (get targets id) ≡ 0 → IsTallied (delete targets id) n
    tally_drop id h = record {
      counted = omega (arith, count-delete is_active targets id, inv.counted);
      bounded = inv.bounded;
    }
