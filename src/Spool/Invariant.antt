-- ===== src/Spool/Invariant.antt =====
-- The invariant of the spool's database.
pub mod Moves
pub mod Claims
pub mod Recovery
pub mod Release
pub mod Settle
pub mod Resolve
pub mod Cleanup
pub mod Submit
pub mod Takeover
pub mod Profiles
use notification_manager.Base.{
  ℕ, suc, ◌+◌, ◌≤◌, ◌<◌, ◌≡◌, refl, sym, ◌⊎◌, inl, inr, Bool, true, false, Option, none, some, List,
  [], ◌∷◌, Str, arith, dec_str, ite,
}
use mathlib.Core.Path.{subst₂, subst₃}
use notification_manager.Bolt.{Bolt}
use notification_manager.Bolt.Laws.{count, weight, get-put, get-delete, count-put, count-delete}
use notification_manager.Spool.Types.{State, pending, Target, Db}
use notification_manager.Spool.Counter.{active_state, queue_key}
use notification_manager.Spool.Claim.{is_claimable}
use notification_manager.Spool.QueueKey.{queue_key-id}

abbrev pub is_active : Target → Bool
is_active t = active_state t.state

-- An entry of the ready index stands under the key of a stored target that may be claimed.
abbrev pub ReadyAt : Str → Option Target → Type 0
ReadyAt k none = ⊥
ReadyAt k (some t) = (k ≡ queue_key t) × (is_claimable t.state ≡ true)

-- An entry of the blocked index is that of a stored pending target.
abbrev pub BlockedAt : Option Target → Type 0
BlockedAt none = ⊥
BlockedAt (some t) = t.state ≡ pending

module _ ⦃B : Bolt⦄ where
  open B use {Bucket, get, entries}

  pub record IsIndexed (targets : Bucket Target) (ready blocked : Bucket Str) : Type 0 where
    pub keyed : (id : Str) (t : Target) → get targets id ≡ some t → t.id ≡ id
    pub ready_sound : (k id : Str) → get ready k ≡ some id → ReadyAt k (get targets id)
    pub blocked_key : (k id : Str) → get blocked k ≡ some id → k ≡ id
    pub blocked_sound : (id : Str) → get blocked id ≡ some id → BlockedAt (get targets id)
    pub apart : (k id : Str) → get ready k ≡ some id → get blocked id ≡ none
    pub queued :
        (id : Str) (t : Target)
        → get targets id ≡ some t
        → is_claimable t.state ≡ true
        → (get ready (queue_key t) ≡ some id) ⊎ (get blocked id ≡ some id)

  -- The counter is the number of active targets, and an int64 holds it.
  pub record IsTallied (targets : Bucket Target) (active : ℕ) : Type 0 where
    pub counted : active ≡ count is_active (entries targets)
    pub bounded : active ≤ 9223372036854775807

  abbrev pub IsSound : Db → Type 0
  IsSound db = IsIndexed db.targets db.ready db.blocked × IsTallied db.targets db.active_targets

  -- The invariant is about the targets, the two indexes and the counter only.
  pub IsSound-same :
      (db db' : Db)
      → IsSound db
      → db'.targets ≡ db.targets
      → db'.ready ≡ db.ready
      → db'.blocked ≡ db.blocked
      → db'.active_targets ≡ db.active_targets
      → IsSound db'
  IsSound-same db db' (ix, tally) t r b n =
      (subst₃ IsIndexed (sym t) (sym r) (sym b) ix, subst₂ IsTallied (sym t) (sym n) tally)
