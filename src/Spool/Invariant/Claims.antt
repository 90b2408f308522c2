-- ===== src/Spool/Invariant/Claims.antt =====
-- Claim and ClaimForRecovery keep the database sound.
use mathlib.Core.List.{Memᴰ}
use notification_manager.Base.{
  ℕ, ◌≡◌, refl, subst, sym, ap, inl, inr, true, false, none, some, List, [], ◌∷◌, Str, arith,
  Option-cases, Bool-cases, ltb,
}
use notification_manager.Bolt.{Bolt}
use notification_manager.Bolt.Laws.{get_of_mem}
use notification_manager.Spool.Types.{sending, Target, Claim, Env, Db, ok}
use notification_manager.Spool.Outcome.{Result-cases}
use notification_manager.Spool.Counter.{queue_key, active_state}
use notification_manager.Spool.Profiles.{profile_delivery_paused}
use notification_manager.Spool.Claim.{
  is_claimable, decode_into, scan, claim, blank, attempted, claim_of,
}
use notification_manager.Spool.Invariant.{IsIndexed, IsTallied, IsSound, ReadyAt}
use notification_manager.Spool.Invariant.Moves.{retire, tally_same}

module _ ⦃B : Bolt⦄ where
  open B use {get, put, delete, entries}

  -- What the loop of Claim finds: the place of a stored target that is due and not paused, decoded
  -- into some earlier record.
  pub record Found (db : Db) (now : ℕ) (l : List (Str × Str)) (k : Str) (t : Target) : Type 0 where
    pub id : Str
    pub stored : Target
    pub carried : Target
    pub listed : Memᴰ (k, id) l
    pub held : get db.targets id ≡ some stored
    pub decoded : t ≡ decode_into carried stored
    pub due : ltb now stored.available_at ≡ false
    pub admitted : profile_delivery_paused db t ≡ ok false

  pub scan-Found :
      (db : Db) (now : ℕ) (t : Target) (l : List (Str × Str)) (k : Str) (t' : Target)
      → scan db now t l ≡ ok (some (k, t'))
      → Found db now l k t'
  unfolding scan decode_into
  scan-Found db now t [] k t' h = cc
  scan-Found db now t ((key, id) ∷ rest) k t' h = elim (Option-cases (get db.targets id)) [
    | inl e ↦ absurd (ground arith)
    | inr (s, e) ↦ elim (Bool-cases (ltb now s.available_at)) [
      | inl late ↦ absurd (ground arith)
      | inr due ↦ elim (Result-cases (profile_delivery_paused db (decode_into t s))) [
        | inr (x, bad) ↦ absurd (ground arith)
        | inl (true, skip) ↦
            let f = scan-Found db now (decode_into t s) rest k t' (ground arith) in
            record {
              id = f.id;
              stored = f.stored;
              carried = f.carried;
              listed = Memᴰ.tail f.listed;
              held = f.held;
              decoded = f.decoded;
              due = f.due;
              admitted = f.admitted;
            }
        | inl (false, free) ↦ record {
          id = id;
          stored = s;
          carried = t;
          listed = Memᴰ.head (ground arith);
          held = e;
          decoded = ground arith;
          due = due;
          admitted = ground arith;
        }
      ]
    ]
  ]

  -- A successful claim, step by step.
  pub record Claimed (env : Env) (owner : Str) (now : ℕ) (db : Db) (c : Claim) (db' : Db)
      : Type 0 where
    pub key : Str
    pub target : Target
    pub attempt : Str
    pub found : Found db now (entries db.ready) key target
    pub claimable : is_claimable target.state ≡ true
    pub drawn : env.random 0 ≡ some attempt
    pub claim_is : c ≡ claim_of (attempted target owner attempt now) owner attempt
    pub db_is : db' ≡ record db {
      targets = put db.targets target.id (attempted target owner attempt now);
      ready = delete db.ready key;
    }

  pub claim-Claimed :
      (env : Env) (owner : Str) (now : ℕ) (db : Db) (c : Claim) (db' : Db)
      → claim env owner now db ≡ ok (c, db')
      → Claimed env owner now db c db'
  unfolding claim attempted
  claim-Claimed env owner now db c db' h =
      elim (Result-cases (scan db now blank (entries db.ready))) [
        | inr (x, bad) ↦ absurd (ground arith)
        | inl (none, e) ↦ absurd (ground arith)
        | inl (some (k, t), e) ↦ elim (Option-cases (env.random 0)) [
          | inl n ↦ absurd (ground arith)
          | inr (a, r) ↦ record {
            key = k;
            target = t;
            attempt = a;
            found = scan-Found db now blank (entries db.ready) k t e;
            claimable = ground arith;
            drawn = r;
            claim_is = ground arith;
            db_is = ground arith;
          }
        ]
      ]

  -- A target that leaves the queue for an attempt.
  pub attempt-IsSound :
      (db : Db) (t sent : Target)
      → IsSound db
      → get db.targets t.id ≡ some t
      → sent.id ≡ t.id
      → sent.state ≡ sending
      → is_claimable t.state ≡ true
      → get db.ready (queue_key t) ≡ some t.id
      → IsIndexed (put db.targets sent.id sent) (delete db.ready (queue_key t)) db.blocked
        × IsTallied (put db.targets sent.id sent) db.active_targets
  unfolding active_state
  attempt-IsSound db t sent (ix, tally) held same busy claimable place = (
    retire ix t sent held same (ground arith) place,
    tally_same tally sent.id sent (ground arith),
  )

  pub claim-IsSound :
      (env : Env) (owner : Str) (now : ℕ) (db : Db) (c : Claim) (db' : Db)
      → IsSound db
      → claim env owner now db ≡ ok (c, db')
      → IsSound db'
  unfolding attempted decode_into
  claim-IsSound env owner now db c db' (ix, tally) h = subst IsSound (sym out.db_is) (
      rw at_key.0 (
        attempt-IsSound db found.stored sent (ix, tally) (rw id_is found.held)
          (ap (λ u. u.id) found.decoded) refl at_key.1 (rw (← at_key.0, id_is) place)))
    where
      out : Claimed env owner now db c db'
      out = claim-Claimed env owner now db c db' h

      open out use {found}

      sent : Target
      sent = attempted out.target owner out.attempt now

      id_is : found.stored.id ≡ found.id
      id_is = ix.keyed found.id found.stored found.held

      place : get db.ready out.key ≡ some found.id
      place = get_of_mem db.ready out.key found.id found.listed

      at_key : ReadyAt out.key (some found.stored)
      at_key = subst (ReadyAt out.key) found.held (ix.ready_sound out.key found.id place)
