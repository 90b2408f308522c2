-- ===== src/Spool/Invariant/Settle.antt =====
-- Finish and Resolve keep the database sound.
use notification_manager.Base.{
  ℕ, ◌-◌, ◌≡◌, refl, subst, inl, inr, true, false, some, Str, arith, Option-cases, Bool-cases,
  if◌then◌else◌,
}
use notification_manager.Bolt.{Bolt}
use notification_manager.Spool.Types.{
  State, sending, delivered, retryable, unknown, dead_letter, Target, Claim, Env, Db, ok,
}
use notification_manager.Spool.Outcome.{Result-cases}
use notification_manager.Spool.Counter.{queue_key, active_state, lower_active_count}
use notification_manager.Spool.Claim.{is_claimable}
use notification_manager.Spool.Finish.{is_completion, settle, moved_to, available_from, finish}
use notification_manager.Spool.Invariant.{IsIndexed, IsTallied, IsSound, is_active}
use notification_manager.Spool.Invariant.Moves.{stay, requeue, tally_same, tally_less}
use notification_manager.Spool.Invariant.Release.{release_dependents-IsSound}

module _ ⦃B : Bolt⦄ where
  open B use {get, put, delete, entries}

  abbrev pub put_back : Db → Target → Db
  put_back db t = record db { targets = put db.targets t.id t }

  abbrev pub queue_again : Db → Target → Db
  queue_again db t = record db {
    targets = put db.targets t.id t;
    ready = put db.ready (queue_key t) t.id;
  }

  -- The record `t` takes the place of `s`, and the counter is already that of the result.
  settle-IsSound :
      (clock : ℕ → ℕ) (i : ℕ) (s t : Target) (state : State) (db db' : Db)
      → t.state ≡ state
      → IsIndexed db.targets db.ready db.blocked
      → get db.targets s.id ≡ some s
      → t.id ≡ s.id
      → is_claimable s.state ≡ false
      → is_completion state ≡ true
      → IsTallied (put db.targets t.id t) db.active_targets
      → settle clock i t db ≡ ok db'
      → IsSound db'
  unfolding settle
  settle-IsSound clock i s t delivered db db' at ix held same busy done tally h =
      release_dependents-IsSound clock i t (record db { targets = put db.targets t.id t }) db'
        (stay ix s t held same busy (ground arith), tally) (ground arith)
  settle-IsSound clock i s t retryable db db' at ix held same busy done tally h =
      subst IsSound {x = queue_again db t} {y = db'} (ground arith)
        (requeue ix s t held same busy (ground arith), tally)
  settle-IsSound clock i s t unknown db db' at ix held same busy done tally h =
      subst IsSound {x = put_back db t} {y = db'} (ground arith)
        (stay ix s t held same busy (ground arith), tally)
  settle-IsSound clock i s t dead_letter db db' at ix held same busy done tally h =
      subst IsSound {x = put_back db t} {y = db'} (ground arith)
        (stay ix s t held same busy (ground arith), tally)
  settle-IsSound clock i s t _ db db' at ix held same busy done tally h = cc

  -- A successful completion, step by step.
  pub record Finished (env : Env) (owner : Str) (c : Claim) (state : State) (outcome evidence : Str)
      (next : ℕ) (db db' : Db) : Type 0 where
    pub target : Target
    pub counted : Db
    pub legal : is_completion state ≡ true
    pub held : get db.targets c.target.id ≡ some target
    pub was_sending : target.state ≡ sending
    pub owned : target.owner ≡ owner
    pub same_owner : c.owner ≡ owner
    pub same_attempt : target.attempt_id ≡ c.attempt_id
    pub counts : (if active_state state then ok db else lower_active_count db 1) ≡ ok counted
    pub settled :
        settle env.clock 1
          (available_from state next (moved_to target state outcome evidence (env.clock 0)))
          counted
        ≡ ok db'

  pub finish-Finished :
      (env : Env) (owner : Str) (c : Claim) (state : State) (outcome evidence : Str) (next : ℕ)
      (db db' : Db)
      → finish env owner c state outcome evidence next db ≡ ok db'
      → Finished env owner c state outcome evidence next db db'
  unfolding finish
  finish-Finished env owner c state outcome evidence next db db' h =
      elim (Option-cases (get db.targets c.target.id)) [
        | inl e ↦ absurd (ground arith)
        | inr (t, e) ↦
            elim (Result-cases (if active_state state then ok db else lower_active_count db 1)) [
              | inr (x, bad) ↦ absurd (ground arith)
              | inl (counted, n) ↦ record {
                target = t;
                counted = counted;
                legal = ground arith;
                held = e;
                was_sending = ground arith;
                owned = ground arith;
                same_owner = ground arith;
                same_attempt = ground arith;
                counts = n;
                settled = ground arith;
              }
            ]
      ]

  pub available_from_keeps :
      (state : State) (next : ℕ) (t : Target)
      → ((available_from state next t).id ≡ t.id) × ((available_from state next t).state ≡ t.state)
  available_from_keeps retryable next t = (refl, refl)
  available_from_keeps _ next t = (refl, refl)

  -- The indexes hold before the record `t` takes the place of `s`, and the counter holds after it.
  abbrev pub Prepared : Target → Target → Db → Type 0
  Prepared s t d =
      IsIndexed d.targets d.ready d.blocked
      × (get d.targets s.id ≡ some s)
      × IsTallied (put d.targets t.id t) d.active_targets

  pub settle-Prepared :
      (clock : ℕ → ℕ) (i : ℕ) (s t : Target) (state : State) (db db' : Db)
      → Prepared s t db
      → t.state ≡ state
      → t.id ≡ s.id
      → is_claimable s.state ≡ false
      → is_completion state ≡ true
      → settle clock i t db ≡ ok db'
      → IsSound db'
  settle-Prepared clock i s t state db db' (ix, held, tally) at same busy done h =
      settle-IsSound clock i s t state db db' at ix held same busy done tally h

  pub lower-Prepared :
      (s t : Target) (db counted : Db)
      → IsSound db
      → get db.targets s.id ≡ some s
      → t.id ≡ s.id
      → is_active s ≡ true
      → is_active t ≡ false
      → lower_active_count db 1 ≡ ok counted
      → Prepared s t counted
  unfolding lower_active_count active_state
  lower-Prepared s t db counted (ix, tally) held same on off h =
      subst (Prepared s t) {x = record db { active_targets = db.active_targets - 1 }} {y = counted}
        (ground arith) (ix, held, tally_less tally t.id t (rw (same, held) (ground arith)))

  pub keep-Prepared :
      (s t : Target) (db : Db)
      → IsSound db
      → get db.targets s.id ≡ some s
      → t.id ≡ s.id
      → is_active s ≡ is_active t
      → Prepared s t db
  keep-Prepared s t db (ix, tally) held same eq =
      (ix, held, tally_same tally t.id t (rw (same, held, eq) refl))

  pub finish-Prepared :
      (s t : Target) (state : State) (db counted : Db)
      → IsSound db
      → get db.targets s.id ≡ some s
      → t.id ≡ s.id
      → s.state ≡ sending
      → t.state ≡ state
      → (if active_state state then ok db else lower_active_count db 1) ≡ ok counted
      → Prepared s t counted
  unfolding active_state
  finish-Prepared s t state db counted inv held same sent at h =
      elim (Bool-cases (active_state state)) [
        | inl on ↦
            subst (Prepared s t) {x = db} {y = counted} (ground arith)
              (keep-Prepared s t db inv held same (ground arith))
        | inr off ↦
            lower-Prepared s t db counted inv held same (ground arith) (ground arith) (ground arith)
      ]

  pub finish-IsSound :
      (env : Env) (owner : Str) (c : Claim) (state : State) (outcome evidence : Str) (next : ℕ)
      (db db' : Db)
      → IsSound db
      → finish env owner c state outcome evidence next db ≡ ok db'
      → IsSound db'
  finish-IsSound env owner c state outcome evidence next db db' inv h =
      settle-Prepared env.clock 1 f.target new state f.counted db'
        (finish-Prepared f.target new state db f.counted inv held keeps.0 f.was_sending keeps.1
          f.counts)
        keeps.1 keeps.0 (ground (arith, f.was_sending)) f.legal f.settled
    where
      f : Finished env owner c state outcome evidence next db db'
      f = finish-Finished env owner c state outcome evidence next db db' h

      moved : Target
      moved = moved_to f.target state outcome evidence (env.clock 0)

      new : Target
      new = available_from state next moved

      keeps : (new.id ≡ moved.id) × (new.state ≡ moved.state)
      keeps = available_from_keeps state next moved

      held : get db.targets f.target.id ≡ some f.target
      held = rw (inv.0.keyed c.target.id f.target f.held) f.held
