-- ===== src/Spool/Invariant/Resolve.antt =====
-- Resolve keeps the database sound.
use notification_manager.Base.{
  ◌+◌, ◌≤◌, ◌≡◌, subst, inl, inr, true, false, some, Str, lit, arith, Option-cases, Bool-cases, ltb,
}
use notification_manager.Bolt.{Bolt}
use notification_manager.Spool.Types.{State, Target, Limits, reconciled, Env, Db, ok}
use notification_manager.Spool.Outcome.{Result-cases}
use notification_manager.Spool.Counter.{active_state, u64, raise_active_count}
use notification_manager.Spool.Profiles.{check_audit}
use notification_manager.Spool.Finish.{
  is_resolution, is_reconcilable, settle, moved_to, available_from, recount, resolve,
}
use notification_manager.Spool.Invariant.{IsSound, is_active}
use notification_manager.Spool.Invariant.Moves.{tally_more}
use notification_manager.Spool.Invariant.Settle.{
  Prepared, lower-Prepared, keep-Prepared, settle-Prepared, available_from_keeps,
}

module _ ⦃B : Bolt⦄ where
  open B use {get, put}

  raise-Prepared :
      (limits : Limits) (s t : Target) (db : Db)
      → limits.max_targets ≤ 9223372036854775807
      → IsSound db
      → get db.targets s.id ≡ some s
      → t.id ≡ s.id
      → is_active s ≡ false
      → is_active t ≡ true
      → ltb limits.max_targets (u64 (db.active_targets + 1)) ≡ false
      → Prepared s t (record db { active_targets = db.active_targets + 1 })
  raise-Prepared limits s t db small (ix, tally) held same off on room =
      (ix, held, tally_more tally t.id t (rw (same, held) (ground arith)) (ground arith))

  pub recount-Prepared :
      (limits : Limits) (s t : Target) (to : State) (db counted : Db)
      → limits.max_targets ≤ 9223372036854775807
      → IsSound db
      → get db.targets s.id ≡ some s
      → t.id ≡ s.id
      → t.state ≡ to
      → recount limits s.state to db ≡ ok counted
      → Prepared s t counted
  unfolding recount raise_active_count
  recount-Prepared limits s t to db counted small inv held same at h =
      elim (Bool-cases (is_active s)) [
        | inl on ↦ elim (Bool-cases (active_state to)) [
          | inl kept ↦
              subst (Prepared s t) {x = db} {y = counted} (ground arith)
                (keep-Prepared s t db inv held same (ground arith))
          | inr done ↦ lower-Prepared s t db counted inv held same on (ground arith) (ground arith)
        ]
        | inr off ↦ elim (Bool-cases (active_state to)) [
          | inl again ↦
              subst (Prepared s t) {x = record db { active_targets = db.active_targets + 1 }}
                {y = counted} (ground (arith, inv.1.bounded))
                (raise-Prepared limits s t db small inv held same off (ground arith) (ground arith))
          | inr done ↦
              subst (Prepared s t) {x = db} {y = counted} (ground arith)
                (keep-Prepared s t db inv held same (ground arith))
        ]
      ]

  -- A successful reconciliation, step by step.
  pub record Reconciled (env : Env) (limits : Limits) (id : Str) (state : State)
      (actor evidence : Str) (db db' : Db) : Type 0 where
    pub target : Target
    pub audit_id : Str
    pub counted : Db
    pub audited : check_audit actor evidence ≡ ok tt
    pub legal : is_resolution state ≡ true
    pub held : get db.targets id ≡ some target
    pub was_open : is_reconcilable target.state ≡ true
    pub counts :
        recount limits target.state state (record db {
          audit =
              put db.audit audit_id (reconciled id target.state state actor evidence (env.clock 0));
        })
        ≡ ok counted
    pub settled :
        settle env.clock 3
          (available_from state
            (env.clock 2)
            (moved_to target state (lit "operator_reconciled") evidence (env.clock 1)))
          counted
        ≡ ok db'

  pub resolve-Reconciled :
      (env : Env) (limits : Limits) (id : Str) (state : State) (actor evidence : Str) (db db' : Db)
      → resolve env limits id state actor evidence db ≡ ok db'
      → Reconciled env limits id state actor evidence db db'
  unfolding resolve
  resolve-Reconciled env limits id state actor evidence db db' h =
      elim (Option-cases (get db.targets id)) [
        | inl e ↦ absurd (ground arith)
        | inr (t, e) ↦ elim (Option-cases (env.random 0)) [
          | inl n ↦ absurd (ground arith)
          | inr (a, r) ↦
              elim (Result-cases (
                recount limits t.state state (record db {
                  audit = put db.audit a (reconciled id t.state state actor evidence (env.clock 0));
                }))) [
                  | inr (x, bad) ↦ absurd (ground arith)
                  | inl (counted, n) ↦ record {
                    target = t;
                    audit_id = a;
                    counted = counted;
                    audited = ground arith;
                    legal = ground arith;
                    held = e;
                    was_open = ground arith;
                    counts = n;
                    settled = ground arith;
                  }
                ]
        ]
      ]

  pub resolve-IsSound :
      (env : Env) (limits : Limits) (id : Str) (state : State) (actor evidence : Str) (db db' : Db)
      → limits.max_targets ≤ 9223372036854775807
      → IsSound db
      → resolve env limits id state actor evidence db ≡ ok db'
      → IsSound db'
  resolve-IsSound env limits id state actor evidence db db' small inv h =
      settle-Prepared env.clock 3 f.target new state f.counted db'
        (recount-Prepared limits f.target new state _ f.counted small inv held keeps.0 keeps.1
          f.counts)
        keeps.1 keeps.0 (ground (arith, f.was_open)) (ground (arith, f.legal)) f.settled
    where
      f : Reconciled env limits id state actor evidence db db'
      f = resolve-Reconciled env limits id state actor evidence db db' h

      moved : Target
      moved = moved_to f.target state (lit "operator_reconciled") evidence (env.clock 1)

      new : Target
      new = available_from state (env.clock 2) moved

      keeps : (new.id ≡ moved.id) × (new.state ≡ moved.state)
      keeps = available_from_keeps state (env.clock 2) moved

      held : get db.targets f.target.id ≡ some f.target
      held = rw (inv.0.keyed id f.target f.held) f.held
