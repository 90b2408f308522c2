-- ===== src/Spool/Lifecycle/Bulk.antt =====
-- What Submit and CleanupCompleted, which change many targets at once, do to each target.
use notification_manager.Base.{
  ℕ, ◌≡◌, refl, ap, subst, ◌⊎◌, inl, inr, Bool, Option, none, List, [], ◌∷◌, Str, arith, All,
}
use notification_manager.Bolt.{Bolt}
use notification_manager.Bolt.Laws.{get-put, get-delete}
use notification_manager.Spool.Types.{
  pending, delivered, dead_letter, Target, Intake, Limits, ProfileSnapshot, Env, Db, ok,
}
use notification_manager.Spool.Outcome.{Result-cases}
use notification_manager.Spool.Counter.{raise_active_count}
use notification_manager.Spool.Submit.{
  target_id, frozen, check_capacity, insert_target, insert_targets, new_intake, submit,
}
use notification_manager.Spool.Cleanup.{
  is_confirmed, remove_targets, apply_cleanup, plan_cleanup, cleanup_completed, examined, tombstone,
}
use notification_manager.Spool.Invariant.{IsIndexed, IsSound}
use notification_manager.Spool.Invariant.Cleanup.{
  Removable, EachRemovable, without, without-IsSound, without-Removable, plan_cleanup-Removable,
  remove_targets-IsSound, remove_targets-EachRemovable,
}
use notification_manager.Spool.Invariant.Submit.{
  IsNew, IsFresh, IsFresh-IsNew, submit_cases, insert_target-IsIndexed, insert_target-counts,
  insert_targets_round, still-IsNew,
}
use notification_manager.Spool.Lifecycle.{Phase, phase, absent, held, Edge, keep, accepted, removed}
use notification_manager.Spool.Lifecycle.Effects.{Moves}

-- Either nothing, or a finished target is gone.
abbrev Cleaned : Phase → Phase → Type 0
Cleaned p q = (q ≡ p) ⊎ (((p ≡ held delivered) ⊎ (p ≡ held dead_letter)) × (q ≡ absent))

Cleaned-trans : (p q r : Phase) → Cleaned p q → Cleaned q r → Cleaned p r
Cleaned-trans p q r h k = ground arith

-- Either nothing, or a new target is pending.
abbrev Born : Phase → Phase → Type 0
Born p q = (q ≡ p) ⊎ ((p ≡ absent) × (q ≡ held pending))

Born-trans : (p q r : Phase) → Born p q → Born q r → Born p r
Born-trans p q r h k = ground arith

Cleaned-Edge : (p q : Phase) → Cleaned p q → Edge p q
Cleaned-Edge p q (inl e) = keep e
Cleaned-Edge p q (inr (a, b)) = removed a b

Born-Edge : (p q : Phase) → Born p q → Edge p q
Born-Edge p q (inl e) = keep e
Born-Edge p q (inr (a, b)) = accepted a b

module _ ⦃B : Bolt⦄ where
  open B use {get, put, delete, entries}

  abbrev at : Db → Str → Phase
  at db id = phase (get db.targets id)

  without-Cleaned :
      (db : Db) (t : Target) (id : Str) → Removable db t → Cleaned (at db id) (at (without t db) id)
  unfolding is_confirmed
  without-Cleaned db t id r = ground (arith, get-delete db.targets t.id id)

  remove_targets-Cleaned :
      (ts : List Target) (db : Db) (id : Str)
      → IsSound db
      → All (Removable db) ts
      → Cleaned (at db id) (at (remove_targets ts db) id)
  unfolding remove_targets
  remove_targets-Cleaned [] db id inv r = inl refl
  remove_targets-Cleaned (t ∷ ts) db id inv r =
      Cleaned-trans (at db id) (at (without t db) id) (at (remove_targets ts (without t db)) id)
        (without-Cleaned db t id r.0)
        (remove_targets-Cleaned ts (without t db) id (without-IsSound db t inv r.0)
          (without-Removable db t ts inv r.1))

  apply_cleanup-Cleaned :
      (cs : List (Str × Intake × List Target)) (db : Db) (id : Str)
      → IsSound db
      → EachRemovable db cs
      → Cleaned (at db id) (at (apply_cleanup cs db) id)
  unfolding apply_cleanup
  apply_cleanup-Cleaned [] db id inv e = inl refl
  apply_cleanup-Cleaned ((k, i, ts) ∷ cs) db id inv e =
      Cleaned-trans (at db id) (at removed_db id) _ (remove_targets-Cleaned ts db id inv e.0) (
        apply_cleanup-Cleaned cs closed id (remove_targets-IsSound ts db inv e.0)
          (anew cs (remove_targets-EachRemovable ts cs db inv e.0 e.1)))
    where
      removed_db : Db
      removed_db = remove_targets ts db

      closed : Db
      closed = record removed_db { intakes = put removed_db.intakes k (tombstone i) }

      anew :
          (ds : List (Str × Intake × List Target))
          → EachRemovable removed_db ds
          → EachRemovable closed ds
      anew [] h = tt
      anew ((j, x, us) ∷ ds) h = (h.0, anew ds h.1)

  pub cleanup_completed-Moves :
      (env : Env) (retention batch now : ℕ) (db : Db) (n : ℕ) (db' : Db) (id : Str)
      → IsSound db
      → cleanup_completed env retention batch now db ≡ ok (n, db')
      → Moves db db' id
  unfolding cleanup_completed
  cleanup_completed-Moves env retention batch now db n db' id inv h =
      elim (Result-cases (plan_cleanup retention now db (examined batch db))) [
        | inr (x, bad) ↦ absurd (ground arith)
        | inl (cs, e) ↦
            let same : (apply_cleanup cs db).targets ≡ db'.targets = ground arith in
            Cleaned-Edge (at db id) (at db' id) (
              subst (λ b. Cleaned (at db id) (phase (get b id))) same
                (apply_cleanup-Cleaned cs db id inv
                  (plan_cleanup-Removable retention now db (examined batch db) cs inv.0 e)))
      ]

  insert_targets-Born :
      (env : Env) (snapshot : Option ProfileSnapshot) (k : Str) (now : ℕ) (ts : List Target)
      (ids ids' : List Str) (db db' : Db) (id : Str)
      → IsIndexed db.targets db.ready db.blocked
      → All (IsNew env k db ids) ts
      → insert_targets env snapshot k now ts ids db ≡ ok (ids', db')
      → Born (at db id) (at db' id)
  insert_targets-Born env snapshot k now [] ids ids' db db' id ix n h =
      unfold insert_targets in ground arith
  insert_targets-Born env snapshot k now (t ∷ ts) ids ids' db db' id ix n h =
      Born-trans (at db id) (at (insert_target f db) id) (at db' id) first (
        insert_targets-Born env snapshot k now ts (target_id env k t ∷ ids) ids'
          (insert_target f db) db' id (insert_target-IsIndexed db f ix fresh pend)
          (subst (λ x. All (IsNew env k (insert_target f db) (x ∷ ids)) ts) same
            (still-IsNew env k db ids f ts n.1))
          (insert_targets_round env snapshot k now t ts ids ids' db db' h).3)
    where
      f : Target
      f = frozen env k now t

      same : f.id ≡ target_id env k t
      same = unfold frozen in refl

      fresh : get db.targets f.id ≡ none
      fresh =
          unfold frozen in
          ground (arith, n.0, (insert_targets_round env snapshot k now t ts ids ids' db db' h).2)

      pend : f.state ≡ pending
      pend = unfold frozen in refl

      first : Born (at db id) (at (insert_target f db) id)
      first = ground (
        arith,
        fresh,
        pend,
        (insert_target-counts db f fresh pend).2,
        get-put db.targets f.id f id,
      )

  new_intake-Born :
      (env : Env) (limits : Limits) (k key request_hash : Str) (targets : List Target)
      (reason : Str) (snapshot : Option ProfileSnapshot) (db : Db) (intake : Intake) (db' : Db)
      (id : Str)
      → All (IsNew env k db []) targets
      → IsSound db
      → new_intake env limits k key request_hash targets reason snapshot db ≡ ok (intake, db')
      → Born (at db id) (at db' id)
  unfolding new_intake raise_active_count
  new_intake-Born env limits k key request_hash targets reason snapshot db intake db' id n
        (ix, tally) h =
      elim (Result-cases (check_capacity env limits)) [
        | inr (x, bad) ↦ absurd (ground arith)
        | inl (tt, c) ↦
            elim (Result-cases (insert_targets env snapshot k (env.clock 1) targets [] db)) [
              | inr (x, bad) ↦ absurd (ground arith)
              | inl ((ids, filled), e) ↦
                  let same : filled.targets ≡ db'.targets = ground arith in
                  subst (λ b. Born (at db id) (phase (get b id))) same
                    (insert_targets-Born env snapshot k (env.clock 1) targets [] ids db filled id ix
                      n e)
            ]
      ]

  pub submit-Moves :
      (env : Env) (limits : Limits) (key request_hash : Str) (targets : List Target) (reason : Str)
      (snapshot : Option ProfileSnapshot) (window : ℕ) (db : Db) (intake : Intake) (repeated : Bool)
      (db' : Db) (id : Str)
      → IsFresh env db targets
      → IsSound db
      → submit env limits key request_hash targets reason snapshot window db
        ≡ ok (intake, repeated, db')
      → Moves db db' id
  submit-Moves env limits key request_hash targets reason snapshot window db intake repeated db' id
        fresh inv h =
      elim (submit_cases env limits key request_hash targets reason snapshot window db intake
        repeated db' h) [
          | inl (kept, e) ↦ keep (ap (λ (d : Db). at d id) e)
          | inr (k, drawn, p, new, made) ↦ Born-Edge (at db id) (at db' id) (
              new_intake-Born env limits k key request_hash targets reason snapshot db intake db' id
                (IsFresh-IsNew env k db targets (fresh k drawn)) inv made)
        ]
