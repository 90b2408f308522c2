-- ===== src/Spool/Invariant/Cleanup.antt =====
-- CleanupCompleted keeps the database sound.
use notification_manager.Base.{
  ℕ, ◌≡◌, refl, ap, ◌∙◌, ◌⊎◌, inl, inr, true, none, some, List, [], ◌∷◌, Str, arith, Option-cases,
  All,
}
use notification_manager.Bolt.{Bolt}
use notification_manager.Bolt.Laws.{get-delete}
use notification_manager.Spool.Types.{Target, Intake, Env, Db, ok}
use notification_manager.Spool.Outcome.{Result-cases}
use notification_manager.Spool.Counter.{active_state, queue_key}
use notification_manager.Spool.Cleanup.{
  is_confirmed, completed_rows, rows_of, plan_cleanup, remove_targets, apply_cleanup,
  cleanup_completed, examined, tombstone,
}
use notification_manager.Spool.QueueKey.{queue_key-id}
use notification_manager.Spool.Invariant.{IsIndexed, IsSound, IsSound-same}
use notification_manager.Spool.Invariant.Moves.{drop, tally_drop}

module _ ⦃B : Bolt⦄ where
  open B use {get, put, delete, entries}

  -- Still there and finished, or gone.
  abbrev pub Removable : Db → Target → Type 0
  Removable db t =
      (is_confirmed t ≡ true) × ((get db.targets t.id ≡ some t) ⊎ (get db.targets t.id ≡ none))

  drop_absent :
      (db : Db) (t : Target)
      → IsIndexed db.targets db.ready db.blocked
      → get db.targets t.id ≡ none
      → IsIndexed (delete db.targets t.id) (delete db.ready (queue_key t)) (delete db.blocked t.id)
  drop_absent db t ix gone = record {
    keyed = λ id u h. ground (arith, get-delete db.targets t.id id, ix.keyed id u);
    ready_sound = λ k id h. ground (
      arith,
      get-delete db.targets t.id id,
      get-delete db.ready (queue_key t) k,
      ix.ready_sound k id,
    );
    blocked_key = λ k id h. ground (arith, get-delete db.blocked t.id k, ix.blocked_key k id);
    blocked_sound = λ id h.
        ground (
          arith,
          get-delete db.targets t.id id,
          get-delete db.blocked t.id id,
          ix.blocked_sound id,
        );
    apart = λ k id h.
        ground (
          arith,
          get-delete db.ready (queue_key t) k,
          get-delete db.blocked t.id id,
          ix.apart k id,
        );
    queued = λ id u h c. ground (
      arith,
      get-delete db.targets t.id id,
      get-delete db.ready (queue_key t) (queue_key u),
      get-delete db.blocked t.id id,
      ix.queued id u,
      ix.keyed id u,
      queue_key-id t u,
    );
  }

  abbrev pub without : Target → Db → Db
  without t db = record db {
    targets = delete db.targets t.id;
    ready = delete db.ready (queue_key t);
    blocked = delete db.blocked t.id;
  }

  pub without-IsSound :
      (db : Db) (t : Target) → IsSound db → Removable db t → IsSound (without t db)
  unfolding is_confirmed active_state
  without-IsSound db t (ix, tally) (done, inl held) =
      (drop ix t t held refl (ground arith), tally_drop tally t.id (ground arith))
  without-IsSound db t (ix, tally) (done, inr gone) =
      (drop_absent db t ix gone, tally_drop tally t.id (rw gone))

  pub without-Removable :
      (db : Db) (t : Target) (us : List Target)
      → IsSound db
      → All (Removable db) us
      → All (Removable (without t db)) us
  without-Removable db t [] inv r = tt
  without-Removable db t (u ∷ us) inv r =
      ground (arith, get-delete db.targets t.id u.id, without-Removable db t us inv r.1)

  pub remove_targets-IsSound :
      (ts : List Target) (db : Db)
      → IsSound db
      → All (Removable db) ts
      → IsSound (remove_targets ts db)
  unfolding remove_targets
  remove_targets-IsSound [] db inv r = inv
  remove_targets-IsSound (t ∷ ts) db inv r =
      remove_targets-IsSound ts (without t db) (without-IsSound db t inv r.0)
        (without-Removable db t ts inv r.1)

  -- The rows that a plan names are those of confirmed targets.
  completed_rows-Removable :
      (retention now : ℕ) (db : Db) (ids : List Str) (ts : List Target)
      → IsIndexed db.targets db.ready db.blocked
      → completed_rows retention now db ids ≡ ok (some ts)
      → All (Removable db) ts
  unfolding completed_rows
  completed_rows-Removable retention now db [] ts ix h = ground arith
  completed_rows-Removable retention now db (id ∷ ids) ts ix h =
      elim (Option-cases (get db.targets id)) [
        | inl e ↦ absurd (ground arith)
        | inr (t, e) ↦ elim (Result-cases (completed_rows retention now db ids)) [
          | inr (x, bad) ↦ absurd (ground arith)
          | inl (none, more) ↦ absurd (ground arith)
          | inl (some us, more) ↦
              ground
                (arith, completed_rows-Removable retention now db ids us ix more, ix.keyed id t e)
        ]
      ]

  abbrev pub EachRemovable : Db → List (Str × Intake × List Target) → Type 0
  EachRemovable db [] = Unit
  EachRemovable db ((k, i, ts) ∷ r) = All (Removable db) ts × EachRemovable db r

  rows_of-Removable :
      (retention now : ℕ) (db : Db) (i : Intake) (ts : List Target)
      → IsIndexed db.targets db.ready db.blocked
      → rows_of retention now db i ≡ ok (some ts)
      → All (Removable db) ts
  unfolding rows_of
  rows_of-Removable retention now db i ts ix h =
      completed_rows-Removable retention now db i.target_ids ts ix (ground arith)

  pub plan_cleanup-Removable :
      (retention now : ℕ) (db : Db) (l : List (Str × Intake))
      (cs : List (Str × Intake × List Target))
      → IsIndexed db.targets db.ready db.blocked
      → plan_cleanup retention now db l ≡ ok cs
      → EachRemovable db cs
  unfolding plan_cleanup
  plan_cleanup-Removable retention now db [] cs ix h = ground arith
  plan_cleanup-Removable retention now db ((k, i) ∷ r) cs ix h =
      elim (Result-cases (rows_of retention now db i)) [
        | inr (x, bad) ↦ absurd (ground arith)
        | inl (found, e) ↦ elim (Result-cases (plan_cleanup retention now db r)) [
          | inr (x, bad) ↦ absurd (ground arith)
          | inl (ds, more) ↦ elim (Option-cases found) [
            | inl n ↦ ground (arith, plan_cleanup-Removable retention now db r ds ix more)
            | inr (ts, s) ↦ ground (
              arith,
              plan_cleanup-Removable retention now db r ds ix more,
              rows_of-Removable retention now db i ts ix (e ∙ ap ok s),
            )
          ]
        ]
      ]

  remove_targets-Removable :
      (ts us : List Target) (db : Db)
      → IsSound db
      → All (Removable db) ts
      → All (Removable db) us
      → All (Removable (remove_targets ts db)) us
  unfolding remove_targets
  remove_targets-Removable [] us db inv r s = s
  remove_targets-Removable (t ∷ ts) us db inv r s =
      remove_targets-Removable ts us (without t db) (without-IsSound db t inv r.0)
        (without-Removable db t ts inv r.1) (without-Removable db t us inv s)

  pub remove_targets-EachRemovable :
      (ts : List Target) (cs : List (Str × Intake × List Target)) (db : Db)
      → IsSound db
      → All (Removable db) ts
      → EachRemovable db cs
      → EachRemovable (remove_targets ts db) cs
  remove_targets-EachRemovable ts [] db inv r e = tt
  remove_targets-EachRemovable ts ((k, i, us) ∷ cs) db inv r e =
      (remove_targets-Removable ts us db inv r e.0, remove_targets-EachRemovable ts cs db inv r e.1)

  apply_cleanup-IsSound :
      (cs : List (Str × Intake × List Target)) (db : Db)
      → IsSound db
      → EachRemovable db cs
      → IsSound (apply_cleanup cs db)
  unfolding apply_cleanup
  apply_cleanup-IsSound [] db inv e = inv
  apply_cleanup-IsSound ((k, i, ts) ∷ cs) db inv e =
      apply_cleanup-IsSound cs _ (remove_targets-IsSound ts db inv e.0)
        (anew cs (remove_targets-EachRemovable ts cs db inv e.0 e.1))
    where
      removed : Db
      removed = remove_targets ts db

      anew :
          (ds : List (Str × Intake × List Target))
          → EachRemovable removed ds
          → EachRemovable (record removed { intakes = put removed.intakes k (tombstone i) }) ds
      anew [] h = tt
      anew ((j, x, us) ∷ ds) h = (h.0, anew ds h.1)

  pub cleanup_completed-IsSound :
      (env : Env) (retention batch now : ℕ) (db : Db) (n : ℕ) (db' : Db)
      → IsSound db
      → cleanup_completed env retention batch now db ≡ ok (n, db')
      → IsSound db'
  unfolding cleanup_completed
  cleanup_completed-IsSound env retention batch now db n db' inv h =
      elim (Result-cases (plan_cleanup retention now db (examined batch db))) [
        | inr (x, bad) ↦ absurd (ground arith)
        | inl (cs, e) ↦
            let done : IsSound (apply_cleanup cs db) =
              apply_cleanup-IsSound cs db inv
                (plan_cleanup-Removable retention now db (examined batch db) cs inv.0 e) in
            IsSound-same (apply_cleanup cs db) db' done (ground arith) (ground arith) (ground arith)
              (ground arith)
      ]
