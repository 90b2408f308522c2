-- ===== src/Spool/Cleanup.antt =====
-- Store.CleanupCompleted (pkg/notification_spool/maintenance.go).
use notification_manager.Base.{
  ℕ, ◌+◌, Bool, true, false, ◌||◌, not, Option, none, some, List, [], ◌∷◌, Str, str_eq, str_lt, lit,
  is_empty, length, take, ltb, if◌then◌else◌,
}
use notification_manager.Bolt.{Bolt}
use notification_manager.Spool.Types.{
  delivered, dead_letter, Target, Intake, cleanup_confirmed_completed, Env, Db, Result, ok, ◌>>=◌,
  ◌>>◌, refuse_if, or_err, bad_retention, no_random, no_record,
}
use notification_manager.Spool.Counter.{queue_key}

-- 24 hours in nanoseconds.
abbrev pub one_day : ℕ
one_day = 86400000000000

-- Confirmed as completed: delivered, or given up by an operator.
unfoldable pub is_confirmed : Target → Bool
is_confirmed t = elim t.state [
  | delivered ↦ true
  | dead_letter ↦ str_eq t.outcome (lit "operator_reconciled")
  | _ ↦ false
]

module _ {V : Type 0} where
  -- Cursor.Seek: from the first key that is not before `last`.
  unfoldable pub seek : Str → List (Str × V) → List (Str × V)
  seek last [] = []
  seek last ((key, v) ∷ rest) =
      let later = seek last rest in if str_lt key last then later else (key, v) ∷ rest

  abbrev pub next : List (Str × V) → List (Str × V)
  next [] = []
  next (_ ∷ rest) = rest

  abbrev pub or_first : List (Str × V) → List (Str × V) → List (Str × V)
  or_first first [] = first
  or_first first (x ∷ xs) = x ∷ xs

  -- Where the pass starts: behind the key at which the last one stopped, or anew.
  unfoldable pub resume_from : Str → List (Str × V) → List (Str × V)
  unfolding seek
  resume_from last all = or_first all (if is_empty last then all else next (seek last all))

  unfoldable pub last_key : Str → List (Str × V) → Str
  last_key last [] = last
  last_key last ((key, v) ∷ rest) = last_key key rest

abbrev pub is_nil : List Str → Bool
is_nil [] = true
is_nil (x ∷ xs) = false

abbrev pub tombstone : Intake → Intake
tombstone i = record i { target_ids = []; terminal_reason = lit "confirmed_completed_tombstone" }

module _ ⦃B : Bolt⦄ where
  open B use {get, put, delete, entries}

  -- The records of an intake that is completed and past retention; `none` if one of them is not.
  unfoldable pub completed_rows : ℕ → ℕ → Db → List Str → Result (Option (List Target))
  unfolding is_confirmed
  completed_rows retention now db [] = ok (some [])
  completed_rows retention now db (id ∷ ids) =
      let rest = completed_rows retention now db ids in
      or_err (get db.targets id) no_record >>= λ t.
      if ltb now (t.updated_at + retention) || not (is_confirmed t)
      then ok none
      else (rest >>= λ rows. ok (elim rows [ none ↦ none | some ts ↦ some (t ∷ ts) ]))

  unfoldable pub rows_of : ℕ → ℕ → Db → Intake → Result (Option (List Target))
  unfolding completed_rows
  rows_of retention now db intake =
      if is_nil intake.target_ids || not (ltb (intake.accepted_at + retention) now)
      then ok none
      else completed_rows retention now db intake.target_ids

  -- What to change: the intakes to close, by key, with their records.
  unfoldable pub plan_cleanup :
      ℕ → ℕ → Db → List (Str × Intake) → Result (List (Str × Intake × List Target))
  unfolding rows_of
  plan_cleanup retention now db [] = ok []
  plan_cleanup retention now db ((key, intake) ∷ rest) =
      rows_of retention now db intake >>= λ found. plan_cleanup retention now db rest >>= λ changes.
      ok (elim found [ none ↦ changes | some ts ↦ (key, intake, ts) ∷ changes ])

  unfoldable pub remove_targets : List Target → Db → Db
  remove_targets [] db = db
  remove_targets (t ∷ ts) db = remove_targets ts (record db {
    targets = delete db.targets t.id;
    ready = delete db.ready (queue_key t);
    blocked = delete db.blocked t.id;
  })

  unfoldable pub apply_cleanup : List (Str × Intake × List Target) → Db → Db
  unfolding remove_targets
  apply_cleanup [] db = db
  apply_cleanup ((key, intake, ts) ∷ rest) db =
      let removed = remove_targets ts db in
      apply_cleanup rest (record removed { intakes = put removed.intakes key (tombstone intake) })

  -- The intakes that one pass looks at.
  abbrev pub examined : ℕ → Db → List (Str × Intake)
  unfolding resume_from
  examined batch db = take batch (resume_from db.cleanup_cursor (entries db.intakes))

  -- The number of intakes that were closed, and the database.
  unfoldable pub cleanup_completed : Env → ℕ → ℕ → ℕ → Db → Result (ℕ × Db)
  unfolding resume_from last_key plan_cleanup apply_cleanup
  cleanup_completed env retention batch now db = do
    refuse_if (ltb retention one_day || (ltb batch 1 || ltb 1000 batch)) bad_retention
    changes ← plan_cleanup retention now db (examined batch db)
    let cleaned = length changes
    let applied = record (apply_cleanup changes db) {
      cleanup_cursor = last_key [] (examined batch db);
    }
    if ltb 0 cleaned
        then (or_err (env.random 0) no_random >>= λ key. ok (
          cleaned,
          record applied {
            audit = put applied.audit key (cleanup_confirmed_completed cleaned retention now);
          },
        ))
        else ok (0, applied)
