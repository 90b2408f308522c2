-- ===== src/Spool/Invariant/Submit.antt =====
-- Submit and SubmitProfile keep the database sound.
use notification_manager.Base.{
  ℕ, ◌+◌, ◌*◌, ◌≤◌, ◌≡◌, refl, sym, ◌∙◌, subst, ◌⊎◌, inl, inr, Bool, true, false, Option, none,
  some, List, [], ◌∷◌, Str, contains, arith, Option-cases, Bool-cases, All, length,
}
use notification_manager.Bolt.{Bolt}
use notification_manager.Bolt.Laws.{get-put, count, count-put}
use notification_manager.Spool.Types.{pending, Target, Intake, Limits, ProfileSnapshot, Env, Db, ok}
use notification_manager.Spool.Outcome.{Result-cases}
use notification_manager.Spool.Counter.{active_state, raise_active_count}
use notification_manager.Spool.Profiles.{validate_profile_target, check_profile_admission}
use notification_manager.Spool.Submit.{
  plan_bytes, check_plan, check_capacity, check_target, target_id, frozen, has_dependencies,
  insert_target, insert_targets, find_repeat, new_intake, submit,
}
use notification_manager.Spool.Invariant.{IsIndexed, IsSound, IsSound-same, is_active}
use notification_manager.Spool.Invariant.Moves.{insert_ready, insert_blocked}

length-plan_bytes : (ts : List Target) → 2048 * length ts ≤ plan_bytes ts
unfolding plan_bytes
length-plan_bytes [] = omega arith
length-plan_bytes (t ∷ ts) = omega (arith, length-plan_bytes ts)

module _ ⦃B : Bolt⦄ where
  open B use {get, put, entries}

  -- The identity that the target gets is not taken, or was given out in this intake.
  abbrev pub IsNew : Env → Str → Db → List Str → Target → Type 0
  IsNew env id db ids t =
      (get db.targets (target_id env id t) ≡ none) ⊎ (contains ids (target_id env id t) ≡ true)

  pub insert_target-IsIndexed :
      (db : Db) (t : Target)
      → IsIndexed db.targets db.ready db.blocked
      → get db.targets t.id ≡ none
      → t.state ≡ pending
      → IsIndexed
          (insert_target t db).targets
          (insert_target t db).ready
          (insert_target t db).blocked
  unfolding insert_target
  insert_target-IsIndexed db t ix fresh at = elim (Bool-cases (has_dependencies t)) [
    | inl waits ↦ rw waits (insert_blocked ix t fresh at)
    | inr free ↦ rw free (insert_ready ix t fresh at)
  ]

  pub insert_target-counts :
      (db : Db) (t : Target)
      → get db.targets t.id ≡ none
      → t.state ≡ pending
      → (count is_active (entries (insert_target t db).targets)
          ≡ count is_active (entries db.targets) + 1)
        × ((insert_target t db).active_targets ≡ db.active_targets)
        × ((insert_target t db).targets ≡ put db.targets t.id t)
  unfolding insert_target active_state
  insert_target-counts db t fresh at = ground (arith, count-put is_active db.targets t.id t)

  pub still-IsNew :
      (env : Env) (id : Str) (db : Db) (ids : List Str) (f : Target) (ts : List Target)
      → All (IsNew env id db ids) ts
      → All (IsNew env id (insert_target f db) (f.id ∷ ids)) ts
  unfolding insert_target contains
  still-IsNew env id db ids f [] n = tt
  still-IsNew env id db ids f (t ∷ ts) n =
      ground
        (arith, get-put db.targets f.id f (target_id env id t), still-IsNew env id db ids f ts n.1)

  -- One round of the loop over the targets.
  pub insert_targets_round :
      (env : Env) (snapshot : Option ProfileSnapshot) (id : Str) (now : ℕ) (t : Target)
      (ts : List Target) (ids ids' : List Str) (db db' : Db)
      → insert_targets env snapshot id now (t ∷ ts) ids db ≡ ok (ids', db')
      → (validate_profile_target db t ≡ ok tt)
        × (check_target env snapshot t ≡ ok tt)
        × (contains ids (target_id env id t) ≡ false)
        × (insert_targets env snapshot id now ts
              (target_id env id t ∷ ids)
              (insert_target (frozen env id now t) db)
            ≡ ok (ids', db'))
  unfolding insert_targets frozen
  insert_targets_round env snapshot id now t ts ids ids' db db' h =
      elim (Result-cases (validate_profile_target db t)) [
        | inr (x, bad) ↦ absurd (ground arith)
        | inl (tt, v) ↦ elim (Result-cases (check_target env snapshot t)) [
          | inr (x, bad) ↦ absurd (ground arith)
          | inl (tt, c) ↦ (ground arith, ground arith, ground arith, ground arith)
        ]
      ]

  -- The targets come into the indexes, and the active ones are as many more.
  abbrev pub Grown : ℕ → Db → Db → Type 0
  Grown n db db' =
      IsIndexed db'.targets db'.ready db'.blocked
      × (count is_active (entries db'.targets) ≡ count is_active (entries db.targets) + n)
      × (db'.active_targets ≡ db.active_targets)

  insert_targets-Grown :
      (env : Env) (snapshot : Option ProfileSnapshot) (id : Str) (now : ℕ) (ts : List Target)
      (ids ids' : List Str) (db db' : Db)
      → IsIndexed db.targets db.ready db.blocked
      → All (IsNew env id db ids) ts
      → insert_targets env snapshot id now ts ids db ≡ ok (ids', db')
      → Grown (length ts) db db'
  insert_targets-Grown env snapshot id now [] ids ids' db db' ix n h =
      unfold insert_targets in
      subst (Grown 0 db) {x = db} {y = db'} (ground arith) (ix, omega arith, refl)
  insert_targets-Grown env snapshot id now (t ∷ ts) ids ids' db db' ix n h =
      let rest : Grown (length ts) (insert_target f db) db' =
        insert_targets-Grown env snapshot id now ts (target_id env id t ∷ ids) ids'
          (insert_target f db) db' (insert_target-IsIndexed db f ix fresh at)
          (subst (λ x. All (IsNew env id (insert_target f db) (x ∷ ids)) ts) same
            (still-IsNew env id db ids f ts n.1))
          round.3 in
      (rest.0, omega (arith, rest.1, counts.0), rest.2 ∙ counts.1)
    where
      f : Target
      f = frozen env id now t

      round :
          (validate_profile_target db t ≡ ok tt)
          × (check_target env snapshot t ≡ ok tt)
          × (contains ids (target_id env id t) ≡ false)
          × (insert_targets env snapshot id now ts (target_id env id t ∷ ids) (insert_target f db)
              ≡ ok (ids', db'))
      round = insert_targets_round env snapshot id now t ts ids ids' db db' h

      fresh : get db.targets f.id ≡ none
      fresh = unfold frozen in ground (arith, n.0, round.2)

      at : f.state ≡ pending
      at = unfold frozen in refl

      same : f.id ≡ target_id env id t
      same = unfold frozen in refl

      counts :
          (count is_active (entries (insert_target f db).targets)
            ≡ count is_active (entries db.targets) + 1)
          × ((insert_target f db).active_targets ≡ db.active_targets)
          × ((insert_target f db).targets ≡ put db.targets f.id f)
      counts = insert_target-counts db f fresh at

  pub check_plan-length :
      (key request_hash : Str) (targets : List Target) (reason : Str)
      → check_plan key request_hash targets reason ≡ ok tt
      → length targets ≤ 4096
  unfolding check_plan
  check_plan-length key request_hash targets reason h = ground (arith, length-plan_bytes targets)

  new_intake-IsSound :
      (env : Env) (limits : Limits) (id key request_hash : Str) (targets : List Target)
      (reason : Str) (snapshot : Option ProfileSnapshot) (db : Db) (intake : Intake) (db' : Db)
      → limits.max_targets ≤ 9223372036854775807
      → length targets ≤ 4096
      → All (IsNew env id db []) targets
      → IsSound db
      → new_intake env limits id key request_hash targets reason snapshot db ≡ ok (intake, db')
      → IsSound db'
  unfolding new_intake raise_active_count
  new_intake-IsSound env limits id key request_hash targets reason snapshot db intake db' small few
        n (ix, tally) h =
      elim (Result-cases (check_capacity env limits)) [
        | inr (x, bad) ↦ absurd (ground arith)
        | inl (tt, c) ↦
            elim (Result-cases (insert_targets env snapshot id (env.clock 1) targets [] db)) [
              | inr (x, bad) ↦ absurd (ground arith)
              | inl ((ids, filled), e) ↦
                  let g : Grown (length targets) db filled =
                    insert_targets-Grown env snapshot id (env.clock 1) targets [] ids db filled ix n
                      e in
                  let bounds : filled.active_targets + length targets ≤ limits.max_targets =
                    ground (arith, tally.bounded, g.2) in
                  IsSound-same
                    (record filled { active_targets = filled.active_targets + length targets }) db'
                    (
                      g.0,
                      record {
                        counted = omega (arith, g.1, g.2, tally.counted);
                        bounded = omega arith;
                      },
                    )
                    (ground arith) (ground arith) (ground arith) (ground (arith, bounds))
            ]
      ]

  -- No stored target has an identity that this intake would give: the identity of an intake is drawn
  -- at random, and those of its targets are hashes over it.
  abbrev pub IsFresh : Env → Db → List Target → Type 0
  IsFresh env db targets =
      (id : Str)
      → env.random 0 ≡ some id
      → All (λ t. get db.targets (target_id env id t) ≡ none) targets

  pub IsFresh-IsNew :
      (env : Env) (id : Str) (db : Db) (ts : List Target)
      → All (λ t. get db.targets (target_id env id t) ≡ none) ts
      → All (IsNew env id db []) ts
  IsFresh-IsNew env id db [] n = tt
  IsFresh-IsNew env id db (t ∷ ts) n = (inl n.0, IsFresh-IsNew env id db ts n.1)

  -- A successful submission answers with an earlier intake and changes nothing, or makes a new one.
  pub submit_cases :
      (env : Env) (limits : Limits) (key request_hash : Str) (targets : List Target) (reason : Str)
      (snapshot : Option ProfileSnapshot) (window : ℕ) (db : Db) (intake : Intake) (repeated : Bool)
      (db' : Db)
      → submit env limits key request_hash targets reason snapshot window db
        ≡ ok (intake, repeated, db')
      → ((repeated ≡ true) × (db' ≡ db))
        ⊎ ((id : Str) × (env.random 0 ≡ some id)
            × (check_plan key request_hash targets reason ≡ ok tt)
            × (repeated ≡ false)
            × (new_intake env limits id key request_hash targets reason snapshot db
                ≡ ok (intake, db')))
  unfolding submit
  submit_cases env limits key request_hash targets reason snapshot window db intake repeated db' h =
      elim (Result-cases (check_plan key request_hash targets reason)) [
        | inr (x, bad) ↦ absurd (ground arith)
        | inl (tt, p) ↦ elim (Option-cases (env.random 0)) [
          | inl n ↦ absurd (ground arith)
          | inr (id, r) ↦ elim (Result-cases (check_profile_admission db snapshot)) [
            | inr (x, bad) ↦ absurd (ground arith)
            | inl (tt, a) ↦ elim (Result-cases (find_repeat env key request_hash window db)) [
              | inr (x, bad) ↦ absurd (ground arith)
              | inl (some previous, e) ↦ inl (ground arith, ground arith)
              | inl (none, e) ↦
                  elim (Result-cases
                    (new_intake env limits id key request_hash targets reason snapshot db)) [
                      | inr (x, bad) ↦ absurd (ground arith)
                      | inl ((i, d), m) ↦ inr (id, r, p, ground arith, ground arith)
                    ]
            ]
          ]
        ]
      ]

  pub submit-IsSound :
      (env : Env) (limits : Limits) (key request_hash : Str) (targets : List Target) (reason : Str)
      (snapshot : Option ProfileSnapshot) (window : ℕ) (db : Db) (intake : Intake) (repeated : Bool)
      (db' : Db)
      → limits.max_targets ≤ 9223372036854775807
      → IsFresh env db targets
      → IsSound db
      → submit env limits key request_hash targets reason snapshot window db
        ≡ ok (intake, repeated, db')
      → IsSound db'
  submit-IsSound env limits key request_hash targets reason snapshot window db intake repeated db'
        small fresh inv h =
      elim (submit_cases env limits key request_hash targets reason snapshot window db intake
        repeated db' h) [
          | inl (kept, e) ↦ subst IsSound (sym e) inv
          | inr (id, drawn, p, new, made) ↦
              new_intake-IsSound env limits id key request_hash targets reason snapshot db intake
                db' small (check_plan-length key request_hash targets reason p)
                (IsFresh-IsNew env id db targets (fresh id drawn)) inv made
        ]
