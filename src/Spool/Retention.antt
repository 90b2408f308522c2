-- ===== src/Spool/Retention.antt =====
-- What CleanupCompleted removes.
use notification_manager.Base.{
  ℕ, zero, suc, ◌+◌, ◌≤◌, ◌≡◌, refl, ◌∙◌, subst, ◌⊎◌, inl, inr, true, Option, none, some, List, [],
  ◌∷◌, Str, arith, Option-cases, All, length, take,
}
use notification_manager.Bolt.{Bolt}
use notification_manager.Bolt.Laws.{get-delete}
use notification_manager.Spool.Types.{Target, Intake, Env, Db, ok}
use notification_manager.Spool.Outcome.{Result-cases}
use notification_manager.Spool.Cleanup.{
  is_confirmed, completed_rows, rows_of, remove_targets, apply_cleanup, plan_cleanup,
  cleanup_completed, examined, resume_from, tombstone,
}
use notification_manager.Spool.Invariant.{IsIndexed, IsSound}
use notification_manager.Spool.Invariant.Cleanup.{without}

-- Confirmed as completed, and not touched since the retention began.
abbrev pub IsExpired : ℕ → ℕ → Target → Type 0
IsExpired retention now t = (is_confirmed t ≡ true) × (t.updated_at + retention ≤ now)

abbrev pub ExpiredAt : ℕ → ℕ → Option Target → Type 0
ExpiredAt retention now none = ⊥
ExpiredAt retention now (some t) = IsExpired retention now t

-- Unchanged, or an expired target is gone.
abbrev pub Sweeps : ℕ → ℕ → Option Target → Option Target → Type 0
Sweeps retention now o o' = (o' ≡ o) ⊎ (ExpiredAt retention now o × (o' ≡ none))

Sweeps-trans :
    (retention now : ℕ) (a b c : Option Target)
    → Sweeps retention now a b
    → Sweeps retention now b c
    → Sweeps retention now a c
Sweeps-trans retention now a b c (inl e) k = subst (λ x. Sweeps retention now x c) e k
Sweeps-trans retention now a b c (inr (x, n)) (inl e) = inr (x, e ∙ n)
Sweeps-trans retention now a b c (inr (x, n)) (inr (y, m)) = inr (x, m)

module _ ⦃B : Bolt⦄ where
  open B use {get, put, delete, entries}

  -- At the identity of a row stands an expired target, or nothing any more.
  abbrev Expires : ℕ → ℕ → Db → Target → Type 0
  Expires retention now db t =
      ExpiredAt retention now (get db.targets t.id) ⊎ (get db.targets t.id ≡ none)

  without-Sweeps :
      (retention now : ℕ) (db : Db) (t : Target) (id : Str)
      → Expires retention now db t
      → Sweeps retention now (get db.targets id) (get (without t db).targets id)
  without-Sweeps retention now db t id e = ground (arith, get-delete db.targets t.id id)

  without-Expires :
      (retention now : ℕ) (db : Db) (t : Target) (us : List Target)
      → All (Expires retention now db) us
      → All (Expires retention now (without t db)) us
  without-Expires retention now db t [] a = tt
  without-Expires retention now db t (u ∷ us) a =
      ground (arith, get-delete db.targets t.id u.id, without-Expires retention now db t us a.1)

  remove_targets-Sweeps :
      (retention now : ℕ) (ts us : List Target) (db : Db) (id : Str)
      → All (Expires retention now db) ts
      → All (Expires retention now db) us
      → Sweeps retention now (get db.targets id) (get (remove_targets ts db).targets id)
        × All (Expires retention now (remove_targets ts db)) us
  unfolding remove_targets
  remove_targets-Sweeps retention now [] us db id a b = (inl refl, b)
  remove_targets-Sweeps retention now (t ∷ ts) us db id a b =
      let (first, rest) =
        remove_targets-Sweeps retention now ts us (without t db) id
          (without-Expires retention now db t ts a.1) (without-Expires retention now db t us b) in
      (
        Sweeps-trans retention now (get db.targets id) (get (without t db).targets id) _
            (without-Sweeps retention now db t id a.0) first,
        rest,
      )

  abbrev EachExpires : ℕ → ℕ → Db → List (Str × Intake × List Target) → Type 0
  EachExpires retention now db [] = Unit
  EachExpires retention now db ((k, i, ts) ∷ r) =
      All (Expires retention now db) ts × EachExpires retention now db r

  remove_targets-EachExpires :
      (retention now : ℕ) (ts : List Target) (cs : List (Str × Intake × List Target)) (db : Db)
      → All (Expires retention now db) ts
      → EachExpires retention now db cs
      → EachExpires retention now (remove_targets ts db) cs
  remove_targets-EachExpires retention now ts [] db a e = tt
  remove_targets-EachExpires retention now ts ((k, i, us) ∷ cs) db a e = (
    (remove_targets-Sweeps retention now ts us db [] a e.0).1,
    remove_targets-EachExpires retention now ts cs db a e.1,
  )

  apply_cleanup-Sweeps :
      (retention now : ℕ) (cs : List (Str × Intake × List Target)) (db : Db) (id : Str)
      → EachExpires retention now db cs
      → Sweeps retention now (get db.targets id) (get (apply_cleanup cs db).targets id)
  unfolding apply_cleanup
  apply_cleanup-Sweeps retention now [] db id e = inl refl
  apply_cleanup-Sweeps retention now ((k, i, ts) ∷ cs) db id e =
      Sweeps-trans retention now (get db.targets id) (get removed.targets id) _
        (remove_targets-Sweeps retention now ts [] db id e.0 tt).0
        (apply_cleanup-Sweeps retention now cs closed id
          (anew cs (remove_targets-EachExpires retention now ts cs db e.0 e.1)))
    where
      removed : Db
      removed = remove_targets ts db

      closed : Db
      closed = record removed { intakes = put removed.intakes k (tombstone i) }

      anew :
          (ds : List (Str × Intake × List Target))
          → EachExpires retention now removed ds
          → EachExpires retention now closed ds
      anew [] h = tt
      anew ((j, x, us) ∷ ds) h = (h.0, anew ds h.1)

  completed_rows-Expires :
      (retention now : ℕ) (db : Db) (ids : List Str) (ts : List Target)
      → IsIndexed db.targets db.ready db.blocked
      → completed_rows retention now db ids ≡ ok (some ts)
      → All (Expires retention now db) ts
  unfolding completed_rows
  completed_rows-Expires retention now db [] ts ix h = ground arith
  completed_rows-Expires retention now db (id ∷ ids) ts ix h =
      elim (Option-cases (get db.targets id)) [
        | inl e ↦ absurd (ground arith)
        | inr (t, e) ↦ elim (Result-cases (completed_rows retention now db ids)) [
          | inr (x, bad) ↦ absurd (ground arith)
          | inl (none, more) ↦ absurd (ground arith)
          | inl (some us, more) ↦
              ground
                (arith, completed_rows-Expires retention now db ids us ix more, ix.keyed id t e)
        ]
      ]

  plan_cleanup-EachExpires :
      (retention now : ℕ) (db : Db) (l : List (Str × Intake))
      (cs : List (Str × Intake × List Target))
      → IsIndexed db.targets db.ready db.blocked
      → plan_cleanup retention now db l ≡ ok cs
      → EachExpires retention now db cs × (length cs ≤ length l)
  unfolding plan_cleanup
  plan_cleanup-EachExpires retention now db [] cs ix h = ground arith
  plan_cleanup-EachExpires retention now db ((k, i) ∷ r) cs ix h =
      elim (Result-cases (rows_of retention now db i)) [
        | inr (x, bad) ↦ absurd (ground arith)
        | inl (found, e) ↦ elim (Result-cases (plan_cleanup retention now db r)) [
          | inr (x, bad) ↦ absurd (ground arith)
          | inl (ds, more) ↦ elim (Option-cases found) [
            | inl n ↦ ground (arith, plan_cleanup-EachExpires retention now db r ds ix more)
            | inr (ts, s) ↦ ground (
              arith,
              plan_cleanup-EachExpires retention now db r ds ix more,
              completed_rows-Expires retention now db i.target_ids ts ix
                  (unfold rows_of in ground arith),
            )
          ]
        ]
      ]

  length-take-le : (n : ℕ) (l : List (Str × Intake)) → length (take n l) ≤ n
  length-take-le zero l = omega arith
  length-take-le (suc n) [] = omega arith
  length-take-le (suc n) (x ∷ l) = omega (arith, length-take-le n l)

  remove_targets-dedupe : (ts : List Target) (db : Db) → (remove_targets ts db).dedupe ≡ db.dedupe
  unfolding remove_targets
  remove_targets-dedupe [] db = refl
  remove_targets-dedupe (t ∷ ts) db = remove_targets-dedupe ts (without t db)

  apply_cleanup-dedupe :
      (cs : List (Str × Intake × List Target)) (db : Db) → (apply_cleanup cs db).dedupe ≡ db.dedupe
  unfolding apply_cleanup
  apply_cleanup-dedupe [] db = refl
  apply_cleanup-dedupe ((k, i, ts) ∷ cs) db =
      let removed : Db = remove_targets ts db in
      apply_cleanup-dedupe cs (record removed { intakes = put removed.intakes k (tombstone i) })
      ∙ remove_targets-dedupe ts db

  -- A cleanup leaves each target as it is, or removes it; what it removes was delivered, or given up
  -- by an operator, and was not touched for the retention. It closes no more intakes than the batch,
  -- and forgets no idempotency key.
  pub cleanup_completed-Sweeps :
      (env : Env) (retention batch now : ℕ) (db : Db) (n : ℕ) (db' : Db)
      → IsSound db
      → cleanup_completed env retention batch now db ≡ ok (n, db')
      → ((id : Str) → Sweeps retention now (get db.targets id) (get db'.targets id))
        × (n ≤ batch)
        × (db'.dedupe ≡ db.dedupe)
  unfolding cleanup_completed
  cleanup_completed-Sweeps env retention batch now db n db' inv h =
      elim (Result-cases (plan_cleanup retention now db (examined batch db))) [
        | inr (x, bad) ↦ absurd (ground arith)
        | inl (cs, e) ↦
            let (each, few) =
              plan_cleanup-EachExpires retention now db (examined batch db) cs inv.0 e in
            let same : (apply_cleanup cs db).targets ≡ db'.targets = ground arith in
            (
              λ id.
                  subst (λ b. Sweeps retention now (get db.targets id) (get b id)) same
                    (apply_cleanup-Sweeps retention now cs db id each),
              ground (
                arith,
                few,
                length-take-le batch (resume_from db.cleanup_cursor (entries db.intakes)),
              ),
              ground (arith, apply_cleanup-dedupe cs db),
            )
      ]
