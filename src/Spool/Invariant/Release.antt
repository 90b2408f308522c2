-- ===== src/Spool/Invariant/Release.antt =====
-- releaseDependents keeps the database sound.
use mathlib.Core.List.{Memᴰ}
use notification_manager.Base.{
  ℕ, suc, ◌≡◌, refl, sym, subst, inl, inr, true, some, List, [], ◌∷◌, Str, arith, Option-cases, All,
  str_lt, if◌then◌else◌,
}
use notification_manager.Base.Order.{str_lt_trans, str_lt_ne}
use notification_manager.Bolt.{Bolt, Above, IsSorted}
use notification_manager.Bolt.Laws.{get-put, get-delete, get_of_mem}
use notification_manager.Spool.Types.{Target, Db, ok}
use notification_manager.Spool.Outcome.{Result-cases}
use notification_manager.Spool.Counter.{active_state}
use notification_manager.Spool.Finish.{
  depends_on, dependents, release_one, release_all, release_dependents,
}
use notification_manager.Spool.Invariant.{IsIndexed, IsSound}
use notification_manager.Spool.Invariant.Moves.{release, tally_same}

-- The identities rise in the byte order, and stand above a bound.
abbrev pub Rising : Str → List Target → Type 0
Rising k [] = Unit
Rising k (t ∷ ts) = (str_lt k t.id ≡ true) × Rising t.id ts

pub Rising-mono : (j k : Str) (ts : List Target) → str_lt j k ≡ true → Rising k ts → Rising j ts
Rising-mono j k [] h r = tt
Rising-mono j k (t ∷ ts) h r = (str_lt_trans j k t.id h r.0, r.1)

module _ ⦃B : Bolt⦄ where
  open B use {get, put, delete, entries, entries-IsSorted}

  -- Stored, and in the blocked index.
  abbrev pub Waits : Db → Target → Type 0
  Waits db t = (get db.targets t.id ≡ some t) × (get db.blocked t.id ≡ some t.id)

  abbrev EachHeld : Db → List (Str × Str) → Type 0
  EachHeld db [] = Unit
  EachHeld db ((k, id) ∷ r) = (get db.blocked k ≡ some id) × EachHeld db r

  entries-EachHeld :
      (db : Db) (l : List (Str × Str))
      → ((k id : Str) → Memᴰ (k, id) l → get db.blocked k ≡ some id)
      → EachHeld db l
  entries-EachHeld db [] f = tt
  entries-EachHeld db ((k, id) ∷ r) f =
      (f k id (Memᴰ.head refl), entries-EachHeld db r (λ j i m. f j i (Memᴰ.tail m)))

  -- One round of the loop over the blocked index.
  pub dependents_round :
      (db : Db) (parent : Target) (j id : Str) (rest : List (Str × Str)) (ts : List Target)
      → dependents db parent ((j, id) ∷ rest) ≡ ok ts
      → (t : Target) × (us : List Target) × (get db.targets id ≡ some t)
        × (dependents db parent rest ≡ ok us)
        × (ts ≡ (if depends_on parent t then t ∷ us else us))
  unfolding dependents
  dependents_round db parent j id rest ts h = elim (Option-cases (get db.targets id)) [
    | inl e ↦ absurd (ground arith)
    | inr (t, e) ↦ elim (Result-cases (dependents db parent rest)) [
      | inr (x, bad) ↦ absurd (ground arith)
      | inl (us, more) ↦ (t, us, e, more, ground arith)
    ]
  ]

  dependents-Waits :
      (db : Db) (parent : Target) (k : Str) (l : List (Str × Str)) (ts : List Target)
      → IsIndexed db.targets db.ready db.blocked
      → EachHeld db l
      → Above k l
      → dependents db parent l ≡ ok ts
      → All (Waits db) ts × Rising k ts
  dependents-Waits db parent k [] ts ix held up h = unfold dependents in ground arith
  dependents-Waits db parent k ((j, id) ∷ rest) ts ix held up h =
      let (t, us, e, more, ts_is) = dependents_round db parent j id rest ts h in
      ground (
        arith,
        dependents-Waits db parent j rest us ix held.1 up.1 more,
        ix.blocked_key j id held.0,
        ix.keyed id t e,
        Rising-mono k j us up.0,
      )

  abbrev pub Apart : List Target → Type 0
  Apart [] = Unit
  Apart (t ∷ ts) = Rising t.id ts

  pub Rising-Apart : (k : Str) (ts : List Target) → Rising k ts → Apart ts
  Rising-Apart k [] r = tt
  Rising-Apart k (t ∷ ts) r = r.1

  dependents-Apart :
      (db : Db) (parent : Target) (l : List (Str × Str)) (ts : List Target)
      → IsIndexed db.targets db.ready db.blocked
      → EachHeld db l
      → IsSorted l
      → dependents db parent l ≡ ok ts
      → All (Waits db) ts × Apart ts
  dependents-Apart db parent [] ts ix held up h = unfold dependents in ground arith
  dependents-Apart db parent ((j, id) ∷ rest) ts ix held up h =
      let (t, us, e, more, ts_is) = dependents_round db parent j id rest ts h in
      ground (
        arith,
        dependents-Waits db parent j rest us ix held.1 up more,
        ix.blocked_key j id held.0,
        ix.keyed id t e,
        Rising-Apart j us,
      )

  -- A release leaves the targets behind it waiting.
  pub release_one-Waits :
      (db : Db) (now : ℕ) (t : Target) (ts : List Target)
      → Rising t.id ts
      → All (Waits db) ts
      → All (Waits (release_one now t db)) ts
  unfolding release_one
  release_one-Waits db now t [] r w = tt
  release_one-Waits db now t (u ∷ us) r w = ground (
    arith,
    get-put db.targets t.id (record t { available_at = now }) u.id,
    get-delete db.blocked t.id u.id,
    str_lt_ne t.id u.id r.0,
    release_one-Waits db now t us (Rising-mono t.id u.id us r.0 r.1) w.1,
  )

  release_one-IsSound :
      (db : Db) (now : ℕ) (t : Target) → IsSound db → Waits db t → IsSound (release_one now t db)
  unfolding release_one active_state
  release_one-IsSound db now t (ix, tally) (held, waits) = (
    release ix t (record t { available_at = now }) held refl waits
        (ground (arith, ix.blocked_sound t.id waits)),
    tally_same tally t.id (record t { available_at = now }) (ground arith),
  )

  release_all-IsSound :
      (clock : ℕ → ℕ) (i : ℕ) (ts : List Target) (db : Db)
      → IsSound db
      → All (Waits db) ts
      → Apart ts
      → IsSound (release_all clock i ts db)
  unfolding release_all
  release_all-IsSound clock i [] db inv w a = inv
  release_all-IsSound clock i (t ∷ ts) db inv w a =
      release_all-IsSound clock (suc i) ts (release_one (clock i) t db)
        (release_one-IsSound db (clock i) t inv w.0) (release_one-Waits db (clock i) t ts a w.1)
        (Rising-Apart t.id ts a)

  pub release_dependents_parts :
      (clock : ℕ → ℕ) (i : ℕ) (parent : Target) (db db' : Db)
      → IsIndexed db.targets db.ready db.blocked
      → release_dependents clock i parent db ≡ ok db'
      → (ts : List Target) × All (Waits db) ts
        × Apart ts
        × (db' ≡ release_all clock i ts db)
        × (dependents db parent (entries db.blocked) ≡ ok ts)
  unfolding release_dependents
  release_dependents_parts clock i parent db db' ix h =
      elim (Result-cases (dependents db parent (entries db.blocked))) [
        | inr (x, bad) ↦ absurd (ground arith)
        | inl (ts, e) ↦
            let (w, a) =
              dependents-Apart db parent (entries db.blocked) ts ix
                (entries-EachHeld db (entries db.blocked) (λ k id m. get_of_mem db.blocked k id m))
                (entries-IsSorted db.blocked) e in
            (ts, w, a, ground arith, e)
      ]

  pub release_dependents-IsSound :
      (clock : ℕ → ℕ) (i : ℕ) (parent : Target) (db db' : Db)
      → IsSound db
      → release_dependents clock i parent db ≡ ok db'
      → IsSound db'
  release_dependents-IsSound clock i parent db db' inv h =
      let (ts, w, a, e, _) = release_dependents_parts clock i parent db db' inv.0 h in
      subst IsSound (sym e) (release_all-IsSound clock i ts db inv w a)
