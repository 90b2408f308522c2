-- ===== src/Spool/Dependents.antt =====
-- A delivery releases the targets that wait for it.
use mathlib.Core.List.{Memᴰ}
use notification_manager.Base.{
  ℕ, suc, ◌≡◌, ◌≢◌, refl, sym, ap, ◌∙◌, subst, inl, inr, true, none, some, List, [], ◌∷◌, Str,
  contains, arith, Bool-cases,
}
use notification_manager.Base.Order.{str_lt_ne}
use notification_manager.Bolt.{Bolt}
use notification_manager.Bolt.Laws.{get-put, get-delete, mem_of_get}
use notification_manager.Spool.Types.{delivered, Target, Claim, Env, Db, ok}
use notification_manager.Spool.Counter.{queue_key, lower_active_count, active_state}
use notification_manager.Spool.Finish.{
  depends_on, dependents, release_one, release_all, release_dependents, settle, moved_to, finish,
}
use notification_manager.Spool.QueueKey.{queue_key-id}
use notification_manager.Spool.Invariant.{IsIndexed, IsSound}
use notification_manager.Spool.Invariant.Moves.{stay}
use notification_manager.Spool.Invariant.Release.{
  Waits, Rising, Rising-mono, Rising-Apart, Apart, dependents_round, release_dependents_parts,
}
use notification_manager.Spool.Invariant.Settle.{
  Prepared, put_back, Finished, finish-Finished, finish-Prepared,
}

module _ ⦃B : Bolt⦄ where
  open B use {get, put, delete, entries}

  -- In the queue, available from some time on, and not blocked.
  abbrev pub IsReleased : Db → Target → Type 0
  IsReleased db u =
      (now : ℕ) × (get db.ready (queue_key (record u { available_at = now })) ≡ some u.id)
      × (get db.blocked u.id ≡ none)

  dependents-complete :
      (db : Db) (parent : Target) (k id : Str) (u : Target) (l : List (Str × Str))
      (ts : List Target)
      → dependents db parent l ≡ ok ts
      → Memᴰ (k, id) l
      → get db.targets id ≡ some u
      → depends_on parent u ≡ true
      → Memᴰ u ts
  dependents-complete db parent k id u [] ts h m here dep = elim m [ ]
  dependents-complete db parent k id u ((j, i) ∷ r) ts h (Memᴰ.head e) here dep =
      let (t, us, held, more, ts_is) = dependents_round db parent j i r ts h in
      subst (Memᴰ u) (sym ts_is) (
        let same : u ≡ t = ground (arith, ap (λ x. x.1) e) in
        rw (ap (depends_on parent) (sym same) ∙ dep) (Memᴰ.head same))
  dependents-complete db parent k id u ((j, i) ∷ r) ts h (Memᴰ.tail m) here dep =
      let (t, us, held, more, ts_is) = dependents_round db parent j i r ts h in
      let later : Memᴰ u us = dependents-complete db parent k id u r us more m here dep in
      subst (Memᴰ u) (sym ts_is) (elim (Bool-cases (depends_on parent t)) [
        | inl y ↦ rw y (Memᴰ.tail later)
        | inr n ↦ rw n later
      ])

  -- Later releases leave a released target in its place.
  release_one-IsReleased :
      (db : Db) (now : ℕ) (t u : Target)
      → t.id ≢ u.id
      → IsReleased db u
      → IsReleased (release_one now t db) u
  unfolding release_one
  release_one-IsReleased db now t u n (w, place, free) = (
    w,
    ground (
      arith,
      get-put db.ready (queue_key (record t { available_at = now })) t.id
          (queue_key (record u { available_at = w })),
      queue_key-id (record t { available_at = now }) (record u { available_at = w }),
    ),
    ground (arith, get-delete db.blocked t.id u.id),
  )

  release_all-IsReleased :
      (clock : ℕ → ℕ) (i : ℕ) (ts : List Target) (db : Db) (u : Target)
      → Rising u.id ts
      → IsReleased db u
      → IsReleased (release_all clock i ts db) u
  unfolding release_all
  release_all-IsReleased clock i [] db u r x = x
  release_all-IsReleased clock i (t ∷ ts) db u r x =
      release_all-IsReleased clock (suc i) ts (release_one (clock i) t db) u
        (Rising-mono u.id t.id ts r.0 r.1)
        (release_one-IsReleased db (clock i) t u (λ e. str_lt_ne u.id t.id r.0 (sym e)) x)

  release_all-member :
      (clock : ℕ → ℕ) (i : ℕ) (ts : List Target) (db : Db) (u : Target)
      → Apart ts
      → Memᴰ u ts
      → IsReleased (release_all clock i ts db) u
  unfolding release_all release_one
  release_all-member clock i [] db u a m = elim m [ ]
  release_all-member clock i (t ∷ ts) db u a (Memᴰ.head e) =
      release_all-IsReleased clock (suc i) ts (release_one (clock i) t db) u (rw e a) (
        clock i,
        rw e (
            ground (
              arith,
              get-put db.ready (queue_key (record t { available_at = clock i })) t.id
                  (queue_key (record t { available_at = clock i })),
            )),
        rw e (ground (arith, get-delete db.blocked t.id t.id)),
      )
  release_all-member clock i (t ∷ ts) db u a (Memᴰ.tail m) =
      release_all-member clock (suc i) ts (release_one (clock i) t db) u (Rising-Apart t.id ts a) m

  release_dependents-IsReleased :
      (clock : ℕ → ℕ) (i : ℕ) (parent u : Target) (db db' : Db)
      → IsIndexed db.targets db.ready db.blocked
      → release_dependents clock i parent db ≡ ok db'
      → Waits db u
      → depends_on parent u ≡ true
      → IsReleased db' u
  release_dependents-IsReleased clock i parent u db db' ix h w dep =
      let (ts, _, a, e, found) = release_dependents_parts clock i parent db db' ix h in
      subst (λ (d : Db). IsReleased d u) (sym e)
        (release_all-member clock i ts db u a (
          dependents-complete db parent u.id u.id u (entries db.blocked) ts found
            (mem_of_get db.blocked u.id u.id w.1) w.0 dep))

  -- When an attempt is completed as delivered, every target of the same intake that is blocked behind
  -- this content leaves the blocked index and stands in the queue.
  pub finish-releases :
      (env : Env) (owner : Str) (c : Claim) (outcome evidence : Str) (next : ℕ) (db db' : Db)
      (parent u : Target)
      → IsSound db
      → finish env owner c delivered outcome evidence next db ≡ ok db'
      → get db.targets c.target.id ≡ some parent
      → Waits db u
      → u.intake_id ≡ parent.intake_id
      → contains u.dependency_revisions parent.content_revision ≡ true
      → IsReleased db' u
  unfolding settle lower_active_count active_state
  finish-releases env owner c outcome evidence next db db' parent u inv h here w same dep =
      release_dependents-IsReleased env.clock 1 moved u (put_back f.counted moved) db'
        (stay prepared.0 f.target moved prepared.1 refl (ground (arith, f.was_sending)) refl)
        f.settled
        (
          ground (arith, get-put f.counted.targets moved.id moved u.id, targets_same, w.0, apart),
          ground (arith, blocked_same, w.1),
        )
        (ground (arith, is_parent, same, dep))
    where
      f : Finished env owner c delivered outcome evidence next db db'
      f = finish-Finished env owner c delivered outcome evidence next db db' h

      moved : Target
      moved = moved_to f.target delivered outcome evidence (env.clock 0)

      is_parent : f.target ≡ parent
      is_parent = ground (arith, f.held, here)

      home : get db.targets f.target.id ≡ some f.target
      home = rw (inv.0.keyed c.target.id f.target f.held) f.held

      prepared : Prepared f.target moved f.counted
      prepared =
          finish-Prepared f.target moved delivered db f.counted inv home refl f.was_sending refl
            f.counts

      targets_same : f.counted.targets ≡ db.targets
      targets_same = ground (arith, f.counts)

      blocked_same : f.counted.blocked ≡ db.blocked
      blocked_same = ground (arith, f.counts)

      apart : moved.id ≢ u.id
      apart e = ground (arith, inv.0.blocked_sound u.id w.1, w.0, home, e, f.was_sending)
