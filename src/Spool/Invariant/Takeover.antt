-- ===== src/Spool/Invariant/Takeover.antt =====
-- Open makes the counter anew, and leaves no target in the state sending.
use mathlib.Core.List.{Memᴰ}
use notification_manager.Base.{
  ℕ, suc, ◌≤◌, ◌≡◌, refl, sym, subst, inl, inr, true, false, Option, none, some, List, [], ◌∷◌, Str,
  lit, arith, Option-cases, Bool-cases, All,
}
use notification_manager.Bolt.{Bolt}
use notification_manager.Bolt.Laws.{get-put, get_of_mem, count}
use notification_manager.Spool.Types.{unknown, Target, Env, Db, ok}
use notification_manager.Spool.Counter.{active_state, set_active_count}
use notification_manager.Spool.Claim.{is_claimable}
use notification_manager.Spool.Finish.{is_sending}
use notification_manager.Spool.Open.{count_active, interruptions, put_targets, take_over}
use notification_manager.Spool.Invariant.{IsIndexed, IsTallied, IsSound, is_active}
use notification_manager.Spool.Invariant.Moves.{stay, tally_same}

count_active-count :
    (l : List (Str × Target))
    → count is_active l ≤ 9223372036854775807
    → count_active l ≡ count is_active l
unfolding count count_active
count_active-count [] h = refl
count_active-count ((k, t) ∷ r) h = ground (arith, count_active-count r)

module _ ⦃B : Bolt⦄ where
  open B use {get, put, entries}

  abbrev Idle : Option Target → Type 0
  Idle none = ⊥
  Idle (some s) = (is_claimable s.state ≡ false) × (is_active s ≡ true)

  -- A record that may be put over an active one that is in no index.
  abbrev Replaceable : Db → Target → Type 0
  Replaceable db t = (t.state ≡ unknown) × Idle (get db.targets t.id)

  put_one : Db → Target → Db
  put_one db t = record db { targets = put db.targets t.id t }

  put_one-IsSound : (db : Db) (t : Target) → IsSound db → Replaceable db t → IsSound (put_one db t)
  unfolding put_one active_state
  put_one-IsSound db t (ix, tally) (at, idle) = elim (Option-cases (get db.targets t.id)) [
    | inl e ↦ absurd (subst Idle e idle)
    | inr (s, e) ↦
        let known : Idle (some s) = subst Idle e idle in
        let same : s.id ≡ t.id = ix.keyed t.id s e in
        (
          stay ix s t (subst (λ x. get db.targets x ≡ some s) (sym same) e) (sym same) known.0
              (ground arith),
          tally_same tally t.id t (rw e (ground arith)),
        )
  ]

  put_one-Replaceable :
      (db : Db) (t : Target) (us : List Target)
      → t.state ≡ unknown
      → All (Replaceable db) us
      → All (Replaceable (put_one db t)) us
  unfolding put_one active_state
  put_one-Replaceable db t [] at r = tt
  put_one-Replaceable db t (u ∷ us) at r =
      ground (arith, get-put db.targets t.id t u.id, put_one-Replaceable db t us at r.1)

  put_targets-IsSound :
      (ts : List Target) (db : Db)
      → IsSound db
      → All (Replaceable db) ts
      → IsSound (put_targets ts db)
  unfolding put_targets put_one
  put_targets-IsSound [] db inv r = inv
  put_targets-IsSound (t ∷ ts) db inv r =
      put_targets-IsSound ts (put_one db t) (put_one-IsSound db t inv r.0)
        (put_one-Replaceable db t ts r.0.0 r.1)

  interruptions-Replaceable :
      (clock : ℕ → ℕ) (i : ℕ) (db : Db) (l : List (Str × Target))
      → IsIndexed db.targets db.ready db.blocked
      → ((k : Str) (t : Target) → Memᴰ (k, t) l → get db.targets k ≡ some t)
      → All (Replaceable db) (interruptions clock i l)
  unfolding interruptions active_state
  interruptions-Replaceable clock i db [] ix held = tt
  interruptions-Replaceable clock i db ((k, t) ∷ r) ix held =
      elim (Bool-cases (is_sending t.state)) [
        | inl on ↦ rw on (
          (
            refl,
            rw (ix.keyed k t (held k t (Memᴰ.head refl)), held k t (Memᴰ.head refl)) (ground arith),
          ),
          interruptions-Replaceable clock (suc i) db r ix (λ j u m. held j u (Memᴰ.tail m)),
        )
        | inr off ↦
            rw off (interruptions-Replaceable clock i db r ix (λ j u m. held j u (Memᴰ.tail m)))
      ]

  -- The counter of the file may be anything; it is made anew.
  pub take_over-IsSound :
      (env : Env) (owner : Str) (db db' : Db)
      → IsIndexed db.targets db.ready db.blocked
      → count is_active (entries db.targets) ≤ 9223372036854775807
      → take_over env owner db ≡ ok db'
      → IsSound db'
  unfolding take_over set_active_count
  take_over-IsSound env owner db db' ix small h =
      subst IsSound {x = put_targets (interruptions env.clock 0 (entries db.targets)) counted}
        {y = db'} (ground arith)
        (put_targets-IsSound _ counted (ix, tally)
          (interruptions-Replaceable env.clock 0 counted (entries db.targets) ix
            (λ k t m. get_of_mem db.targets k t m)))
    where
      counted : Db
      counted = record db {
        version = some (lit "1");
        owner = owner;
        active_targets = count_active (entries db.targets);
      }

      tally : IsTallied db.targets counted.active_targets
      tally = record {
        counted = count_active-count (entries db.targets) small;
        bounded = omega (arith, count_active-count (entries db.targets) small);
      }
