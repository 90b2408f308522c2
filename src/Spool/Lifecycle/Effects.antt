-- ===== src/Spool/Lifecycle/Effects.antt =====
-- What each operation does to each target.
use notification_manager.Base.{
  ℕ, suc, ◌≡◌, refl, sym, ap, ◌∙◌, subst, true, false, some, List, [], ◌∷◌, Str, arith, All,
  dec_str, ite,
}
use notification_manager.Bolt.{Bolt}
use notification_manager.Bolt.Laws.{get-put}
use notification_manager.Spool.Types.{
  State, delivered, retryable, unknown, dead_letter, Target, Claim, Env, Db, ok,
}
use notification_manager.Spool.Counter.{lower_active_count}
use notification_manager.Spool.Claim.{
  is_claimable, decode_into, attempted, claim, claim_for_recovery,
}
use notification_manager.Spool.Finish.{
  is_completion, release_one, release_all, release_dependents, settle, moved_to, available_from,
  finish,
}
use notification_manager.Spool.Invariant.{IsIndexed, IsSound}
use notification_manager.Spool.Invariant.Claims.{Claimed, claim-Claimed}
use notification_manager.Spool.Invariant.Recovery.{Recovered, claim_for_recovery-Recovered}
use notification_manager.Spool.Invariant.Release.{
  Waits, Apart, Rising-Apart, release_one-Waits, release_dependents_parts,
}
use mathlib.Core.Path.{subst₂}
use notification_manager.Spool.Types.{Limits}
use notification_manager.Base.{◌≤◌, lit}
use notification_manager.Spool.Counter.{raise_active_count}
use notification_manager.Spool.Finish.{resolve, recount}
use notification_manager.Spool.Invariant.Moves.{stay}
use notification_manager.Spool.Invariant.Settle.{
  Prepared, put_back, queue_again, Finished, finish-Finished, finish-Prepared, available_from_keeps,
}
use notification_manager.Spool.Invariant.Resolve.{Reconciled, resolve-Reconciled, recount-Prepared}
use notification_manager.Spool.Lifecycle.{phase, held, Edge, keep, taken, completed, reconciled}

module _ ⦃B : Bolt⦄ where
  open B use {Bucket, get, put, delete, entries}

  abbrev pub Moves : Db → Db → Str → Type 0
  Moves db db' id = Edge (phase (get db.targets id)) (phase (get db'.targets id))

  -- A put moves the target under its key, and no other.
  put-Moves :
      (b : Bucket Target) (k : Str) (t : Target) (id : Str)
      → Edge (phase (get b k)) (held t.state)
      → Edge (phase (get b id)) (phase (get (put b k t) id))
  put-Moves b k t id e = rw (get-put b k t id) (elim (dec_str k id) [
    | yes same ↦
        subst (λ x. Edge (phase (get b x)) (phase (ite (dec_str k x) (some t) (get b x)))) same
          (at_home (dec_str k k))
    | no other ↦ away (dec_str k id) other
  ])
    where
      at_home : (d : Dec (k ≡ k)) → Edge (phase (get b k)) (phase (ite d (some t) (get b k)))
      at_home (yes p) = e
      at_home (no n) = absurd (n refl)

      away :
          (d : Dec (k ≡ id))
          → (k ≡ id → ⊥)
          → Edge (phase (get b id)) (phase (ite d (some t) (get b id)))
      away (yes p) n = absurd (n p)
      away (no _) n = keep refl

  pub claim-Moves :
      (env : Env) (owner : Str) (now : ℕ) (db : Db) (c : Claim) (db' : Db) (id : Str)
      → IsSound db
      → claim env owner now db ≡ ok (c, db')
      → Moves db db' id
  unfolding attempted decode_into
  claim-Moves env owner now db c db' id (ix, tally) h =
      subst (λ d. Moves db d id) (sym out.db_is)
        (put-Moves db.targets out.target.id (attempted out.target owner out.attempt now) id (
          taken out.found.stored.state (ap phase at)
            (ground (arith, out.claimable, out.found.decoded)) refl))
    where
      out : Claimed env owner now db c db'
      out = claim-Claimed env owner now db c db' h

      same : out.target.id ≡ out.found.id
      same =
          ap (λ t. t.id) out.found.decoded ∙ ix.keyed out.found.id out.found.stored out.found.held

      at : get db.targets out.target.id ≡ some out.found.stored
      at = rw same out.found.held

  pub claim_for_recovery-Moves :
      (env : Env) (owner k actor evidence : Str) (now : ℕ) (db : Db) (c : Claim) (db' : Db)
      (id : Str)
      → claim_for_recovery env owner k actor evidence now db ≡ ok (c, db')
      → Moves db db' id
  unfolding attempted
  claim_for_recovery-Moves env owner k actor evidence now db c db' id h =
      subst (λ d. Moves db d id) (sym out.db_is)
        (put-Moves db.targets k (attempted out.target owner out.attempt now) id
          (taken out.target.state (ap phase out.held) out.claimable refl))
    where
      out : Recovered env owner k actor evidence now db c db'
      out = claim_for_recovery-Recovered env owner k actor evidence now db c db' h

  -- A release changes no state.
  release_one-phase :
      (db : Db) (now : ℕ) (t : Target) (id : Str)
      → get db.targets t.id ≡ some t
      → phase (get (release_one now t db).targets id) ≡ phase (get db.targets id)
  unfolding release_one
  release_one-phase db now t id at =
      ground (arith, get-put db.targets t.id (record t { available_at = now }) id)

  release_all-phase :
      (clock : ℕ → ℕ) (i : ℕ) (ts : List Target) (db : Db) (id : Str)
      → All (Waits db) ts
      → Apart ts
      → phase (get (release_all clock i ts db).targets id) ≡ phase (get db.targets id)
  unfolding release_all
  release_all-phase clock i [] db id w a = refl
  release_all-phase clock i (t ∷ ts) db id w a =
      release_all-phase clock (suc i) ts (release_one (clock i) t db) id
        (release_one-Waits db (clock i) t ts a w.1) (Rising-Apart t.id ts a)
      ∙ release_one-phase db (clock i) t id w.0.0

  release_dependents-phase :
      (clock : ℕ → ℕ) (i : ℕ) (parent : Target) (db db' : Db) (id : Str)
      → IsIndexed db.targets db.ready db.blocked
      → release_dependents clock i parent db ≡ ok db'
      → phase (get db'.targets id) ≡ phase (get db.targets id)
  release_dependents-phase clock i parent db db' id ix h =
      let (ts, w, a, e, _) = release_dependents_parts clock i parent db db' ix h in
      ap (λ d. phase (get d.targets id)) e ∙ release_all-phase clock i ts db id w a

  settle-phase :
      (clock : ℕ → ℕ) (i : ℕ) (s t : Target) (state : State) (db db' : Db) (id : Str)
      → Prepared s t db
      → t.state ≡ state
      → t.id ≡ s.id
      → is_claimable s.state ≡ false
      → is_completion state ≡ true
      → settle clock i t db ≡ ok db'
      → phase (get db'.targets id) ≡ phase (get (put db.targets t.id t) id)
  unfolding settle
  settle-phase clock i s t delivered db db' id (ix, here, tally) at same busy done h =
      release_dependents-phase clock i t (put_back db t) db' id
        (stay ix s t here same busy (ground arith)) (ground arith)
  settle-phase clock i s t retryable db db' id p at same busy done h =
      ap (λ (d : Db). phase (get d.targets id)) {x = db'} {y = queue_again db t} (ground arith)
  settle-phase clock i s t unknown db db' id p at same busy done h =
      ap (λ (d : Db). phase (get d.targets id)) {x = db'} {y = put_back db t} (ground arith)
  settle-phase clock i s t dead_letter db db' id p at same busy done h =
      ap (λ (d : Db). phase (get d.targets id)) {x = db'} {y = put_back db t} (ground arith)
  settle-phase clock i s t _ db db' id p at same busy done h = cc

  -- A record that is settled moves along the edge at its own identity.
  settle-Moves :
      (clock : ℕ → ℕ) (i : ℕ) (s t : Target) (state : State) (db counted db' : Db) (id : Str)
      → counted.targets ≡ db.targets
      → Prepared s t counted
      → t.state ≡ state
      → t.id ≡ s.id
      → is_claimable s.state ≡ false
      → is_completion state ≡ true
      → Edge (held s.state) (held state)
      → settle clock i t counted ≡ ok db'
      → Moves db db' id
  settle-Moves clock i s t state db counted db' id eq p at same busy done e h =
      subst (λ (b : Bucket Target). Edge (phase (get b id)) (phase (get db'.targets id))) eq
        (subst (Edge (phase (get counted.targets id)))
          (sym (settle-phase clock i s t state counted db' id p at same busy done h))
          (put-Moves counted.targets t.id t id
            (subst₂ Edge (sym (ap phase here)) (ap held (sym at)) e)))
    where
      here : get counted.targets t.id ≡ some s
      here = subst (λ x. get counted.targets x ≡ some s) (sym same) p.1

  pub finish-Moves :
      (env : Env) (owner : Str) (c : Claim) (state : State) (outcome evidence : Str) (next : ℕ)
      (db db' : Db) (id : Str)
      → IsSound db
      → finish env owner c state outcome evidence next db ≡ ok db'
      → Moves db db' id
  unfolding lower_active_count
  finish-Moves env owner c state outcome evidence next db db' id inv h =
      settle-Moves env.clock 1 f.target new state db f.counted db' id (ground (arith, f.counts))
        (finish-Prepared f.target new state db f.counted inv here keeps.0 f.was_sending keeps.1
          f.counts)
        keeps.1 keeps.0 (ground (arith, f.was_sending)) f.legal
        (completed state (ap held f.was_sending) f.legal refl) f.settled
    where
      f : Finished env owner c state outcome evidence next db db'
      f = finish-Finished env owner c state outcome evidence next db db' h

      moved : Target
      moved = moved_to f.target state outcome evidence (env.clock 0)

      new : Target
      new = available_from state next moved

      keeps : (new.id ≡ moved.id) × (new.state ≡ moved.state)
      keeps = available_from_keeps state next moved

      here : get db.targets f.target.id ≡ some f.target
      here = rw (inv.0.keyed c.target.id f.target f.held) f.held

  -- The target of a completion is in the state that was asked for.
  pub finish-phase :
      (env : Env) (owner : Str) (c : Claim) (state : State) (outcome evidence : Str) (next : ℕ)
      (db db' : Db)
      → IsSound db
      → finish env owner c state outcome evidence next db ≡ ok db'
      → phase (get db'.targets c.target.id) ≡ held state
  finish-phase env owner c state outcome evidence next db db' inv h =
      settle-phase env.clock 1 f.target new state f.counted db' c.target.id
        (finish-Prepared f.target new state db f.counted inv here keeps.0 f.was_sending keeps.1
          f.counts)
        keeps.1 keeps.0 (ground (arith, f.was_sending)) f.legal f.settled
      ∙ ground (arith, get-put f.counted.targets new.id new c.target.id, keeps.0, keeps.1, home)
    where
      f : Finished env owner c state outcome evidence next db db'
      f = finish-Finished env owner c state outcome evidence next db db' h

      moved : Target
      moved = moved_to f.target state outcome evidence (env.clock 0)

      new : Target
      new = available_from state next moved

      keeps : (new.id ≡ moved.id) × (new.state ≡ moved.state)
      keeps = available_from_keeps state next moved

      home : f.target.id ≡ c.target.id
      home = inv.0.keyed c.target.id f.target f.held

      here : get db.targets f.target.id ≡ some f.target
      here = rw home f.held

  pub resolve-Moves :
      (env : Env) (limits : Limits) (k : Str) (state : State) (actor evidence : Str) (db db' : Db)
      (id : Str)
      → limits.max_targets ≤ 9223372036854775807
      → IsSound db
      → resolve env limits k state actor evidence db ≡ ok db'
      → Moves db db' id
  unfolding recount lower_active_count raise_active_count
  resolve-Moves env limits k state actor evidence db db' id small inv h =
      settle-Moves env.clock 3 f.target new state db f.counted db' id (ground (arith, f.counts))
        (recount-Prepared limits f.target new state _ f.counted small inv here keeps.0 keeps.1
          f.counts)
        keeps.1 keeps.0 (ground (arith, f.was_open)) (ground (arith, f.legal))
        (reconciled f.target.state state refl f.was_open f.legal refl) f.settled
    where
      f : Reconciled env limits k state actor evidence db db'
      f = resolve-Reconciled env limits k state actor evidence db db' h

      moved : Target
      moved = moved_to f.target state (lit "operator_reconciled") evidence (env.clock 1)

      new : Target
      new = available_from state (env.clock 2) moved

      keeps : (new.id ≡ moved.id) × (new.state ≡ moved.state)
      keeps = available_from_keeps state (env.clock 2) moved

      here : get db.targets f.target.id ≡ some f.target
      here = rw (inv.0.keyed k f.target f.held) f.held
