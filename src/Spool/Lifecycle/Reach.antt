-- ===== src/Spool/Lifecycle/Reach.antt =====
-- What holds of a spool in every run.
use notification_manager.Base.{
  ◌≡◌, sym, ◌∙◌, subst, ◌⊎◌, inl, inr, Option, none, some, [], Str, arith, Option-cases,
}
use notification_manager.Bolt.{Bolt}
use notification_manager.Bolt.Laws.{get-empty, count-empty}
use notification_manager.Spool.Types.{delivered, Target, Limits, Env, Db, ok}
use notification_manager.Spool.Outcome.{Result-cases}
use notification_manager.Spool.Health.{Store, CommitError}
use notification_manager.Spool.Open.{default_limits, take_over, open_store}
use notification_manager.Spool.Calls.{Call, step}
use notification_manager.Spool.Invariant.{IsIndexed, IsSound, is_active}
use notification_manager.Spool.Invariant.Takeover.{take_over-IsSound}
use notification_manager.Spool.Lifecycle.{
  phase, absent, held, keep, accepted, taken, completed, reconciled, removed,
}
use notification_manager.Spool.Lifecycle.Restart.{Restarted, take_over-Restarted}
use notification_manager.Spool.Lifecycle.Effects.{Moves}
use notification_manager.Spool.Lifecycle.Runs.{IsBounded, Asks, step-Good, step_cases}

module _ ⦃B : Bolt⦄ where
  open B use {get, entries, empty}

  -- A file that holds nothing yet.
  abbrev pub empty_db : Db
  empty_db = record {
    version = none;
    owner = [];
    active_targets = 0;
    cleanup_cursor = [];
    profiles = empty;
    profile_states = empty;
    intakes = empty;
    targets = empty;
    ready = empty;
    dedupe = empty;
    audit = empty;
    blocked = empty;
  }

  -- One event: a call, whose commit may fail, or the start of a new process on the same file.
  pub data Step (s s' : Store) : Type 0 where
    called :
        (env : Env) (failure : Option CommitError) (call : Call)
        → Asks env call s.db
        → s' ≡ step env failure call s
        → Step s s'
    reopened :
        (env : Env) (limits : Limits)
        → IsBounded (default_limits limits)
        → open_store env limits s.db ≡ ok s'
        → Step s s'

  pub data Reach (s : Store) : Store → Type 0 where
    here : Reach s s
    next : {t u : Store} → Reach s t → Step t u → Reach s u

  abbrev pub IsSoundStore : Store → Type 0
  IsSoundStore s = IsSound s.db × IsBounded s.limits

  -- What a start makes of the database and the limits.
  pub open_store_parts :
      (env : Env) (limits : Limits) (db : Db) (s : Store)
      → open_store env limits db ≡ ok s
      → (take_over env s.owner db ≡ ok s.db)
        × (env.random 0 ≡ some s.owner)
        × (s.limits ≡ default_limits limits)
  unfolding open_store
  open_store_parts env limits db s h = elim (Option-cases (env.random 0)) [
    | inl n ↦ absurd (ground arith)
    | inr (owner, r) ↦ elim (Result-cases (take_over env owner db)) [
      | inr (x, bad) ↦ absurd (ground arith)
      | inl (d, e) ↦ ground arith
    ]
  ]

  Step-IsSound : {s s' : Store} → Step s s' → IsSoundStore s → IsSoundStore s'
  Step-IsSound {s} {s'} (called env failure call asks e) (inv, small) = subst IsSoundStore (sym e) (
    (step-Good env failure call s small asks inv).0,
    subst IsBounded (sym (step_cases env failure call s).1) small,
  )
  Step-IsSound {s} {s'} (reopened env limits small h) (inv, _) =
      let (t, r, l) = open_store_parts env limits s.db s' h in
      (
        take_over-IsSound env s'.owner s.db s'.db inv.0
            (omega (arith, inv.1.counted, inv.1.bounded)) t,
        subst IsBounded (sym l) small,
      )

  Reach-IsSound : {s s' : Store} → Reach s s' → IsSoundStore s → IsSoundStore s'
  Reach-IsSound here inv = inv
  Reach-IsSound (next r st) inv = Step-IsSound st (Reach-IsSound r inv)

  empty-IsIndexed : IsIndexed empty_db.targets empty_db.ready empty_db.blocked
  empty-IsIndexed = record {
    keyed = λ id t h. ground (arith, get-empty {V = Target} id);
    ready_sound = λ k id h. absurd (ground (arith, get-empty {V = Str} k));
    blocked_key = λ k id h. ground (arith, get-empty {V = Str} k);
    blocked_sound = λ id h. absurd (ground (arith, get-empty {V = Str} id));
    apart = λ k id h. ground (arith, get-empty {V = Str} k);
    queued = λ id t h c. ground (arith, get-empty {V = Target} id);
  }

  -- After any calls, failed commits and restarts on a file that was new, the ready and the blocked
  -- index name exactly the targets that may still be claimed, under the right keys, and the counter
  -- is the number of active targets, if each submission draws a new identity.
  pub Reach-new_file_IsSound :
      (env : Env) (limits : Limits) (s s' : Store)
      → IsBounded (default_limits limits)
      → open_store env limits empty_db ≡ ok s
      → Reach s s'
      → IsSound s'.db
  Reach-new_file_IsSound env limits s s' small h r =
      let (t, d, l) = open_store_parts env limits empty_db s h in
      (Reach-IsSound r (
        take_over-IsSound env s.owner empty_db s.db empty-IsIndexed
            (omega (arith, count-empty is_active)) t,
        subst IsBounded (sym l) small,
      )).0

  -- What an event makes of the target `id`: a call takes an edge of the state diagram, a restart turns
  -- a target being sent into an unknown one and keeps the others.
  abbrev pub StepEdge : {s s' : Store} → Str → Step s s' → Type 0
  StepEdge {s} {s'} id (called env failure call asks e) = Moves s.db s'.db id
  StepEdge {s} {s'} id (reopened env limits small h) =
      Restarted (phase (get s.db.targets id)) (phase (get s'.db.targets id))

  -- Each call on a sound store takes each target along an edge of the state diagram, also if its
  -- commit fails, and each restart turns every target being sent into an unknown one and leaves the
  -- states of all others, if a submission draws a new identity and the limits are in their bounds.
  pub Step-Edge : (s s' : Store) (id : Str) → IsSoundStore s → (st : Step s s') → StepEdge id st
  Step-Edge s s' id (inv, small) (called env failure call asks e) =
      subst (λ (t : Store). Moves s.db t.db id) (sym e)
        ((step-Good env failure call s small asks inv).1 id)
  Step-Edge s s' id (inv, small) (reopened env limits _ h) =
      take_over-Restarted env s'.owner id s.db s'.db inv.0 (open_store_parts env limits s.db s' h).0

  -- Nothing but a removal ends a delivery: an event finds a delivered target and leaves it
  -- delivered, or removes it.
  pub delivered-final :
      (s s' : Store) (id : Str)
      → IsSoundStore s
      → phase (get s.db.targets id) ≡ held delivered
      → Step s s'
      → (phase (get s'.db.targets id) ≡ held delivered) ⊎ (phase (get s'.db.targets id) ≡ absent)
  delivered-final s s' id inv done (called env failure call asks e) =
      elim (Step-Edge s s' id inv (called env failure call asks e)) [
        | keep e ↦ inl (e ∙ done)
        | accepted a b ↦ absurd (cc (sym a ∙ done))
        | taken x a b c ↦ absurd (ground arith)
        | completed x a b c ↦ absurd (ground arith)
        | reconciled x y a b c d ↦ absurd (ground arith)
        | removed a b ↦ inr b
      ]
  delivered-final s s' id inv done (reopened env limits small h) =
      let r : Restarted (phase (get s.db.targets id)) (phase (get s'.db.targets id)) =
        Step-Edge s s' id inv (reopened env limits small h) in
      ground arith
