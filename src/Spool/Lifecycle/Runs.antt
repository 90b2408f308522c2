-- ===== src/Spool/Lifecycle/Runs.antt =====
-- Runs of a store: calls whose commits may fail, and restarts under a new owner.
use notification_manager.Base.{◌≤◌, ◌≡◌, sym, ap, subst, ◌⊎◌, inl, inr, Option, Str, arith}
use notification_manager.Bolt.{Bolt}
use notification_manager.Spool.Types.{Limits, Env, Db, Result, ok, err}
use notification_manager.Spool.Outcome.{Result-cases}
use notification_manager.Spool.Profiles.{register_profiles, control_profile}
use notification_manager.Spool.Submit.{submit}
use notification_manager.Spool.Claim.{claim, claim_for_recovery}
use notification_manager.Spool.Finish.{finish, resolve}
use notification_manager.Spool.Cleanup.{cleanup_completed}
use notification_manager.Spool.Health.{Store, CommitError, update}
use notification_manager.Spool.Calls.{
  Call, submits, claims, recovers, finishes, resolves, cleans, registers, controls, effect, plain,
  effect_of_pair, transaction, step,
}
use notification_manager.Spool.Invariant.{IsSound, IsSound-same}
use notification_manager.Spool.Invariant.Claims.{claim-IsSound}
use notification_manager.Spool.Invariant.Recovery.{claim_for_recovery-IsSound}
use notification_manager.Spool.Invariant.Settle.{finish-IsSound}
use notification_manager.Spool.Invariant.Resolve.{resolve-IsSound}
use notification_manager.Spool.Invariant.Cleanup.{cleanup_completed-IsSound}
use notification_manager.Spool.Invariant.Submit.{IsFresh, submit-IsSound}
use notification_manager.Spool.Invariant.Profiles.{
  SameQueue, register_profiles-SameQueue, control_profile-Controlled,
}
use notification_manager.Spool.Lifecycle.{phase, keep}
use notification_manager.Spool.Lifecycle.Effects.{
  Moves, claim-Moves, claim_for_recovery-Moves, finish-Moves, resolve-Moves,
}
use notification_manager.Spool.Lifecycle.Bulk.{submit-Moves, cleanup_completed-Moves}

module _ ⦃B : Bolt⦄ where
  open B use {get, entries}

  -- An int holds the limit.
  abbrev pub IsBounded : Limits → Type 0
  IsBounded l = l.max_targets ≤ 9223372036854775807

  -- What a call asks of its surroundings: a submission draws a new identity.
  abbrev pub Asks : Env → Call → Db → Type 0
  Asks env (submits key hash targets reason snapshot window) db = IsFresh env db targets
  Asks env _ db = Unit

  abbrev pub Good : Db → Db → Type 0
  Good db db' = IsSound db' × ((id : Str) → Moves db db' id)

  effect-ok :
      {A : Type 0} (r : Result (A × Db)) (db : Db)
      → effect r ≡ ok (tt, db)
      → (a : A) × (r ≡ ok (a, db))
  effect-ok (ok (a, d)) db h = (a, ground arith)
  effect-ok (err e) db h = cc

  effect_of_pair-ok :
      {A C : Type 0} (r : Result (A × C × Db)) (db : Db)
      → effect_of_pair r ≡ ok (tt, db)
      → (a : A) × (c : C) × (r ≡ ok (a, c, db))
  effect_of_pair-ok (ok (a, c, d)) db h = (a, c, ground arith)
  effect_of_pair-ok (err e) db h = cc

  plain-ok : (r : Result Db) (db : Db) → plain r ≡ ok (tt, db) → r ≡ ok db
  plain-ok (ok d) db h = ground arith
  plain-ok (err e) db h = cc

  SameQueue-Good : (db db' : Db) → IsSound db → SameQueue db db' → Good db db'
  SameQueue-Good db db' inv q =
      (IsSound-same db db' inv q.0 q.1 q.2 q.3, λ id. keep (ap (λ b. phase (get b id)) q.0))

  -- A transaction that succeeds leaves a sound database, and moves each target along the diagram.
  transaction-Good :
      (env : Env) (s : Store) (call : Call) (db db' : Db)
      → IsBounded s.limits
      → Asks env call db
      → IsSound db
      → transaction env s call db ≡ ok (tt, db')
      → Good db db'
  unfolding transaction
  transaction-Good env s (submits key hash targets reason snapshot window) db db' small fresh inv
        h =
      let (i, r, e) =
        effect_of_pair-ok (submit env s.limits key hash targets reason snapshot window db) db' h in
      (
        submit-IsSound env s.limits key hash targets reason snapshot window db i r db' small fresh
            inv e,
        λ id.
            submit-Moves env s.limits key hash targets reason snapshot window db i r db' id fresh
              inv e,
      )
  transaction-Good env s (claims now) db db' small _ inv h =
      let (c, e) = effect-ok (claim env s.owner now db) db' h in
      (
        claim-IsSound env s.owner now db c db' inv e,
        λ id. claim-Moves env s.owner now db c db' id inv e,
      )
  transaction-Good env s (recovers k actor evidence now) db db' small _ inv h =
      let (c, e) = effect-ok (claim_for_recovery env s.owner k actor evidence now db) db' h in
      (
        claim_for_recovery-IsSound env s.owner k actor evidence now db c db' inv e,
        λ id. claim_for_recovery-Moves env s.owner k actor evidence now db c db' id e,
      )
  transaction-Good env s (finishes c state outcome evidence next) db db' small _ inv h =
      let e = plain-ok (finish env s.owner c state outcome evidence next db) db' h in
      (
        finish-IsSound env s.owner c state outcome evidence next db db' inv e,
        λ id. finish-Moves env s.owner c state outcome evidence next db db' id inv e,
      )
  transaction-Good env s (resolves k state actor evidence) db db' small _ inv h =
      let e = plain-ok (resolve env s.limits k state actor evidence db) db' h in
      (
        resolve-IsSound env s.limits k state actor evidence db db' small inv e,
        λ id. resolve-Moves env s.limits k state actor evidence db db' id small inv e,
      )
  transaction-Good env s (cleans retention batch now) db db' small _ inv h =
      let (n, e) = effect-ok (cleanup_completed env retention batch now db) db' h in
      (
        cleanup_completed-IsSound env retention batch now db n db' inv e,
        λ id. cleanup_completed-Moves env retention batch now db n db' id inv e,
      )
  transaction-Good env s (registers profiles initial) db db' small _ inv h =
      SameQueue-Good db db' inv (
        register_profiles-SameQueue profiles initial db db'
          (plain-ok (register_profiles profiles initial db) db' h))
  transaction-Good env s (controls k action version expected actor evidence) db db' small _ inv h =
      let (st, e) =
        effect-ok (control_profile env k action version expected actor evidence db) db' h in
      SameQueue-Good db db' inv
        (control_profile-Controlled env k action version expected actor evidence db st db' e).queue

  -- A call commits its transaction, or leaves the database as it was.
  pub step_cases :
      (env : Env) (failure : Option CommitError) (call : Call) (s : Store)
      → (((step env failure call s).db ≡ s.db)
          ⊎ (transaction env s call s.db ≡ ok (tt, (step env failure call s).db)))
        × ((step env failure call s).limits ≡ s.limits)
        × ((step env failure call s).owner ≡ s.owner)
  unfolding step update
  step_cases env failure call s = elim (Result-cases (transaction env s call s.db)) [
    | inr (x, bad) ↦ ground arith
    | inl ((tt, d), e) ↦ ground arith
  ]

  pub step-Good :
      (env : Env) (failure : Option CommitError) (call : Call) (s : Store)
      → IsBounded s.limits
      → Asks env call s.db
      → IsSound s.db
      → Good s.db (step env failure call s).db
  step-Good env failure call s small asks inv = elim (step_cases env failure call s).0 [
    | inl e ↦ (subst IsSound (sym e) inv, λ id. keep (ap (λ (d : Db). phase (get d.targets id)) e))
    | inr e ↦ transaction-Good env s call s.db (step env failure call s).db small asks inv e
  ]
