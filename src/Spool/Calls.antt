-- ===== src/Spool/Calls.antt =====
-- The calls of a Store (pkg/notification_spool): each is one transaction by way of Store.update.
use notification_manager.Base.{ℕ, Option, List, Str}
use notification_manager.Bolt.{Bolt}
use notification_manager.Spool.Types.{
  State, Target, Claim, DeliveryProfile, ProfileSnapshot, Env, Db, Result, ok, err,
}
use notification_manager.Spool.Profiles.{register_profiles, control_profile}
use notification_manager.Spool.Submit.{submit}
use notification_manager.Spool.Claim.{claim, claim_for_recovery}
use notification_manager.Spool.Finish.{finish, resolve}
use notification_manager.Spool.Cleanup.{cleanup_completed}
use notification_manager.Spool.Health.{Store, CommitError, update}

pub data Call : Type 0 where
  submits :
      (key request_hash : Str) (targets : List Target) (reason : Str)
      (snapshot : Option ProfileSnapshot) (window : ℕ)
      → Call
  claims : (now : ℕ) → Call
  recovers : (id actor evidence : Str) (now : ℕ) → Call
  finishes : (c : Claim) (state : State) (outcome evidence : Str) (next : ℕ) → Call
  resolves : (id : Str) (state : State) (actor evidence : Str) → Call
  cleans : (retention batch now : ℕ) → Call
  registers : (profiles : List DeliveryProfile) (initial : Str) → Call
  controls : (id action version : Str) (expected : ℕ) (actor evidence : Str) → Call

module _ ⦃B : Bolt⦄ where
  abbrev pub effect : {A : Type 0} → Result (A × Db) → Result (Unit {0} × Db)
  effect (ok (a, db)) = ok (tt, db)
  effect (err e) = err e

  abbrev pub plain : Result Db → Result (Unit {0} × Db)
  plain (ok db) = ok (tt, db)
  plain (err e) = err e

  abbrev pub effect_of_pair : {A C : Type 0} → Result (A × C × Db) → Result (Unit {0} × Db)
  effect_of_pair (ok (a, c, db)) = ok (tt, db)
  effect_of_pair (err e) = err e

  -- The transaction of a call on a store, without its result.
  unfoldable pub transaction : Env → Store → Call → Db → Result (Unit {0} × Db)
  transaction env s (submits key hash targets reason snapshot window) db =
      effect_of_pair (submit env s.limits key hash targets reason snapshot window db)
  transaction env s (claims now) db = effect (claim env s.owner now db)
  transaction env s (recovers id actor evidence now) db =
      effect (claim_for_recovery env s.owner id actor evidence now db)
  transaction env s (finishes c state outcome evidence next) db =
      plain (finish env s.owner c state outcome evidence next db)
  transaction env s (resolves id state actor evidence) db =
      plain (resolve env s.limits id state actor evidence db)
  transaction env s (cleans retention batch now) db =
      effect (cleanup_completed env retention batch now db)
  transaction env s (registers profiles initial) db = plain (register_profiles profiles initial db)
  transaction env s (controls id action version expected actor evidence) db =
      effect (control_profile env id action version expected actor evidence db)

  -- The store after the call; `failure` is the error of the commit, if it has one.
  unfoldable pub step : Env → Option CommitError → Call → Store → Store
  unfolding update transaction
  step env failure call s = (update (transaction env s call) failure s).0
