-- ===== src/Spool/Outage.antt =====
-- Failed commits, and what Ready says of them.
use notification_manager.Base.{
  ◌≡◌, ◌≢◌, refl, ◌⊎◌, inl, inr, false, Option, none, some, List, [], ◌∷◌, arith,
}
use notification_manager.Bolt.{Bolt}
use notification_manager.Spool.Types.{Error, Env, err, storage_outage}
use notification_manager.Spool.Outcome.{Result-cases}
use notification_manager.Spool.Health.{
  CommitError, classify, is_healthy, Store, update, check_ready,
}
use notification_manager.Spool.Calls.{Call, transaction, step}

module _ ⦃B : Bolt⦄ where
  -- A run of calls, each with the error of its commit, if it has one.
  pub run : List (Env × Option CommitError × Call) → Store → Store
  run [] s = s
  run ((env, failure, call) ∷ cs) s = run cs (step env failure call s)

  -- No call of the list commits.
  abbrev pub NoneCommits : List (Env × Option CommitError × Call) → Store → Type 0
  NoneCommits [] s = Unit
  NoneCommits ((env, failure, call) ∷ cs) s =
      ((failure ≢ none) ⊎ ((e : Error) × (transaction env s call s.db ≡ err e)))
      × NoneCommits cs (step env failure call s)

  step-alarm :
      (env : Env) (failure : Option CommitError) (call : Call) (s : Store)
      → is_healthy s.last_storage_error ≡ false
      → (failure ≢ none) ⊎ ((e : Error) × (transaction env s call s.db ≡ err e))
      → is_healthy (step env failure call s).last_storage_error ≡ false
  unfolding step update classify
  step-alarm env none call s h (inl n) = absurd (n refl)
  step-alarm env (some c) call s h f = elim (Result-cases (transaction env s call s.db)) [
    | inr (e, bad) ↦ ground arith
    | inl (r, good) ↦ ground arith
  ]
  step-alarm env none call s h (inr (e, bad)) = ground arith

  run-alarm :
      (cs : List (Env × Option CommitError × Call)) (s : Store)
      → is_healthy s.last_storage_error ≡ false
      → NoneCommits cs s
      → is_healthy (run cs s).last_storage_error ≡ false
  unfolding run
  run-alarm [] s h n = h
  run-alarm ((env, failure, call) ∷ cs) s h n =
      run-alarm cs (step env failure call s) (step-alarm env failure call s h n.0) n.1

  -- Once the alarm is raised, Ready reports the outage, whatever the disk says, until a commit
  -- succeeds: rejected calls and further failures do not clear it.
  pub run-outage :
      (env : Env) (cs : List (Env × Option CommitError × Call)) (s : Store)
      → is_healthy s.last_storage_error ≡ false
      → NoneCommits cs s
      → check_ready env (run cs s) ≡ err storage_outage
  unfolding check_ready
  run-outage env cs s h n = ground (arith, run-alarm cs s h n)
