-- ===== src/Spool/Examples/Intakes.antt =====
-- Instances of the theorems on submissions and on the storage.
use notification_manager.Base.{◌≡◌, inl, refl, Bool, true, false, none, some, [], ◌∷◌, lit, arith}
use notification_manager.Bolt.Listed.{listed}
use notification_manager.Spool.Types.{Intake, Db, ok, err, key_reused, storage_outage}
use notification_manager.Spool.Calls.{step}
use notification_manager.Spool.Examples.{everything, from_ok, env, limits, plan, opened, request}
use notification_manager.Spool.Submit.{submit, check_plan}
use notification_manager.Spool.Health.{Store, enospc, check_ready}
use notification_manager.Spool.Idempotence.{Accepts, submit-Accepts, submit_twice}
use notification_manager.Spool.Outage.{run, run-outage}
use notification_manager.Spool.Lifecycle.Reach.{empty_db}

abbrev answer : Intake × Bool × Db
answer =
    from_ok (no_intake, true, empty_db)
      (submit env limits (lit "k") (lit "h") plan [] none 0 opened.db)
  where
    no_intake : Intake
    no_intake = record {
      id = [];
      request_hash = [];
      accepted_at = 0;
      target_ids = [];
      terminal_reason = [];
    }

answer_lem :
    submit env limits (lit "k") (lit "h") plan [] none 0 opened.db ≡ ok (answer.0, false, answer.2)
unfolding everything
answer_lem = refl

submit-Accepts_example : Accepts limits (lit "k") (lit "h") plan opened.db answer.0 answer.2
submit-Accepts_example =
    submit-Accepts env limits (lit "k") (lit "h") plan [] none 0 opened.db answer.0 answer.2
      answer_lem

submit_twice_example :
    (submit env limits (lit "k") (lit "h") plan [] none 60 answer.2 ≡ ok (answer.0, true, answer.2))
    × (submit env limits (lit "k") (lit "x") plan [] none 60 answer.2 ≡ err key_reused)
unfolding everything check_plan
submit_twice_example =
    submit_twice env env limits limits (lit "k") (lit "h") (lit "x") (lit "a1") plan plan [] [] none
      none 0 60 opened.db answer.0 answer.2 answer_lem refl (omega arith) refl refl
      (λ e. ground arith) refl refl

abbrev full_disk : Store
full_disk = step env (some enospc) request opened

run-outage_example :
    check_ready env (run ((env, some enospc, request) ∷ []) full_disk) ≡ err storage_outage
unfolding everything
run-outage_example =
    run-outage env ((env, some enospc, request) ∷ []) full_disk refl (inl (λ e. cc), tt)
