-- ===== src/Dispatch/Examples.antt =====
-- Instances of the theorems on the worker.
use notification_manager.Base.{
  ◌≤◌, ◌≡◌, ◌≢◌, ◌⊎◌, refl, true, false, none, some, List, [], ◌∷◌, lit, arith, length,
}
use notification_manager.Bolt.Laws.{count}
use notification_manager.Bolt.Listed.{listed}
use notification_manager.Spool.Types.{unknown, delivered, Target, Claim, Db, ok}
use notification_manager.Spool.Health.{Store}
use notification_manager.Spool.Claim.{claim}
use notification_manager.Spool.Examples.{
  limits, opened_lem, everything, from_ok, env, opened, first_target, closed_claim,
}
use notification_manager.Spool.Lifecycle.Reach.{
  empty_db, here, next, called, Reach-new_file_IsSound,
}
use notification_manager.Spool.Lifecycle.Runs.{Asks}
use notification_manager.Spool.Calls.{Call, submits, step}
use notification_manager.Spool.Open.{default_limits}
use notification_manager.Spool.Invariant.{IsSound}
use notification_manager.Dispatch.Outcome.{
  wrapped, http_status, delivery_outcome, has_pre_send, has_rejection, find_status,
  outcome_of_status, is_recoverable, is_invalid, send_frozen,
}
use notification_manager.Dispatch.Budget.{Lap, reserve, grants}
use notification_manager.Dispatch.Worker.{
  Sending, Shutdown, returns, is_work, send_error, completion, send_claim, work_left, worker_round,
}
use notification_manager.Dispatch.Once.{MayHaveArrived, send_claim_once}
use notification_manager.Dispatch.Recorded.{send_claim_recorded}
use notification_manager.Spool.Lifecycle.{phase, held}
use notification_manager.Spool.Health.{is_healthy}
use notification_manager.Dispatch.Drain.{NoWork, worker_round-drained}

-- The platform answered with an error of its own after the request was written.
abbrev broken : Sending
broken = record {
  budget = none;
  started = true;
  reply = some (wrapped (http_status 502));
  done_at = 6000;
}

opening : Unit {0}
unfolding everything send_claim completion send_error send_frozen delivery_outcome has_pre_send
    has_rejection find_status outcome_of_status is_recoverable is_invalid grants reserve
    worker_round work_left is_work count
opening = tt

outcome_lem : delivery_outcome (send_error broken) ≡ (unknown, lit "platform_result_uncertain")
unfolding opening
outcome_lem = refl

-- Four askers on an interval of 10: the second comes too early.
abbrev laps : List Lap
laps =
    record { until = 100; now = 101 }
    ∷ record { until = 105; now = 106 }
    ∷ record { until = 111; now = 111 }
    ∷ record { until = 130; now = 131 }
    ∷ []

grants_lem : length (grants 10 laps 0) ≡ 3
unfolding opening
grants_lem = refl

abbrev draining : Shutdown
draining = record { closing = true; handoff = false; deadline = 9000 }

abbrev sent_target : Target
sent_target = record first_target { id = lit "a1:0"; state = delivered }

abbrev sent_store : Store
sent_store = record opened {
  db = record opened.db { targets = listed.put opened.db.targets (lit "a1:0") sent_target };
}

worker_round_lem : worker_round env none draining 8000 8000 sent_store ≡ (returns, sent_store)
unfolding opening
worker_round_lem = refl

worker_round-drained_example :
    (draining.closing ≡ true)
    × ((draining.handoff ≡ true) ⊎ (draining.deadline ≤ 8000) ⊎ NoWork sent_store.db)
unfolding opening
worker_round-drained_example =
    worker_round-drained env none draining 8000 8000 sent_store sent_store worker_round_lem

abbrev pair : Call
pair =
    submits (lit "k") (lit "h") (first_target ∷ record first_target { destination = lit "e" } ∷ [])
      [] none 0

fresh_pair : Asks env pair opened.db
unfolding everything
fresh_pair id h = (refl, (refl, tt))

abbrev pair_store : Store
pair_store = step env none pair opened

pair-IsSound : IsSound pair_store.db
unfolding default_limits
pair-IsSound =
    Reach-new_file_IsSound env limits opened pair_store (omega arith) opened_lem
      (next here (called env none pair fresh_pair refl))

abbrev one : Claim × Db
one = from_ok (closed_claim, empty_db) (claim env (lit "a1") 5000 pair_store.db)

one_lem : claim env (lit "a1") 5000 pair_store.db ≡ ok (one.0, one.1)
unfolding everything
one_lem = refl

abbrev after_send : Store
after_send = send_claim env none one.0 broken (record pair_store { db = one.1 })

abbrev two : Claim × Db
two = from_ok (closed_claim, empty_db) (claim env (lit "a1") 8000 after_send.db)

two_lem : claim env (lit "a1") 8000 after_send.db ≡ ok (two.0, two.1)
unfolding opening
two_lem = refl

broken-MayHaveArrived : MayHaveArrived broken
unfolding opening
broken-MayHaveArrived = (refl, refl, (refl, refl, λ s e. ground arith))

send_claim_once_example : two.0.target.id ≢ one.0.target.id
unfolding everything
send_claim_once_example =
    send_claim_once env env env none (lit "a1") 5000 8000 pair_store one.0 two.0 one.1 two.1 broken
      pair-IsSound one_lem broken-MayHaveArrived two_lem

send_claim_recorded_example :
    (phase (listed.get after_send.db.targets one.0.target.id)
      ≡ held (delivery_outcome (send_error broken)).0)
    × (is_healthy after_send.last_storage_error ≡ true)
unfolding everything
send_claim_recorded_example =
    send_claim_recorded env env 5000 pair_store one.0 one.1 broken pair-IsSound one_lem
