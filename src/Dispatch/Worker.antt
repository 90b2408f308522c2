-- ===== src/Dispatch/Worker.antt =====
-- A worker of the spool (sendClaim and durableWorker of pkg/dispatcher/durable.go).
use notification_manager.Base.{
  ℕ, ◌+◌, Bool, true, false, Option, none, some, lit, ltb, ◌&&◌, ◌||◌, ◌++◌, not, ◌==◌,
  if◌then◌else◌,
}
use notification_manager.Bolt.{Bolt}
use notification_manager.Bolt.Laws.{count}
use notification_manager.Spool.Types.{
  pending, sending, retryable, Target, Claim, Env, Db, Result, ok, err, none_ready,
}
use notification_manager.Spool.Claim.{claim}
use notification_manager.Spool.Health.{Store, CommitError, update}
use notification_manager.Spool.Calls.{Call, finishes, step}
use notification_manager.Dispatch.Outcome.{SendError, pre_send, send_frozen, delivery_outcome}

abbrev pub five_seconds : ℕ
five_seconds = 5000000000

-- What happens while a claim is sent: the error of waitSendBudget, whether the attempt wrote a
-- request to the platform, the error of the notifier, and the clock when it is done.
pub record Sending : Type 0 where
  pub budget : Option SendError
  pub started : Bool
  pub reply : Option SendError
  pub done_at : ℕ

unfoldable pub send_error : Sending → Option SendError
unfolding send_frozen
send_error o = elim o.budget [ some e ↦ some (pre_send e) | none ↦ send_frozen o.started o.reply ]

-- The completion that the worker reports.
unfoldable pub completion : Claim → Sending → Call
unfolding send_error delivery_outcome
completion c o =
    let result = delivery_outcome (send_error o) in
    finishes c result.0 result.1 (lit "attempt:" ++ c.attempt_id) (o.done_at + five_seconds)

-- AlertStore.ShutdownState: the mode is "handoff" or "drain".
pub record Shutdown : Type 0 where
  pub closing : Bool
  pub handoff : Bool
  pub deadline : ℕ

pub data Action : Type 0 where
  returns : Action
  sleeps : (nanoseconds : ℕ) → Action
  sends : Claim → Action

-- Work that a draining worker waits for.
unfoldable pub is_work : Target → Bool
is_work t = elim t.state [ pending ↦ true | retryable ↦ true | sending ↦ true | _ ↦ false ]

module _ ⦃B : Bolt⦄ where
  open B use {entries}

  -- The error of a completion that is not recorded is logged only.
  unfoldable pub send_claim : Env → Option CommitError → Claim → Sending → Store → Store
  unfolding completion step
  send_claim env failure c o s = step env failure (completion c o) s

  -- The sum of three of the counts of Status.
  unfoldable pub work_left : Db → ℕ
  unfolding is_work
  work_left db = count is_work (entries db.targets)

  abbrev pub after_claim : Shutdown → Store → Result Claim → Action
  after_claim sd s (ok c) = sends c
  after_claim sd s (err none_ready) =
      if sd.closing && work_left s.db == 0 then returns else sleeps 100000000
  after_claim sd s (err _) = sleeps 1000000000

  -- A round of the loop at `now`, up to the send of what it claims.
  unfoldable pub worker_round : Env → Option CommitError → Shutdown → ℕ → ℕ → Store → Action × Store
  unfolding work_left update
  worker_round env failure sd now claim_now s =
      if sd.closing && (sd.handoff || not (ltb now sd.deadline))
      then (returns, s)
      else (let answer = update (claim env s.owner claim_now) failure s in
          (after_claim sd answer.0 answer.1, answer.0))
