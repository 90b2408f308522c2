-- ===== src/Dispatch/Once.antt =====
-- A target whose send is not known to have failed is not sent again.
use notification_manager.Base.{
  ℕ, ◌≡◌, ◌≢◌, ◌⊎◌, inl, inr, refl, sym, ap, subst, ◌∙◌, true, false, Option, none, some, ◌+◌, ◌++◌,
  lit, Str, arith, Option-cases,
}
use notification_manager.Bolt.{Bolt}
use notification_manager.Spool.Types.{
  State, pending, sending, delivered, retryable, unknown, dead_letter, other, Target, Claim, Env,
  Db, ok,
}
use notification_manager.Spool.Outcome.{Result-cases}
use notification_manager.Spool.Claim.{claim, is_claimable}
use notification_manager.Spool.Finish.{finish, is_completion}
use notification_manager.Spool.Health.{Store, CommitError, update}
use notification_manager.Spool.Calls.{transaction, step}
use notification_manager.Spool.Invariant.{IsSound}
use notification_manager.Spool.Invariant.Claims.{claim-IsSound}
use notification_manager.Spool.Invariant.Settle.{finish-IsSound, finish-Finished}
use notification_manager.Spool.Lifecycle.{phase, held}
use notification_manager.Spool.Lifecycle.Effects.{finish-phase}
use notification_manager.Spool.Claiming.{claim-Takes}
use notification_manager.Dispatch.Outcome.{
  SendError, has_pre_send, has_rejection, find_status, is_recoverable, outcome_of_status,
  delivery_outcome, send_frozen,
}
use notification_manager.Dispatch.Worker.{Sending, send_error, completion, send_claim, five_seconds}

-- Nothing in the reply proves that the platform did not take the notification.
abbrev pub NoRefusal : Option SendError → Type 0
NoRefusal none = Unit
NoRefusal (some e) =
    (has_pre_send e ≡ false)
    × (has_rejection e ≡ false)
    × ((s : ℕ) → find_status e ≡ some s → (s ≢ 429) × (s ≢ 401) × (s ≢ 403))

abbrev pub MayHaveArrived : Sending → Type 0
MayHaveArrived o = (o.budget ≡ none) × (o.started ≡ true) × NoRefusal o.reply

not_recoverable : (s : ℕ) → (s ≢ 429) × (s ≢ 401) × (s ≢ 403) → is_recoverable s ≡ false
unfolding is_recoverable
not_recoverable s (a, b, c) = ground arith

status_final :
    (s : Option ℕ)
    → ((n : ℕ) → s ≡ some n → (n ≢ 429) × (n ≢ 401) × (n ≢ 403))
    → (outcome_of_status s).0 ≢ retryable
unfolding outcome_of_status
status_final none h = λ e. cc
status_final (some n) h = λ e. ground (arith, not_recoverable n (h n refl))

reply_final : (reply : Option SendError) → NoRefusal reply → (delivery_outcome reply).0 ≢ retryable
unfolding delivery_outcome
reply_final none h = λ e. cc
reply_final (some x) (a, b, c) = λ e. ground (arith, a, b, status_final (find_status x) c)

send_error_reply : (o : Sending) → MayHaveArrived o → send_error o ≡ o.reply
unfolding send_error send_frozen
send_error_reply o (a, b, c) = elim (Option-cases o.reply) [
  | inl e ↦ rw (a, e) refl
  | inr (x, e) ↦ rw (a, b, e) refl
]

-- A completion other than a retry is not claimable.
final_state : (q : State) → is_completion q ≡ true → q ≢ retryable → is_claimable q ≡ false
final_state delivered legal final = refl
final_state retryable legal final = absurd (final refl)
final_state unknown legal final = refl
final_state dead_letter legal final = refl
final_state pending legal final = cc
final_state sending legal final = refl
final_state (other t) legal final = refl

module _ ⦃B : Bolt⦄ where
  open B use {get}

  -- A sound database that holds a target which may not be claimed.
  abbrev pub Withheld : Db → Target → Type 0
  Withheld db t =
      IsSound db × ((q : State) × (phase (get db.targets t.id) ≡ held q) × (is_claimable q ≡ false))

  Withheld-claim :
      (env : Env) (owner : Str) (now : ℕ) (db : Db) (t : Target) (c : Claim) (db' : Db)
      → Withheld db t
      → claim env owner now db ≡ ok (c, db')
      → c.target.id ≢ t.id
  Withheld-claim env owner now db t c db' (inv, withheld) h same =
      let (s, took) = claim-Takes env owner now db c db' inv h in
      let (q, at, kept) = withheld in
      let found : phase (get db.targets t.id) ≡ held s.state =
        subst (λ i. phase (get db.targets i) ≡ held s.state) same (ap phase took.stored) in
      (ground (arith, took.was_claimable, at, kept, found))

  -- The completion is recorded, or the database stays as it is.
  send_claim-db :
      (env : Env) (failure : Option CommitError) (s : Store) (c : Claim) (o : Sending)
      → let result = delivery_outcome (send_error o) in
        ((send_claim env failure c o s).db ≡ s.db)
        ⊎ ((db' : Db) × ((send_claim env failure c o s).db ≡ db')
            × (finish env s.owner c result.0 result.1
                  (lit "attempt:" ++ c.attempt_id)
                  (o.done_at + five_seconds)
                  s.db
                ≡ ok db'))
  unfolding send_claim completion step update transaction
  send_claim-db env failure s c o =
      let result = delivery_outcome (send_error o) in
      elim (Result-cases (
        finish env s.owner c result.0 result.1 (lit "attempt:" ++ c.attempt_id)
          (o.done_at + five_seconds) s.db)) [
            | inr (e, bad) ↦ inl (ground arith)
            | inl (db', good) ↦ elim (Option-cases failure) [
              | inl f ↦ inr (db', ground arith, good)
              | inr (e, f) ↦ inl (ground arith)
            ]
          ]

  send_claim-Withheld :
      (env env' : Env) (failure : Option CommitError) (now : ℕ) (s : Store) (c : Claim) (db : Db)
      (o : Sending)
      → IsSound s.db
      → claim env s.owner now s.db ≡ ok (c, db)
      → (delivery_outcome (send_error o)).0 ≢ retryable
      → Withheld (send_claim env' failure c o (record s { db = db })).db c.target
  send_claim-Withheld env env' failure now s c db o inv h final =
      let sound = claim-IsSound env s.owner now s.db c db inv h in
      let result = delivery_outcome (send_error o) in
      elim (send_claim-db env' failure (record s { db = db }) c o) [
        | inl kept ↦
            let (r, took) = claim-Takes env s.owner now s.db c db inv h in
            subst (λ (d : Db). Withheld d c.target) (sym kept)
              (sound, (sending, ap phase took.persisted ∙ ap held took.is_sent, refl))
        | inr (db', new, good) ↦
            let legal =
              (finish-Finished env' s.owner c result.0 result.1 (lit "attempt:" ++ c.attempt_id)
                (o.done_at + five_seconds) db db' good).legal in
            subst (λ (d : Db). Withheld d c.target) (sym new)
              (
                finish-IsSound env' s.owner c result.0 result.1 (lit "attempt:" ++ c.attempt_id)
                    (o.done_at + five_seconds) db db' sound good,
                (
                  result.0,
                  finish-phase env' s.owner c result.0 result.1 (lit "attempt:" ++ c.attempt_id)
                      (o.done_at + five_seconds) db db' sound good,
                  final_state result.0 legal final,
                ),
              )
      ]

  -- When a claim was handed out and its notification may have arrived, since the request was written
  -- and no reply refused it, the next claim does not take that target, whether or not the completion
  -- was recorded.
  pub send_claim_once :
      (env env' env'' : Env) (failure : Option CommitError) (owner : Str) (now later : ℕ)
      (s : Store) (c c' : Claim) (db db' : Db) (o : Sending)
      → IsSound s.db
      → claim env s.owner now s.db ≡ ok (c, db)
      → MayHaveArrived o
      → claim env'' owner later (send_claim env' failure c o (record s { db = db })).db
        ≡ ok (c', db')
      → c'.target.id ≢ c.target.id
  send_claim_once env env' env'' failure owner now later s c c' db db' o inv h arrived again =
      Withheld-claim env'' owner later (send_claim env' failure c o (record s { db = db })).db
        c.target c' db'
        (send_claim-Withheld env env' failure now s c db o inv h (
          subst (λ r. (delivery_outcome r).0 ≢ retryable) (sym (send_error_reply o arrived))
            (reply_final o.reply arrived.2)))
        again
