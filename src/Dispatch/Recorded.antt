-- ===== src/Dispatch/Recorded.antt =====
-- The completion of a claim is recorded.
use mathlib.Core.List.{Memᴰ}
use notification_manager.Base.{
  ℕ, ◌+◌, ◌-◌, ◌≡◌, inl, inr, refl, subst, true, false, Option, none, some, List, [], ◌∷◌, Str,
  arith, Bool-cases, ltb, str_eq, dec_str, lit, ◌++◌,
}
use notification_manager.Bolt.{Bolt}
use notification_manager.Bolt.Laws.{get-put, count-delete, get_of_mem}
use notification_manager.Spool.Types.{State, sending, Target, Claim, Env, Db, ok}
use notification_manager.Spool.Outcome.{Result-cases}
use notification_manager.Spool.Counter.{active_state, lower_active_count, set_active_count}
use notification_manager.Spool.Claim.{claim}
use notification_manager.Spool.Finish.{
  dependents, release_dependents, settle, finish, is_completion, available_from, moved_to,
}
use notification_manager.Spool.Health.{Store, update, is_healthy}
use notification_manager.Spool.Calls.{transaction, step}
use notification_manager.Spool.Invariant.{IsSound, IsIndexed, is_active, BlockedAt}
use notification_manager.Spool.Invariant.Claims.{claim-IsSound}
use notification_manager.Spool.Lifecycle.{phase, held}
use notification_manager.Spool.Lifecycle.Effects.{finish-phase}
use notification_manager.Spool.Claiming.{claim-Takes}
use notification_manager.Dispatch.Outcome.{SendError, delivery_outcome, outcome_of_status}
use notification_manager.Dispatch.Worker.{Sending, send_error, completion, send_claim, five_seconds}

str_eq_of_path : (s t : Str) → s ≡ t → str_eq s t ≡ true
str_eq_of_path s t e = of_dec (dec_str s t)
  where
    of_dec : (d : Dec (s ≡ t)) → (elim d [ yes _ ↦ true | no _ ↦ false ]) ≡ true
    of_dec (yes p) = refl
    of_dec (no n) = absurd (n e)

module _ ⦃B : Bolt⦄ where
  open B use {get, put, delete, entries}

  abbrev IsHeld : Db → Str → Type 0
  IsHeld db id = (t : Target) × (get db.targets id ≡ some t)

  dependents_total :
      (db : Db) (parent : Target) (l : List (Str × Str))
      → ((k id : Str) → Memᴰ (k, id) l → IsHeld db id)
      → (ts : List Target) × (dependents db parent l ≡ ok ts)
  unfolding dependents
  dependents_total db parent [] f = ([], refl)
  dependents_total db parent ((k, id) ∷ rest) f =
      let (t, e) = f k id (Memᴰ.head refl) in
      let (ts, more) = dependents_total db parent rest (λ j i m. f j i (Memᴰ.tail m)) in
      elim (Result-cases (dependents db parent ((k, id) ∷ rest))) [
        | inl r ↦ r
        | inr (x, bad) ↦ absurd (ground (arith, e, more))
      ]

  held_of_blocked : (id : Str) (o : Option Target) → BlockedAt o → (t : Target) × (o ≡ some t)
  held_of_blocked id none b = absurd b
  held_of_blocked id (some t) b = (t, refl)

  put-IsHeld :
      (t : Target) (db : Db)
      → IsIndexed db.targets db.ready db.blocked
      → (id : Str) → get db.blocked id ≡ some id
      → IsHeld (record db { targets = put db.targets t.id t }) id
  put-IsHeld t db ix id at =
      let (u, here) = held_of_blocked id (get db.targets id) (ix.blocked_sound id at) in
      elim (dec_str t.id id) [
        | yes e ↦ (t, ground (arith, get-put db.targets t.id t id, e))
        | no n ↦ (u, ground (arith, get-put db.targets t.id t id, n, here))
      ]

  settle_total :
      (clock : ℕ → ℕ) (i : ℕ) (t : Target) (db : Db)
      → IsIndexed db.targets db.ready db.blocked
      → (db' : Db) × (settle clock i t db ≡ ok db')
  unfolding settle release_dependents
  settle_total clock i t db ix =
      let (ts, e) =
        dependents_total (record db { targets = put db.targets t.id t }) t (entries db.blocked)
          (λ k id m. put-IsHeld t db ix id (
            let at = get_of_mem db.blocked k id m in
            subst (λ j. get db.blocked j ≡ some id) (ix.blocked_key k id at) at)) in
      elim (Result-cases (settle clock i t db)) [
        | inl r ↦ r
        | inr (x, bad) ↦ absurd (ground (arith, e))
      ]

  active_left :
      (db : Db) (id : Str) (t : Target)
      → IsSound db
      → get db.targets id ≡ some t
      → t.state ≡ sending
      → ltb db.active_targets 1 ≡ false
  unfolding active_state
  active_left db id t inv here s =
      ground (arith, inv.1.counted, count-delete is_active db.targets id, here, s)

  finish_total :
      (env : Env) (owner : Str) (c : Claim) (q : State) (outcome evidence : Str) (next : ℕ)
      (db : Db) (t : Target)
      → IsSound db
      → is_completion q ≡ true
      → get db.targets c.target.id ≡ some t
      → t.state ≡ sending
      → t.owner ≡ owner
      → c.owner ≡ owner
      → t.attempt_id ≡ c.attempt_id
      → (db' : Db) × (finish env owner c q outcome evidence next db ≡ ok db')
  unfolding finish lower_active_count set_active_count
  finish_total env owner c q outcome evidence next db t inv legal here s a b d =
      let next_target = available_from q next (moved_to t q outcome evidence (env.clock 0)) in
      elim (Result-cases (finish env owner c q outcome evidence next db)) [
        | inl r ↦ r
        | inr (x, bad) ↦ absurd (elim (Bool-cases (active_state q)) [
          | inl stays ↦
              let (r, e) = settle_total env.clock 1 next_target db inv.0 in
              ground (
                arith,
                e,
                str_eq_of_path t.owner owner a,
                str_eq_of_path c.owner owner b,
                str_eq_of_path t.attempt_id c.attempt_id d,
              )
          | inr leaves ↦
              let (r, e) =
                settle_total env.clock 1 next_target (set_active_count db (db.active_targets - 1))
                  inv.0 in
              ground (
                arith,
                e,
                active_left db c.target.id t inv here s,
                str_eq_of_path t.owner owner a,
                str_eq_of_path c.owner owner b,
                str_eq_of_path t.attempt_id c.attempt_id d,
              )
        ])
      ]

  outcome_completion : (e : Option SendError) → is_completion (delivery_outcome e).0 ≡ true
  unfolding delivery_outcome outcome_of_status
  outcome_completion none = refl
  outcome_completion (some x) = ground arith

  -- When the spool handed out a claim and the commit succeeds, the worker's report is taken, whatever
  -- became of the send: the target is then in the state of the outcome, and the alarm is clear.
  pub send_claim_recorded :
      (env env' : Env) (now : ℕ) (s : Store) (c : Claim) (db : Db) (o : Sending)
      → IsSound s.db
      → claim env s.owner now s.db ≡ ok (c, db)
      → let s' = send_claim env' none c o (record s { db = db }) in
        (phase (get s'.db.targets c.target.id) ≡ held (delivery_outcome (send_error o)).0)
        × (is_healthy s'.last_storage_error ≡ true)
  unfolding send_claim completion step update transaction
  send_claim_recorded env env' now s c db o inv h =
      let sound = claim-IsSound env s.owner now s.db c db inv h in
      let (r, took) = claim-Takes env s.owner now s.db c db inv h in
      let result = delivery_outcome (send_error o) in
      let (db', good) =
        finish_total env' s.owner c result.0 result.1 (lit "attempt:" ++ c.attempt_id)
          (o.done_at + five_seconds) db c.target sound (outcome_completion (send_error o))
          took.persisted took.is_sent took.target_owner took.claim_owner took.same_attempt in
      let moved =
        finish-phase env' s.owner c result.0 result.1 (lit "attempt:" ++ c.attempt_id)
          (o.done_at + five_seconds) db db' sound good in
      (ground (arith, good, moved), ground (arith, good))
