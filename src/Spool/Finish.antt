-- ===== src/Spool/Finish.antt =====
-- Store.Finish, Store.Resolve and releaseDependents (pkg/notification_spool/store.go).
use notification_manager.Base.{
  ℕ, suc, Bool, true, false, ◌&&◌, ◌||◌, not, List, [], ◌∷◌, Str, str_eq, lit, contains, ltb,
  if◌then◌else◌,
}
use notification_manager.Bolt.{Bolt}
use notification_manager.Spool.Types.{
  State, sending, delivered, retryable, unknown, dead_letter, Target, Claim, Limits, reconciled,
  Env, Db, Result, ok, ◌>>=◌, ◌>>◌, refuse_if, or_err, capacity, fence, no_random, no_record,
  illegal_completion, bad_resolution, not_reconcilable,
}
use notification_manager.Spool.Counter.{
  active_state, raise_active_count, lower_active_count, queue_key,
}
use notification_manager.Spool.Profiles.{check_audit}

abbrev pub is_sending : State → Bool
is_sending sending = true
is_sending _ = false

abbrev pub is_completion : State → Bool
is_completion delivered = true
is_completion retryable = true
is_completion unknown = true
is_completion dead_letter = true
is_completion _ = false

abbrev pub is_resolution : State → Bool
is_resolution delivered = true
is_resolution retryable = true
is_resolution dead_letter = true
is_resolution _ = false

abbrev pub is_reconcilable : State → Bool
is_reconcilable unknown = true
is_reconcilable dead_letter = true
is_reconcilable _ = false

abbrev pub depends_on : Target → Target → Bool
depends_on parent t =
    str_eq t.intake_id parent.intake_id && contains t.dependency_revisions parent.content_revision

abbrev pub moved_to : Target → State → Str → Str → ℕ → Target
moved_to t state outcome evidence now = record t {
  state = state;
  outcome = outcome;
  evidence = evidence;
  updated_at = now;
}

abbrev pub available_from : State → ℕ → Target → Target
available_from retryable next t = record t { available_at = next }
available_from _ next t = t

module _ ⦃B : Bolt⦄ where
  open B use {get, put, delete, entries}

  -- The blocked targets of the same intake that wait for the parent's content.
  unfoldable pub dependents : Db → Target → List (Str × Str) → Result (List Target)
  dependents db parent [] = ok []
  dependents db parent ((key, id) ∷ rest) = or_err (get db.targets id) no_record >>= λ t.
      dependents db parent rest >>= λ ts. ok (if depends_on parent t then t ∷ ts else ts)

  unfoldable pub release_one : ℕ → Target → Db → Db
  release_one now t db =
      let moved = record t { available_at = now } in
      record db {
        targets = put db.targets moved.id moved;
        ready = put db.ready (queue_key moved) moved.id;
        blocked = delete db.blocked moved.id;
      }

  -- Each release reads the clock anew, from its i-th reading on.
  unfoldable pub release_all : (ℕ → ℕ) → ℕ → List Target → Db → Db
  release_all clock i [] db = db
  release_all clock i (t ∷ ts) db = release_all clock (suc i) ts (release_one (clock i) t db)

  unfoldable pub release_dependents : (ℕ → ℕ) → ℕ → Target → Db → Result Db
  unfolding dependents release_all
  release_dependents clock i parent db = do
    released ← dependents db parent (entries db.blocked)
    ok (release_all clock i released db)

  -- The record is put back, after its new place in the queue if it is to be retried; a delivery
  -- releases the targets that wait for it.
  unfoldable pub settle : (ℕ → ℕ) → ℕ → Target → Db → Result Db
  unfolding release_dependents
  settle clock i t db =
      let stored = record db { targets = put db.targets t.id t } in
      elim t.state [
        | retryable ↦ ok (record stored { ready = put db.ready (queue_key t) t.id })
        | delivered ↦ release_dependents clock i t stored
        | _ ↦ ok stored
      ]

  unfoldable pub finish : Env → Str → Claim → State → Str → Str → ℕ → Db → Result Db
  unfolding settle
  finish env owner c state outcome evidence next db = do
    refuse_if (not (is_completion state)) illegal_completion
    t ← or_err (get db.targets c.target.id) no_record
    refuse_if
        (not (is_sending t.state)
          || (not (str_eq t.owner owner)
              || (not (str_eq c.owner owner) || not (str_eq t.attempt_id c.attempt_id))))
        fence
    counted ← if active_state state then ok db else lower_active_count db 1
    settle env.clock 1 (available_from state next (moved_to t state outcome evidence (env.clock 0)))
        counted

  -- The counter follows a target that an operator moves into or out of the active states.
  unfoldable pub recount : Limits → State → State → Db → Result Db
  recount limits from to db =
      if active_state from && not (active_state to)
      then lower_active_count db 1
      else if not (active_state from) && active_state to
      then (let raised = raise_active_count db 1 in
          refuse_if (ltb limits.max_targets raised.active_targets) capacity >> ok raised)
      else ok db

  unfoldable pub resolve : Env → Limits → Str → State → Str → Str → Db → Result Db
  unfolding check_audit recount settle
  resolve env limits id state actor evidence db = do
    check_audit actor evidence
    refuse_if (not (is_resolution state)) bad_resolution
    t ← or_err (get db.targets id) no_record
    refuse_if (not (is_reconcilable t.state)) not_reconcilable
    audit_id ← or_err (env.random 0) no_random
    let entry = reconciled id t.state state actor evidence (env.clock 0)
    let noted = record db { audit = put db.audit audit_id entry }
    counted ← recount limits t.state state noted
    settle env.clock 3
        (available_from state (env.clock 2)
          (moved_to t state (lit "operator_reconciled") evidence (env.clock 1)))
        counted
