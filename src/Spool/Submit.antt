-- ===== src/Spool/Submit.antt =====
-- Store.capacity and Store.submit (pkg/notification_spool/store.go).
use notification_manager.Base.{
  ℕ, ◌+◌, ◌*◌, Bool, true, false, ◌&&◌, ◌||◌, not, Option, none, some, List, [], ◌∷◌, ◌++◌, Str,
  str_eq, is_empty, contains, length, ltb, leb, if◌then◌else◌,
}
use notification_manager.Bolt.{Bolt}
use notification_manager.Spool.Types.{
  State, delivered, pending, Target, Intake, Limits, ProfileSnapshot, Env, Db, Result, ok, ◌>>=◌,
  ◌>>◌, refuse_if, or_err, capacity, bad_plan, key_too_long, unknown_dependency, key_reused,
  profile_mismatch, invalid_target, duplicate_target, no_random, no_record, storage,
}
use notification_manager.Spool.Counter.{u64, raise_active_count, queue_key}
use notification_manager.Spool.Profiles.{validate_profile_target, check_profile_admission}

unfoldable pub check_capacity : Env → Limits → Result (Unit {0})
check_capacity env limits = do
  (avail, block_size) ← or_err env.statfs storage
  refuse_if (ltb (u64 (avail * block_size)) limits.reserve_bytes) capacity
  size ← or_err env.stat storage
  refuse_if (leb limits.max_bytes size) capacity

-- The bytes that a plan is charged.
unfoldable pub plan_bytes : List Target → ℕ
plan_bytes [] = 0
plan_bytes (t ∷ ts) = length t.payload + 2048 + plan_bytes ts

abbrev pub has_dependencies : Target → Bool
has_dependencies t = elim t.dependency_revisions [ [] ↦ false | _ ∷ _ ↦ true ]

-- The content revisions of the targets that depend on no other.
unfoldable pub primary_revisions : List Target → List Str
primary_revisions [] = []
primary_revisions (t ∷ ts) =
    let rest = primary_revisions ts in
    if has_dependencies t then rest else t.content_revision ∷ rest

unfoldable pub all_contained : List Str → List Str → Bool
all_contained primary [] = true
all_contained primary (d ∷ ds) = contains primary d && all_contained primary ds

unfoldable pub dependencies_known : List Str → List Target → Bool
unfolding all_contained
dependencies_known primary [] = true
dependencies_known primary (t ∷ ts) =
    all_contained primary t.dependency_revisions && dependencies_known primary ts

-- The checks before the transaction.
unfoldable pub check_plan : Str → Str → List Target → Str → Result (Unit {0})
check_plan key request_hash targets terminal_reason = do
  refuse_if
      (is_empty request_hash
        || (elim targets [ [] ↦ true | _ ∷ _ ↦ false ] && is_empty terminal_reason))
      bad_plan
  refuse_if (ltb 256 (length key)) key_too_long
  refuse_if (ltb 8388608 (plan_bytes targets)) capacity
  refuse_if (not (dependencies_known (primary_revisions targets) targets)) unknown_dependency

-- id + NUL + receiver + NUL + channel + NUL + destination + NUL + content revision, hashed.
unfoldable pub target_id : Env → Str → Target → Str
target_id env intake_id t = env.hash (
    intake_id
    ++ (0 ∷ (t.receiver ++ (0 ∷ (t.channel ++ (0 ∷ (t.destination ++ (0 ∷ t.content_revision))))))))

abbrev pub wrong_snapshot : Option ProfileSnapshot → Target → Bool
wrong_snapshot none t = false
wrong_snapshot (some snap) t =
    not (str_eq t.profile_id snap.profile.id) || not (str_eq t.profile_version snap.profile.version)

unfoldable pub check_target : Env → Option ProfileSnapshot → Target → Result (Unit {0})
check_target env snapshot t = do
  refuse_if (wrong_snapshot snapshot t) profile_mismatch
  refuse_if
      (is_empty t.receiver
        || (is_empty t.channel
            || (is_empty t.destination
                || (is_empty t.content_revision
                    || (not (env.json_valid t.payload) || ltb 2097152 (length t.payload))))))
      invalid_target

-- The stored form of a target of a new intake.
unfoldable pub frozen : Env → Str → ℕ → Target → Target
unfolding target_id
frozen env intake_id now t = record t {
  id = target_id env intake_id t;
  intake_id = intake_id;
  state = pending;
  attempts = 0;
  owner = [];
  attempt_id = [];
  outcome = [];
  evidence = [];
  available_at = now;
  updated_at = now;
}

abbrev pub is_delivered : State → Bool
is_delivered delivered = true
is_delivered _ = false

abbrev pub reverse_onto : List Str → List Str → List Str
reverse_onto [] ys = ys
reverse_onto (x ∷ xs) ys = reverse_onto xs (x ∷ ys)

module _ ⦃B : Bolt⦄ where
  open B use {get, put}

  -- A target is stored and indexed, as ready or behind its dependencies.
  unfoldable pub insert_target : Target → Db → Db
  insert_target t db =
      let stored = record db { targets = put db.targets t.id t } in
      if has_dependencies t
      then record stored { blocked = put db.blocked t.id t.id }
      else record stored { ready = put db.ready (queue_key t) t.id }

  -- The loop over the targets; `ids` are the identities so far, newest first, which are the set
  -- `seen` and, reversed, the field TargetIDs.
  unfoldable pub insert_targets :
      Env → Option ProfileSnapshot → Str → ℕ → List Target → List Str → Db → Result (List Str × Db)
  unfolding check_target frozen insert_target
  insert_targets env snapshot id now [] ids db = ok (ids, db)
  insert_targets env snapshot id now (t ∷ ts) ids db = validate_profile_target db t >>= λ _.
      check_target env snapshot t >>= λ _.
      let f = frozen env id now t in
      refuse_if (contains ids f.id) duplicate_target >>= λ _.
      insert_targets env snapshot id now ts (f.id ∷ ids) (insert_target f db)

  -- Whether some target of the earlier intake is not delivered; the loop stops at the first.
  unfoldable pub incomplete : Db → List Str → Result Bool
  incomplete db [] = ok false
  incomplete db (id ∷ ids) =
      let rest = incomplete db ids in
      or_err (get db.targets id) no_record >>= λ t. if is_delivered t.state then rest else ok true

  -- Whether the intake of an earlier request under the same key answers this one.
  unfoldable pub is_repeat : Env → ℕ → Db → Intake → Result Bool
  unfolding incomplete
  is_repeat env window db previous = do
    open_work ← if ltb 0 window then incomplete db previous.target_ids else ok false
    ok (leb window 0 || (open_work || ltb (env.clock 0) (previous.accepted_at + window)))

  unfoldable pub find_repeat : Env → Str → Str → ℕ → Db → Result (Option Intake)
  unfolding is_repeat
  find_repeat env key request_hash window db =
      if is_empty key then ok none else elim (get db.dedupe key) [
        | none ↦ ok none
        | some id ↦ do
          previous ← or_err (get db.intakes id) no_record
          refuse_if (not (str_eq previous.request_hash request_hash)) key_reused
          repeated ← is_repeat env window db previous
          ok (if repeated then some previous else none)
      ]

  unfoldable pub new_intake :
      Env
      → Limits
      → Str
      → Str
      → Str
      → List Target
      → Str
      → Option ProfileSnapshot
      → Db
      → Result (Intake × Db)
  unfolding check_capacity insert_targets raise_active_count
  new_intake env limits id key request_hash targets terminal_reason snapshot db = do
    check_capacity env limits
    refuse_if (ltb limits.max_targets (u64 (db.active_targets + length targets))) capacity
    let now = env.clock 1
    (ids, filled) ← insert_targets env snapshot id now targets [] db
    let counted = raise_active_count filled (length targets)
    let intake : Intake = record {
      id = id;
      request_hash = request_hash;
      accepted_at = now;
      target_ids = reverse_onto ids [];
      terminal_reason = terminal_reason;
    }
    let saved = record counted { intakes = put counted.intakes id intake }
    ok (intake, if is_empty key then saved else record saved { dedupe = put saved.dedupe key id })

  -- The intake, whether it is that of an earlier request, and the database.
  unfoldable pub submit :
      Env
      → Limits
      → Str
      → Str
      → List Target
      → Str
      → Option ProfileSnapshot
      → ℕ
      → Db
      → Result (Intake × Bool × Db)
  unfolding check_plan check_profile_admission find_repeat new_intake
  submit env limits key request_hash targets terminal_reason snapshot window db = do
    check_plan key request_hash targets terminal_reason
    id ← or_err (env.random 0) no_random
    check_profile_admission db snapshot
    earlier ← find_repeat env key request_hash window db
    elim earlier [
      | some previous ↦ ok (previous, true, db)
      | none ↦
          new_intake env limits id key request_hash targets terminal_reason snapshot db >>= λ r.
          ok (r.0, false, r.1)
    ]
