-- ===== src/Spool/Idempotence.antt =====
-- What Submit promises: a plan is stored whole, and a key answers for it from then on.
use notification_manager.Base.{
  ℕ, ◌+◌, ◌≤◌, ◌<◌, ◌≡◌, ◌≢◌, refl, ◌∙◌, subst, inl, inr, true, false, Option, some, List, [], ◌∷◌,
  Str, is_empty, length, arith, Option-cases, All,
}
use notification_manager.Bolt.{Bolt}
use notification_manager.Bolt.Laws.{get-put}
use notification_manager.Spool.Types.{
  pending, Target, Intake, Limits, ProfileSnapshot, Env, Db, ok, err, key_reused,
}
use notification_manager.Spool.Outcome.{Result-cases}
use notification_manager.Spool.Counter.{raise_active_count, u64}
use notification_manager.Spool.Profiles.{check_profile_admission}
use notification_manager.Spool.Submit.{
  check_plan, check_capacity, target_id, frozen, insert_target, insert_targets, incomplete,
  is_repeat, find_repeat, reverse_onto, new_intake, submit,
}
use notification_manager.Spool.Plan.{AreDistinct, HoldsPlan, insert_targets-HoldsPlan}
use notification_manager.Spool.Invariant.Submit.{submit_cases, insert_targets_round}
use notification_manager.Spool.Lifecycle.{phase, held}

length-reverse_onto : (xs ys : List Str) → length (reverse_onto xs ys) ≡ length xs + length ys
length-reverse_onto [] ys = omega arith
length-reverse_onto (x ∷ xs) ys = omega (arith, length-reverse_onto xs (x ∷ ys))

All-reverse_onto :
    (P : Str → Type 0) (xs ys : List Str) → All P xs → All P ys → All P (reverse_onto xs ys)
All-reverse_onto P [] ys a b = b
All-reverse_onto P (x ∷ xs) ys a b = All-reverse_onto P xs (x ∷ ys) a.1 (a.0, b)

module _ ⦃B : Bolt⦄ where
  open B use {Bucket, get, put}

  abbrev pub IsPending : Db → Str → Type 0
  IsPending db id = phase (get db.targets id) ≡ held pending

  insert_target-IsPending :
      (db : Db) (f : Target) (ids : List Str)
      → f.state ≡ pending
      → All (IsPending db) ids
      → All (IsPending (insert_target f db)) ids
  unfolding insert_target
  insert_target-IsPending db f [] at a = tt
  insert_target-IsPending db f (id ∷ ids) at a =
      ground (arith, get-put db.targets f.id f id, insert_target-IsPending db f ids at a.1)

  insert_target_self :
      (db : Db) (f : Target) → f.state ≡ pending → IsPending (insert_target f db) f.id
  unfolding insert_target
  insert_target_self db f at = ground (arith, get-put db.targets f.id f f.id)

  insert_targets-IsPending :
      (env : Env) (snapshot : Option ProfileSnapshot) (id : Str) (now : ℕ) (ts : List Target)
      (ids ids' : List Str) (db db' : Db)
      → All (IsPending db) ids
      → insert_targets env snapshot id now ts ids db ≡ ok (ids', db')
      → All (IsPending db') ids'
        × (length ids' ≡ length ids + length ts)
        × (db'.active_targets ≡ db.active_targets)
  insert_targets-IsPending env snapshot id now [] ids ids' db db' a h =
      unfold insert_targets in
      let e : ids ≡ ids' = ground arith in
      let d : db ≡ db' = ground arith in
      (
        subst (λ x. All (IsPending db') x) e (subst (λ (x : Db). All (IsPending x) ids) d a),
        ground arith,
        ground arith,
      )
  insert_targets-IsPending env snapshot id now (t ∷ ts) ids ids' db db' a h =
      let r = insert_targets_round env snapshot id now t ts ids ids' db db' h in
      let (p, n, c) =
        insert_targets-IsPending env snapshot id now ts (target_id env id t ∷ ids) ids'
          (insert_target f db) db'
          (
            subst (IsPending (insert_target f db)) same (insert_target_self db f at),
            insert_target-IsPending db f ids at a,
          )
          r.3 in
      (p, omega (arith, n), c ∙ kept)
    where
      f : Target
      f = frozen env id now t

      at : f.state ≡ pending
      at = unfold frozen in refl

      same : f.id ≡ target_id env id t
      same = unfold frozen in refl

      kept : (insert_target f db).active_targets ≡ db.active_targets
      kept = unfold insert_target in ground arith

  -- A new intake, as it is stored.
  pub record Accepts (limits : Limits) (key request_hash : Str) (plan : List Target) (db : Db)
      (intake : Intake) (db' : Db) : Type 0 where
    pub is_stored : get db'.intakes intake.id ≡ some intake
    pub is_keyed : is_empty key ≡ false → get db'.dedupe key ≡ some intake.id
    pub request_is : intake.request_hash ≡ request_hash
    pub one_each : length intake.target_ids ≡ length plan
    pub is_held : HoldsPlan intake.id intake.accepted_at db'.targets intake.target_ids plan
    pub distinct : AreDistinct intake.target_ids
    pub all_pending : All (IsPending db') intake.target_ids
    pub counter_is : db'.active_targets ≡ u64 (db.active_targets + length plan)
    pub has_room : u64 (db.active_targets + length plan) ≤ limits.max_targets

  new_intake-Accepts :
      (env : Env) (limits : Limits) (id key request_hash : Str) (targets : List Target)
      (reason : Str) (snapshot : Option ProfileSnapshot) (db : Db) (intake : Intake) (db' : Db)
      → new_intake env limits id key request_hash targets reason snapshot db ≡ ok (intake, db')
      → Accepts limits key request_hash targets db intake db'
  unfolding new_intake raise_active_count
  new_intake-Accepts env limits id key request_hash targets reason snapshot db intake db' h =
      elim (Result-cases (check_capacity env limits)) [
        | inr (x, bad) ↦ absurd (ground arith)
        | inl (tt, c) ↦
            elim (Result-cases (insert_targets env snapshot id (env.clock 1) targets [] db)) [
              | inr (x, bad) ↦ absurd (ground arith)
              | inl ((ids, filled), e) ↦
                  let (p, n, k) =
                    insert_targets-IsPending env snapshot id (env.clock 1) targets [] ids db filled
                      tt e in
                  let whole =
                    insert_targets-HoldsPlan env snapshot id (env.clock 1) targets ids db filled
                      e in
                  let same : filled.targets ≡ db'.targets = ground arith in
                  let ids_are : reverse_onto ids [] ≡ intake.target_ids = ground arith in
                  record {
                    is_stored = ground (arith, get-put filled.intakes id intake intake.id);
                    is_keyed = λ full. ground (arith, get-put filled.dedupe key id key);
                    request_is = ground arith;
                    is_held = plan_is (ground arith) (ground arith) same ids_are whole.0;
                    distinct = subst AreDistinct ids_are whole.1;
                    one_each = ground (arith, length-reverse_onto ids []);
                    all_pending = subst (All (IsPending db')) ids_are (
                        subst (λ b. All (λ j. phase (get b j) ≡ held pending) (reverse_onto ids []))
                          same (All-reverse_onto (IsPending filled) ids [] p tt));
                    counter_is = ground arith;
                    has_room = ground arith;
                  }
            ]
      ]
    where
      plan_is :
          {b : Bucket Target} {is : List Str}
          → id ≡ intake.id
          → env.clock 1 ≡ intake.accepted_at
          → b ≡ db'.targets
          → is ≡ intake.target_ids
          → HoldsPlan id (env.clock 1) b is targets
          → HoldsPlan intake.id intake.accepted_at db'.targets intake.target_ids targets
      plan_is {b} {is} e f g k h =
          subst (λ x. HoldsPlan x intake.accepted_at db'.targets intake.target_ids targets) e
            (subst (λ x. HoldsPlan id x db'.targets intake.target_ids targets) f
              (subst (λ x. HoldsPlan id (env.clock 1) x intake.target_ids targets) g
                (subst (λ x. HoldsPlan id (env.clock 1) b x targets) k h)))

  -- A submission that is not answered with an earlier intake stores the whole plan: the intake, under
  -- its key if it has one, and under distinct identities the targets of the plan, one for one and in
  -- its order, each with all that the plan says of it, pending and due at once. The counter grows by
  -- their number, within the limit on active targets.
  pub submit-Accepts :
      (env : Env) (limits : Limits) (key request_hash : Str) (targets : List Target) (reason : Str)
      (snapshot : Option ProfileSnapshot) (window : ℕ) (db : Db) (intake : Intake) (db' : Db)
      → submit env limits key request_hash targets reason snapshot window db
        ≡ ok (intake, false, db')
      → Accepts limits key request_hash targets db intake db'
  submit-Accepts env limits key request_hash targets reason snapshot window db intake db' h =
      elim (submit_cases env limits key request_hash targets reason snapshot window db intake false
        db' h) [
          | inl (kept, e) ↦ cc
          | inr (id, drawn, p, new, made) ↦
              new_intake-Accepts env limits id key request_hash targets reason snapshot db intake
                db' made
        ]

  -- Work that is left over makes the earlier intake answer, whatever the window.
  incomplete_pending :
      (db : Db) (ids : List Str)
      → 0 < length ids
      → All (IsPending db) ids
      → incomplete db ids ≡ ok true
  unfolding incomplete
  incomplete_pending db [] n a = absurd (omega arith)
  incomplete_pending db (id ∷ ids) n a = elim (Option-cases (get db.targets id)) [
    | inl e ↦ absurd (ground (arith, a.0))
    | inr (t, e) ↦ ground (arith, a.0)
  ]

  find_repeat_accepted :
      (env : Env) (limits : Limits) (key request_hash : Str) (plan : List Target) (window : ℕ)
      (db : Db) (intake : Intake) (db' : Db)
      → Accepts limits key request_hash plan db intake db'
      → is_empty key ≡ false
      → 0 < length plan
      → find_repeat env key request_hash window db' ≡ ok (some intake)
  unfolding find_repeat is_repeat
  find_repeat_accepted env limits key request_hash plan window db intake db' a full some_target =
      ground (
        arith,
        a.is_keyed full,
        a.is_stored,
        a.request_is,
        incomplete_pending db' intake.target_ids (omega (arith, a.one_each)) a.all_pending,
      )

  -- Right after a plan of some targets was accepted under a key, a valid request with that key and the
  -- same content, whose profile is admitted if it names one, is answered with the same intake and
  -- changes nothing, whatever its window; such a request with other content is refused.
  pub submit_twice :
      (env env' : Env) (limits limits' : Limits) (key request_hash other_hash id' : Str)
      (targets targets' : List Target) (reason reason' : Str)
      (snapshot snapshot' : Option ProfileSnapshot) (window window' : ℕ) (db : Db) (intake : Intake)
      (db' : Db)
      → submit env limits key request_hash targets reason snapshot window db
        ≡ ok (intake, false, db')
      → is_empty key ≡ false
      → 0 < length targets
      → env'.random 0 ≡ some id'
      → check_profile_admission db' snapshot' ≡ ok tt
      → other_hash ≢ request_hash
      → check_plan key request_hash targets' reason' ≡ ok tt
      → check_plan key other_hash targets' reason' ≡ ok tt
      → (submit env' limits' key request_hash targets' reason' snapshot' window' db'
          ≡ ok (intake, true, db'))
        × (submit env' limits' key other_hash targets' reason' snapshot' window' db'
            ≡ err key_reused)
  unfolding submit
  submit_twice env env' limits limits' key request_hash other_hash id' targets targets' reason
        reason' snapshot snapshot' window window' db intake db' h full some_target drawn admitted n
        p q =
      (
        ground (
          arith,
          p,
          drawn,
          admitted,
          find_repeat_accepted env' limits key request_hash targets window' db intake db' a full
              some_target,
        ),
        ground (arith, q, n, drawn, admitted, refused n),
      )
    where
      a : Accepts limits key request_hash targets db intake db'
      a = submit-Accepts env limits key request_hash targets reason snapshot window db intake db' h

      refused :
          other_hash ≢ request_hash → find_repeat env' key other_hash window' db' ≡ err key_reused
      refused n =
          unfold find_repeat in ground (arith, n, a.is_keyed full, a.is_stored, a.request_is)
