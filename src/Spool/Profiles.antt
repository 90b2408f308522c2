-- ===== src/Spool/Profiles.antt =====
-- Delivery profiles (pkg/notification_spool/profiles.go).
use notification_manager.Base.{
  ℕ, ◌+◌, Bool, true, false, ◌&&◌, ◌||◌, not, Option, none, some, List, [], ◌∷◌, ◌++◌, Str, str_eq,
  lit, is_empty, contains, length, ltb, ◌==◌, if◌then◌else◌,
}
use notification_manager.Bolt.{Bolt}
use notification_manager.Spool.Types.{
  Target, DeliveryProfile, ProfileState, ProfileSnapshot, profile_control, Env, Db, Result, ok, err,
  ◌>>=◌, ◌>>◌, refuse_if, or_err, profile_conflict, profile_paused, profile_unregistered,
  version_unregistered, owner_mismatch, test_scope_violated, invalid_frozen_profile,
  profile_identity, test_scope, formal_scope, immutable_version, not_prepared, unknown_action,
  unbounded_audit, no_random,
}
use notification_manager.Spool.Counter.{u64}

-- "profile:" + id + ":" + version and "profile-state:" + id.
unfoldable pub profile_key : Str → Str → Str
profile_key id version = lit "profile:" ++ (id ++ (lit ":" ++ version))

unfoldable pub state_key : Str → Str
state_key id = lit "profile-state:" ++ id

unfoldable pub same_profile : DeliveryProfile → DeliveryProfile → Bool
same_profile p q =
    str_eq p.id q.id
    && (str_eq p.version q.version
        && (str_eq p.card_owner_id q.card_owner_id
            && (str_eq p.receiver q.receiver
                && (str_eq p.source_chat_id q.source_chat_id
                    && str_eq p.test_chat_id q.test_chat_id))))

-- The checks of RegisterProfiles on one profile, in order.
unfoldable pub check_profile : DeliveryProfile → Result (Unit {0})
check_profile p = do
  let is_test = str_eq p.id (lit "test")
  let is_formal = str_eq p.id (lit "formal")
  refuse_if
      ((not is_test && not is_formal)
        || (is_empty p.version || (ltb 128 (length p.version) || is_empty p.card_owner_id)))
      profile_identity
  refuse_if
      (is_test
        && (is_empty p.receiver
            || (is_empty p.source_chat_id
                || (is_empty p.test_chat_id || str_eq p.source_chat_id p.test_chat_id))))
      test_scope
  refuse_if
      (is_formal
        && (not (is_empty p.receiver)
            || (not (is_empty p.source_chat_id) || not (is_empty p.test_chat_id))))
      formal_scope

unfoldable pub initial_state : DeliveryProfile → Str → ProfileState
initial_state p initial_test_version = record {
  bootstrap_version =
      if str_eq p.id (lit "test") && str_eq p.version initial_test_version then p.version else [];
  revision = 1;
  active_version = [];
  paused = true;
  prepared = [];
}

abbrev pub changed_from : Option DeliveryProfile → DeliveryProfile → Bool
changed_from none p = false
changed_from (some old) p = not (same_profile old p)

-- fmt.Errorf("invalid frozen profile: %w") keeps no more of the error than its text.
abbrev pub wrap_invalid : {A : Type 0} → Result A → Result A
wrap_invalid (ok a) = ok a
wrap_invalid (err e) = err invalid_frozen_profile

-- The bounds on the actor and the evidence of an audited operation.
unfoldable pub check_audit : Str → Str → Result (Unit {0})
check_audit actor evidence =
    refuse_if
      (is_empty actor
        || (is_empty evidence || (ltb 128 (length actor) || ltb 512 (length evidence))))
      unbounded_audit

module _ ⦃B : Bolt⦄ where
  open B use {Bucket, get, put}

  unfoldable pub read_profile : Db → Str → Str → Result DeliveryProfile
  read_profile db id version =
      or_err (get db.profiles (profile_key id version)) version_unregistered

  unfoldable pub read_profile_state : Db → Str → Result ProfileState
  read_profile_state db id = or_err (get db.profile_states (state_key id)) profile_unregistered

  unfoldable pub register_profile : Str → DeliveryProfile → Db → Result Db
  register_profile initial p db = do
    check_profile p
    let key = profile_key p.id p.version
    refuse_if (changed_from (get db.profiles key) p) immutable_version
    let kept = record db { profiles = put db.profiles key p }
    let fresh = record kept {
      profile_states = put db.profile_states (state_key p.id) (initial_state p initial);
    }
    ok (elim (get db.profile_states (state_key p.id)) [ none ↦ fresh | some _ ↦ kept ])

  unfoldable pub register_profiles : List DeliveryProfile → Str → Db → Result Db
  register_profiles [] initial db = ok db
  register_profiles (p ∷ ps) initial db =
      register_profile initial p db >>= λ db'. register_profiles ps initial db'

  unfoldable pub profile_snapshot : Db → Str → Result ProfileSnapshot
  unfolding read_profile read_profile_state
  profile_snapshot db id = do
    st ← read_profile_state db id
    refuse_if
        (st.paused || (is_empty st.active_version || not (contains st.prepared st.active_version)))
        profile_paused
    p ← read_profile db id st.active_version
    ok (record { profile = p; revision = st.revision })

  -- The switch of ControlProfile.
  unfoldable pub apply_action : Db → Str → Str → Str → ProfileState → Result ProfileState
  unfolding read_profile
  apply_action db id action version st =
      if str_eq action (lit "prepare")
      then (read_profile db id version >>= λ _. ok (record st { prepared = version ∷ st.prepared }))
      else if str_eq action (lit "activate")
      then (refuse_if (not (contains st.prepared version)) not_prepared
          >> ok (record st { active_version = version; paused = false; bootstrap_version = [] }))
      else if str_eq action (lit "pause")
      then ok (record st { paused = true })
      else if str_eq action (lit "resume")
      then (refuse_if (is_empty st.active_version || not (contains st.prepared st.active_version))
            not_prepared
          >> ok (record st { paused = false }))
      else err unknown_action

  unfoldable pub control_profile :
      Env → Str → Str → Str → ℕ → Str → Str → Db → Result (ProfileState × Db)
  control_profile env id action version expected actor evidence db = do
    check_audit actor evidence
    st ← read_profile_state db id
    refuse_if (not (st.revision == expected)) profile_conflict
    changed ← apply_action db id action version st
    let next = record changed { revision = u64 (st.revision + 1) }
    key ← or_err (env.random 0) no_random
    let entry =
        profile_control (lit "profile_" ++ action) id version next.revision actor evidence
          (env.clock 0)
    ok (
      next,
      record db {
        profile_states = put db.profile_states (state_key id) next;
        audit = put db.audit key entry;
      },
    )

  unfoldable pub validate_profile_target : Db → Target → Result (Unit {0})
  unfolding read_profile
  validate_profile_target db t = if is_empty t.profile_id then ok tt else do
    p ← read_profile db t.profile_id t.profile_version
    refuse_if (not (str_eq t.card_owner_id p.card_owner_id)) owner_mismatch
    refuse_if
        (str_eq p.id (lit "test")
          && (not (str_eq t.channel (lit "feishu"))
              || (not (str_eq t.receiver p.receiver)
                  || (not (str_eq t.destination (lit "chat:" ++ p.test_chat_id))
                      || not (str_eq t.original_destination (lit "chat:" ++ p.source_chat_id))))))
        test_scope_violated

  unfoldable pub check_profile_admission : Db → Option ProfileSnapshot → Result (Unit {0})
  unfolding read_profile_state
  check_profile_admission db none = ok tt
  check_profile_admission db (some snap) = do
    st ← read_profile_state db snap.profile.id
    refuse_if st.paused profile_paused
    refuse_if
        (not (st.revision == snap.revision)
          || (not (str_eq st.active_version snap.profile.version)
              || not (contains st.prepared snap.profile.version)))
        profile_conflict

  unfoldable pub profile_delivery_paused : Db → Target → Result Bool
  unfolding validate_profile_target read_profile_state
  profile_delivery_paused db t = do
    wrap_invalid (validate_profile_target db t)
    if is_empty t.profile_id
        then ok false
        else do st ← read_profile_state db t.profile_id; ok st.paused
