-- ===== src/Spool/Invariant/Profiles.antt =====
-- RegisterProfiles and ControlProfile leave the queue alone.
use notification_manager.Base.{
  ℕ, ◌+◌, ◌≡◌, ◌∙◌, inl, inr, false, none, some, List, [], ◌∷◌, Str, arith, Option-cases,
}
use notification_manager.Bolt.{Bolt}
use notification_manager.Spool.Types.{DeliveryProfile, ProfileState, Env, Db, ok}
use notification_manager.Spool.Outcome.{Result-cases, >>=-eq-ok}
use notification_manager.Spool.Counter.{u64}
use notification_manager.Spool.Profiles.{
  check_audit, check_profile, profile_key, state_key, initial_state, changed_from,
  read_profile_state, register_profile, register_profiles, apply_action, control_profile,
}

module _ ⦃B : Bolt⦄ where
  open B use {get, put}

  abbrev pub SameQueue : Db → Db → Type 0
  SameQueue db db' =
      (db'.targets ≡ db.targets)
      × (db'.ready ≡ db.ready)
      × (db'.blocked ≡ db.blocked)
      × (db'.active_targets ≡ db.active_targets)

  -- A registration, step by step.
  pub record Registered (initial : Str) (p : DeliveryProfile) (db db' : Db) : Type 0 where
    pub checked : check_profile p ≡ ok tt
    pub unchanged : changed_from (get db.profiles (profile_key p.id p.version)) p ≡ false
    pub profiles_are : db'.profiles ≡ put db.profiles (profile_key p.id p.version) p
    pub states_are : db'.profile_states ≡ elim (get db.profile_states (state_key p.id)) [
      | none ↦ put db.profile_states (state_key p.id) (initial_state p initial)
      | some _ ↦ db.profile_states
    ]
    pub queue : SameQueue db db'

  pub register_profile-Registered :
      (initial : Str) (p : DeliveryProfile) (db db' : Db)
      → register_profile initial p db ≡ ok db'
      → Registered initial p db db'
  unfolding register_profile
  register_profile-Registered initial p db db' h =
      elim (Option-cases (get db.profile_states (state_key p.id))) [
        | inl e ↦ record {
          checked = ground arith;
          unchanged = ground arith;
          profiles_are = ground arith;
          states_are = rw e (ground arith);
          queue = ground arith;
        }
        | inr (st, e) ↦ record {
          checked = ground arith;
          unchanged = ground arith;
          profiles_are = ground arith;
          states_are = rw e (ground arith);
          queue = ground arith;
        }
      ]

  pub register_profiles_round :
      (p : DeliveryProfile) (ps : List DeliveryProfile) (initial : Str) (db db' : Db)
      → register_profiles (p ∷ ps) initial db ≡ ok db'
      → (d : Db) × (register_profile initial p db ≡ ok d)
        × (register_profiles ps initial d ≡ ok db')
  unfolding register_profiles
  register_profiles_round p ps initial db db' h =
      >>=-eq-ok (register_profile initial p db) (register_profiles ps initial) h

  pub register_profiles-SameQueue :
      (ps : List DeliveryProfile) (initial : Str) (db db' : Db)
      → register_profiles ps initial db ≡ ok db'
      → SameQueue db db'
  register_profiles-SameQueue [] initial db db' h = unfold register_profiles in ground arith
  register_profiles-SameQueue (p ∷ ps) initial db db' h =
      let (d, e, more) = register_profiles_round p ps initial db db' h in
      let first : SameQueue db d = (register_profile-Registered initial p db d e).queue in
      let rest : SameQueue d db' = register_profiles-SameQueue ps initial d db' more in
      (rest.0 ∙ first.0, rest.1 ∙ first.1, rest.2 ∙ first.2, rest.3 ∙ first.3)

  -- A control, step by step.
  pub record Controlled (env : Env) (id action version : Str) (expected : ℕ) (actor evidence : Str)
      (db : Db) (st : ProfileState) (db' : Db) : Type 0 where
    pub old : ProfileState
    pub changed : ProfileState
    pub audited : check_audit actor evidence ≡ ok tt
    pub read : get db.profile_states (state_key id) ≡ some old
    pub current : old.revision ≡ expected
    pub applied : apply_action db id action version old ≡ ok changed
    pub state_is : st ≡ record changed { revision = u64 (expected + 1) }
    pub states_are : db'.profile_states ≡ put db.profile_states (state_key id) st
    pub profiles_are : db'.profiles ≡ db.profiles
    pub queue : SameQueue db db'

  pub control_profile-Controlled :
      (env : Env) (id action version : Str) (expected : ℕ) (actor evidence : Str) (db : Db)
      (st : ProfileState) (db' : Db)
      → control_profile env id action version expected actor evidence db ≡ ok (st, db')
      → Controlled env id action version expected actor evidence db st db'
  unfolding control_profile read_profile_state
  control_profile-Controlled env id action version expected actor evidence db st db' h =
      elim (Option-cases (get db.profile_states (state_key id))) [
        | inl e ↦ absurd (ground arith)
        | inr (old, e) ↦ elim (Result-cases (apply_action db id action version old)) [
          | inr (x, bad) ↦ absurd (ground arith)
          | inl (changed, a) ↦ elim (Option-cases (env.random 0)) [
            | inl n ↦ absurd (ground arith)
            | inr (key, r) ↦ record {
              old = old;
              changed = changed;
              audited = ground arith;
              read = e;
              current = ground arith;
              applied = a;
              state_is = ground arith;
              states_are = ground arith;
              profiles_are = ground arith;
              queue = ground arith;
            }
          ]
        ]
      ]
