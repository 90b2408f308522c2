-- ===== src/Spool/ProfileLaws.antt =====
-- What delivery profiles guarantee: immutable versions, controls by compare and swap, and the scope
-- of what is handed out.
use notification_manager.Base.{
  ℕ, ◌+◌, ◌≡◌, ◌<◌, sym, ap, ◌∙◌, subst, inl, inr, true, false, none, some, List, [], ◌∷◌, ◌++◌,
  Str, lit, is_empty, arith, Option-cases,
}
use notification_manager.Bolt.{Bolt}
use notification_manager.Bolt.Laws.{get-put}
use notification_manager.Spool.Types.{
  Target, Claim, DeliveryProfile, ProfileState, Env, Db, ok, err, profile_conflict,
}
use notification_manager.Spool.Counter.{u64}
use notification_manager.Spool.Profiles.{
  same_profile, check_audit, profile_key, state_key, initial_state, read_profile_state,
  register_profile, register_profiles, control_profile, profile_delivery_paused,
}
use notification_manager.Spool.Claim.{attempted, claim}
use notification_manager.Spool.Invariant.Claims.{Claimed, claim-Claimed}
use notification_manager.Spool.Invariant.Profiles.{
  Registered, register_profile-Registered, register_profiles_round, Controlled,
  control_profile-Controlled,
}

same_profile-eq : (p q : DeliveryProfile) → same_profile p q ≡ true → p ≡ q
unfolding same_profile
same_profile-eq p q h = ground arith

module _ ⦃B : Bolt⦄ where
  open B use {get, put}

  -- What a registration may do: no version of a profile and no state of one changes, and a state
  -- that is new is paused and has no active version.
  pub record Preserves (db db' : Db) : Type 0 where
    pub versions :
        (k : Str) (p : DeliveryProfile) → get db.profiles k ≡ some p → get db'.profiles k ≡ some p
    pub states :
        (k : Str) (st : ProfileState)
        → get db.profile_states k ≡ some st
        → get db'.profile_states k ≡ some st
    pub new_states :
        (k : Str) (st : ProfileState)
        → get db.profile_states k ≡ none
        → get db'.profile_states k ≡ some st
        → (st.paused ≡ true) × (st.active_version ≡ [])

  Preserves-trans : (a b c : Db) → Preserves a b → Preserves b c → Preserves a c
  Preserves-trans a b c p q = record {
    versions = λ k x h. q.versions k x (p.versions k x h);
    states = λ k x h. q.states k x (p.states k x h);
    new_states = λ k x n h. elim (Option-cases (get b.profile_states k)) [
      | inl e ↦ q.new_states k x e h
      | inr (y, e) ↦ ground (arith, q.states k y e, p.new_states k y n e)
    ];
  }

  register_profile-Preserves :
      (initial : Str) (p : DeliveryProfile) (db db' : Db)
      → register_profile initial p db ≡ ok db'
      → Preserves db db'
  unfolding initial_state
  register_profile-Preserves initial p db db' h = record {
    versions = λ k x e.
        ground
          (arith, r.profiles_are, get-put db.profiles key p k, r.unchanged, same_profile-eq x p);
    states = λ k x e. ground (
      arith,
      r.states_are,
      get-put db.profile_states (state_key p.id) (initial_state p initial) k,
    );
    new_states = λ k x n e. ground (
      arith,
      r.states_are,
      get-put db.profile_states (state_key p.id) (initial_state p initial) k,
    );
  }
    where
      r : Registered initial p db db'
      r = register_profile-Registered initial p db db' h

      key : Str
      key = profile_key p.id p.version

  -- RegisterProfiles never changes a registered version nor a persisted state, and a profile that it
  -- registers for the first time is paused and has no active version.
  pub register_profiles-Preserves :
      (ps : List DeliveryProfile) (initial : Str) (db db' : Db)
      → register_profiles ps initial db ≡ ok db'
      → Preserves db db'
  register_profiles-Preserves [] initial db db' h =
      unfold register_profiles in
      subst (Preserves db) {x = db} {y = db'} (ground arith) (record {
        versions = λ k p e. e;
        states = λ k st e. e;
        new_states = λ k st n e. absurd (cc (sym n ∙ e));
      })
  register_profiles-Preserves (p ∷ ps) initial db db' h =
      let (d, e, more) = register_profiles_round p ps initial db db' h in
      Preserves-trans db d db' (register_profile-Preserves initial p db d e)
        (register_profiles-Preserves ps initial d db' more)

  -- Of two controls that expect the same revision one at most takes effect: after a success the
  -- stored state has the next revision, and a second control is refused as a conflict.
  pub control_profile_once :
      (env env' : Env) (id action action' version version' : Str) (expected : ℕ)
      (actor actor' evidence evidence' : Str) (db : Db) (st : ProfileState) (db' : Db)
      → expected < 18446744073709551616
      → control_profile env id action version expected actor evidence db ≡ ok (st, db')
      → check_audit actor' evidence' ≡ ok tt
      → (get db'.profile_states (state_key id) ≡ some st)
        × (st.revision ≡ u64 (expected + 1))
        × (control_profile env' id action' version' expected actor' evidence' db'
            ≡ err profile_conflict)
  unfolding control_profile read_profile_state
  control_profile_once env env' id action action' version version' expected actor actor' evidence
        evidence' db st db' small h audited =
      (
        stored,
        ap (λ s. s.revision) r.state_is,
        ground (arith, stored, ap (λ s. s.revision) r.state_is, audited),
      )
    where
      r : Controlled env id action version expected actor evidence db st db'
      r = control_profile-Controlled env id action version expected actor evidence db st db' h

      stored : get db'.profile_states (state_key id) ≡ some st
      stored =
          ground (arith, r.states_are, get-put db.profile_states (state_key id) st (state_key id))

  -- What the profile of a target demands of it, when it is handed out.
  pub record InScope (db : Db) (t : Target) : Type 0 where
    pub profile : DeliveryProfile
    pub profile_state : ProfileState
    pub registered : get db.profiles (profile_key t.profile_id t.profile_version) ≡ some profile
    pub state : get db.profile_states (state_key t.profile_id) ≡ some profile_state
    pub running : profile_state.paused ≡ false
    pub owned : t.card_owner_id ≡ profile.card_owner_id
    pub to_test_chat :
        profile.id ≡ lit "test"
        → (t.channel ≡ lit "feishu")
          × (t.receiver ≡ profile.receiver)
          × (t.destination ≡ lit "chat:" ++ profile.test_chat_id)
          × (t.original_destination ≡ lit "chat:" ++ profile.source_chat_id)

  free-InScope :
      (db : Db) (t : Target)
      → is_empty t.profile_id ≡ false
      → profile_delivery_paused db t ≡ ok false
      → InScope db t
  unfolding profile_delivery_paused
  free-InScope db t full h =
      elim (Option-cases (get db.profiles (profile_key t.profile_id t.profile_version))) [
        | inl e ↦ absurd (ground arith)
        | inr (p, e) ↦ elim (Option-cases (get db.profile_states (state_key t.profile_id))) [
          | inl n ↦ absurd (ground arith)
          | inr (st, s) ↦ record {
            profile = p;
            profile_state = st;
            registered = e;
            state = s;
            running = ground arith;
            owned = ground arith;
            to_test_chat = λ is_test. ground arith;
          }
        ]
      ]

  -- A target of a profile is handed out only while that profile is not paused, under a registered
  -- version with the same card owner, and, in the test profile, only to the test chat.
  pub claim-InScope :
      (env : Env) (owner : Str) (now : ℕ) (db : Db) (c : Claim) (db' : Db)
      → claim env owner now db ≡ ok (c, db')
      → is_empty c.target.profile_id ≡ false
      → InScope db c.target
  unfolding attempted
  claim-InScope env owner now db c db' h full =
      subst (λ x. InScope db x.target) (sym out.claim_is)
        (record {
          profile = f.profile;
          profile_state = f.profile_state;
          registered = f.registered;
          state = f.state;
          running = f.running;
          owned = f.owned;
          to_test_chat = f.to_test_chat;
        })
    where
      out : Claimed env owner now db c db'
      out = claim-Claimed env owner now db c db' h

      f : InScope db out.target
      f =
          free-InScope db out.target
            (ap (λ x. is_empty x.target.profile_id) (sym out.claim_is) ∙ full) out.found.admitted
