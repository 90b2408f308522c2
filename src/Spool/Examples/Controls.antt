-- ===== src/Spool/Examples/Controls.antt =====
-- Instances of the theorems on registering and controlling profiles.
use notification_manager.Base.{◌≡◌, refl, true, some, [], ◌∷◌, lit, arith}
use notification_manager.Bolt.Listed.{listed}
use notification_manager.Spool.Types.{DeliveryProfile, ProfileState, Db, ok, err, profile_conflict}
use notification_manager.Spool.Examples.{everything, from_ok, env}
use notification_manager.Spool.Profiles.{register_profiles, control_profile, state_key}
use notification_manager.Spool.Lifecycle.Reach.{empty_db}
use notification_manager.Spool.ProfileLaws.{
  Preserves, register_profiles-Preserves, control_profile_once,
}

abbrev test_profile : DeliveryProfile
test_profile = record {
  id = lit "test";
  version = lit "v1";
  card_owner_id = lit "o";
  receiver = lit "r";
  source_chat_id = lit "s";
  test_chat_id = lit "t";
}

abbrev registered : Db
registered = from_ok empty_db (register_profiles (test_profile ∷ []) (lit "v1") empty_db)

register_profiles-Preserves_example : Preserves empty_db registered
unfolding everything
register_profiles-Preserves_example =
    register_profiles-Preserves (test_profile ∷ []) (lit "v1") empty_db registered refl

abbrev blank_state : ProfileState
blank_state = record {
  bootstrap_version = [];
  revision = 0;
  active_version = [];
  paused = true;
  prepared = [];
}

abbrev prepared : ProfileState × Db
prepared =
    from_ok (blank_state, empty_db)
      (control_profile env (lit "test") (lit "prepare") (lit "v1") 1 (lit "me") (lit "ticket")
        registered)

prepared_lem :
    control_profile env
      (lit "test")
      (lit "prepare")
      (lit "v1")
      1
      (lit "me")
      (lit "ticket")
      registered
    ≡ ok (prepared.0, prepared.1)
unfolding everything
prepared_lem = refl

control_profile_once_example :
    (listed.get prepared.1.profile_states (state_key (lit "test")) ≡ some prepared.0)
    × (prepared.0.revision ≡ 2)
    × (control_profile env
          (lit "test")
          (lit "activate")
          (lit "v1")
          1
          (lit "me")
          (lit "ticket")
          prepared.1
        ≡ err profile_conflict)
unfolding everything
control_profile_once_example =
    control_profile_once env env (lit "test") (lit "prepare") (lit "activate") (lit "v1") (lit "v1")
      1 (lit "me") (lit "me") (lit "ticket") (lit "ticket") registered prepared.0 prepared.1
      (omega arith) prepared_lem refl
