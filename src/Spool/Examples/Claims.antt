-- ===== src/Spool/Examples/Claims.antt =====
-- Instances of the theorems on claims.
use notification_manager.Base.{◌≡◌, refl, Bool, true, false, [], ◌∷◌, lit, arith}
use notification_manager.Bolt.Listed.{listed}
use notification_manager.Spool.Types.{
  Target, Claim, DeliveryProfile, ProfileState, Db, err, none_ready,
}
use notification_manager.Spool.Examples.{
  everything, from_ok, env, first_target, accepted_store, accepted-IsSound, closed_claim, claimed,
  claimed_lem,
}
use notification_manager.Spool.Counter.{queue_key}
use notification_manager.Spool.Claim.{claim}
use notification_manager.Spool.Submit.{frozen}
use notification_manager.Spool.Profiles.{profile_key, state_key}
use notification_manager.Spool.Lifecycle.Reach.{empty_db}
use notification_manager.Spool.Claiming.{Takes, claim-Takes, claim_starves}
use notification_manager.Spool.Progress.{Progress, claim-Progress}
use notification_manager.Spool.ProfileLaws.{InScope, claim-InScope}

claim-Takes_example :
    (s : Target) × Takes env (lit "a1") 5000 accepted_store.db s claimed.0 claimed.1
claim-Takes_example =
    claim-Takes env (lit "a1") 5000 accepted_store.db claimed.0 claimed.1 accepted-IsSound
      claimed_lem

abbrev stored : Target
stored = frozen env (lit "a1") 1001 first_target

claim-Progress_example : Progress env (lit "a1") 5000 1001 accepted_store.db
unfolding everything
claim-Progress_example =
    claim-Progress env (lit "a1") (lit "a1") 5000 accepted_store.db stored.id stored
      accepted-IsSound ((refl, omega arith), tt) refl refl (omega arith) refl

-- A formal profile, and a queue of two: a target of that profile, and one of none.
abbrev formal : DeliveryProfile
formal = record {
  id = lit "formal";
  version = lit "v1";
  card_owner_id = lit "o";
  receiver = [];
  source_chat_id = [];
  test_chat_id = [];
}

abbrev state_of : Bool → ProfileState
state_of paused = record {
  bootstrap_version = [];
  revision = 3;
  active_version = lit "v1";
  paused = paused;
  prepared = lit "v1" ∷ [];
}

abbrev formal_target : Target
formal_target = record stored {
  id = lit "t1";
  profile_id = lit "formal";
  profile_version = lit "v1";
  card_owner_id = lit "o";
}

abbrev plain_target : Target
plain_target = record stored { id = lit "t2" }

abbrev queue_of_two : Bool → Db
queue_of_two paused = record empty_db {
  profiles = listed.put empty_db.profiles (profile_key (lit "formal") (lit "v1")) formal;
  profile_states = listed.put empty_db.profile_states (state_key (lit "formal")) (state_of paused);
  targets =
      listed.put (listed.put empty_db.targets (lit "t1") formal_target) (lit "t2") plain_target;
  ready =
      listed.put (listed.put empty_db.ready (queue_key formal_target) (lit "t1"))
        (queue_key plain_target) (lit "t2");
}

claim_starves_example : claim env (lit "a1") 5000 (queue_of_two true) ≡ err none_ready
unfolding everything
claim_starves_example =
    claim_starves env (lit "a1") 5000 (queue_of_two true) (queue_key formal_target) (lit "t1")
      ((queue_key plain_target, lit "t2") ∷ []) formal (state_of true) formal_target refl refl
      (record {
        has_profile = refl;
        registered = refl;
        same_owner = refl;
        not_test = refl;
        state = refl;
        stopped = refl;
      })
      (omega arith) ((refl, refl, refl), tt)

abbrev formal_claim : Claim × Db
formal_claim = from_ok (closed_claim, empty_db) (claim env (lit "a1") 5000 (queue_of_two false))

claim-InScope_example : InScope (queue_of_two false) formal_claim.0.target
unfolding everything
claim-InScope_example =
    claim-InScope env (lit "a1") 5000 (queue_of_two false) formal_claim.0 formal_claim.1 refl refl
