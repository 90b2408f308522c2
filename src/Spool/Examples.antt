-- ===== src/Spool/Examples.antt =====
-- Tests of the spool, and instances of its theorems, on buckets that are sorted lists.
mod Lives
mod Claims
mod Intakes
mod Controls
use notification_manager.Base.{
  ℕ, suc, ◌+◌, ◌<◌, ◌≤◌, ◌≡◌, ◌≢◌, refl, Bool, true, false, Option, none, some, List, [], ◌∷◌, Str,
  lit, arith, dec_str, str_lt, contains, ℕ_discrete,
}
use notification_manager.Bolt.{Bolt, lookup, upsert, erase}
use notification_manager.Bolt.Listed.{listed}
use notification_manager.Spool.Types.{
  State, pending, delivered, retryable, Target, Intake, Claim, Limits, Env, Db, Result, ok, err,
}
use notification_manager.Spool.Counter.{queue_key, active_state, lower_active_count}
use notification_manager.Spool.Profiles.{
  validate_profile_target, profile_delivery_paused, register_profiles, register_profile,
  check_profile, control_profile, check_audit, apply_action, read_profile_state, read_profile,
  initial_state, same_profile, profile_key, state_key,
}
use notification_manager.Spool.Submit.{
  submit, plan_bytes, dependencies_known, primary_revisions, frozen,
}
use notification_manager.Spool.Claim.{blank, claim, scan, decode_into, attempted, claim_of}
use notification_manager.Spool.Finish.{finish, release_one}
use notification_manager.Spool.Cleanup.{
  cleanup_completed, remove_targets, seek, last_key, is_confirmed, completed_rows, plan_cleanup,
  apply_cleanup,
}
use notification_manager.Spool.Health.{Store, healthy}
use notification_manager.Spool.Open.{open_store, default_limits}
use notification_manager.Spool.Calls.{Call, submits, claims, step}
use notification_manager.Spool.Lifecycle.Runs.{Asks}
use notification_manager.Spool.Lifecycle.Reach.{
  empty_db, Reach, Step, here, next, called, Reach-new_file_IsSound,
}
use notification_manager.Spool.Invariant.{IsSound}
use notification_manager.Spool.Invariant.Claims.{claim-IsSound}
use notification_manager.Spool.Invariant.Settle.{finish-IsSound}

abbrev pub from_ok : {A : Type 0} → A → Result A → A
from_ok d (ok a) = a
from_ok d (err e) = d

abbrev pub env : Env
env = record {
  clock = λ i. 1000 + i;
  random = λ i. some (lit "a1");
  statfs = some (1000000, 4096);
  stat = some 0;
  hash = λ s. s;
  json_valid = λ s. true;
}

abbrev pub limits : Limits
limits = record { max_targets = 10; max_bytes = 1000000; reserve_bytes = 1 }

abbrev pub first_target : Target
first_target = record blank {
  receiver = lit "r";
  channel = lit "feishu";
  destination = lit "d";
  content_revision = lit "c1";
}

abbrev history_target : Target
history_target = record first_target {
  content_revision = lit "c2";
  dependency_revisions = lit "c1" ∷ [];
}

abbrev plan : List Target
plan = first_target ∷ history_target ∷ []

abbrev closed_store : Store
closed_store = record {
  db = empty_db;
  owner = [];
  limits = limits;
  storage_write_failures = 0;
  last_storage_error = healthy;
}

abbrev pub opened : Store
opened = from_ok closed_store (open_store env limits empty_db)

-- Naming this on an `unfolding` line opens all that the tests run.
unfoldable pub everything : Unit {0}
unfolding open_store step submit lookup upsert erase dec_str str_lt contains queue_key plan_bytes
    dependencies_known primary_revisions validate_profile_target claim scan decode_into
    profile_delivery_paused attempted finish active_state lower_active_count cleanup_completed
    register_profiles register_profile check_profile control_profile check_audit apply_action
    release_one frozen remove_targets seek last_key is_confirmed completed_rows plan_cleanup
    apply_cleanup read_profile_state read_profile initial_state same_profile profile_key state_key
    ℕ_discrete
everything = tt

pub opened_lem : open_store env limits empty_db ≡ ok opened
unfolding everything
opened_lem = refl

abbrev request : Call
request = submits (lit "k") (lit "h") plan [] none 0

abbrev accepted_store : Store
accepted_store = step env none request opened

accepted_counter : accepted_store.db.active_targets ≡ 2
unfolding everything
accepted_counter = refl

fresh_request : Asks env request opened.db
unfolding everything
fresh_request id h = (refl, (refl, tt))

accepted-IsSound : IsSound accepted_store.db
accepted-IsSound =
    Reach-new_file_IsSound env limits opened accepted_store (unfold default_limits in omega arith)
      opened_lem (next here (called env none request fresh_request refl))

abbrev pub closed_claim : Claim
closed_claim = claim_of blank [] []

abbrev claimed : Claim × Db
claimed = from_ok (closed_claim, empty_db) (claim env (lit "a1") 5000 accepted_store.db)

claimed_lem : claim env (lit "a1") 5000 accepted_store.db ≡ ok (claimed.0, claimed.1)
unfolding everything
claimed_lem = refl

claimed-IsSound : IsSound claimed.1
claimed-IsSound =
    claim-IsSound env (lit "a1") 5000 accepted_store.db claimed.0 claimed.1 accepted-IsSound
      claimed_lem

abbrev finished : Db
finished = from_ok empty_db (finish env (lit "a1") claimed.0 delivered (lit "sent") [] 0 claimed.1)

finished_lem : finish env (lit "a1") claimed.0 delivered (lit "sent") [] 0 claimed.1 ≡ ok finished
unfolding everything
finished_lem = refl

finished-IsSound : IsSound finished
finished-IsSound =
    finish-IsSound env (lit "a1") claimed.0 delivered (lit "sent") [] 0 claimed.1 finished
      claimed-IsSound finished_lem
