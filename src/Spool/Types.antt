-- ===== src/Spool/Types.antt =====
-- The records of pkg/notification_spool/store.go and profiles.go, its errors, and the database.
use notification_manager.Base.{ℕ, Bool, true, false, Option, List, Str}
use notification_manager.Bolt.{Bolt}

-- The state strings. `other` is any string that is none of the constants.
pub data State : Type 0 where
  pending sending delivered retryable unknown dead_letter : State
  other : Str → State

-- Times are nanoseconds since the epoch, in UTC.
pub record Target : Type 0 where
  pub profile_id : Str
  pub profile_version : Str
  pub card_owner_id : Str
  pub original_destination : Str
  pub id : Str
  pub intake_id : Str
  pub receiver : Str
  pub channel : Str
  pub destination : Str
  pub content_revision : Str
  pub payload : Str
  pub state : State
  pub attempts : ℕ
  pub owner : Str
  pub attempt_id : Str
  pub available_at : ℕ
  pub updated_at : ℕ
  pub outcome : Str
  pub evidence : Str
  pub dependency_revisions : List Str

pub record Intake : Type 0 where
  pub id : Str
  pub request_hash : Str
  pub accepted_at : ℕ
  pub target_ids : List Str
  pub terminal_reason : Str

pub record Limits : Type 0 where
  pub max_targets : ℕ
  pub max_bytes : ℕ
  pub reserve_bytes : ℕ

pub record Claim : Type 0 where
  pub target : Target
  pub owner : Str
  pub attempt_id : Str

pub record DeliveryProfile : Type 0 where
  pub id : Str
  pub version : Str
  pub card_owner_id : Str
  pub receiver : Str
  pub source_chat_id : Str
  pub test_chat_id : Str

-- `prepared` holds the versions that the map sends to true.
pub record ProfileState : Type 0 where
  pub bootstrap_version : Str
  pub revision : ℕ
  pub active_version : Str
  pub paused : Bool
  pub prepared : List Str

pub record ProfileSnapshot : Type 0 where
  pub profile : DeliveryProfile
  pub revision : ℕ

-- The values of the audit bucket: one constructor for each map that the code writes.
pub data Audit : Type 0 where
  replay_exact_target : (target_id actor evidence : Str) (at : ℕ) → Audit
  reconciled : (target_id : Str) (from to : State) (actor evidence : Str) (at : ℕ) → Audit
  cleanup_confirmed_completed : (intakes retention at : ℕ) → Audit
  profile_control :
      (action profile_id version : Str) (revision : ℕ) (actor evidence : Str) (at : ℕ) → Audit

-- One constructor for each error that the package returns.
pub data Error : Type 0 where
  capacity fence none_ready : Error
  profile_conflict profile_paused profile_unregistered version_unregistered : Error
  owner_mismatch test_scope_violated invalid_frozen_profile profile_identity test_scope : Error
  formal_scope immutable_version not_prepared unknown_action unbounded_audit : Error
  bad_plan key_too_long unknown_dependency key_reused profile_mismatch : Error
  invalid_target duplicate_target bad_ready_state recovery_paused recovery_ineligible : Error
  illegal_completion bad_resolution not_reconcilable counter_underflow bad_retention : Error
  no_random no_record unsupported_version path_required not_regular storage : Error
  storage_outage : Error

pub data Result (A : Type 0) : Type 0 where
  ok : A → Result A
  err : Error → Result A

infixl 5 ◌>>=◌ ◌>>◌
abbrev pub ◌>>=◌ : {A C : Type 0} → Result A → (A → Result C) → Result C
ok a >>= f = f a
err e >>= f = err e

abbrev pub ◌>>◌ : {C : Type 0} → Result (Unit {0}) → Result C → Result C
m >> k = m >>= λ _. k

abbrev pub refuse_if : Bool → Error → Result (Unit {0})
refuse_if true e = err e
refuse_if false e = ok tt

abbrev pub or_err : {A : Type 0} → Option A → Error → Result A
or_err Option.none e = err e
or_err (Option.some a) e = ok a

-- The buckets. The meta bucket holds single values and two families of keys, "profile:" and
-- "profile-state:", which no other key of it begins with; each family is a bucket here.
module _ ⦃B : Bolt⦄ where
  open B use {Bucket}

  pub record Db : Type 0 where
    pub version : Option Str
    pub owner : Str
    pub active_targets : ℕ
    pub cleanup_cursor : Str
    pub profiles : Bucket DeliveryProfile
    pub profile_states : Bucket ProfileState
    pub intakes : Bucket Intake
    pub targets : Bucket Target
    pub ready : Bucket Str
    pub dedupe : Bucket Str
    pub audit : Bucket Audit
    pub blocked : Bucket Str

-- What a call finds outside the store: the readings of time.Now and the results of ID (none: an
-- error of the random source), numbered in the order of the calls in the text, unix.Statfs (available blocks and their size) and os.Stat (the file's size),
-- the standard library's SHA-256 in hexadecimal, and its test of JSON syntax.
pub record Env : Type 0 where
  pub clock : ℕ → ℕ
  pub random : ℕ → Option Str
  pub statfs : Option (ℕ × ℕ)
  pub stat : Option ℕ
  pub hash : Str → Str
  pub json_valid : Str → Bool
