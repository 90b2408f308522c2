-- ===== src/Spool/Claim.antt =====
-- Store.Claim and Store.ClaimForRecovery (pkg/notification_spool/store.go).
use notification_manager.Base.{
  ℕ, ◌+◌, Bool, true, false, ◌||◌, not, Option, none, some, List, [], ◌∷◌, Str, ltb, if◌then◌else◌,
}
use notification_manager.Bolt.{Bolt}
use notification_manager.Spool.Types.{
  State, pending, retryable, sending, Target, Claim, replay_exact_target, Env, Db, Result, ok, err,
  ◌>>=◌, ◌>>◌, refuse_if, or_err, none_ready, bad_ready_state, no_random, no_record,
  recovery_paused, recovery_ineligible,
}
use notification_manager.Spool.Counter.{queue_key}
use notification_manager.Spool.Profiles.{check_audit, profile_delivery_paused}

-- json.Unmarshal into a variable that is already filled: a field that is absent from the text keeps
-- its value, and `omitempty` leaves a field out exactly when it is empty.
abbrev pub unless_empty : Str → Str → Str
unless_empty old [] = old
unless_empty old (c ∷ s) = c ∷ s

abbrev pub unless_nil : List Str → List Str → List Str
unless_nil old [] = old
unless_nil old (d ∷ ds) = d ∷ ds

unfoldable pub decode_into : Target → Target → Target
decode_into old t = record t {
  profile_id = unless_empty old.profile_id t.profile_id;
  profile_version = unless_empty old.profile_version t.profile_version;
  card_owner_id = unless_empty old.card_owner_id t.card_owner_id;
  original_destination = unless_empty old.original_destination t.original_destination;
  owner = unless_empty old.owner t.owner;
  attempt_id = unless_empty old.attempt_id t.attempt_id;
  outcome = unless_empty old.outcome t.outcome;
  evidence = unless_empty old.evidence t.evidence;
  dependency_revisions = unless_nil old.dependency_revisions t.dependency_revisions;
}

-- The zero value of Target. The state is the empty string, which is none of the constants.
abbrev pub blank : Target
blank = record {
  profile_id = [];
  profile_version = [];
  card_owner_id = [];
  original_destination = [];
  id = [];
  intake_id = [];
  receiver = [];
  channel = [];
  destination = [];
  content_revision = [];
  payload = [];
  state = State.other [];
  attempts = 0;
  owner = [];
  attempt_id = [];
  available_at = 0;
  updated_at = 0;
  outcome = [];
  evidence = [];
  dependency_revisions = [];
}

abbrev pub is_claimable : State → Bool
is_claimable pending = true
is_claimable retryable = true
is_claimable _ = false

-- A target that an attempt of `owner` sends from now on.
unfoldable pub attempted : Target → Str → Str → ℕ → Target
attempted t owner attempt now = record t {
  state = sending;
  owner = owner;
  attempt_id = attempt;
  attempts = t.attempts + 1;
  updated_at = now;
}

abbrev pub claim_of : Target → Str → Str → Claim
claim_of t owner attempt = record { target = t; owner = owner; attempt_id = attempt }

abbrev pub is_absent : Option Str → Bool
is_absent none = true
is_absent (some s) = false

-- An error of the profile check counts as paused.
abbrev pub forbidden : Result Bool → Bool
forbidden (ok paused) = paused
forbidden (err e) = true

module _ ⦃B : Bolt⦄ where
  open B use {get, put, delete, entries}

  -- The loop of Claim. The variable `t` is declared before the loop, so that every record is
  -- decoded into the one before it.
  unfoldable pub scan : Db → ℕ → Target → List (Str × Str) → Result (Option (Str × Target))
  scan db now t [] = ok none
  scan db now t ((key, id) ∷ rest) = or_err (get db.targets id) no_record >>= λ stored.
      let t' = decode_into t stored in
      let next = scan db now t' rest in
      if ltb now t'.available_at
      then ok none
      else (profile_delivery_paused db t' >>= λ paused.
          if paused then next else ok (some (key, t')))

  unfoldable pub claim : Env → Str → ℕ → Db → Result (Claim × Db)
  claim env owner now db = do
    hit ← scan db now blank (entries db.ready)
    (key, t) ← or_err hit none_ready
    refuse_if (not (is_claimable t.state)) bad_ready_state
    attempt ← or_err (env.random 0) no_random
    let sent = attempted t owner attempt now
    ok (
      claim_of sent owner attempt,
      record db { targets = put db.targets sent.id sent; ready = delete db.ready key },
    )

  unfoldable pub claim_for_recovery : Env → Str → Str → Str → Str → ℕ → Db → Result (Claim × Db)
  claim_for_recovery env owner id actor evidence now db = do
    check_audit actor evidence
    t ← or_err (get db.targets id) no_record
    refuse_if (forbidden (profile_delivery_paused db t)) recovery_paused
    refuse_if
        (not (is_claimable t.state)
          || (ltb now t.available_at || is_absent (get db.ready (queue_key t))))
        recovery_ineligible
    attempt ← or_err (env.random 0) no_random
    let sent = attempted t owner attempt now
    ok (
      claim_of sent owner attempt,
      record db {
        audit = put db.audit attempt (replay_exact_target id actor evidence now);
        ready = delete db.ready (queue_key t);
        targets = put db.targets id sent;
      },
    )
