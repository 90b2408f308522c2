-- ===== src/Card/Store.antt =====
-- cardPersistentState, its validation, and the files of cardStateStore
-- (pkg/jevshadow/card_state.go).
use notification_manager.Base.{
  ℕ, ◌+◌, Bool, true, false, Option, none, some, ◌++◌, Str, lit, str_eq, is_empty, ltb, leb, ◌==◌,
  ◌&&◌, ◌||◌, not, length, if◌then◌else◌,
}
use notification_manager.Bolt.{Bolt}
use notification_manager.Outbox.Disk.{Ending, succeeds, takes_place}
use notification_manager.Card.Component.{Float64, Component, is_none, is_blank}
use notification_manager.Card.Validation.{validate}
use notification_manager.Card.State.{
  PatchState, is_allowed, is_ambiguous, has_confirmed, Applied, Card, Coding, Intent,
  hash_component, hash_card, stable_component_key, request_id_of, render_card, sets_time, valid_key,
  valid_annotations, valid_applied, is_hash,
}

pub data CardError : Type 0 where
  card_not_found state_unreadable writer_busy writer_unavailable : CardError
  patch_state_unknown revision_conflict invalid_payload patch_refused save_failed : CardError
  retryable_revision : (expected : ℕ) → CardError

pub data Outcome (A : Type 0) : Type 0 where
  done : A → Outcome A
  refused : CardError → Outcome A

-- The maps of Go are of the same interface as a bucket: what is done with them does not depend on
-- the order, or sorts the keys.
module _ ⦃F : Float64⦄ ⦃B : Bolt⦄ where
  open B use {Bucket, get, put, entries}

  pub record CardState : Type 0 where
    pub version : ℕ
    pub message_id : Str
    pub receiver : Str
    pub destination : Str
    pub sender_app : Str
    pub base_card : Card
    pub base_revision : ℕ
    pub base_send_state : Str
    pub annotation_revision : ℕ
    pub annotations : Bucket Component
    pub applied_keys : Bucket Applied
    pub patch_state : PatchState
    pub pending_patch : Option Intent
    pub last_patch_error : Str
    pub created_at : ℕ
    pub updated_at : ℕ

  -- The card that a pending patch sends is the one that its state leads to.
  unfoldable pub valid_pending : Coding → CardState → Option Intent → Bool
  unfolding validate stable_component_key request_id_of render_card
  valid_pending coding st none = true
  valid_pending coding st (some p) =
      is_ambiguous st.patch_state
      && (not (
            not (valid_key p.idempotency_key)
            || (is_empty p.payload_hash || (is_empty p.request_id || not (sets_time p.started_at))))
          && (validate p.component
              && (is_hash (hash_component coding p.component) p.payload_hash
                  && (str_eq p.request_id (request_id_of coding st.message_id p.idempotency_key)
                      && (str_eq p.component_key
                            (stable_component_key coding p.component.member_event_ids)
                          && ((p.annotation_revision == p.component.annotation_revision)
                              && ((p.annotation_revision == st.annotation_revision + 1)
                                  && (is_hash (hash_card coding p.rendered_card)
                                        p.rendered_card_hash
                                      && elim (render_card coding st.base_card (
                                          entries
                                            (put st.annotations p.component_key p.component))) [
                                              | none ↦ false
                                              | some expected ↦
                                                  is_hash (hash_card coding expected)
                                                    p.rendered_card_hash
                                            ]))))))))

  -- What no annotation changes.
  unfoldable pub valid_card_identity : CardState → Bool
  unfolding is_blank
  valid_card_identity st =
      ((st.version == 1) && not (is_blank st.message_id))
      && (not (is_empty st.receiver || (is_empty st.destination || is_empty st.sender_app))
          && ((leb 1 st.base_revision && str_eq st.base_send_state (lit "confirmed"))
              && not (is_none st.base_card.elements)))

  unfoldable pub valid_times : CardState → Bool
  valid_times st =
      sets_time st.created_at && (sets_time st.updated_at && not (ltb st.updated_at st.created_at))

  unfoldable pub valid_patch_state : CardState → Bool
  valid_patch_state st =
      is_allowed st.patch_state
      && (not (is_ambiguous st.patch_state && is_none st.pending_patch)
          && not (has_confirmed st.patch_state && (st.annotation_revision == 0)))

  -- A file whose maps are null is a foreign one.
  unfoldable pub validate_card_state : Coding → CardState → Bool
  unfolding valid_card_identity valid_times valid_patch_state valid_annotations valid_applied
      valid_pending
  validate_card_state coding st =
      valid_card_identity st
      && (valid_times st
          && (valid_patch_state st
              && (valid_annotations coding st.annotation_revision st.base_revision
                    (entries st.annotations)
                  && (valid_applied coding st.message_id (entries st.applied_keys)
                      && (valid_pending coding st st.pending_patch
                          && leb (length st.last_patch_error) 1024)))))

  -- A file holds a state as JSON without unknown fields and within the size, or anything else.
  pub data CardFile : Type 0 where
    saved : CardState → CardFile
    foreign : Str → CardFile

  unfoldable pub card_file_name : Coding → Str → Str
  card_file_name coding message_id = coding.digest message_id ++ lit ".json"

  abbrev pub touched : ℕ → CardState → CardState
  touched now st = record st { updated_at = now }

  -- Whether the state was saved, and the files. A state is taken to be of at most 32 MiB as text: the
  -- code writes a larger one, and refuses to read it back.
  unfoldable pub save : Coding → ℕ → Ending → CardState → Bucket CardFile → Bool × Bucket CardFile
  unfolding validate_card_state card_file_name
  save coding now ending st files =
      if validate_card_state coding (touched now st)
      then (
        succeeds ending,
        if takes_place ending
            then put files (card_file_name coding st.message_id) (saved (touched now st))
            else files,
      )
      else (false, files)

  abbrev pub read_state : Coding → Str → Option CardFile → Outcome CardState
  read_state coding message_id none = refused card_not_found
  read_state coding message_id (some (foreign s)) = refused state_unreadable
  read_state coding message_id (some (saved st)) =
      if validate_card_state coding st && str_eq st.message_id message_id
      then done st
      else refused state_unreadable

  unfoldable pub load : Coding → Str → Bucket CardFile → Outcome CardState
  unfolding validate_card_state card_file_name
  load coding message_id files =
      read_state coding message_id (get files (card_file_name coding message_id))
