-- ===== src/Card/Confirms.antt =====
-- An annotation with the next revision is applied.
use notification_manager.Base.{
  ℕ, ◌+◌, ◌≤◌, ◌≡◌, refl, ap, ◌∙◌, arith, Bool, true, false, none, some, [], ◌∷◌, Str, is_empty,
  length, and_left, and_right, leb, ◌==◌, ◌&&◌, ◌||◌, not,
}
use notification_manager.Bolt.{Bolt}
use notification_manager.Outbox.Envelope.{is_hex}
use notification_manager.Card.Component.{Float64, Component}
use notification_manager.Card.Validation.{validate}
use notification_manager.Card.State.{
  Card, Coding, Intent, stable_component_key, request_id_of, render_card, valid_annotations,
  valid_request, valid_applied, valid_key, sets_time,
}
use notification_manager.Card.Store.{
  CardState, touched, valid_pending, validate_card_state, valid_card_identity, valid_times,
  valid_patch_state,
}
use notification_manager.Card.Apply.{annotated, new_intent}
use notification_manager.Card.Requests.{intended, annotated_state}
use notification_manager.Card.Valid.{str_eq_refl, valid_annotations-upsert, valid_applied-upsert}

eq_same : (n : ℕ) → (n == n) ≡ true
eq_same n = ground arith

filled : (s : Str) → length s ≡ 64 → is_empty s ≡ false
filled [] h = cc
filled (x ∷ s) h = refl

module _ ⦃F : Float64⦄ ⦃B : Bolt⦄ where
  open B use {Bucket, get, put, entries, entries-put}

  -- The checks that a valid state passed.
  pub record Checked (coding : Coding) (st : CardState) : Type 0 where
    pub identity : valid_card_identity st ≡ true
    pub times : valid_times st ≡ true
    pub patch : valid_patch_state st ≡ true
    pub annotations :
        valid_annotations coding st.annotation_revision st.base_revision (entries st.annotations)
        ≡ true
    pub applied : valid_applied coding st.message_id (entries st.applied_keys) ≡ true

  pub validate-Checked :
      (coding : Coding) (st : CardState) → validate_card_state coding st ≡ true → Checked coding st
  unfolding validate_card_state
  validate-Checked coding st h =
      let a = valid_card_identity st in
      let b = valid_times st in
      let c = valid_patch_state st in
      let d =
        valid_annotations coding st.annotation_revision st.base_revision (entries st.annotations) in
      let e = valid_applied coding st.message_id (entries st.applied_keys) in
      let f : Bool =
        valid_pending coding st st.pending_patch && leb (length st.last_patch_error) 1024 in
      let h1 : (b && (c && (d && (e && f)))) ≡ true = and_right a (b && (c && (d && (e && f)))) h in
      let h2 : (c && (d && (e && f))) ≡ true = and_right b (c && (d && (e && f))) h1 in
      let h3 : (d && (e && f)) ≡ true = and_right c (d && (e && f)) h2 in
      record {
        identity = and_left a (b && (c && (d && (e && f)))) h;
        times = and_left b (c && (d && (e && f))) h1;
        patch = and_left c (d && (e && f)) h2;
        annotations = and_left d (e && f) h3;
        applied = and_left e f (and_right d (e && f) h3);
      }

  pub Checked-validate :
      (coding : Coding) (st : CardState)
      → Checked coding st
      → valid_pending coding st st.pending_patch ≡ true
      → leb (length st.last_patch_error) 1024 ≡ true
      → validate_card_state coding st ≡ true
  unfolding validate_card_state
  Checked-validate coding st c pending short =
      rw (c.identity, c.times, c.patch, c.annotations, c.applied, pending) short

  times_touched :
      (st : CardState) (now : ℕ)
      → valid_times st ≡ true
      → st.created_at ≤ now
      → valid_times (touched now st) ≡ true
  unfolding valid_times
  times_touched st now h later = ground arith

  -- What the application of an annotation needs.
  module _ (coding : Coding) (st : CardState) (key : Str) (c : Component) (text rendered_text : Str)
      (rendered : Card) (now : ℕ)
      (hex : (s : Str) → (length (coding.digest s) ≡ 64) × (is_hex (coding.digest s) ≡ true))
      (hashes : coding.marshal_component c ≡ some text)
      (renders : render_card coding st.base_card (entries (annotated coding st c)) ≡ some rendered)
      (rendered_hashes : coding.marshal_card rendered ≡ some rendered_text)
      (checked : validate_card_state coding st ≡ true) (valid : validate c ≡ true)
      (based : c.expected_base_revision ≡ st.base_revision)
      (next : c.annotation_revision ≡ st.annotation_revision + 1)
      (long_enough : valid_key key ≡ true) (later : st.created_at ≤ now) where
    abbrev pub next_intent : Intent
    next_intent =
        new_intent coding st key c (coding.digest text) rendered (coding.digest rendered_text) now

    created : (st.created_at ≡ 0) → ⊥
    unfolding valid_times
    created e = let t = (validate-Checked coding st checked).times in absurd (ground arith)

    now_set : sets_time now ≡ true
    now_set = ground (arith, created)

    identity_same :
        valid_card_identity (touched now (intended st next_intent)) ≡ valid_card_identity st
    unfolding valid_card_identity
    identity_same = refl

    times_of : (s : CardState) → s.created_at ≡ st.created_at → valid_times (touched now s) ≡ true
    unfolding valid_times
    times_of s same =
        let t = (validate-Checked coding st checked).times in ground (arith, later, now_set, same)

    fields_set :
        not (
          not (valid_key key)
          || (is_empty (coding.digest text)
              || (is_empty (request_id_of coding st.message_id key) || not (sets_time now))))
        ≡ true
    unfolding request_id_of
    fields_set = ground (arith, long_enough, now_set, filled (coding.digest text) (hex text).0)

    pending_valid :
        valid_pending coding (touched now (intended st next_intent)) (some next_intent) ≡ true
    unfolding valid_pending
    pending_valid =
        rw
          (
            fields_set,
            valid,
            hashes,
            str_eq_refl (coding.digest text),
            str_eq_refl (request_id_of coding st.message_id key),
            str_eq_refl (stable_component_key coding c.member_event_ids),
            rendered_hashes,
            str_eq_refl (coding.digest rendered_text),
            renders,
            next,
          )
          (rw
            (
              eq_same (st.annotation_revision + 1),
              rendered_hashes,
              str_eq_refl (coding.digest rendered_text),
            )
            refl)

    -- The state with the pending patch.
    pub intended-valid : validate_card_state coding (touched now (intended st next_intent)) ≡ true
    unfolding valid_patch_state
    intended-valid =
        let c0 = validate-Checked coding st checked in
        Checked-validate coding (touched now (intended st next_intent))
          (record {
            identity = identity_same ∙ c0.identity;
            times = times_of (intended st next_intent) refl;
            patch = refl;
            annotations = c0.annotations;
            applied = c0.applied;
          })
          pending_valid refl

    request_valid :
        valid_request coding st.message_id key (record {
          payload_hash = coding.digest text;
          request_id = request_id_of coding st.message_id key;
        })
        ≡ true
    unfolding valid_request
    request_valid =
        rw
          (
            long_enough,
            (hex text).0,
            (hex text).1,
            str_eq_refl (request_id_of coding st.message_id key),
          )
          refl

    identity_kept :
        valid_card_identity (touched now (annotated_state coding st next_intent))
        ≡ valid_card_identity st
    unfolding valid_card_identity
    identity_kept = refl

    patch_kept : valid_patch_state (touched now (annotated_state coding st next_intent)) ≡ true
    unfolding valid_patch_state
    patch_kept = ground (arith, next)

    pending_none :
        valid_pending coding (touched now (annotated_state coding st next_intent)) none ≡ true
    unfolding valid_pending
    pending_none = refl

    -- The state with the annotation.
    pub annotated-valid :
        validate_card_state coding (touched now (annotated_state coding st next_intent)) ≡ true
    annotated-valid =
        let c0 = validate-Checked coding st checked in
        Checked-validate coding (touched now (annotated_state coding st next_intent))
          (record {
            identity = identity_kept ∙ c0.identity;
            times = times_of (annotated_state coding st next_intent) refl;
            patch = patch_kept;
            annotations =
                ap (valid_annotations coding c.annotation_revision st.base_revision)
                  (entries-put st.annotations (stable_component_key coding c.member_event_ids) c)
                ∙ valid_annotations-upsert coding st.annotation_revision st.base_revision c
                    (entries st.annotations) next based valid c0.annotations;
            applied =
                ap (valid_applied coding st.message_id) (
                  entries-put st.applied_keys key (record {
                    payload_hash = coding.digest text;
                    request_id = request_id_of coding st.message_id key;
                  }))
                ∙ valid_applied-upsert coding st.message_id key
                    (record {
                      payload_hash = coding.digest text;
                      request_id = request_id_of coding st.message_id key;
                    })
                    (entries st.applied_keys) request_valid c0.applied;
          })
          pending_none refl
