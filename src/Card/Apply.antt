-- ===== src/Card/Apply.antt =====
-- What applyPersistentAnnotation (pkg/jevshadow/card_writer.go) makes of a request.
use notification_manager.Base.{
  ℕ, ◌+◌, Bool, true, false, none, some, Str, lit, str_eq, ltb, ◌==◌, not, if◌then◌else◌,
}
use notification_manager.Bolt.{Bolt}
use notification_manager.Card.Component.{Float64, Component}
use notification_manager.Card.State.{
  PatchState, sending, unknown, Card, Coding, Intent, hash_component, hash_card,
  stable_component_key, request_id_of, render_card,
}
use notification_manager.Card.Store.{
  CardError, revision_conflict, invalid_payload, retryable_revision, CardState,
}

abbrev pub is_in_flight : PatchState → Bool
is_in_flight sending = true
is_in_flight _ = false

abbrev pub is_unknown : PatchState → Bool
is_unknown unknown = true
is_unknown _ = false

abbrev pub interrupted_error : Str
interrupted_error = lit "writer stopped before the persisted patch intent was confirmed"

module _ ⦃F : Float64⦄ ⦃B : Bolt⦄ where
  open B use {Bucket, get, put, entries}

  -- What becomes of a request on a card with no pending patch.
  pub data Admission : Type 0 where
    repeats : (request_id : Str) → Admission
    rejects : CardError → Admission
    starts : Intent → Admission

  abbrev pub new_intent : Coding → CardState → Str → Component → Str → Card → Str → ℕ → Intent
  new_intent coding st key c payload_hash rendered rendered_hash now = record {
    idempotency_key = key;
    payload_hash = payload_hash;
    request_id = request_id_of coding st.message_id key;
    component_key = stable_component_key coding c.member_event_ids;
    component = c;
    rendered_card = rendered;
    rendered_card_hash = rendered_hash;
    annotation_revision = c.annotation_revision;
    started_at = now;
  }

  abbrev pub annotated : Coding → CardState → Component → Bucket Component
  annotated coding st c = put st.annotations (stable_component_key coding c.member_event_ids) c

  unfoldable pub prepare : Coding → CardState → Str → Component → Str → ℕ → Admission
  unfolding render_card stable_component_key request_id_of
  prepare coding st key c payload_hash now =
      elim (render_card coding st.base_card (entries (annotated coding st c))) [
        | none ↦ rejects invalid_payload
        | some rendered ↦ elim (hash_card coding rendered) [
          | none ↦ rejects invalid_payload
          | some rendered_hash ↦
              starts (new_intent coding st key c payload_hash rendered rendered_hash now)
        ]
      ]

  unfoldable pub admit_request : Coding → CardState → Str → Component → ℕ → Admission
  unfolding prepare
  admit_request coding st key c now = elim (hash_component coding c) [
    | none ↦ rejects invalid_payload
    | some payload_hash ↦ elim (get st.applied_keys key) [
      | some applied ↦
          if str_eq applied.payload_hash payload_hash
          then repeats applied.request_id
          else rejects revision_conflict
      | none ↦
          if not (c.expected_base_revision == st.base_revision)
          then rejects revision_conflict
          else if ltb (st.annotation_revision + 1) c.annotation_revision
          then rejects (retryable_revision (st.annotation_revision + 1))
          else if not (c.annotation_revision == st.annotation_revision + 1)
          then rejects revision_conflict
          else prepare coding st key c payload_hash now
    ]
  ]
