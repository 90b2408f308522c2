-- ===== src/Card/FirstPatch.antt =====
-- The first annotation of a card: an instance of the theorem on its success.
use notification_manager.Base.{
  replicate, arith, ◌≡◌, refl, true, false, none, some, [], ◌∷◌, lit, dec_str,
}
use notification_manager.Bolt.{lookup, upsert}
use notification_manager.Bolt.Listed.{listed}
use notification_manager.Card.Validation.{validate}
use notification_manager.Card.State.{
  Card, Coding, given, rule, markdown, render_card, request_id_of, stable_component_key,
}
use notification_manager.Card.Store.{done, CardState, load}
use notification_manager.Card.Writer.{Writer, new_card_state, capture_card_binding}
use notification_manager.Card.Applies.{apply_next}
use notification_manager.Outbox.Envelope.{is_hex}
use notification_manager.Card.Apply.{annotated}
use notification_manager.Card.Requests.{apply_persistent_annotation}
use notification_manager.Card.Examples.{
  decimals, coding, first_component, config, env, base_card, new_writer,
}

-- Every hash is the same: what is hashed is not compared here.
abbrev pub plain : Coding
plain = record coding { digest = λ s. replicate 64 b'a' }

abbrev pub first_state : CardState
first_state = new_card_state config (lit "r") (lit "d") (lit "m") base_card 9

abbrev pub first_writer : Writer
first_writer =
    (capture_card_binding plain config env (lit "r") (lit "d") (lit "m") base_card new_writer).1

abbrev pub rendered_card : Card
rendered_card = record base_card {
  elements = some (given (lit "x") ∷ rule ∷ markdown false first_component ∷ []);
}

hex_digest : is_hex (replicate 64 b'a') ≡ true
unfolding is_hex
hex_digest = refl

first_rendered :
    render_card plain base_card (listed.entries (annotated plain first_state first_component))
    ≡ some rendered_card
unfolding render_card dec_str upsert
first_rendered = refl

first_cached :
    listed.get first_writer.cards (lit "m")
    ≡ some (record { state = first_state; has_patcher = true })
unfolding capture_card_binding dec_str lookup upsert
first_cached = refl

first_loaded : load plain (lit "m") first_writer.files ≡ done first_state
unfolding load capture_card_binding dec_str lookup upsert
first_loaded = refl

first_valid : validate first_component ≡ true
unfolding validate dec_str
first_valid = refl

no_key : listed.get first_state.applied_keys (lit "key-0001") ≡ none
unfolding lookup
no_key = refl

apply_next_example :
    let r =
      apply_persistent_annotation plain config env
        (lit "m")
        (lit "key-0001")
        first_component
        first_writer in
    let id = request_id_of plain (lit "m") (lit "key-0001") in
    (r.0 ≡ done id)
    × (st' : CardState) × (load plain (lit "m") r.1.files ≡ done st')
    × (listed.get st'.annotations (stable_component_key plain (lit "e" ∷ []))
        ≡ some first_component)
    × (st'.annotation_revision ≡ 1)
    × (listed.get st'.applied_keys (lit "key-0001")
        ≡ some (record { payload_hash = replicate 64 b'a'; request_id = id }))
    × (st'.pending_patch ≡ none)
apply_next_example =
    apply_next plain config env first_state (lit "key-0001") first_component (lit "a") (lit "o")
      rendered_card first_writer (λ s. (refl, hex_digest)) refl first_rendered refl refl refl refl
      refl (omega arith) first_cached first_loaded refl refl no_key refl first_valid refl refl
