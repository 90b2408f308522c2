-- ===== src/Card/State.antt =====
-- The persisted state of a card, its checks, and its file (pkg/jevshadow/card_state.go, with
-- renderCard, stableComponentKey, requestID and hashCanonical of service.go).
use notification_manager.Base.{
  ℕ, Bool, true, false, Option, none, some, List, [], ◌∷◌, ◌++◌, Str, lit, str_eq, str_lt, is_empty,
  ltb, ◌==◌, ◌&&◌, ◌||◌, not, length, take, if◌then◌else◌,
}
use notification_manager.Outbox.Envelope.{is_hex}
use notification_manager.Card.Component.{Float64, Component, is_none}
use notification_manager.Card.Validation.{validate}

unfoldable pub insert_string : Str → List Str → List Str
insert_string s [] = s ∷ []
insert_string s (x ∷ xs) =
    let rest = insert_string s xs in if str_lt x s then x ∷ rest else s ∷ x ∷ xs

-- sort.Strings
unfoldable pub sort_strings : List Str → List Str
unfolding insert_string
sort_strings [] = []
sort_strings (x ∷ xs) = insert_string x (sort_strings xs)

-- The texts of patchSendNone and the others; `stray` is any other text.
pub data PatchState : Type 0 where
  unpatched sending confirmed failed unknown : PatchState
  stray : Str → PatchState

abbrev pub is_allowed : PatchState → Bool
is_allowed (stray s) = false
is_allowed unpatched = true
is_allowed sending = true
is_allowed confirmed = true
is_allowed failed = true
is_allowed unknown = true

-- The patch may or may not have reached the platform.
abbrev pub is_ambiguous : PatchState → Bool
is_ambiguous sending = true
is_ambiguous unknown = true
is_ambiguous unpatched = false
is_ambiguous confirmed = false
is_ambiguous failed = false
is_ambiguous (stray s) = false

abbrev pub has_confirmed : PatchState → Bool
has_confirmed confirmed = true
has_confirmed unpatched = false
has_confirmed sending = false
has_confirmed failed = false
has_confirmed unknown = false
has_confirmed (stray s) = false

pub record Applied : Type 0 where
  pub payload_hash : Str
  pub request_id : Str

module _ ⦃F : Float64⦄ where
  -- An element of a card: one that was sent, or what one of an annotation is made from.
  pub data Element : Type 0 where
    given : Str → Element
    rule : Element
    markdown : Bool → Component → Element
    feedback_actions : Component → Element
    detail_action : Component → Element

  -- The array of the key elements, if there is one, and the other keys.
  pub record Card : Type 0 where
    pub elements : Option (List Element)
    pub others : Str

  -- SHA-256 in hexadecimal, and json.Marshal, which may fail.
  pub record Coding : Type 0 where
    pub digest : Str → Str
    pub marshal_component : Component → Option Str
    pub marshal_card : Card → Option Str
    pub marshal_strings : List Str → Str

  pub record Intent : Type 0 where
    pub idempotency_key : Str
    pub payload_hash : Str
    pub request_id : Str
    pub component_key : Str
    pub component : Component
    pub rendered_card : Card
    pub rendered_card_hash : Str
    pub annotation_revision : ℕ
    pub started_at : ℕ

  abbrev pub digest_of : Coding → Option Str → Option Str
  digest_of coding none = none
  digest_of coding (some s) = some (coding.digest s)

  abbrev pub hash_component : Coding → Component → Option Str
  hash_component coding c = digest_of coding (coding.marshal_component c)

  abbrev pub hash_card : Coding → Card → Option Str
  hash_card coding card = digest_of coding (coding.marshal_card card)

  unfoldable pub stable_component_key : Coding → List Str → Str
  unfolding sort_strings
  stable_component_key coding ids = coding.digest (coding.marshal_strings (sort_strings ids))

  unfoldable pub request_id_of : Coding → Str → Str → Str
  request_id_of coding message_id key =
      lit "jev-card-" ++ take 16 (coding.digest (message_id ++ (0 ∷ key)))

  unfoldable pub detail_url : Component → Option Str
  detail_url c = if str_eq c.schema_version (lit "2") then c.trace_url else c.detail_url

  abbrev pub is_shown : Option Str → Bool
  is_shown none = false
  is_shown (some s) = not (is_empty s)

  unfoldable pub component_elements : Bool → Component → List Element
  unfolding detail_url
  component_elements many c =
      rule
      ∷ markdown (many || ltb 1 (length c.member_event_ids)) c
      ∷ ((if is_shown c.action_reference then feedback_actions c ∷ [] else [])
          ++ (if is_shown (detail_url c) then detail_action c ∷ [] else []))

  unfoldable pub all_elements : Bool → List (Str × Component) → List Element
  unfolding component_elements
  all_elements many [] = []
  all_elements many ((key, c) ∷ r) = component_elements many c ++ all_elements many r

  -- The annotations in the order of their keys. The clone of the base card fails if it cannot be
  -- marshalled.
  unfoldable pub render_card : Coding → Card → List (Str × Component) → Option Card
  unfolding all_elements
  render_card coding base annotations =
      if is_none (coding.marshal_card base) then none else elim base.elements [
        | none ↦ none
        | some es ↦ some (record base {
          elements = some (es ++ all_elements (ltb 1 (length annotations)) annotations);
        })
      ]

  abbrev pub sets_time : ℕ → Bool
  sets_time t = not (t == 0)

  abbrev pub valid_key : Str → Bool
  valid_key k = not (ltb (length k) 8 || ltb 256 (length k))

  unfoldable pub valid_annotation : Coding → ℕ → ℕ → Str → Component → Bool
  unfolding validate stable_component_key
  valid_annotation coding annotation_revision base_revision key c =
      validate c
      && (str_eq key (stable_component_key coding c.member_event_ids)
          && not (
              ltb annotation_revision c.annotation_revision
              || not (c.expected_base_revision == base_revision)))

  unfoldable pub valid_annotations : Coding → ℕ → ℕ → List (Str × Component) → Bool
  unfolding valid_annotation
  valid_annotations coding annotation_revision base_revision [] = true
  valid_annotations coding annotation_revision base_revision ((key, c) ∷ r) =
      valid_annotation coding annotation_revision base_revision key c
      && valid_annotations coding annotation_revision base_revision r

  unfoldable pub valid_request : Coding → Str → Str → Applied → Bool
  unfolding is_hex request_id_of
  valid_request coding message_id key a =
      (valid_key key && (length a.payload_hash == 64))
      && (is_hex a.payload_hash && str_eq a.request_id (request_id_of coding message_id key))

  unfoldable pub valid_applied : Coding → Str → List (Str × Applied) → Bool
  unfolding valid_request
  valid_applied coding message_id [] = true
  valid_applied coding message_id ((key, a) ∷ r) =
      valid_request coding message_id key a && valid_applied coding message_id r

  abbrev pub is_hash : Option Str → Str → Bool
  is_hash none h = false
  is_hash (some s) h = str_eq s h
