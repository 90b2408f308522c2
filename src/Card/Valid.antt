-- ===== src/Card/Valid.antt =====
-- The states that an application saves are valid.
use notification_manager.Base.{
  ℕ, ◌+◌, ◌≤◌, ◌≡◌, refl, sym, ◌∙◌, arith, dec_str, ite, Bool, true, false, List, [], ◌∷◌, Str,
  str_eq, str_lt, and_left, and_right, and_intro, ltb, ◌==◌, ◌&&◌, ◌||◌, not, if◌then◌else◌,
}
use notification_manager.Bolt.{upsert}
use notification_manager.Card.Component.{Float64, Component}
use notification_manager.Card.Validation.{validate}
use notification_manager.Card.State.{
  Coding, Applied, stable_component_key, valid_annotation, valid_annotations, valid_request,
  valid_applied,
}

pub str_eq_refl : (s : Str) → str_eq s s ≡ true
str_eq_refl s = ground arith

module _ ⦃F : Float64⦄ where
  -- A test of each pair of a map holds after a pair that passes is put.
  module _ {V : Type 0} (test : Str → V → Bool) (tests : List (Str × V) → Bool)
      (tests-cons : (k : Str) (v : V) (l : List (Str × V))
        → tests ((k, v) ∷ l) ≡ (test k v && tests l)) where
    tests-cons_intro :
        (k : Str) (v : V) (l : List (Str × V))
        → test k v ≡ true
        → tests l ≡ true
        → tests ((k, v) ∷ l) ≡ true
    tests-cons_intro k v l h t = tests-cons k v l ∙ and_intro (test k v) (tests l) h t

    tests-upsert :
        (k : Str) (v : V) (l : List (Str × V))
        → test k v ≡ true
        → tests [] ≡ true
        → tests l ≡ true
        → tests (upsert k v l) ≡ true
    unfolding upsert
    tests-upsert k v [] h e all = tests-cons_intro k v [] h e
    tests-upsert k v ((j, w) ∷ l) h e all =
        let parts : (test j w && tests l) ≡ true = sym (tests-cons j w l) ∙ all in
        let here : test j w ≡ true = and_left (test j w) (tests l) parts in
        let rest : tests l ≡ true = and_right (test j w) (tests l) parts in
        let grown = tests-upsert k v l h e rest in
        elim (dec_str k j)
          as (λ d.
            tests (
              ite d ((k, v) ∷ l)
                (if str_lt k j then (k, v) ∷ (j, w) ∷ l else (j, w) ∷ upsert k v l))
            ≡ true) [
              | yes _ ↦ tests-cons_intro k v l h rest
              | no _ ↦
                  elim (str_lt k j)
                    as (λ b.
                      tests (if b then (k, v) ∷ (j, w) ∷ l else (j, w) ∷ upsert k v l) ≡ true) [
                        | true ↦ tests-cons_intro k v ((j, w) ∷ l) h all
                        | false ↦ tests-cons_intro j w (upsert k v l) here grown
                      ]
            ]

  within_mono :
      (r r' b x : ℕ) (y : ℕ)
      → r ≤ r'
      → not (ltb r x || not (y == b)) ≡ true
      → not (ltb r' x || not (y == b)) ≡ true
  within_mono r r' b x y le h = ground arith

  valid_annotations_mono :
      (coding : Coding) (r r' b : ℕ) (l : List (Str × Component))
      → r ≤ r'
      → valid_annotations coding r b l ≡ true
      → valid_annotations coding r' b l ≡ true
  unfolding valid_annotations valid_annotation
  valid_annotations_mono coding r r' b [] le h = refl
  valid_annotations_mono coding r r' b ((key, c) ∷ l) le h =
      let within : ℕ → Bool =
        λ (n : ℕ). not (ltb n c.annotation_revision || not (c.expected_base_revision == b)) in
      let named : Bool = str_eq key (stable_component_key coding c.member_event_ids) in
      let first : (validate c && (named && within r)) ≡ true =
        and_left (validate c && (named && within r)) (valid_annotations coding r b l) h in
      let second : (named && within r) ≡ true = and_right (validate c) (named && within r) first in
      and_intro (validate c && (named && within r')) (valid_annotations coding r' b l)
        (and_intro (validate c) (named && within r')
          (and_left (validate c) (named && within r) first)
          (and_intro named (within r') (and_left named (within r) second) (
            within_mono r r' b c.annotation_revision c.expected_base_revision le
              (and_right named (within r) second))))
        (valid_annotations_mono coding r r' b l le
          (and_right (validate c && (named && within r)) (valid_annotations coding r b l) h))

  -- An annotation of the next revision may join.
  pub valid_annotations-upsert :
      (coding : Coding) (r b : ℕ) (c : Component) (l : List (Str × Component))
      → c.annotation_revision ≡ r + 1
      → c.expected_base_revision ≡ b
      → validate c ≡ true
      → valid_annotations coding r b l ≡ true
      → valid_annotations coding c.annotation_revision b
          (upsert (stable_component_key coding c.member_event_ids) c l)
        ≡ true
  unfolding valid_annotations valid_annotation
  valid_annotations-upsert coding r b c l new based valid h =
      tests-upsert (valid_annotation coding c.annotation_revision b)
        (valid_annotations coding c.annotation_revision b) (λ k v m. refl)
        (stable_component_key coding c.member_event_ids) c l
        (and_intro (validate c) (str_eq name name && within) valid
          (and_intro (str_eq name name) within (str_eq_refl name) fits))
        refl (valid_annotations_mono coding r c.annotation_revision b l (omega (arith, new)) h)
    where
      name : Str
      name = stable_component_key coding c.member_event_ids

      within : Bool
      within =
          not
            (ltb c.annotation_revision c.annotation_revision || not (c.expected_base_revision == b))

      fits : within ≡ true
      fits = ground (arith, based)

  pub valid_applied-upsert :
      (coding : Coding) (message_id key : Str) (a : Applied) (l : List (Str × Applied))
      → valid_request coding message_id key a ≡ true
      → valid_applied coding message_id l ≡ true
      → valid_applied coding message_id (upsert key a l) ≡ true
  unfolding valid_applied
  valid_applied-upsert coding message_id key a l one h =
      tests-upsert (valid_request coding message_id) (valid_applied coding message_id)
        (λ k v m. refl) key a l one refl h
