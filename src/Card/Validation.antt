-- ===== src/Card/Validation.antt =====
-- The validation of an annotation as a whole (pkg/jevshadow/service.go).
use notification_manager.Base.{
  Bool, true, false, Option, none, some, List, [], ◌∷◌, ◌++◌, Str, lit, str_eq, is_empty, ltb, leb,
  ◌&&◌, ◌||◌, not, length, if◌then◌else◌,
}
use notification_manager.Outbox.Envelope.{has_prefix}
use notification_manager.Card.Component.{
  Float64, rune_count, is_blank, is_any, is_none, all_short, validate_member_event_ids, Component,
  valid_probability, probability_of, validate_choice_answer,
}

module _ ⦃F : Float64⦄ where
  open F use {
    Float, zero, one, add, percent, round, gap, lowered, raised, le, lt, is_nan, is_inf, half_cent,
    tolerance, nearly_one, just_over_one,
  }

  unfoldable pub valid_reason_code : Str → Bool
  unfolding rune_count
  valid_reason_code s = leb 1 (rune_count s) && leb (rune_count s) 160

  abbrev pub is_https : Str → Bool
  is_https s = has_prefix s (lit "https://")

  -- The test of an optional field that is set.
  abbrev pub if_set : {A : Type 0} → Option A → (A → Bool) → Bool
  if_set none p = true
  if_set (some a) p = p a

  unfoldable pub validate_v1 : Component → Bool
  unfolding all_short has_prefix
  validate_v1 c =
      leb (length c.evidence_lines) 20
      && (not (
            ltb 200 (length c.title)
            || (ltb 2000 (length c.recommendation) || ltb 1000 (length c.footer)))
          && (if_set c.detail_url (λ u. not (ltb 2000 (length u) || not (is_https u)))
              && ((is_empty c.category
                    || (not (ltb c.repeat_count 1 || ltb c.same_kind_count 1)
                        && (is_any c.category (
                              lit "urgent"
                              ∷ lit "non_urgent"
                              ∷ lit "repeat"
                              ∷ lit "same_kind"
                              ∷ lit "protected"
                              ∷ [])
                            && is_any c.route (lit "oncall" ∷ lit "pool" ∷ lit "original" ∷ []))))
                  && all_short (c.member_event_ids ++ c.evidence_lines))))

  abbrev pub routing_options : List Str
  routing_options = lit "pool" ∷ lit "oncall" ∷ []

  abbrev pub reason_options : List Str
  reason_options = lit "recurring" ∷ lit "same_incident" ∷ lit "non_urgent" ∷ lit "unclear" ∷ []

  -- The probability that the routing gives to the pool; where there is no routing, the code has
  -- returned before.
  unfoldable pub pool_probability : Component → Float
  unfolding probability_of
  pool_probability c = elim c.routing [ none ↦ zero | some a ↦ probability_of a (lit "pool") ]

  abbrev pub routing_choice : Component → Str
  routing_choice c = elim c.routing [ none ↦ [] | some a ↦ a.choice ]

  abbrev pub is_set_true : Option Bool → Bool
  is_set_true none = false
  is_set_true (some b) = b

  -- The probability is at least the threshold, which is set and valid.
  abbrev pub reaches : Component → Option Float → Bool
  reaches c none = false
  reaches c (some t) = le t (pool_probability c)

  unfoldable pub checks_source : Component → Bool → Bool
  unfolding valid_probability pool_probability
  checks_source c available =
      if str_eq c.decision_source (lit "operator_rule")
      then str_eq c.policy_proposal (lit "pool")
        && (not (is_set_true c.threshold_applied)
            && (is_none c.pool_min_probability && str_eq c.threshold_source (lit "not_applicable")))
      else if str_eq c.decision_source (lit "model_policy")
      then available
        && (is_set_true c.threshold_applied
            && (not (is_none c.pool_min_probability)
                && (if_set c.pool_min_probability valid_probability
                    && (not (str_eq c.threshold_source (lit "not_applicable"))
                        && str_eq c.policy_proposal (
                            if reaches c c.pool_min_probability
                            then lit "pool"
                            else lit "oncall")))))
      else (str_eq c.decision_source (lit "model_unavailable")
          && (not available
              && (str_eq c.policy_proposal (lit "original")
                  && (not (is_set_true c.threshold_applied)
                      && (is_none c.pool_min_probability
                          && str_eq c.threshold_source (lit "not_applicable"))))))

  -- The fields that are set, and whether the answers fit the status of the model.
  unfoldable pub fits_status : Component → Bool → Bool
  unfolding rune_count is_blank
  fits_status c available =
      let answered = not (is_none c.routing) && not (is_none c.pool_reason) in
      not (is_none c.threshold_applied)
      && (not (is_none c.context_reduced)
          && (is_any c.threshold_source (lit "default" ∷ lit "override" ∷ lit "not_applicable" ∷ [])
              && (leb (rune_count c.model_error_code) 160
                  && ((available || str_eq c.model_status (lit "unavailable"))
                      && ((if available then answered else not answered)
                          && (not (is_blank c.judgment_id) && not (is_none c.trace_url)))))))

  unfoldable pub validate_answers : Component → Bool
  unfolding validate_choice_answer
  validate_answers c =
      validate_choice_answer c.routing routing_options
      && validate_choice_answer c.pool_reason reason_options

  unfoldable pub validate_policy_facts : Component → Bool
  unfolding checks_source fits_status validate_answers
  validate_policy_facts c =
      let available = str_eq c.model_status (lit "available") in
      fits_status c available
      && ((not available || validate_answers c) && checks_source c available)

  -- The proposal and the threshold agree with the answers.
  unfoldable pub fits_choice : Component → Bool
  unfolding valid_probability pool_probability
  fits_choice c =
      not (str_eq c.policy_proposal (lit "pool") && not (str_eq (routing_choice c) (lit "pool")))
      && (not (not (str_eq c.policy_proposal (routing_choice c)) && is_empty c.policy_reason_code)
          && (if str_eq c.policy_reason_code (lit "pool_probability_below_threshold")
              then not (is_none c.pool_min_probability)
                && (if_set c.pool_min_probability valid_probability
                    && (str_eq c.policy_proposal (lit "oncall")
                        && not (reaches c c.pool_min_probability)))
              else is_none c.pool_min_probability))

  abbrev pub lacks_judgment : Component → Bool
  lacks_judgment c =
      is_none c.pool_reason
      && (str_eq c.policy_proposal (lit "original")
          && (not (is_empty c.policy_reason_code) && is_none c.pool_min_probability))

  unfoldable pub has_judgment : Component → Bool
  unfolding is_blank
  has_judgment c =
      not (is_blank c.judgment_id)
      && (not (is_none c.trace_url)
          && (not (is_none c.pool_reason) && not (str_eq c.policy_proposal (lit "original"))))

  -- The checks of an answer without policy facts.
  unfoldable pub validate_judgment : Component → Bool
  unfolding has_judgment validate_answers fits_choice
  validate_judgment c =
      if is_none c.routing
      then lacks_judgment c
      else (has_judgment c && (validate_answers c && fits_choice c))

  unfoldable pub valid_fields_v2 : Component → Bool
  unfolding valid_reason_code rune_count has_prefix
  valid_fields_v2 c =
      leb (rune_count c.judgment_id) 64
      && (str_eq c.execution_mode (lit "shadow")
          && (if_set c.trace_url
                (λ u. not (is_empty u || (ltb 2000 (rune_count u) || not (is_https u))))
              && (if_set c.action_reference (λ r. leb (rune_count r) 4096)
                  && (is_any c.policy_proposal (lit "oncall" ∷ lit "pool" ∷ lit "original" ∷ [])
                      && (not (is_empty c.policy_reason_code)
                          && valid_reason_code c.policy_reason_code)))))

  unfoldable pub validate_v2 : Component → Bool
  unfolding validate_policy_facts validate_judgment valid_fields_v2
  validate_v2 c =
      valid_fields_v2 c
      && (if is_empty c.capability
          then validate_judgment c
          else (str_eq c.capability (lit "policy-facts-v1") && validate_policy_facts c))

  unfoldable pub valid_head : Component → Bool
  unfolding validate_member_event_ids
  valid_head c =
      not (ltb c.annotation_revision 1 || ltb c.expected_base_revision 1)
      && validate_member_event_ids c.member_event_ids c.schema_version

  unfoldable pub validate : Component → Bool
  unfolding validate_v1 validate_v2 valid_head
  validate c =
      valid_head c
      && (if str_eq c.schema_version (lit "1")
          then validate_v1 c
          else (str_eq c.schema_version (lit "2") && validate_v2 c))
