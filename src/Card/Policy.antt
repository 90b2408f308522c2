-- ===== src/Card/Policy.antt =====
-- What a valid annotation may propose.
use notification_manager.Base.{
  and_right, ◌≡◌, inl, inr, refl, ap, arith, Bool, true, false, some, [], ◌∷◌, Str, lit, dec_str,
  str_eq, is_empty, Option-cases, Bool-cases, ◌&&◌, ◌||◌, not, if◌then◌else◌,
}
use notification_manager.Card.Component.{Float64, Component, is_none}
use notification_manager.Card.Validation.{
  validate, validate_v1, validate_v2, validate_judgment, validate_policy_facts, checks_source,
  valid_head, fits_status, validate_answers, fits_choice, has_judgment, valid_fields_v2,
  routing_choice, pool_probability,
}

is_not_oncall : (s : Str) → s ≡ lit "pool" → str_eq s (lit "oncall") ≡ false
unfolding dec_str
is_not_oncall s e = ap (λ t. str_eq t (lit "oncall")) e

is_not_original : (s : Str) → s ≡ lit "pool" → str_eq s (lit "original") ≡ false
unfolding dec_str
is_not_original s e = ap (λ t. str_eq t (lit "original")) e

module _ ⦃F : Float64⦄ where
  open F use {Float, le}

  -- The grounds on which an annotation may propose the pool.
  pub data PoolGround (c : Component) : Type 0 where
    by_rule : c.decision_source ≡ lit "operator_rule" → PoolGround c
    by_model :
        (threshold : Float)
        → c.decision_source ≡ lit "model_policy"
        → c.pool_min_probability ≡ some threshold
        → le threshold (pool_probability c) ≡ true
        → PoolGround c
    by_choice : c.capability ≡ [] → routing_choice c ≡ lit "pool" → PoolGround c

  checks_source-PoolGround :
      (c : Component) (available : Bool)
      → checks_source c available ≡ true
      → c.policy_proposal ≡ lit "pool"
      → PoolGround c
  unfolding checks_source
  checks_source-PoolGround c available ok pool =
      elim (dec_str c.decision_source (lit "operator_rule")) [
        | yes rule ↦ by_rule rule
        | no other ↦ elim (dec_str c.decision_source (lit "model_policy")) [
          | yes model ↦ elim (Option-cases c.pool_min_probability) [
            | inl unset ↦ absurd (ground arith)
            | inr (t, set) ↦ elim (Bool-cases (le t (pool_probability c))) [
              | inl reached ↦ by_model t model set reached
              | inr below ↦ absurd (ground (arith, is_not_oncall c.policy_proposal pool))
            ]
          ]
          | no neither ↦ absurd (ground (arith, is_not_original c.policy_proposal pool))
        ]
      ]

  validate_policy_facts-PoolGround :
      (c : Component)
      → validate_policy_facts c ≡ true
      → c.policy_proposal ≡ lit "pool"
      → PoolGround c
  unfolding validate_policy_facts
  validate_policy_facts-PoolGround c ok pool =
      let available : Bool = str_eq c.model_status (lit "available") in
      checks_source-PoolGround c available
        (and_right (not available || validate_answers c) (checks_source c available) (
          and_right (fits_status c available)
            ((not available || validate_answers c) && checks_source c available) ok))
        pool

  fits_choice-choice :
      (c : Component)
      → fits_choice c ≡ true
      → c.policy_proposal ≡ lit "pool"
      → routing_choice c ≡ lit "pool"
  unfolding fits_choice
  fits_choice-choice c ok pool = elim (dec_str (routing_choice c) (lit "pool")) [
    | yes e ↦ e
    | no other ↦ absurd (ground arith)
  ]

  validate_judgment-choice :
      (c : Component)
      → validate_judgment c ≡ true
      → c.policy_proposal ≡ lit "pool"
      → routing_choice c ≡ lit "pool"
  unfolding validate_judgment
  validate_judgment-choice c ok pool = elim (Bool-cases (is_none c.routing)) [
    | inl unanswered ↦ absurd (ground (arith, is_not_original c.policy_proposal pool))
    | inr answered ↦
        fits_choice-choice c
          (and_right (validate_answers c) (fits_choice c)
            (and_right (has_judgment c) (validate_answers c && fits_choice c) (rw answered at ok)))
          pool
  ]

  second_version :
      (c : Component)
      → str_eq c.schema_version (lit "1") ≡ false
      → validate c ≡ true
      → validate_v2 c ≡ true
  unfolding validate
  second_version c later ok =
      let by_version : Bool =
        if str_eq c.schema_version (lit "1")
        then validate_v1 c
        else (str_eq c.schema_version (lit "2") && validate_v2 c) in
      let checked : by_version ≡ true = and_right (valid_head c) by_version ok in
      and_right (str_eq c.schema_version (lit "2")) (validate_v2 c) (rw later at checked)

  -- A valid annotation of the second version proposes the pool only by a rule of the operator, or
  -- because the model's probability of the pool reaches the threshold that the annotation states, or,
  -- without policy facts, because the model's routing chose the pool.
  pub validate-PoolGround :
      (c : Component)
      → validate c ≡ true
      → c.schema_version ≡ lit "2"
      → c.policy_proposal ≡ lit "pool"
      → PoolGround c
  unfolding validate validate_v2 dec_str
  validate-PoolGround c ok second pool =
      let v2 : validate_v2 c ≡ true = second_version c (is_second c.schema_version second) ok in
      let last : (if is_empty c.capability
            then validate_judgment c
            else (str_eq c.capability (lit "policy-facts-v1") && validate_policy_facts c))
          ≡ true =
        and_right (valid_fields_v2 c) _ v2 in
      elim (Bool-cases (is_empty c.capability)) [
        | inl plain ↦
            by_choice (empty-nil c.capability plain)
              (validate_judgment-choice c (ground arith) pool)
        | inr facts ↦
            validate_policy_facts-PoolGround c
              (and_right (str_eq c.capability (lit "policy-facts-v1")) (validate_policy_facts c)
                (rw facts at last))
              pool
      ]
    where
      empty-nil : (s : Str) → is_empty s ≡ true → s ≡ []
      empty-nil [] e = refl
      empty-nil (x ∷ s) e = cc

      is_second : (s : Str) → s ≡ lit "2" → str_eq s (lit "1") ≡ false
      is_second s e = ap (λ t. str_eq t (lit "1")) e
