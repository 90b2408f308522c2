-- ===== src/Card/Component.antt =====
-- AnnotationComponent and its validation (pkg/jevshadow/service.go).
use notification_manager.Base.{
  ℕ, suc, Bool, true, false, Option, none, some, List, [], ◌∷◌, Str, lit, str_eq, is_empty,
  contains, ltb, leb, ◌==◌, ◌&&◌, ◌||◌, not, length, if◌then◌else◌,
}
use notification_manager.Bolt.{lookup}
use notification_manager.Outbox.Envelope.{trim_left, trim_right}

-- float64, with the calls that the code makes.
pub record Float64 : Type 1 where
  pub Float : Type 0
  pub zero : Float
  pub one : Float
  pub add : Float → Float → Float
  -- x * 100
  pub percent : Float → Float
  pub round : Float → Float
  -- math.Abs(x - y)
  pub gap : Float → Float → Float
  -- math.Max(0, x - y) and math.Min(1, x + y)
  pub lowered : Float → Float → Float
  pub raised : Float → Float → Float
  pub le : Float → Float → Bool
  pub lt : Float → Float → Bool
  pub is_nan : Float → Bool
  pub is_inf : Float → Bool
  -- 0.005, 1e-9, 1 - 1e-9, 1 + 1e-9
  pub half_cent : Float
  pub tolerance : Float
  pub nearly_one : Float
  pub just_over_one : Float

-- utf8.RuneCountInString of a string that json.Unmarshal made, which is valid UTF-8.
unfoldable pub rune_count : Str → ℕ
rune_count [] = 0
rune_count (c ∷ s) = let rest = rune_count s in if leb 128 c && ltb c 192 then rest else suc rest

-- strings.TrimSpace(s) == ""
unfoldable pub is_blank : Str → Bool
unfolding trim_left trim_right
is_blank s = is_empty (trim_right (trim_left s))

abbrev pub is_any : Str → List Str → Bool
is_any s [] = false
is_any s (x ∷ xs) = str_eq s x || is_any s xs

abbrev pub is_none : {A : Type 0} → Option A → Bool
is_none none = true
is_none (some a) = false

unfoldable pub all_short : List Str → Bool
all_short [] = true
all_short (s ∷ r) = not (is_empty s || ltb 4000 (length s)) && all_short r

abbrev pub valid_member : Bool → Str → Bool
valid_member true s = not ((rune_count s == 0) || ltb 64 (rune_count s))
valid_member false s = not (is_blank s || ltb 4000 (length s))

-- The values that were seen, and those that are left.
unfoldable pub check_members : Bool → List Str → List Str → Bool
unfolding contains
check_members second seen [] = true
check_members second seen (s ∷ r) =
    valid_member second s && (not (contains seen s) && check_members second (s ∷ seen) r)

unfoldable pub validate_member_event_ids : List Str → Str → Bool
unfolding check_members
validate_member_event_ids ids version =
    not ((length ids == 0) || ltb 100 (length ids))
    && check_members (str_eq version (lit "2")) [] ids

module _ ⦃F : Float64⦄ where
  open F use {
    Float, zero, one, add, percent, round, gap, lowered, raised, le, lt, is_nan, is_inf, half_cent,
    tolerance, nearly_one, just_over_one,
  }

  -- The keys of the map are distinct.
  pub record ChoiceAnswer : Type 0 where
    pub choice : Str
    pub probabilities : List (Str × Float)

  -- `text` are the fields that no check reads. Revisions and counts below zero are refused like 0.
  pub record Component : Type 0 where
    pub schema_version : Str
    pub annotation_revision : ℕ
    pub expected_base_revision : ℕ
    pub member_event_ids : List Str
    pub title : Str
    pub category : Str
    pub route : Str
    pub repeat_count : ℕ
    pub same_kind_count : ℕ
    pub recommendation : Str
    pub evidence_lines : List Str
    pub footer : Str
    pub detail_url : Option Str
    pub judgment_id : Str
    pub routing : Option ChoiceAnswer
    pub pool_reason : Option ChoiceAnswer
    pub policy_proposal : Str
    pub policy_reason_code : Str
    pub pool_min_probability : Option Float
    pub capability : Str
    pub decision_source : Str
    pub threshold_applied : Option Bool
    pub threshold_source : Str
    pub model_status : Str
    pub model_error_code : Str
    pub context_reduced : Option Bool
    pub execution_mode : Str
    pub trace_url : Option Str
    pub action_reference : Option Str
    pub text : Str

  unfoldable pub valid_probability : Float → Bool
  valid_probability p = not (is_nan p) && (not (is_inf p) && (le zero p && le p one))

  -- Probabilities[option], which is 0 for a missing key.
  unfoldable pub probability_of : ChoiceAnswer → Str → Float
  unfolding lookup
  probability_of a option = elim (lookup option a.probabilities) [ none ↦ zero | some p ↦ p ]

  -- The sums of the loop over the options, and whether every probability has two decimals.
  pub record Sums : Type 0 where
    pub sum : Float
    pub lower_bound : Float
    pub upper_bound : Float
    pub two_decimal_response : Bool

  abbrev pub add_probability : Float → Sums → Sums
  add_probability p s = record {
    sum = add s.sum p;
    lower_bound = add s.lower_bound (lowered p half_cent);
    upper_bound = add s.upper_bound (raised p half_cent);
    two_decimal_response =
        s.two_decimal_response && not (lt tolerance (gap (percent p) (round (percent p))));
  }

  unfoldable pub sum_options : ChoiceAnswer → Float → List Str → Sums → Option Sums
  unfolding lookup valid_probability
  sum_options a chosen [] s = some s
  sum_options a chosen (option ∷ r) s = elim (lookup option a.probabilities) [
    | none ↦ none
    | some p ↦
        if not (valid_probability p) || lt chosen p
        then none
        else sum_options a chosen r (add_probability p s)
  ]

  abbrev pub accepts_sums : Option Sums → Bool
  accepts_sums none = false
  accepts_sums (some s) =
      le (gap s.sum one) tolerance
      || not (
          not s.two_decimal_response
          || (lt just_over_one s.lower_bound || lt s.upper_bound nearly_one))

  unfoldable pub validate_choice_answer : Option ChoiceAnswer → List Str → Bool
  unfolding sum_options lookup
  validate_choice_answer none options = false
  validate_choice_answer (some a) options =
      if not (length a.probabilities == length options)
      then false
      else elim (lookup a.choice a.probabilities) [
        | none ↦ false
        | some chosen ↦ accepts_sums (
            sum_options a chosen options (record {
              sum = zero;
              lower_bound = zero;
              upper_bound = zero;
              two_decimal_response = true;
            }))
      ]
