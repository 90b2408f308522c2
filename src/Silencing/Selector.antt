-- ===== src/Silencing/Selector.antt =====
-- LabelSelector.Matches and LabelMatchSelector (apis/v2beta2/common.go).
use notification_manager.Base.{
  Bool, true, false, Option, none, some, List, [], ◌∷◌, ◌++◌, Str, lit, str_eq,
}
use notification_manager.Bolt.{lookup}

pub record Requirement : Type 0 where
  pub key : Str
  pub operator : Str
  pub values : List Str
  pub regex_value : Str

pub record LabelSelector : Type 0 where
  pub match_labels : List (Str × Str)
  pub match_expressions : List Requirement

-- regexp.MatchString, and metav1.LabelSelectorAsSelector with the Matches of its result; `none` is an
-- error.
pub record Matching : Type 0 where
  pub match_string : Str → Str → Option Bool
  pub as_selector : List (Str × Str) → List Requirement → Option (List (Str × Str) → Bool)

pub data Verdict : Type 0 where
  matched : Bool → Verdict
  match_fails : Verdict

-- label[key], which is empty for a missing key.
unfoldable pub label_of : Str → List (Str × Str) → Str
unfolding lookup
label_of key labels = elim (lookup key labels) [ none ↦ [] | some v ↦ v ]

abbrev pub select_by : Option (List (Str × Str) → Bool) → List (Str × Str) → Verdict
select_by none labels = match_fails
select_by (some p) labels = matched (p labels)

-- The loop over the expressions, with those that are kept for the selector.
unfoldable pub match_expressions_from :
    Matching → List (Str × Str) → List (Str × Str) → List Requirement → List Requirement → Verdict
unfolding label_of
match_expressions_from m match_labels labels kept [] =
    select_by (m.as_selector match_labels kept) labels
match_expressions_from m match_labels labels kept (r ∷ rest) =
    elim (str_eq r.operator (lit "Match")) [
      | false ↦ match_expressions_from m match_labels labels (kept ++ (r ∷ [])) rest
      | true ↦ elim (m.match_string r.regex_value (label_of r.key labels)) [
        | none ↦ match_fails
        | some b ↦ elim b [
          | true ↦ match_expressions_from m match_labels labels kept rest
          | false ↦ matched false
        ]
      ]
    ]

-- `none` is a nil map of labels.
unfoldable pub matches : Matching → LabelSelector → Option (List (Str × Str)) → Verdict
unfolding match_expressions_from
matches m ls none = matched false
matches m ls (some labels) = match_expressions_from m ls.match_labels labels [] ls.match_expressions

abbrev pub is_match : Verdict → Bool
is_match (matched b) = b
is_match match_fails = false

unfoldable pub label_match_selector :
    Matching → Option (List (Str × Str)) → Option LabelSelector → Bool
unfolding matches
label_match_selector m labels none = true
label_match_selector m labels (some ls) = is_match (matches m ls labels)
