-- ===== src/Silencing/Stages.antt =====
-- The silence stage (pkg/silence/silence.go), and mute and filter of the filter stage
-- (pkg/filter/filter.go).
use notification_manager.Base.{
  ℕ, Bool, true, false, Option, none, some, List, [], ◌∷◌, Str, not, if◌then◌else◌,
}
use notification_manager.Silencing.Selector.{
  LabelSelector, Matching, matched, match_fails, matches, label_match_selector,
}
use notification_manager.Silencing.Active.{Silence, is_active, Source, get_active_silences}

-- The labels, `none` for a nil map, and all else.
pub record Alert : Type 0 where
  pub labels : Option (List (Str × Str))
  pub content : Str

-- A stage returns alerts or an error. A nil matcher is dereferenced where the labels are not nil.
pub data Stage : Type 0 where
  passes : List Alert → Stage
  fails : Stage
  panics : Stage

pub data Mute : Type 0 where
  mutes : Bool → Mute
  mute_fails : Mute
  mute_panics : Mute

unfoldable pub match_silences : Matching → Option (List (Str × Str)) → List Silence → Mute
unfolding matches
match_silences m labels [] = mutes false
match_silences m labels (s ∷ r) = elim s.matcher [
  | none ↦ elim labels [ none ↦ match_silences m labels r | some l ↦ mute_panics ]
  | some ls ↦ elim (matches m ls labels) [
    | match_fails ↦ mute_fails
    | matched b ↦ elim b [ true ↦ mutes true | false ↦ match_silences m labels r ]
  ]
]

abbrev pub keep_unmuted : Mute → Alert → Stage → Stage
keep_unmuted mute_fails a rest = fails
keep_unmuted mute_panics a rest = panics
keep_unmuted (mutes true) a rest = rest
keep_unmuted (mutes false) a fails = fails
keep_unmuted (mutes false) a panics = panics
keep_unmuted (mutes false) a (passes l) = passes (a ∷ l)

unfoldable pub silence_alerts : Matching → List Silence → List Alert → Stage
unfolding match_silences
silence_alerts m ss [] = passes []
silence_alerts m ss (a ∷ r) = keep_unmuted (match_silences m a.labels ss) a (silence_alerts m ss r)

unfoldable pub silence_stage : Matching → (Str → ℕ → ℕ) → ℕ → Source → List Alert → Stage
unfolding get_active_silences silence_alerts
silence_stage m next now source alerts = elim (get_active_silences next now source) [
  | none ↦ fails
  | some ss ↦ silence_alerts m ss alerts
]

-- The filter stage, for the alerts of a receiver.
unfoldable pub is_muted :
    Matching → (Str → ℕ → ℕ) → ℕ → Option (List (Str × Str)) → List Silence → Bool
unfolding is_active label_match_selector
is_muted m next now labels [] = false
is_muted m next now labels (s ∷ r) =
    let rest = is_muted m next now labels r in
    if not (is_active next now s)
    then rest
    else if label_match_selector m labels s.matcher
    then true
    else rest

unfoldable pub mute_alerts : Matching → (Str → ℕ → ℕ) → ℕ → List Silence → List Alert → List Alert
unfolding is_muted
mute_alerts m next now ss [] = []
mute_alerts m next now ss (a ∷ r) =
    let rest = mute_alerts m next now ss r in
    if is_muted m next now a.labels ss then rest else a ∷ rest

unfoldable pub filter_alerts : Matching → LabelSelector → List Alert → Option (List Alert)
unfolding matches
filter_alerts m ls [] = some []
filter_alerts m ls (a ∷ r) = elim (matches m ls a.labels) [
  | match_fails ↦ none
  | matched b ↦ elim (filter_alerts m ls r) [ none ↦ none | some l ↦ some (if b then a ∷ l else l) ]
]

unfoldable pub filter_receiver :
    Matching → (Str → ℕ → ℕ) → ℕ → Source → Option LabelSelector → List Alert → Option (List Alert)
unfolding get_active_silences mute_alerts filter_alerts
filter_receiver m next now source selector alerts = elim (get_active_silences next now source) [
  | none ↦ none
  | some ss ↦ elim selector [
    | none ↦ some (mute_alerts m next now ss alerts)
    | some ls ↦ filter_alerts m ls (mute_alerts m next now ss alerts)
  ]
]
