-- ===== src/Silencing/Active.antt =====
-- Silence.IsActive (apis/v2beta2/silence_types.go) and GetActiveSilences
-- (pkg/controller/controller.go).
use notification_manager.Base.{
  ℕ, ◌+◌, ◌-◌, Bool, true, false, Option, none, some, List, [], ◌∷◌, Str, is_empty, ltb, ◌==◌, not,
  if◌then◌else◌,
}
use notification_manager.Silencing.Selector.{LabelSelector}

pub record Silence : Type 0 where
  pub enabled : Option Bool
  pub matcher : Option LabelSelector
  pub starts_at : Option ℕ
  pub schedule : Str
  pub duration : Option ℕ

abbrev pub is_disabled : Option Bool → Bool
is_disabled none = false
is_disabled (some b) = not b

-- `next` is the schedule that cron.ParseStandard makes of the text, with its Next. A text that
-- does not parse, on which the code panics and which the webhook refuses, is left out. The readings of
-- the clock within one call are one, and a duration is not negative.
unfoldable pub is_active : (Str → ℕ → ℕ) → ℕ → Silence → Bool
is_active next now s =
    if is_disabled s.enabled
    then false
    else if not (is_empty s.schedule)
    then elim s.duration [
      | none ↦ true
      | some d ↦ not (next s.schedule now == next s.schedule (now - d))
    ]
    else elim s.starts_at [
      | none ↦ true
      | some t ↦ elim s.duration [
        | none ↦ not (ltb now t)
        | some d ↦ if ltb now t then false else ltb now (t + d)
      ]
    ]

unfoldable pub keep_active : (Str → ℕ → ℕ) → ℕ → List Silence → List Silence
unfolding is_active
keep_active next now [] = []
keep_active next now (s ∷ r) =
    let rest = keep_active next now r in if is_active next now s then s ∷ rest else rest

-- The silences of a static configuration, or those that the cache lists for the tenant; `none` if
-- the list fails.
pub data Source : Type 0 where
  static_silences : List Silence → Source
  cached_silences : Option (List Silence) → Source

unfoldable pub get_active_silences : (Str → ℕ → ℕ) → ℕ → Source → Option (List Silence)
unfolding keep_active
get_active_silences next now (static_silences l) = some l
get_active_silences next now (cached_silences none) = none
get_active_silences next now (cached_silences (some l)) = some (keep_active next now l)
