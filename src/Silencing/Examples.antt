-- ===== src/Silencing/Examples.antt =====
-- Instances of the theorems on silences, with one that is on and mutes the alerts of a namespace.
use mathlib.Core.List.{Memᴰ}
use notification_manager.Base.{
  ℕ, ◌+◌, ◌≤◌, ◌<◌, ◌≡◌, refl, ap, arith, true, false, none, some, List, [], ◌∷◌, Str, lit, dec_str,
  str_eq,
}
use notification_manager.Silencing.Selector.{LabelSelector, Matching}
use notification_manager.Silencing.Active.{Silence, is_active, static_silences, cached_silences}
use notification_manager.Silencing.Stages.{Alert, passes, silence_stage, filter_receiver}
use notification_manager.Silencing.Schedule.{IsNext, is_active-Fired}
use notification_manager.Silencing.Muting.{Hits}
use notification_manager.Silencing.Exact.{Applied, silence_stage-Exact}
use notification_manager.Silencing.Agree.{HaveMatchers, filter_receiver-silence_stage}

-- Texts are compared as they are, and the selector of the other expressions takes all labels.
abbrev pub matching : Matching
matching = record {
  match_string = λ regex s. some (str_eq regex s);
  as_selector = λ match_labels kept. some (λ labels. true);
}

abbrev pub selector : LabelSelector
selector = record {
  match_labels = [];
  match_expressions =
      record { key = lit "n"; operator = lit "Match"; values = []; regex_value = lit "a" } ∷ [];
}

abbrev pub silence : Silence
silence = record {
  enabled = some true;
  matcher = some selector;
  starts_at = none;
  schedule = [];
  duration = none;
}

abbrev pub disabled : Silence
disabled = record silence { enabled = some false }

abbrev pub loud : Alert
loud = record { labels = some ((lit "n", lit "b") ∷ []); content = [] }

abbrev pub quiet : Alert
quiet = record { labels = some ((lit "n", lit "a") ∷ []); content = [] }

-- A schedule that fires at each time.
abbrev pub every : Str → ℕ → ℕ
every s t = t + 1

abbrev pub scheduled : Silence
scheduled = record silence { schedule = lit "* * * * *"; duration = some 3 }

abbrev pub listed_silences : List Silence
listed_silences = disabled ∷ silence ∷ []

silence_stage_cached :
    silence_stage matching every 5 (cached_silences (some listed_silences)) (loud ∷ quiet ∷ [])
    ≡ passes (loud ∷ [])
unfolding silence_stage dec_str
silence_stage_cached = refl

-- A disabled silence of a static configuration mutes an alert.
silence_stage-disabled :
    silence_stage matching every 5 (static_silences (disabled ∷ [])) (loud ∷ quiet ∷ [])
    ≡ passes (loud ∷ [])
unfolding silence_stage dec_str
silence_stage-disabled = refl

filter_receiver_selector :
    filter_receiver matching every 5
      (static_silences (disabled ∷ []))
      (some selector)
      (loud ∷ quiet ∷ [])
    ≡ some (quiet ∷ [])
unfolding filter_receiver dec_str
filter_receiver_selector = refl

silence_stage-Exact_example :
    (Memᴰ loud (loud ∷ [])
      → Memᴰ loud (loud ∷ quiet ∷ [])
        × ((s : Silence)
            → Applied every 5 (cached_silences (some listed_silences)) s
            → Hits matching s loud.labels
            → ⊥))
    × (Memᴰ loud (loud ∷ quiet ∷ [])
        → ((s : Silence)
            → Applied every 5 (cached_silences (some listed_silences)) s
            → Hits matching s loud.labels
            → ⊥)
        → Memᴰ loud (loud ∷ []))
silence_stage-Exact_example =
    silence_stage-Exact matching every 5 (cached_silences (some listed_silences))
      (loud ∷ quiet ∷ []) (loud ∷ []) loud silence_stage_cached

listed-HaveMatchers : HaveMatchers listed_silences
listed-HaveMatchers s (Memᴰ.head same) = (selector, ap (λ z. z.matcher) same)
listed-HaveMatchers s (Memᴰ.tail (Memᴰ.head same)) = (selector, ap (λ z. z.matcher) same)
listed-HaveMatchers s (Memᴰ.tail (Memᴰ.tail x)) = elim x [ ]

filter_receiver-silence_stage_example :
    filter_receiver matching every 5
      (cached_silences (some listed_silences))
      none
      (loud ∷ quiet ∷ [])
    ≡ some (loud ∷ [])
filter_receiver-silence_stage_example =
    filter_receiver-silence_stage matching every 5 listed_silences (loud ∷ quiet ∷ []) (loud ∷ [])
      listed-HaveMatchers silence_stage_cached

every-IsNext : IsNext (λ t. 1 ≤ t) (every scheduled.schedule)
every-IsNext = record {
  later = λ t. ground arith;
  fires_next = λ t. ground arith;
  earliest = λ t u h f. ground arith;
}

is_active-Fired_example :
    (is_active every 10 scheduled ≡ true → (u : ℕ) × (7 < u) × (u ≤ 10) × (1 ≤ u))
    × ((u : ℕ) → 7 < u → u ≤ 10 → 1 ≤ u → is_active every 10 scheduled ≡ true)
is_active-Fired_example =
    is_active-Fired every (λ t. 1 ≤ t) 10 3 scheduled every-IsNext refl refl refl (ground arith)
