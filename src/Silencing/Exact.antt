-- ===== src/Silencing/Exact.antt =====
-- Which alerts pass the silence stage.
use mathlib.Core.List.{Memᴰ}
use notification_manager.Base.{
  ℕ, ◌≡◌, inl, inr, refl, sym, ap, subst, ◌∙◌, true, false, none, some, List, [], ◌∷◌, Str,
  Bool-cases,
}
use notification_manager.Silencing.Selector.{Matching}
use notification_manager.Silencing.Active.{
  Silence, is_active, keep_active, Source, static_silences, cached_silences, get_active_silences,
}
use notification_manager.Silencing.Stages.{Alert, passes, silence_stage}
use notification_manager.Silencing.Muting.{Hits}
use notification_manager.Silencing.Kept.{silence_alerts_sound, silence_alerts_complete}

pub keep_active_complete :
    (next : Str → ℕ → ℕ) (now : ℕ) (ss : List Silence) (s : Silence)
    → Memᴰ s ss
    → is_active next now s ≡ true
    → Memᴰ s (keep_active next now ss)
unfolding keep_active
keep_active_complete next now [] s x active = elim x [ ]
keep_active_complete next now (t ∷ r) s (Memᴰ.head same) active =
    rw (ap (is_active next now) (sym same) ∙ active) (Memᴰ.head same)
keep_active_complete next now (t ∷ r) s (Memᴰ.tail x) active =
    let later = keep_active_complete next now r s x active in
    elim (Bool-cases (is_active next now t)) [ inl b ↦ rw b (Memᴰ.tail later) | inr b ↦ rw b later ]

pub keep_active_sound :
    (next : Str → ℕ → ℕ) (now : ℕ) (ss : List Silence) (s : Silence)
    → Memᴰ s (keep_active next now ss)
    → Memᴰ s ss × (is_active next now s ≡ true)
unfolding keep_active
keep_active_sound next now [] s x = elim x [ ]
keep_active_sound next now (t ∷ r) s x = elim (Bool-cases (is_active next now t)) [
  | inl b ↦ first b (λ y. keep_active_sound next now r s y) (subst (Memᴰ s) (with_first b) x)
  | inr b ↦
      let (y, active) = keep_active_sound next now r s (subst (Memᴰ s) (without b) x) in
      (Memᴰ.tail y, active)
]
  where
    with_first :
        is_active next now t ≡ true → keep_active next now (t ∷ r) ≡ t ∷ keep_active next now r
    with_first b = rw b refl

    without : is_active next now t ≡ false → keep_active next now (t ∷ r) ≡ keep_active next now r
    without b = rw b refl

    first :
        is_active next now t ≡ true
        → (Memᴰ s (keep_active next now r) → Memᴰ s r × (is_active next now s ≡ true))
        → Memᴰ s (t ∷ keep_active next now r)
        → Memᴰ s (t ∷ r) × (is_active next now s ≡ true)
    first b others (Memᴰ.head same) = (Memᴰ.head same, ap (is_active next now) same ∙ b)
    first b others (Memᴰ.tail y) = let (z, active) = others y in (Memᴰ.tail z, active)

-- The silences that the stage applies: all of a static configuration, and the active ones of a list
-- from the cache.
abbrev pub Applied : (Str → ℕ → ℕ) → ℕ → Source → Silence → Type 0
Applied next now (static_silences ss) s = Memᴰ s ss
Applied next now (cached_silences none) s = ⊥
Applied next now (cached_silences (some ss)) s = Memᴰ s ss × (is_active next now s ≡ true)

-- Where the silence stage returns alerts, they are those of the input that no applied silence selects:
-- of a list from the cache the active silences are applied, of a static configuration all are, active
-- or not.
pub silence_stage-Exact :
    (m : Matching) (next : Str → ℕ → ℕ) (now : ℕ) (source : Source) (input out : List Alert)
    (a : Alert)
    → silence_stage m next now source input ≡ passes out
    → (Memᴰ a out
        → Memᴰ a input × ((s : Silence) → Applied next now source s → Hits m s a.labels → ⊥))
      × (Memᴰ a input
          → ((s : Silence) → Applied next now source s → Hits m s a.labels → ⊥)
          → Memᴰ a out)
unfolding silence_stage get_active_silences
silence_stage-Exact m next now (static_silences ss) input out a h =
    (silence_alerts_sound m ss input out a h, silence_alerts_complete m ss input out a h)
silence_stage-Exact m next now (cached_silences none) input out a h = absurd (cc)
silence_stage-Exact m next now (cached_silences (some ss)) input out a h = (
  λ x.
      let (y, u) = silence_alerts_sound m (keep_active next now ss) input out a h x in
      (y, λ s (z, active) hit. u s (keep_active_complete next now ss s z active) hit),
  λ x u.
      silence_alerts_complete m (keep_active next now ss) input out a h x
        (λ s z hit. u s (keep_active_sound next now ss s z) hit),
)
