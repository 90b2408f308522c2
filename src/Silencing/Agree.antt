-- ===== src/Silencing/Agree.antt =====
-- The silence stage and the filter stage mute the same alerts, where each silence has a matcher.
use mathlib.Core.List.{Memᴰ}
use notification_manager.Base.{
  ℕ, ◌≡◌, inl, inr, refl, sym, ap, ◌∙◌, Bool, true, false, Option, none, some, List, [], ◌∷◌, Str,
  Bool-cases, if◌then◌else◌,
}
use notification_manager.Silencing.Selector.{
  LabelSelector, Matching, matched, matches, label_match_selector,
}
use notification_manager.Silencing.Active.{
  Silence, is_active, keep_active, cached_silences, get_active_silences,
}
use notification_manager.Silencing.Stages.{
  Alert, passes, Mute, mutes, mute_fails, mute_panics, match_silences, silence_alerts,
  silence_stage, is_muted, mute_alerts, filter_receiver,
}
use notification_manager.Silencing.Muting.{Verdict-cases, first_selects, first_misses, first_fails}
use notification_manager.Silencing.Kept.{silence_alerts-cases, passes-injective}

-- Each silence of a list has a matcher.
abbrev pub HaveMatchers : List Silence → Type 0
HaveMatchers ss = (s : Silence) → Memᴰ s ss → (ls : LabelSelector) × (s.matcher ≡ some ls)

abbrev is_true : Mute → Bool
is_true (mutes b) = b
is_true mute_fails = false
is_true mute_panics = false

mutes-injective : {x y : Bool} → mutes x ≡ mutes y → x ≡ y
mutes-injective h = ap is_true h

fails-mutes : {b : Bool} → mute_fails ≡ mutes b → ⊥
fails-mutes h = cc

module _ (m : Matching) (next : Str → ℕ → ℕ) (now : ℕ) where
  keep_active-on :
      (t : Silence) (r : List Silence)
      → is_active next now t ≡ true
      → keep_active next now (t ∷ r) ≡ t ∷ keep_active next now r
  unfolding keep_active
  keep_active-on t r on = rw on refl

  keep_active-off :
      (t : Silence) (r : List Silence)
      → is_active next now t ≡ false
      → keep_active next now (t ∷ r) ≡ keep_active next now r
  unfolding keep_active
  keep_active-off t r off = rw off refl

  is_muted-off :
      (labels : Option (List (Str × Str))) (t : Silence) (r : List Silence)
      → is_active next now t ≡ false
      → is_muted m next now labels (t ∷ r) ≡ is_muted m next now labels r
  unfolding is_muted
  is_muted-off labels t r off = rw off refl

  is_muted-on :
      (labels : Option (List (Str × Str))) (t : Silence) (r : List Silence)
      → is_active next now t ≡ true
      → is_muted m next now labels (t ∷ r)
        ≡ (if label_match_selector m labels t.matcher then true else is_muted m next now labels r)
  unfolding is_muted
  is_muted-on labels t r on = rw on refl

  is_muted-hit :
      (labels : Option (List (Str × Str))) (t : Silence) (r : List Silence) (ls : LabelSelector)
      → is_active next now t ≡ true
      → t.matcher ≡ some ls
      → matches m ls labels ≡ matched true
      → is_muted m next now labels (t ∷ r) ≡ true
  unfolding is_muted label_match_selector
  is_muted-hit labels t r ls on has hit = rw (on, has, label_match_selector, hit) refl

  is_muted-miss :
      (labels : Option (List (Str × Str))) (t : Silence) (r : List Silence) (ls : LabelSelector)
      → is_active next now t ≡ true
      → t.matcher ≡ some ls
      → matches m ls labels ≡ matched false
      → is_muted m next now labels (t ∷ r) ≡ is_muted m next now labels r
  unfolding is_muted label_match_selector
  is_muted-miss labels t r ls on has miss = rw (on, has, label_match_selector, miss) refl

  is_muted-match_silences :
      (labels : Option (List (Str × Str))) (ss : List Silence) (b : Bool)
      → HaveMatchers ss
      → match_silences m labels (keep_active next now ss) ≡ mutes b
      → is_muted m next now labels ss ≡ b
  unfolding match_silences keep_active is_muted
  is_muted-match_silences labels [] b all h = mutes-injective h
  is_muted-match_silences labels (t ∷ r) b all h =
      let others = is_muted-match_silences labels r b (λ s x. all s (Memᴰ.tail x)) in
      let (ls, has) = all t (Memᴰ.head refl) in
      elim (Bool-cases (is_active next now t)) [
        | inr off ↦
            is_muted-off labels t r off
            ∙ others (sym (ap (match_silences m labels) (keep_active-off t r off)) ∙ h)
        | inl on ↦
            active ls has on others (sym (ap (match_silences m labels) (keep_active-on t r on)) ∙ h)
      ]
    where
      active :
          (ls : LabelSelector)
          → t.matcher ≡ some ls
          → is_active next now t ≡ true
          → (match_silences m labels (keep_active next now r) ≡ mutes b
              → is_muted m next now labels r ≡ b)
          → match_silences m labels (t ∷ keep_active next now r) ≡ mutes b
          → is_muted m next now labels (t ∷ r) ≡ b
      active ls has on others h = elim (Verdict-cases (matches m ls labels)) [
        | inl wrong ↦
            absurd
              (fails-mutes (sym (first_fails m labels t (keep_active next now r) ls has wrong) ∙ h))
        | inr (inl hit) ↦
            is_muted-hit labels t r ls on has hit
            ∙ mutes-injective
                (sym (first_selects m labels t (keep_active next now r) ls has hit) ∙ h)
        | inr (inr miss) ↦
            is_muted-miss labels t r ls on has miss
            ∙ others (sym (first_misses m labels t (keep_active next now r) ls has miss) ∙ h)
      ]

  silence_alerts-mute_alerts :
      (ss : List Silence) (input out : List Alert)
      → HaveMatchers ss
      → silence_alerts m (keep_active next now ss) input ≡ passes out
      → mute_alerts m next now ss input ≡ out
  unfolding silence_alerts mute_alerts
  silence_alerts-mute_alerts ss [] out all h = passes-injective h
  silence_alerts-mute_alerts ss (a ∷ r) out all h =
      elim (silence_alerts-cases m (keep_active next now ss) a r out h) [
        | inl (muted, e) ↦
            rw (is_muted-match_silences a.labels ss true all muted)
              (silence_alerts-mute_alerts ss r out all e)
        | inr (kept, (l, e, is)) ↦
            rw (is_muted-match_silences a.labels ss false all kept)
              (ap (λ z. a ∷ z) (silence_alerts-mute_alerts ss r l all e) ∙ sym is)
      ]

  is_muted-keep_active :
      (labels : Option (List (Str × Str))) (ss : List Silence)
      → is_muted m next now labels (keep_active next now ss) ≡ is_muted m next now labels ss
  unfolding keep_active
  is_muted-keep_active labels [] = refl
  is_muted-keep_active labels (t ∷ r) =
      let others = is_muted-keep_active labels r in
      elim (Bool-cases (is_active next now t)) [
        | inl on ↦
            ap (is_muted m next now labels) (keep_active-on t r on)
            ∙ is_muted-on labels t (keep_active next now r) on
            ∙ ap (λ b. if label_match_selector m labels t.matcher then true else b) others
            ∙ sym (is_muted-on labels t r on)
        | inr off ↦
            ap (is_muted m next now labels) (keep_active-off t r off)
            ∙ others
            ∙ sym (is_muted-off labels t r off)
      ]

  mute_alerts-keep_active :
      (ss : List Silence) (input : List Alert)
      → mute_alerts m next now (keep_active next now ss) input ≡ mute_alerts m next now ss input
  unfolding mute_alerts
  mute_alerts-keep_active ss [] = refl
  mute_alerts-keep_active ss (a ∷ r) =
      rw (is_muted-keep_active a.labels ss, mute_alerts-keep_active ss r) refl

-- Where each silence that the cache lists has a matcher and the silence stage returns alerts, the
-- filter stage with the same silences returns the same alerts, in the same order, for a receiver
-- without a selector.
pub filter_receiver-silence_stage :
    (m : Matching) (next : Str → ℕ → ℕ) (now : ℕ) (ss : List Silence) (input out : List Alert)
    → HaveMatchers ss
    → silence_stage m next now (cached_silences (some ss)) input ≡ passes out
    → filter_receiver m next now (cached_silences (some ss)) none input ≡ some out
unfolding silence_stage get_active_silences filter_receiver
filter_receiver-silence_stage m next now ss input out all h = ap some (
    mute_alerts-keep_active m next now ss input
    ∙ silence_alerts-mute_alerts m next now ss input out all h)
