-- ===== src/Silencing/Muting.antt =====
-- Which silences mute an alert in the silence stage.
use mathlib.Core.List.{Memᴰ}
use notification_manager.Base.{
  ◌≡◌, ◌⊎◌, inl, inr, refl, sym, subst, ◌∙◌, true, false, Option, none, some, List, [], ◌∷◌, Str,
  Option-cases,
}
use notification_manager.Silencing.Selector.{
  LabelSelector, Matching, Verdict, matched, match_fails, matches,
}
use notification_manager.Silencing.Active.{Silence}
use notification_manager.Silencing.Stages.{mutes, mute_fails, mute_panics, match_silences}

-- The silence has a matcher that selects the labels.
abbrev pub Hits : Matching → Silence → Option (List (Str × Str)) → Type 0
Hits m s labels =
    (ls : LabelSelector) × (s.matcher ≡ some ls) × (matches m ls labels ≡ matched true)

pub Verdict-cases : (v : Verdict) → (v ≡ match_fails) ⊎ (v ≡ matched true) ⊎ (v ≡ matched false)
Verdict-cases match_fails = inl refl
Verdict-cases (matched true) = inr (inl refl)
Verdict-cases (matched false) = inr (inr refl)

pub first_selects :
    (m : Matching) (labels : Option (List (Str × Str))) (t : Silence) (r : List Silence)
    (ls : LabelSelector)
    → t.matcher ≡ some ls
    → matches m ls labels ≡ matched true
    → match_silences m labels (t ∷ r) ≡ mutes true
unfolding match_silences
first_selects m labels t r ls has hit = rw (has, hit, match_silences) refl

pub first_misses :
    (m : Matching) (labels : Option (List (Str × Str))) (t : Silence) (r : List Silence)
    (ls : LabelSelector)
    → t.matcher ≡ some ls
    → matches m ls labels ≡ matched false
    → match_silences m labels (t ∷ r) ≡ match_silences m labels r
unfolding match_silences
first_misses m labels t r ls has miss = rw (has, miss, match_silences) refl

pub first_fails :
    (m : Matching) (labels : Option (List (Str × Str))) (t : Silence) (r : List Silence)
    (ls : LabelSelector)
    → t.matcher ≡ some ls
    → matches m ls labels ≡ match_fails
    → match_silences m labels (t ∷ r) ≡ mute_fails
unfolding match_silences
first_fails m labels t r ls has wrong = rw (has, wrong, match_silences) refl

first_skipped :
    (m : Matching) (labels : Option (List (Str × Str))) (t : Silence) (r : List Silence)
    → t.matcher ≡ none
    → labels ≡ none
    → match_silences m labels (t ∷ r) ≡ match_silences m labels r
unfolding match_silences
first_skipped m labels t r has nil = rw (has, nil, match_silences) refl

first_panics :
    (m : Matching) (labels : Option (List (Str × Str))) (t : Silence) (r : List Silence)
    (l : List (Str × Str))
    → t.matcher ≡ none
    → labels ≡ some l
    → match_silences m labels (t ∷ r) ≡ mute_panics
unfolding match_silences
first_panics m labels t r l has some_labels = rw (has, some_labels, match_silences) refl

-- The first silence decides, or it selects nothing and the others do.
first-cases :
    (m : Matching) (labels : Option (List (Str × Str))) (t : Silence) (r : List Silence)
    → (Hits m t labels × (match_silences m labels (t ∷ r) ≡ mutes true))
      ⊎ (match_silences m labels (t ∷ r) ≡ mute_fails)
      ⊎ (match_silences m labels (t ∷ r) ≡ mute_panics)
      ⊎ ((Hits m t labels → ⊥) × (match_silences m labels (t ∷ r) ≡ match_silences m labels r))
first-cases m labels t r = elim (Option-cases t.matcher) [
  | inl has ↦ elim (Option-cases labels) [
    | inl nil ↦ inr (inr (inr (λ (ls, is, hit). absurd (cc), first_skipped m labels t r has nil)))
    | inr (l, is) ↦ inr (inr (inl (first_panics m labels t r l has is)))
  ]
  | inr (ls, has) ↦ elim (Verdict-cases (matches m ls labels)) [
    | inl wrong ↦ inr (inl (first_fails m labels t r ls has wrong))
    | inr (inl hit) ↦ inl ((ls, has, hit), first_selects m labels t r ls has hit)
    | inr (inr miss) ↦
        inr (inr (inr (λ (ks, is, hit). absurd (cc), first_misses m labels t r ls has miss)))
  ]
]

-- An alert that is not muted is selected by no silence of the list.
pub match_silences-none :
    (m : Matching) (labels : Option (List (Str × Str))) (ss : List Silence) (s : Silence)
    → match_silences m labels ss ≡ mutes false
    → Memᴰ s ss
    → Hits m s labels
    → ⊥
match_silences-none m labels [] s h x sel = elim x [ ]
match_silences-none m labels (t ∷ r) s h (Memᴰ.head same) sel = elim (first-cases m labels t r) [
  | inl (hit, e) ↦ absurd (cc)
  | inr (inl e) ↦ absurd (cc)
  | inr (inr (inl e)) ↦ absurd (cc)
  | inr (inr (inr (other, e))) ↦ other (subst (λ z. Hits m z labels) same sel)
]
match_silences-none m labels (t ∷ r) s h (Memᴰ.tail x) sel = elim (first-cases m labels t r) [
  | inl (hit, e) ↦ absurd (cc)
  | inr (inl e) ↦ absurd (cc)
  | inr (inr (inl e)) ↦ absurd (cc)
  | inr (inr (inr (other, e))) ↦ match_silences-none m labels r s (sym e ∙ h) x sel
]

-- A muted alert is selected by a silence of the list.
pub match_silences-some :
    (m : Matching) (labels : Option (List (Str × Str))) (ss : List Silence)
    → match_silences m labels ss ≡ mutes true
    → (s : Silence) × Memᴰ s ss × Hits m s labels
unfolding match_silences
match_silences-some m labels [] h = absurd (cc)
match_silences-some m labels (t ∷ r) h = elim (first-cases m labels t r) [
  | inl (hit, e) ↦ (t, Memᴰ.head refl, hit)
  | inr (inl e) ↦ absurd (cc)
  | inr (inr (inl e)) ↦ absurd (cc)
  | inr (inr (inr (other, e))) ↦
      let (s, x, hit) = match_silences-some m labels r (sym e ∙ h) in (s, Memᴰ.tail x, hit)
]
