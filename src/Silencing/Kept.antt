-- ===== src/Silencing/Kept.antt =====
-- Which alerts the silence stage keeps.
use mathlib.Core.List.{Memᴰ}
use notification_manager.Base.{
  ◌≡◌, ◌⊎◌, inl, inr, refl, sym, ap, subst, ◌∙◌, true, false, Option, List, [], ◌∷◌, Str,
}
use notification_manager.Silencing.Selector.{Matching}
use notification_manager.Silencing.Active.{Silence}
use notification_manager.Silencing.Stages.{
  Alert, Stage, passes, fails, panics, Mute, mutes, mute_fails, mute_panics, match_silences,
  keep_unmuted, silence_alerts,
}
use notification_manager.Silencing.Muting.{Hits, match_silences-none, match_silences-some}

Mute-cases :
    (v : Mute) → (v ≡ mute_fails) ⊎ (v ≡ mute_panics) ⊎ (v ≡ mutes true) ⊎ (v ≡ mutes false)
Mute-cases mute_fails = inl refl
Mute-cases mute_panics = inr (inl refl)
Mute-cases (mutes true) = inr (inr (inl refl))
Mute-cases (mutes false) = inr (inr (inr refl))

abbrev alerts_of : Stage → List Alert
alerts_of (passes l) = l
alerts_of fails = []
alerts_of panics = []

pub passes-injective : {x y : List Alert} → passes x ≡ passes y → x ≡ y
passes-injective h = ap alerts_of h

kept_before :
    (a : Alert) (rest : Stage) (out : List Alert)
    → keep_unmuted (mutes false) a rest ≡ passes out
    → (l : List Alert) × (rest ≡ passes l) × (out ≡ a ∷ l)
kept_before a (passes l) out h = (l, refl, passes-injective (sym h))
kept_before a fails out h = absurd (cc)
kept_before a panics out h = absurd (cc)

-- Where the stage returns alerts, the first is muted, or it is kept before the others.
pub silence_alerts-cases :
    (m : Matching) (ss : List Silence) (a : Alert) (r out : List Alert)
    → silence_alerts m ss (a ∷ r) ≡ passes out
    → ((match_silences m a.labels ss ≡ mutes true) × (silence_alerts m ss r ≡ passes out))
      ⊎ ((match_silences m a.labels ss ≡ mutes false)
          × ((l : List Alert) × (silence_alerts m ss r ≡ passes l) × (out ≡ a ∷ l)))
unfolding silence_alerts
silence_alerts-cases m ss a r out h = elim (Mute-cases (match_silences m a.labels ss)) [
  | inl e ↦ absurd (clash (with_verdict e))
  | inr (inl e) ↦ absurd (clash_panics (with_verdict e))
  | inr (inr (inl e)) ↦ inl (e, with_verdict e)
  | inr (inr (inr e)) ↦ inr (e, kept_before a (silence_alerts m ss r) out (with_verdict e))
]
  where
    with_verdict :
        {v : Mute}
        → match_silences m a.labels ss ≡ v
        → keep_unmuted v a (silence_alerts m ss r) ≡ passes out
    with_verdict e = sym (ap (λ v. keep_unmuted v a (silence_alerts m ss r)) e) ∙ h

    clash : {l : List Alert} → fails ≡ passes l → ⊥
    clash e = cc

    clash_panics : {l : List Alert} → panics ≡ passes l → ⊥
    clash_panics e = cc

-- No silence of the list selects the labels.
abbrev pub Unselected : Matching → List Silence → Option (List (Str × Str)) → Type 0
Unselected m ss labels = (s : Silence) → Memᴰ s ss → Hits m s labels → ⊥

pub silence_alerts_sound :
    (m : Matching) (ss : List Silence) (input out : List Alert) (a : Alert)
    → silence_alerts m ss input ≡ passes out
    → Memᴰ a out
    → Memᴰ a input × Unselected m ss a.labels
unfolding silence_alerts
silence_alerts_sound m ss [] out a h x = elim (subst (Memᴰ a) (sym (passes-injective h)) x) [ ]
silence_alerts_sound m ss (b ∷ r) out a h x = elim (silence_alerts-cases m ss b r out h) [
  | inl (muted, e) ↦ let (y, u) = silence_alerts_sound m ss r out a e x in (Memᴰ.tail y, u)
  | inr (kept, (l, e, is)) ↦
      first kept (λ y. silence_alerts_sound m ss r l a e y) (subst (Memᴰ a) is x)
]
  where
    first :
        {l : List Alert}
        → match_silences m b.labels ss ≡ mutes false
        → (Memᴰ a l → Memᴰ a r × Unselected m ss a.labels)
        → Memᴰ a (b ∷ l)
        → Memᴰ a (b ∷ r) × Unselected m ss a.labels
    first kept others (Memᴰ.head same) = (
      Memᴰ.head same,
      λ s y hit.
          match_silences-none m b.labels ss s kept y (subst (λ z. Hits m s z.labels) same hit),
    )
    first kept others (Memᴰ.tail y) = let (z, u) = others y in (Memᴰ.tail z, u)

pub silence_alerts_complete :
    (m : Matching) (ss : List Silence) (input out : List Alert) (a : Alert)
    → silence_alerts m ss input ≡ passes out
    → Memᴰ a input
    → Unselected m ss a.labels
    → Memᴰ a out
silence_alerts_complete m ss [] out a h x u = elim x [ ]
silence_alerts_complete m ss (b ∷ r) out a h x u = elim (silence_alerts-cases m ss b r out h) [
  | inl (muted, e) ↦ elim x [
    | Memᴰ.head same ↦
        let (s, y, hit) = match_silences-some m b.labels ss muted in
        absurd (u s y (subst (λ z. Hits m s z.labels) (sym same) hit))
    | Memᴰ.tail y ↦ silence_alerts_complete m ss r out a e y u
  ]
  | inr (kept, (l, e, is)) ↦ subst (Memᴰ a) (sym is) (elim x [
    | Memᴰ.head same ↦ Memᴰ.head same
    | Memᴰ.tail y ↦ Memᴰ.tail (silence_alerts_complete m ss r l a e y u)
  ])
]
