-- ===== src/Silencing/Schedule.antt =====
-- When a silence with a schedule is active.
use notification_manager.Base.{
  ℕ, ◌-◌, ◌≤◌, ◌<◌, ◌≡◌, ◌≢◌, inl, inr, refl, sym, ◌∙◌, arith, true, false, some, Str, is_empty,
  Bool-cases, ltb, ◌==◌, not,
}
use notification_manager.Silencing.Active.{Silence, is_disabled, is_active}

-- What cron documents of Next: the earliest time after the given one at which the schedule fires.
pub record IsNext (fires : ℕ → Type 0) (next : ℕ → ℕ) : Type 0 where
  pub later : (t : ℕ) → t < next t
  pub fires_next : (t : ℕ) → fires (next t)
  pub earliest : (t u : ℕ) → t < u → fires u → next t ≤ u

is_active_scheduled :
    (next : Str → ℕ → ℕ) (now d : ℕ) (s : Silence)
    → is_disabled s.enabled ≡ false
    → is_empty s.schedule ≡ false
    → s.duration ≡ some d
    → is_active next now s ≡ not (next s.schedule now == next s.schedule (now - d))
unfolding is_active
is_active_scheduled next now d s on scheduled lasts = rw (on, scheduled, lasts, is_active) refl

-- A silence that is not disabled, with a schedule and a duration, is active exactly when its schedule
-- fired after the time one duration ago and no later than now.
pub is_active-Fired :
    (next : Str → ℕ → ℕ) (fires : ℕ → Type 0) (now d : ℕ) (s : Silence)
    → IsNext fires (next s.schedule)
    → is_disabled s.enabled ≡ false
    → is_empty s.schedule ≡ false
    → s.duration ≡ some d
    → d ≤ now
    → (is_active next now s ≡ true → (u : ℕ) × (now - d < u) × (u ≤ now) × fires u)
      × ((u : ℕ) → now - d < u → u ≤ now → fires u → is_active next now s ≡ true)
is_active-Fired next fires now d s n on scheduled lasts long = (
  λ active.
      let apart : next s.schedule now ≢ next s.schedule (now - d) = differs (sym value ∙ active) in
      (next s.schedule (now - d), n.later (now - d), in_time apart, n.fires_next (now - d)),
  λ u after before fired.
      value
      ∙ not_equal (next s.schedule now) (next s.schedule (now - d))
          (omega (arith, n.earliest (now - d) u after fired, before, n.later now)),
)
  where
    value : is_active next now s ≡ not (next s.schedule now == next s.schedule (now - d))
    value = is_active_scheduled next now d s on scheduled lasts

    differs : {x y : ℕ} → not (x == y) ≡ true → x ≢ y
    differs h e = absurd (ground arith)

    not_equal : (x y : ℕ) → y < x → not (x == y) ≡ true
    not_equal x y h = ground arith

    same : now < next s.schedule (now - d) → next s.schedule now ≡ next s.schedule (now - d)
    same late = omega (
      arith,
      n.earliest now (next s.schedule (now - d)) late (n.fires_next (now - d)),
      n.earliest (now - d) (next s.schedule now) (omega (arith, n.later now)) (n.fires_next now),
    )

    in_time : next s.schedule now ≢ next s.schedule (now - d) → next s.schedule (now - d) ≤ now
    in_time apart = elim (Bool-cases (ltb now (next s.schedule (now - d)))) [
      | inr early ↦ ground arith
      | inl late ↦ absurd (apart (same (ground arith)))
    ]
