-- ===== src/Throttle/Window.antt =====
-- How many calls a limiter allows in a unit of time.
use notification_manager.Base.{
  ℕ, zero, suc, ◌+◌, ◌-◌, ◌≤◌, ◌<◌, ◌≡◌, ◌⊎◌, inl, inr, refl, sym, ap, subst, ◌∙◌, false, Option,
  none, some, List, [], ◌∷◌, ◌++◌, arith, Bool-cases, ltb, leb, length,
}
use notification_manager.Throttle.Limiter.{
  RateLimiter, Tick, allowed, dropped, panics, drop, note, admit, allow, calls, fresh,
}

unfoldable pub get_elem? : ℕ → List ℕ → Option ℕ
get_elem? n [] = none
get_elem? zero (x ∷ l) = some x
get_elem? (suc n) (x ∷ l) = get_elem? n l

-- The element `suc k` places behind each is later by the unit of time at least.
abbrev pub Later : ℕ → ℕ → Option ℕ → Type 0
Later unit a none = Unit
Later unit a (some b) = a + unit ≤ b

abbrev pub IsLimited : ℕ → ℕ → List ℕ → Type 0
IsLimited k unit [] = Unit
IsLimited k unit (a ∷ l) = Later unit a (get_elem? k l) × IsLimited k unit l

append_assoc : (l m n : List ℕ) → l ++ (m ++ n) ≡ (l ++ m) ++ n
append_assoc [] m n = refl
append_assoc (x ∷ l) m n = ap (λ r. x ∷ r) (append_assoc l m n)

length-append : (l : List ℕ) (t : ℕ) → length (l ++ (t ∷ [])) ≡ suc (length l)
length-append [] t = refl
length-append (x ∷ l) t = ap suc (length-append l t)

get_elem?-short : (k : ℕ) (l : List ℕ) → length l ≤ k → get_elem? k l ≡ none
unfolding get_elem?
get_elem?-short k [] h = refl
get_elem?-short zero (x ∷ l) h = absurd (omega arith)
get_elem?-short (suc k) (x ∷ l) h = get_elem?-short k l (omega arith)

get_elem?-append :
    (l : List ℕ) (t : ℕ) (rest : List ℕ) → get_elem? (length l) (l ++ (t ∷ rest)) ≡ some t
unfolding get_elem?
get_elem?-append [] t rest = refl
get_elem?-append (x ∷ l) t rest = get_elem?-append l t rest

short-IsLimited : (k unit : ℕ) (l : List ℕ) → length l ≤ suc k → IsLimited k unit l
short-IsLimited k unit [] h = tt
short-IsLimited k unit (a ∷ l) h = (
  subst (Later unit a) (sym (get_elem?-short k l (omega arith))) tt,
  short-IsLimited k unit l (omega arith),
)

IsLimited-get_elem? :
    (k unit : ℕ) (l : List ℕ) (i a b : ℕ)
    → IsLimited k unit l
    → get_elem? i l ≡ some a
    → get_elem? (i + suc k) l ≡ some b
    → a + unit ≤ b
unfolding get_elem?
IsLimited-get_elem? k unit [] i a b h x y = absurd (cc)
IsLimited-get_elem? k unit (c ∷ l) zero a b (h, hs) x y =
    let there =
      subst (λ n. get_elem? n (c ∷ l) ≡ some b) {x = 0 + suc k} {y = suc k} (omega arith) y in
    ground (arith, there, x, h)
IsLimited-get_elem? k unit (c ∷ l) (suc i) a b (h, hs) x y =
    IsLimited-get_elem? k unit l i a b hs x (
      subst (λ n. get_elem? n (c ∷ l) ≡ some b) {x = suc i + suc k} {y = suc (i + suc k)}
        (omega arith) y)

admit_cases :
    (r : RateLimiter) (tick : Tick) (a : ℕ) (rest : List ℕ)
    → r.queue ≡ a ∷ rest
    → ((t : ℕ) × (a + r.unit_time ≤ t) × (admit r tick (a ∷ rest) ≡ note r rest t))
      ⊎ (admit r tick (a ∷ rest) ≡ dropped r)
unfolding admit
admit_cases r tick a rest full = elim (Bool-cases (leb (a + r.unit_time) tick.now)) [
  | inl due ↦ inl (tick.now, ground (arith, due), rw due refl)
  | inr early ↦ elim (Bool-cases (leb (a + r.unit_time - tick.now) r.max_wait_time)) [
    | inl waits ↦ inl (
      tick.now + (a + r.unit_time - tick.now) + tick.overslept,
      omega arith,
      rw (early, waits) refl,
    )
    | inr too_long ↦
        inr (rw (early, too_long) (ap (λ q. dropped (record r { queue = q })) (sym full)))
  ]
]

full_queue :
    (r : RateLimiter) (tick : Tick)
    → ltb (length r.queue) r.threshold ≡ false
    → length r.queue ≤ r.threshold
    → allow r tick ≡ admit r tick r.queue
unfolding allow drop
full_queue r tick full short = rw full (
    subst (λ n. admit r tick (drop n r.queue) ≡ admit r tick r.queue) {x = 0}
      {y = length r.queue - r.threshold} (omega arith) refl)

-- What Allow does with a queue of at most `threshold` times.
admitted_cases :
    (r : RateLimiter) (tick : Tick) (q : List ℕ)
    → r.queue ≡ q
    → 0 < r.threshold
    → length q ≤ r.threshold
    → ((t : ℕ) × (length q < r.threshold) × (allow r tick ≡ note r q t))
      ⊎ ((a : ℕ) × (rest : List ℕ) × (t : ℕ) × (q ≡ a ∷ rest)
          × (length q ≡ r.threshold)
          × (a + r.unit_time ≤ t)
          × (allow r tick ≡ note r rest t))
      ⊎ (allow r tick ≡ dropped r)
admitted_cases r tick [] e some_call short = inl (tick.now, some_call, unfold allow in ground arith)
admitted_cases r tick (a ∷ rest) e some_call short =
    elim (Bool-cases (ltb (length r.queue) r.threshold)) [
      | inl room ↦ inl (tick.now, ground (arith, room, e), unfold allow in rw (room, e) refl)
      | inr full ↦
          let same : allow r tick ≡ admit r tick (a ∷ rest) =
            full_queue r tick full (ground (arith, e)) ∙ ap (admit r tick) e in
          elim (admit_cases r tick a rest e) [
            | inl (t, due, x) ↦
                inr (inl (a, rest, t, refl, ground (arith, full, short, e), due, same ∙ x))
            | inr x ↦ inr (inr (same ∙ x))
          ]
    ]

calls-allowed :
    (r r' : RateLimiter) (tick : Tick) (ticks : List Tick) (t : ℕ)
    → allow r tick ≡ allowed t r'
    → calls r (tick ∷ ticks) ≡ t ∷ calls r' ticks
unfolding calls
calls-allowed r r' tick ticks t e =
    subst
      (λ v.
        (elim v [
          | allowed at r'' ↦ at ∷ calls r'' ticks
          | dropped r'' ↦ calls r'' ticks
          | panics ↦ []
        ])
        ≡ t ∷ calls r' ticks)
      (sym e) refl

calls-dropped :
    (r : RateLimiter) (tick : Tick) (ticks : List Tick)
    → allow r tick ≡ dropped r
    → calls r (tick ∷ ticks) ≡ calls r ticks
unfolding calls
calls-dropped r tick ticks e =
    subst
      (λ v.
        (elim v [
          | allowed at r'' ↦ at ∷ calls r'' ticks
          | dropped r'' ↦ calls r'' ticks
          | panics ↦ []
        ])
        ≡ calls r ticks)
      (sym e) refl

append_nil : (l : List ℕ) → l ++ [] ≡ l
append_nil [] = refl
append_nil (x ∷ l) = ap (λ r. x ∷ r) (append_nil l)

queue-IsLimited :
    (k : ℕ) (ticks : List Tick) (r : RateLimiter)
    → r.threshold ≡ suc k
    → length r.queue ≤ r.threshold
    → IsLimited k r.unit_time (r.queue ++ calls r ticks)
queue-IsLimited k [] r is_k short =
    unfold calls in
    subst (IsLimited k r.unit_time) (sym (append_nil r.queue))
      (short-IsLimited k r.unit_time r.queue (omega arith))
queue-IsLimited k (tick ∷ ticks) r is_k short =
    elim (admitted_cases r tick r.queue refl (omega arith) short) [
      | inl (t, room, e) ↦
          subst (IsLimited k r.unit_time)
            (sym (append_assoc r.queue (t ∷ []) (calls (next r.queue t) ticks))
              ∙ ap (λ c. r.queue ++ c) (sym (calls-allowed r (next r.queue t) tick ticks t e)))
            (queue-IsLimited k ticks (next r.queue t) is_k
              (rw (length-append r.queue t) (omega arith)))
      | inr (inl (a, rest, t, full, whole, due, e)) ↦
          let size : length rest ≡ k = ground (arith, whole, is_k, full) in
          subst (λ q. IsLimited k r.unit_time (q ++ calls r (tick ∷ ticks))) (sym full)
            (subst (λ c. IsLimited k r.unit_time (a ∷ (rest ++ c)))
              (sym (calls-allowed r (next rest t) tick ticks t e))
              (
                subst (Later r.unit_time a)
                    (sym (
                      subst (λ n. get_elem? n (rest ++ (t ∷ calls (next rest t) ticks)) ≡ some t)
                        size (get_elem?-append rest t (calls (next rest t) ticks))))
                    due,
                subst (IsLimited k r.unit_time)
                    (sym (append_assoc rest (t ∷ []) (calls (next rest t) ticks)))
                    (queue-IsLimited k ticks (next rest t) is_k
                      (rw (length-append rest t) (omega arith))),
              ))
      | inr (inr e) ↦
          subst (λ c. IsLimited k r.unit_time (r.queue ++ c)) (sym (calls-dropped r tick ticks e))
            (queue-IsLimited k ticks r is_k short)
    ]
  where
    next : List ℕ → ℕ → RateLimiter
    next q t = record r { queue = q ++ (t ∷ []) }

-- A limiter that begins empty lets no more than `threshold` calls pass in a unit of time: of the
-- calls that it allows, whatever the clock reads, each stands at least the unit of time after the
-- one `threshold` places before it.
pub calls-get_elem? :
    (threshold unit_time max_wait_time : ℕ) (ticks : List Tick) (i a b : ℕ)
    → 0 < threshold
    → get_elem? i (calls (fresh threshold unit_time max_wait_time) ticks) ≡ some a
    → get_elem? (i + threshold) (calls (fresh threshold unit_time max_wait_time) ticks) ≡ some b
    → a + unit_time ≤ b
calls-get_elem? zero unit_time max ticks i a b some_call x y = absurd (omega arith)
calls-get_elem? (suc k) unit_time max ticks i a b some_call x y =
    IsLimited-get_elem? k unit_time (calls (fresh (suc k) unit_time max) ticks) i a b
      (queue-IsLimited k ticks (fresh (suc k) unit_time max) refl (omega arith)) x y
