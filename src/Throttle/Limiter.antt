-- ===== src/Throttle/Limiter.antt =====
-- Throttle and rateLimiter (pkg/notify/notifier/dingtalk/throttle.go).
use notification_manager.Base.{
  ℕ, zero, suc, ◌+◌, ◌-◌, Bool, true, false, Option, none, some, List, [], ◌∷◌, ◌++◌, Str, str_eq,
  ltb, leb, length, if◌then◌else◌,
}

-- Durations and times in nanoseconds. The callers give a threshold above 0.
pub record RateLimiter : Type 0 where
  pub threshold : ℕ
  pub unit_time : ℕ
  pub max_wait_time : ℕ
  pub queue : List ℕ

-- What a call of Allow finds: the clock, and by how much time.Sleep, which sleeps at least as long
-- as it is asked to, sleeps longer.
pub record Tick : Type 0 where
  pub now : ℕ
  pub overslept : ℕ

-- `allowed` has the time that the call was noted with; `panics` is the index out of range of an
-- empty queue.
pub data Verdict : Type 0 where
  allowed : (at : ℕ) → RateLimiter → Verdict
  dropped : RateLimiter → Verdict
  panics : Verdict

unfoldable pub drop : ℕ → List ℕ → List ℕ
drop zero l = l
drop (suc n) [] = []
drop (suc n) (x ∷ l) = drop n l

abbrev pub note : RateLimiter → List ℕ → ℕ → Verdict
note r older at = allowed at (record r { queue = older ++ (at ∷ []) })

-- The queue is full: its first element is the oldest of the last `threshold` calls. The comparisons
-- of differences are written as sums.
unfoldable pub admit : RateLimiter → Tick → List ℕ → Verdict
admit r tick [] = panics
admit r tick (oldest ∷ rest) =
    if leb (oldest + r.unit_time) tick.now
    then note r rest tick.now
    else (let wait = (oldest + r.unit_time) - tick.now in
        if leb wait r.max_wait_time
        then note r rest (tick.now + wait + tick.overslept)
        else dropped (record r { queue = oldest ∷ rest }))

unfoldable pub allow : RateLimiter → Tick → Verdict
unfolding drop admit
allow r tick =
    if ltb (length r.queue) r.threshold
    then note r r.queue tick.now
    else admit r tick (drop (length r.queue - r.threshold) r.queue)

-- The times that the calls allowed by a limiter are noted with, for calls one after the other under
-- its mutex.
unfoldable pub calls : RateLimiter → List Tick → List ℕ
unfolding allow
calls r [] = []
calls r (tick ∷ ticks) = elim (allow r tick) [
  | allowed at r' ↦ at ∷ calls r' ticks
  | dropped r' ↦ calls r' ticks
  | panics ↦ []
]

abbrev pub fresh : ℕ → ℕ → ℕ → RateLimiter
fresh threshold unit_time max_wait_time = record {
  threshold = threshold;
  unit_time = unit_time;
  max_wait_time = max_wait_time;
  queue = [];
}

-- The map of limiters by key.
abbrev pub Throttle : Type 0
Throttle = Str → Option RateLimiter

unfoldable pub set_limiter : Throttle → Str → RateLimiter → Throttle
set_limiter t key r k = if str_eq k key then some r else t k

unfoldable pub update_rate_limiter : RateLimiter → ℕ → ℕ → ℕ → RateLimiter
update_rate_limiter r threshold unit_time max_wait_time = record r {
  threshold = threshold;
  unit_time = unit_time;
  max_wait_time = max_wait_time;
}

unfoldable pub add : Throttle → Str → ℕ → ℕ → ℕ → Throttle
unfolding set_limiter update_rate_limiter
add t key threshold unit_time max_wait_time = elim (t key) [
  | none ↦ set_limiter t key (fresh threshold unit_time max_wait_time)
  | some r ↦ set_limiter t key (update_rate_limiter r threshold unit_time max_wait_time)
]

unfoldable pub try_add : Throttle → Str → ℕ → ℕ → ℕ → Throttle
unfolding set_limiter
try_add t key threshold unit_time max_wait_time = elim (t key) [
  | none ↦ set_limiter t key (fresh threshold unit_time max_wait_time)
  | some r ↦ t
]

-- Allow by key: whether the call passes, `none` if it panics.
unfoldable pub allow_key : Throttle → Str → Tick → Option Bool × Throttle
unfolding set_limiter allow
allow_key t key tick = elim (t key) [
  | none ↦ (some false, t)
  | some r ↦ elim (allow r tick) [
    | allowed at r' ↦ (some true, set_limiter t key r')
    | dropped r' ↦ (some false, set_limiter t key r')
    | panics ↦ (none, t)
  ]
]
