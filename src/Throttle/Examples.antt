-- ===== src/Throttle/Examples.antt =====
-- A limiter of two calls in ten nanoseconds, and an instance of the theorem on it.
use notification_manager.Base.{◌+◌, ◌≤◌, ◌≡◌, refl, List, [], ◌∷◌, some, none, lit, dec_str, arith}
use notification_manager.Throttle.Limiter.{
  Tick, drop, admit, allow, calls, fresh, add, try_add, set_limiter, update_rate_limiter, allow_key,
}
use notification_manager.Throttle.Window.{get_elem?, calls-get_elem?}

abbrev ticks : List Tick
ticks =
    record { now = 0; overslept = 0 }
    ∷ record { now = 1; overslept = 0 }
    ∷ record { now = 4; overslept = 3 }
    ∷ record { now = 20; overslept = 0 }
    ∷ []

calls_lem : calls (fresh 2 10 100) ticks ≡ 0 ∷ 1 ∷ 13 ∷ 20 ∷ []
unfolding calls allow admit drop
calls_lem = refl

-- The third caller would have to wait for 6, and is dropped.
calls_dropped : calls (fresh 2 10 5) ticks ≡ 0 ∷ 1 ∷ 20 ∷ []
unfolding calls allow admit drop
calls_dropped = refl

calls_panic : calls (fresh 0 10 5) ticks ≡ []
unfolding calls allow admit drop
calls_panic = refl

-- A change of the threshold keeps the queue; TryAdd does not change a limiter.
keys_lem :
    (allow_key
        (try_add (add (λ k. none) (lit "a") 1 10 0) (lit "a") 9 9 9)
        (lit "a")
        (record { now = 5; overslept = 0 })).1
      (lit "a")
    ≡ some (record { threshold = 1; unit_time = 10; max_wait_time = 0; queue = 5 ∷ [] })
unfolding allow_key try_add add set_limiter update_rate_limiter allow admit drop dec_str
keys_lem = refl

calls-get_elem?_example : 1 + 10 ≤ 20
unfolding calls allow admit drop get_elem?
calls-get_elem?_example = calls-get_elem? 2 10 100 ticks 1 1 20 (omega arith) refl refl
