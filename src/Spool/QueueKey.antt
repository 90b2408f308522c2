-- ===== src/Spool/QueueKey.antt =====
-- Queue keys compare as bytes the way their times and identities compare.
use native.Mathlib.Nat.{pow-suc}
use notification_manager.Base.{
  ℕ, zero, suc, ◌+◌, ◌/◌, ◌%◌, ◌^◌, ◌<◌, ◌≡◌, refl, true, false, ◌∷◌, Str, str_lt, ltb,
  if◌then◌else◌, arith,
}
use notification_manager.Spool.Types.{Target}
use notification_manager.Spool.Counter.{last_digits, queue_key}

last_digits-lt :
    (w n m : ℕ) (r s : Str)
    → n < 10 ^ w
    → m < 10 ^ w
    → str_lt (last_digits w n r) (last_digits w m s)
      ≡ (if ltb n m then true else if ltb m n then false else str_lt r s)
unfolding last_digits str_lt
last_digits-lt zero n m r s h k = ground arith
last_digits-lt (suc w) n m r s h k = ground (
  arith,
  last_digits-lt w (n / 10) (m / 10) ((b'0' + n % 10) ∷ r) ((b'0' + m % 10) ∷ s)
      (omega (arith, pow-suc 10 w)) (omega (arith, pow-suc 10 w)),
)

last_digits_rest : (w n m : ℕ) (r s : Str) → last_digits w n r ≡ last_digits w m s → r ≡ s
unfolding last_digits
last_digits_rest zero n m r s h = h
last_digits_rest (suc w) n m r s h =
    cc (last_digits_rest w (n / 10) (m / 10) ((b'0' + n % 10) ∷ r) ((b'0' + m % 10) ∷ s) h)

-- For times of at most 20 digits, the keys of two targets stand in byte order exactly as their
-- times do, and as their identities do where the times are equal.
pub queue_key-lt :
    (t u : Target)
    → t.available_at < 10 ^ 20
    → u.available_at < 10 ^ 20
    → str_lt (queue_key t) (queue_key u) ≡ (
        if ltb t.available_at u.available_at
        then true
        else if ltb u.available_at t.available_at
        then false
        else str_lt t.id u.id)
unfolding queue_key
queue_key-lt t u h k = ground (
  arith,
  last_digits-lt 20 t.available_at u.available_at (b':' ∷ t.id) (b':' ∷ u.id) h k,
  colon t.id u.id,
)
  where
    colon : (r s : Str) → str_lt (b':' ∷ r) (b':' ∷ s) ≡ str_lt r s
    colon r s = unfold str_lt in refl

-- Two targets never share a place in the queue.
pub queue_key-id : (t u : Target) → queue_key t ≡ queue_key u → t.id ≡ u.id
unfolding queue_key
queue_key-id t u h =
    cc (last_digits_rest 20 t.available_at u.available_at (b':' ∷ t.id) (b':' ∷ u.id) h)
