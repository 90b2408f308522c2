-- ===== src/Outbox/Backoff.antt =====
-- The delay before a retry.
use native.Mathlib.Nat.{mul_assoc, pow-succ'}
use notification_manager.Base.{
  ℕ, zero, suc, ◌-◌, ◌*◌, ◌^◌, ◌≤◌, ◌≡◌, sym, ap, ◌∙◌, arith, ltb, if◌then◌else◌,
}
use notification_manager.Outbox.Deliver.{OutboxConfig, doubled, retry_delay}

abbrev pub min : ℕ → ℕ → ℕ
min a b = if ltb b a then b else a

two_pow-suc : (d k : ℕ) → d * 2 ^ suc k ≡ (d * 2) * 2 ^ k
two_pow-suc d k = ap (λ t. d * t) (pow-succ' 2 k) ∙ sym (mul_assoc d 2 (2 ^ k))

le-mul-two_pow : (d k : ℕ) → d ≤ d * 2 ^ k
le-mul-two_pow d zero = omega arith
le-mul-two_pow d (suc k) = omega (arith, two_pow-suc d k, le-mul-two_pow (d * 2) k)

doubled-eq-min :
    (rounds retry_max delay : ℕ)
    → doubled rounds retry_max delay ≡ min (delay * 2 ^ rounds) retry_max
unfolding doubled
doubled-eq-min zero m d = ground arith
doubled-eq-min (suc k) m d = ground (
  arith,
  doubled-eq-min k m (d * 2),
  two_pow-suc d k,
  le-mul-two_pow d (suc k),
  le-mul-two_pow (d * 2) k,
)

-- The delay before attempt n + 1 is the least delay doubled n - 1 times, and never more than the
-- greatest delay.
pub retry_delay-eq-min :
    (config : OutboxConfig) (attempt : ℕ)
    → retry_delay config attempt ≡ min (config.retry_min * 2 ^ (attempt - 1)) config.retry_max
unfolding retry_delay
retry_delay-eq-min config attempt = doubled-eq-min (attempt - 1) config.retry_max config.retry_min
