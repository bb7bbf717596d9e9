-- ===== src/Backoff/Bounds.antt =====
-- The bounds of the delays, src/modules/ledger/backoff.util.ts.
use native.Mathlib.Nat.{mul-le-mul_left}
use wh_api_unified_service.Prelude.{
  ◌*◌, ◌+◌, ◌-◌, ◌/◌, ◌<◌, ◌^◌, arith, none, some, suc, zero, ℕ, ◌↔◌, ◌≡◌, ◌≤◌, ◌⊎◌,
}
use wh_api_unified_service.Backoff.{
  exponential, jittered, next_attempt_at, next_attempt_delay_ms, random_steps, schedule_retry,
}

-- Whatever is drawn, a delay is at least half of its base, rounded down, and never more than its base:
-- no attempt falls in the first half of the window.
pub jittered_bounds : (b r : ℕ) → r < random_steps → (b / 2 ≤ jittered r b) × (jittered r b ≤ b)
unfolding jittered
jittered_bounds b r h =
    let below : b * r ≤ b * 9007199254740992 = mul-le-mul_left b (omega arith) in
    (omega (arith, below), omega (arith, below))

pos_pow : (n : ℕ) → 1 ≤ 2 ^ n
pos_pow zero = omega arith
pos_pow (suc n) = omega (arith, pos_pow n)

-- Every retry waits between half a second and five minutes, however many attempts there were.
pub retry_delay_bounds :
    (r attempt_count : ℕ)
    → r < random_steps
    → (500 ≤ next_attempt_delay_ms r attempt_count)
      × (next_attempt_delay_ms r attempt_count ≤ 300000)
unfolding next_attempt_delay_ms
retry_delay_bounds r n h =
    let (low, high) = jittered_bounds (exponential n) r h in
    let base : 1000 ≤ exponential n = omega (arith, pos_pow (n - 1)) in
    (omega (arith, low, base), omega (arith, high))

-- A further attempt is scheduled exactly when the budget is not spent, and then for a time that is at
-- least half a second and at most five minutes away.
pub schedule_retry_lem :
    (r now attempt_count max_attempts : ℕ)
    → r < random_steps
    → ((schedule_retry r now attempt_count max_attempts ≡ none) ↔ (max_attempts ≤ attempt_count))
      × ((at : ℕ)
          → schedule_retry r now attempt_count max_attempts ≡ some at
          → (now + 500 ≤ at) × (at ≤ now + 300000))
unfolding schedule_retry next_attempt_at
schedule_retry_lem r now n m h =
    let (low, high) = retry_delay_bounds r n h in (ground arith, λ at same. ground arith)

-- The window that the jitter is drawn from doubles with each attempt until it reaches the cap, and a
-- later attempt never has a smaller one.
pub exponential_grows :
    (n : ℕ)
    → (exponential (suc n) ≤ exponential (suc (suc n)))
      × ((exponential (suc (suc n)) ≡ 2 * exponential (suc n))
          ⊎ (exponential (suc (suc n)) ≡ 300000))
exponential_grows n =
    let pre : suc n - 1 ≡ n = omega arith in
    let pre' : suc (suc n) - 1 ≡ suc n = omega arith in
    let double : 2 ^ suc n ≡ 2 * 2 ^ n = omega arith in
    rw (pre, pre') (omega (arith, double), grind (arith, double))
