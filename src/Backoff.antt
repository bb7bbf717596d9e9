-- ===== src/Backoff.antt =====
-- When a failed attempt is tried again, src/modules/ledger/backoff.util.ts. `Math.random()` is a
-- fraction r / 2^53 with r < 2^53, an argument here; the product is exact and then rounded down, where
-- a double would round it to 53 bits first.
mod Tests
pub mod Bounds
use wh_api_unified_service.Prelude
use wh_api_unified_service.Prelude.{
  ◌*◌, ◌+◌, ◌-◌, ◌/◌, Option, ◌^◌, if◌then◌else◌, leb, min, none, some, ℕ,
}

-- `RETRY_BASE_DELAY_MS` and `RETRY_MAX_DELAY_MS`.
abbrev pub retry_base_delay_ms : ℕ
retry_base_delay_ms = 1000

abbrev pub retry_max_delay_ms : ℕ
retry_max_delay_ms = 300000

-- `2 ** 53`, the number of values that `Math.random()` takes.
abbrev pub random_steps : ℕ
random_steps = 9007199254740992

-- `Math.floor(base * (0.5 + Math.random() / 2))`
unfoldable pub jittered : ℕ → ℕ → ℕ
jittered r base = base * (9007199254740992 + r) / 18014398509481984

abbrev pub exponential : ℕ → ℕ
exponential attempt_count = min (retry_base_delay_ms * 2 ^ (attempt_count - 1)) retry_max_delay_ms

unfoldable pub next_attempt_delay_ms : ℕ → ℕ → ℕ
unfolding jittered
next_attempt_delay_ms r attempt_count = jittered r (exponential attempt_count)

unfoldable pub next_attempt_at : ℕ → ℕ → ℕ → ℕ
unfolding next_attempt_delay_ms
next_attempt_at r now attempt_count = now + next_attempt_delay_ms r attempt_count

unfoldable pub park_for : ℕ → ℕ → ℕ → ℕ
unfolding jittered
park_for r now base_ms = now + jittered r base_ms

unfoldable pub schedule_retry : ℕ → ℕ → ℕ → ℕ → Option ℕ
schedule_retry r now attempt_count max_attempts =
    if leb max_attempts attempt_count then none else some (next_attempt_at r now attempt_count)
