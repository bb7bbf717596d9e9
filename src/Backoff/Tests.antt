-- ===== src/Backoff/Tests.antt =====
-- The theorems on the backoff at concrete draws.
use wh_api_unified_service.Prelude.{arith, none, some, ℕ, ◌↔◌, ◌≡◌, ◌≤◌}
use wh_api_unified_service.Backoff.{jittered, schedule_retry}
use wh_api_unified_service.Backoff.Bounds.{jittered_bounds, schedule_retry_lem}

jittered_bounds_example : (2000 ≤ jittered 12345 4000) × (jittered 12345 4000 ≤ 4000)
jittered_bounds_example = jittered_bounds 4000 12345 (omega arith)

schedule_retry_lem_example :
    ((schedule_retry 0 100 2 5 ≡ none) ↔ (5 ≤ 2))
    × ((at : ℕ) → schedule_retry 0 100 2 5 ≡ some at → (600 ≤ at) × (at ≤ 300100))
schedule_retry_lem_example = schedule_retry_lem 0 100 2 5 (omega arith)
