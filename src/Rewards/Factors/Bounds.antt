-- ===== src/Rewards/Factors/Bounds.antt =====
-- How far a factor moves an award, src/modules/rewards/factor.provider.ts.
use native.Mathlib.Nat.{div-lt_iff_lt-mul}
use wh_api_unified_service.Prelude.{◌*◌, ◌+◌, ◌/◌, ◌<◌, arith, ℕ, ◌≡◌, ◌≤◌}
use wh_api_unified_service.Rewards.Factors.{
  RawFactor, basis_points_of, clamp_factor, fraction, negative_factor, not_finite, provider_threw,
  scale_by_factor,
}

share-le : (top below : ℕ) → top < below → (2 * (top * 10000) + below) / (2 * below) ≤ 10000
share-le top below h =
    let x = 2 * (top * 10000) + below in
    let small : x / (2 * below) < 10001 =
      (div-lt_iff_lt-mul {k = 2 * below} {x = x} {y = 10001} (omega arith)).1 (omega arith) in
    omega (arith, small)

-- Whatever a provider returns, the basis points lie between none and all of the cap.
pub basis_points_of-le : (raw : RawFactor) → basis_points_of raw ≤ 10000
unfolding basis_points_of clamp_factor
basis_points_of-le (fraction top below) = ground (arith, share-le top below)
basis_points_of-le negative_factor = omega arith
basis_points_of-le not_finite = omega arith
basis_points_of-le provider_threw = omega arith

-- A scaled amount never exceeds its cap, is the whole cap at the full factor, and is within half a
-- unit of the exact share.
pub scale_by_factor_bounds :
    (cap basis_points : ℕ)
    → basis_points ≤ 10000
    → (scale_by_factor cap basis_points ≤ cap)
      × (scale_by_factor cap 10000 ≡ cap)
      × (2 * (cap * basis_points) ≤ 20000 * scale_by_factor cap basis_points + 10000)
      × (20000 * scale_by_factor cap basis_points ≤ 2 * (cap * basis_points) + 10000)
unfolding scale_by_factor
scale_by_factor_bounds cap basis_points h =
    let le : cap * basis_points ≤ cap * 10000 = grind arith in
    (omega (arith, le), omega arith, omega arith, omega arith)
