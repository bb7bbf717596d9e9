-- ===== src/Rewards/Factors.antt =====
-- The factor that scales an award, src/modules/rewards/factor.provider.ts. What a provider returns is
-- a fraction, so that nothing is rounded but where the source rounds.
pub mod Bounds
use wh_api_unified_service.Prelude.{
  ◌*◌, ◌+◌, ◌/◌, Option, String, if◌then◌else◌, leb, none, some, str_eq, ℕ,
}

abbrev pub factor_basis_points_max : ℕ
factor_basis_points_max = 10000

-- What `provider.factor(ctx)` comes to: a number of either sign, one that is not finite, or an error.
pub data RawFactor : Type 0 where
  fraction : (top below : ℕ) → RawFactor
  negative_factor : RawFactor
  not_finite : RawFactor
  provider_threw : RawFactor

-- `ConstantOneFactorProvider`, the only provider.
abbrev pub constant_one : RawFactor
constant_one = fraction 1 1

-- `resolve`.
unfoldable pub resolve_provider : String → Option RawFactor
resolve_provider code = if str_eq code "constant_one" then some constant_one else none

-- `Math.round(min(max(raw, 0), 1) * 10000)`, of `top / below`.
unfoldable pub clamp_factor : ℕ → ℕ → ℕ
clamp_factor top below =
    if leb below top
    then factor_basis_points_max
    else (2 * (top * factor_basis_points_max) + below) / (2 * below)

unfoldable pub basis_points_of : RawFactor → ℕ
basis_points_of (fraction top below) = clamp_factor top below
basis_points_of negative_factor = 0
basis_points_of not_finite = 0
basis_points_of provider_threw = 0

-- `FactorEvaluator.evaluate`, by its basis points.
unfoldable pub evaluate_factor : String → ℕ
evaluate_factor code = elim (resolve_provider code) [ none ↦ 0 | some raw ↦ basis_points_of raw ]

unfoldable pub scale_by_factor : ℕ → ℕ → ℕ
scale_by_factor cap basis_points =
    (cap * basis_points + factor_basis_points_max / 2) / factor_basis_points_max
