-- ===== src/Rewards/Grants.antt =====
-- Granting an award, src/modules/rewards/rule-evaluator.service.ts. An exception, which rolls the
-- transaction back, is `none`.
pub mod Slots
use wh_api_unified_service.Prelude.{
  ◌&&◌, ◌==◌, ◌>>=◌, Bool, List, Option, String, [], any, false, if◌then◌else◌, is_none, ltb, none,
  not, some, str_eq, true, ◌||◌, ℕ, ◌∷◌,
}
use wh_api_unified_service.Rewards.{
  BenefitFields, RewardAwardMode, RewardRuleBenefitRow, RewardRuleRow, fixed, up_to,
}
use wh_api_unified_service.Rewards.Awards.{mark_granted, mark_skipped, release_cap_slot}
use wh_api_unified_service.Rewards.Benefits.{BenefitContext, dispatch, parse_benefit}
use wh_api_unified_service.Rewards.Factors.{evaluate_factor, scale_by_factor}
use wh_api_unified_service.Rewards.Ledgers.{Ledgers, skipped_zero_factor}
use wh_api_unified_service.Rewards.Matching.{Setting}
use wh_api_unified_service.Wallet.{points}

abbrev is_up_to : RewardAwardMode → Bool
is_up_to up_to = true
is_up_to fixed = false

unfoldable pub scales_to_nothing : RewardRuleBenefitRow → Option ℕ → Bool
scales_to_nothing stored none = false
scales_to_nothing stored (some basis_points) = elim stored.award_cap [
  | none ↦ false
  | some cap ↦ is_up_to stored.award_mode && ltb (scale_by_factor cap basis_points) 1
]

-- `CURRENCY_BEARING_BENEFITS`
abbrev bears_currency : String → Bool
bears_currency kind = str_eq kind "grant_currency" || str_eq kind "convert_value"

abbrev with_currency : String → Option String → BenefitFields → BenefitFields
with_currency kind none c = c
with_currency kind (some code) c =
    if is_none c.currency_code && bears_currency kind
    then record c { currency_code = some code }
    else c

abbrev with_amount : ℕ → BenefitFields → BenefitFields
with_amount scaled c =
    if not (is_none c.points)
    then record c { points = some scaled }
    else if not (is_none c.minor_units)
    then record c { minor_units = some scaled }
    else c

abbrev scaled_config : RewardAwardMode → Option ℕ → Option ℕ → BenefitFields → BenefitFields
scaled_config up_to (some basis_points) (some cap) c =
    with_amount (scale_by_factor cap basis_points) c
scaled_config up_to (some basis_points) none c = c
scaled_config up_to none cap c = c
scaled_config fixed basis_points cap c = c

unfoldable pub resolve_config : RewardRuleBenefitRow → Option ℕ → Option String → BenefitFields
resolve_config stored basis_points default_currency_code =
    scaled_config stored.award_mode basis_points stored.award_cap
      (with_currency stored.benefit_kind default_currency_code stored.config)

pub record GrantInput : Type 0 where
  pub enterprise_id : ℕ
  pub award_id : ℕ
  pub customer_id : ℕ
  pub rule : RewardRuleRow
  pub default_currency_code : Option String
  pub period_key : Option String
  pub occurred_at_utc : ℕ
  pub benefits : List RewardRuleBenefitRow

abbrev pub context_of : GrantInput → BenefitContext
context_of input = record {
  enterprise_id = input.enterprise_id;
  customer_id = input.customer_id;
  award_id = input.award_id;
  rule_id = input.rule.id;
  rule_version = input.rule.version;
  occurred_at_utc = input.occurred_at_utc;
  idempotency_key = "";
}

-- One stored benefit; what its schema refuses throws.
abbrev pub apply_stored :
    Setting → GrantInput → Option ℕ → RewardRuleBenefitRow → Ledgers → Option Ledgers
apply_stored s input factor stored l = do
  benefit ←
      parse_benefit s.fits stored.benefit_kind
        (resolve_config stored factor input.default_currency_code)
  dispatch (s.draws input.award_id stored.benefit_index) benefit stored.benefit_index
      (context_of input) l

-- The loop over the stored benefits.
unfoldable pub apply_all :
    Setting → GrantInput → Option ℕ → List RewardRuleBenefitRow → Ledgers → Option Ledgers
apply_all s input factor [] l = some l
apply_all s input factor (stored ∷ rest) l =
    apply_stored s input factor stored l >>= apply_all s input factor rest

abbrev pub is_points_row : RewardRuleBenefitRow → Bool
is_points_row b = str_eq b.benefit_kind "grant_points"

-- A text that is there and not empty.
abbrev pub truthy_text : Option String → Option String
truthy_text none = none
truthy_text (some t) = if str_eq t "" then none else some t

abbrev pub released : GrantInput → Option String → Ledgers → Ledgers
released input none l = l
released input (some period) l =
    release_cap_slot input.enterprise_id input.rule.id input.customer_id period l

abbrev pub is_zero : Option ℕ → Bool
is_zero none = false
is_zero (some basis_points) = basis_points == 0

-- By the factor that was computed, if a benefit needs one.
unfoldable pub grant_by : Setting → GrantInput → Bool → Option ℕ → Ledgers → Option (Ledgers × Bool)
grant_by s input needs_factor factor l =
    if needs_factor && (is_zero factor || any (λ b. scales_to_nothing b factor) input.benefits)
    then some (
      mark_skipped input.enterprise_id input.award_id skipped_zero_factor
          (if is_zero factor then "factor_zero" else "factor_scaled_to_zero") input.period_key
          (released input (truthy_text input.period_key) l),
      false,
    )
    else do
      l' ← apply_all s input factor input.benefits l
      some (
        mark_granted input.enterprise_id input.award_id factor input.period_key l',
        any is_points_row input.benefits,
      )

unfoldable pub grant : Setting → GrantInput → Ledgers → Option (Ledgers × Bool)
grant s input l =
    let needs_factor = any (λ b. is_up_to b.award_mode) input.benefits in
    grant_by s input needs_factor
      (if needs_factor then some (evaluate_factor input.rule.factor_provider_code) else none) l
