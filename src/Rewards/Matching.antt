-- ===== src/Rewards/Matching.antt =====
-- Which rules an event meets, src/database/repositories/reward-rule.repository.ts and
-- reward-program.repository.ts.
use wh_api_unified_service.Prelude.{
  ◌&&◌, ◌==◌, Bool, List, Option, String, [], any, false, filter, if◌then◌else◌, leb, ltb, none,
  not, some, sort, true, ◌||◌, ℕ, ◌∷◌,
}
use wh_api_unified_service.Rewards.{
  BenefitFields, RewardProgramRow, RewardProgramStatus, RewardRuleBenefitRow, RewardRuleRow,
  RewardTriggerKind, in_force, trigger_number,
}
use wh_api_unified_service.Rewards.Benefits.{Draws}
use wh_api_unified_service.Rewards.Conditions.{Locale, RewardRuleConditionRow}
use wh_api_unified_service.Rewards.Periods.{LocalYmd}

-- What the rules and programs are, by the reads of their repositories, and what the evaluator uses of
-- the platform. `period_key` is `derivePeriodKey` for the scopes that it has a key for.
pub record Setting : Type 0 where
  pub rules : List RewardRuleRow
  pub programs : List RewardProgramRow
  pub load_conditions : ℕ → ℕ → List RewardRuleConditionRow
  pub load_benefits : ℕ → ℕ → List RewardRuleBenefitRow
  pub find_first_seen_at : ℕ → ℕ → Option ℕ
  pub locale : Locale
  pub local_ymd : ℕ → String → LocalYmd
  pub fits : BenefitFields → Bool
  pub draws : ℕ → ℕ → Draws

abbrev pub same_trigger : RewardTriggerKind → RewardTriggerKind → Bool
same_trigger a b = trigger_number a == trigger_number b

abbrev pub has_begun : Option ℕ → ℕ → Bool
has_begun none at = true
has_begun (some start) at = leb start at

abbrev pub not_ended : Option ℕ → ℕ → Bool
not_ended none at = true
not_ended (some stop) at = ltb at stop

abbrev is_in_force : RewardProgramStatus → Bool
is_in_force in_force = true
is_in_force _ = false

unfoldable pub runs_at : RewardProgramRow → RewardRuleRow → ℕ → Bool
runs_at p r at =
    (p.id == r.program_id)
    && (p.enterprise_id == r.enterprise_id)
    && is_in_force p.status
    && not p.is_deleted
    && has_begun p.starts_at at
    && not_ended p.ends_at at

abbrev pub by_priority : RewardRuleRow → RewardRuleRow → Bool
by_priority a b = ltb a.priority b.priority || ((a.priority == b.priority) && leb a.id b.id)

unfoldable pub find_matching_rules : Setting → ℕ → RewardTriggerKind → ℕ → List RewardRuleRow
find_matching_rules s enterprise kind at = sort by_priority (
    filter
      (λ r.
        (r.enterprise_id == enterprise)
        && same_trigger r.trigger_kind kind
        && r.is_active
        && not r.is_deleted
        && any (λ p. runs_at p r at) s.programs)
      s.rules)

unfoldable pub find_program : ℕ → ℕ → List RewardProgramRow → Option RewardProgramRow
find_program enterprise id [] = none
find_program enterprise id (p ∷ ps) =
    let rest = find_program enterprise id ps in
    if (p.enterprise_id == enterprise) && (p.id == id) && not p.is_deleted then some p else rest
