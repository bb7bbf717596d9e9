-- ===== src/Rewards/Evaluator.antt =====
-- Evaluating a rule for an event, src/modules/rewards/rule-evaluator.service.ts. An exception, which
-- rolls the transaction back, is `none`.
pub mod Limits
pub mod Once
pub mod Steps
pub mod Depth
use mathlib.Core.Option
use wh_api_unified_service.Prelude.{
  ◌&&◌, ◌*◌, ◌+◌, ◌<>◌, Bool, List, Option, String, [], any, false, if◌then◌else◌, is_none, ltb,
  map, none, not, some, str_eq, suc, true, zero, ℕ, ◌∷◌,
}
use wh_api_unified_service.Rewards.{
  RewardCapScope, RewardProgramRow, RewardRuleRow, RewardTriggerEvent, RewardTriggerKind,
  matches_trigger_config, points_balance_reached, uncapped,
}
use wh_api_unified_service.Rewards.Awards.{
  CreateAwardInput, claim_cap_slot, create_if_absent, mark_skipped,
}
use wh_api_unified_service.Rewards.Conditions.{RewardRuleConditionRow, evaluate_conditions}
use wh_api_unified_service.Rewards.Grants.{GrantInput, grant, truthy_text}
use wh_api_unified_service.Rewards.Ledgers.{
  Ledgers, RewardAward, RewardAwardStatus, held, skipped_cap, skipped_condition,
}
use wh_api_unified_service.Rewards.Matching.{
  Setting, find_matching_rules, find_program, same_trigger,
}
use wh_api_unified_service.Rewards.Periods.{derive_period_key}
use wh_api_unified_service.Wallet.{first_wallet, is_wallet_of, points}
use wh_api_unified_service.Wallet.Integers.{negsuc, pos, ℤ}

abbrev pub ms_per_hour : ℕ
ms_per_hour = 3600000

abbrev pub is_capped : RewardCapScope → Bool
is_capped uncapped = false
is_capped _ = true

unfoldable pub hold_until : RewardRuleRow → RewardTriggerEvent → Option ℕ
hold_until rule event =
    if ltb 0 rule.hold_hours
    then some (event.occurred_at_utc + rule.hold_hours * ms_per_hour)
    else none

unfoldable pub period_of :
    Setting → RewardRuleRow → RewardTriggerEvent → Option String → Option String
period_of s rule event none = none
period_of s rule event (some timezone) =
    derive_period_key (s.local_ymd event.occurred_at_utc timezone) rule.cap_scope

abbrev pub award_input :
    RewardRuleRow → RewardProgramRow → RewardTriggerEvent → Option String → CreateAwardInput
award_input rule program event failed = record {
  enterprise_id = event.enterprise_id;
  program_id = rule.program_id;
  rule_id = rule.id;
  rule_version = rule.version;
  program_version = program.version;
  customer_id = event.customer_id;
  channel_id = event.channel_id;
  source_ref_kind = event.source_ref_kind;
  source_ref_id = event.source_ref_id;
  status = if is_none failed then held else skipped_condition;
  held_until = if is_none failed then hold_until rule event else none;
  occurred_at_utc = event.occurred_at_utc;
}

abbrev first_seen : Setting → RewardTriggerEvent → List RewardRuleConditionRow → Option ℕ
first_seen s event conditions = elim event.customer_first_seen_at [
  | some at ↦ some at
  | none ↦
      if any (λ c. str_eq c.condition_kind "customer_tenure") conditions
      then s.find_first_seen_at event.enterprise_id event.customer_id
      else none
]

unfoldable pub failed_condition :
    Setting → RewardRuleRow → RewardProgramRow → RewardTriggerEvent → Option String
failed_condition s rule program event =
    let conditions = s.load_conditions rule.id rule.version in
    evaluate_conditions s.locale conditions (record {
      occurred_at_utc = event.occurred_at_utc;
      timezone = program.enterprise_timezone;
      content = event.content;
      customer_first_seen_at = first_seen s event conditions;
    })

abbrev pub grant_input :
    Setting → RewardRuleRow → RewardProgramRow → RewardTriggerEvent → ℕ → Option String → GrantInput
grant_input s rule program event award period = record {
  enterprise_id = event.enterprise_id;
  award_id = award;
  customer_id = event.customer_id;
  rule = rule;
  default_currency_code = program.enterprise_currency_code;
  period_key = period;
  occurred_at_utc = event.occurred_at_utc;
  benefits = s.load_benefits rule.id rule.version;
}

abbrev pub skip :
    RewardTriggerEvent
    → ℕ
    → RewardAwardStatus
    → String
    → Option String
    → Ledgers
    → Option (Ledgers × Option ℕ)
skip event award status reason period l =
    some (mark_skipped event.enterprise_id award status reason period l, none)

-- The id of the award, when points were credited.
abbrev pub credited_award : ℕ → Ledgers × Bool → Ledgers × Option ℕ
credited_award award (l, credited_points) = (l, if credited_points then some award else none)

-- Once the cap has been claimed or is not asked for, by the time until which the award is held: a held
-- award waits, another is granted now.
unfoldable pub settle : Setting → GrantInput → Option ℕ → Ledgers → Option (Ledgers × Option ℕ)
settle s input (some until) l = some (l, none)
settle s input none l = Option.map (credited_award input.award_id) (grant s input l)

abbrev pub after_claim :
    Setting
    → RewardTriggerEvent
    → GrantInput
    → Option ℕ
    → Ledgers × Bool
    → Option (Ledgers × Option ℕ)
after_claim s event input hold (l, true) = settle s input hold l
after_claim s event input hold (l, false) =
    skip event input.award_id skipped_cap "cap_consumed" input.period_key l

-- By the key of the period, where the rule is capped.
unfoldable pub claim_and_settle :
    Setting
    → RewardRuleRow
    → RewardTriggerEvent
    → GrantInput
    → Option String
    → Ledgers
    → Option (Ledgers × Option ℕ)
claim_and_settle s rule event input none l = settle s input (hold_until rule event) l
claim_and_settle s rule event input (some key) l =
    after_claim s event input (hold_until rule event)
      (claim_cap_slot event.enterprise_id rule.id event.customer_id key rule.cap_count l)

-- A new award whose conditions passed.
unfoldable pub from_cap :
    Setting
    → RewardRuleRow
    → RewardProgramRow
    → RewardTriggerEvent
    → ℕ
    → Ledgers
    → Option (Ledgers × Option ℕ)
from_cap s rule program event award l =
    if is_capped rule.cap_scope && is_none program.enterprise_timezone
    then skip event award skipped_condition "enterprise_timezone_not_set" none l
    else let period = period_of s rule event program.enterprise_timezone in
      claim_and_settle s rule event (grant_input s rule program event award period)
        (if is_capped rule.cap_scope then truthy_text period else none) l

-- By the award that was made, if it was not there before, and the condition that failed.
unfoldable pub after_creation :
    Setting
    → RewardRuleRow
    → RewardProgramRow
    → RewardTriggerEvent
    → Option String
    → Ledgers × Option RewardAward
    → Option (Ledgers × Option ℕ)
after_creation s rule program event failed (l, none) = some (l, none)
after_creation s rule program event (some kind) (l, some award) =
    skip event award.id skipped_condition ("condition_failed:" <> kind) none l
after_creation s rule program event none (l, some award) = from_cap s rule program event award.id l

abbrev pub evaluate_in :
    Setting
    → RewardRuleRow
    → RewardTriggerEvent
    → Option RewardProgramRow
    → Ledgers
    → Option (Ledgers × Option ℕ)
evaluate_in s rule event none l = some (l, none)
evaluate_in s rule event (some program) l =
    let failed = failed_condition s rule program event in
    after_creation s rule program event failed
      (create_if_absent (award_input rule program event failed) l)

-- `evaluateRule`: one transaction.
unfoldable pub evaluate_rule :
    Setting → RewardRuleRow → RewardTriggerEvent → Ledgers → Option (Ledgers × Option ℕ)
evaluate_rule s rule event l =
    evaluate_in s rule event (find_program event.enterprise_id rule.program_id s.programs) l

abbrev pub rule_matches : RewardRuleRow → RewardTriggerEvent → Bool
rule_matches rule event = elim rule.trigger_config [
  | none ↦ false
  | some config ↦
      matches_trigger_config config
        (record { channel_id = event.channel_id; points_balance = event.points_balance })
]

abbrev positive : ℤ → Option ℕ
positive (pos n) = if ltb 0 n then some n else none
positive (negsuc n) = none

abbrev pub is_empty : List RewardRuleRow → Bool
is_empty [] = true
is_empty (r ∷ rs) = false

-- The points wallet's balance, where it is above nothing.
unfoldable pub positive_points : ℕ → ℕ → Ledgers → Option ℕ
positive_points enterprise owner l =
    elim (first_wallet (λ w. is_wallet_of enterprise owner points none w && is_none w.currency_code)
      l.book.wallets) [ none ↦ none | some w ↦ positive w.balance ]

abbrev pub threshold_event : RewardTriggerEvent → ℕ → ℕ → RewardTriggerEvent
threshold_event event award balance = record {
  enterprise_id = event.enterprise_id;
  customer_id = event.customer_id;
  trigger_kind = points_balance_reached;
  source_ref_kind = "award";
  source_ref_id = award;
  channel_id = none;
  occurred_at_utc = event.occurred_at_utc;
  content = none;
  customer_first_seen_at = none;
  points_balance = some balance;
}

abbrev pub offer_to :
    (RewardTriggerEvent → Ledgers → Option Ledgers)
    → RewardTriggerEvent
    → ℕ
    → Option ℕ
    → Ledgers
    → Option Ledgers
offer_to again event award none l = some l
offer_to again event award (some balance) l = again (threshold_event event award balance) l

-- `offerBalanceThresholds`, with `onTriggerEvent` for the event that it makes.
unfoldable pub offer_balance_thresholds :
    (RewardTriggerEvent → Ledgers → Option Ledgers)
    → Setting
    → RewardTriggerKind
    → RewardTriggerEvent
    → ℕ
    → Ledgers
    → Option Ledgers
offer_balance_thresholds again s granting_kind event award l =
    if same_trigger granting_kind points_balance_reached
    then some l
    else if is_empty
        (find_matching_rules s event.enterprise_id points_balance_reached event.occurred_at_utc)
    then some l
    else offer_to again event award (positive_points event.enterprise_id event.customer_id l) l

abbrev pub then_rest : (Ledgers → Option Ledgers) → Option Ledgers → Option Ledgers
then_rest rest none = none
then_rest rest (some l) = rest l

-- After one rule: a transaction that throws leaves nothing behind, and points that were credited are
-- offered to the thresholds.
abbrev pub after_rule :
    (ℕ → Ledgers → Option Ledgers)
    → (Ledgers → Option Ledgers)
    → Ledgers
    → Option (Ledgers × Option ℕ)
    → Option Ledgers
after_rule offer rest l none = rest l
after_rule offer rest l (some (l', none)) = rest l'
after_rule offer rest l (some (l', some award)) = then_rest rest (offer award l')

-- The loop over the candidates. `none` is a depth of calls that was not enough.
unfoldable pub each_rule :
    (RewardTriggerEvent → Ledgers → Option Ledgers)
    → Setting
    → RewardTriggerEvent
    → List RewardRuleRow
    → Ledgers
    → Option Ledgers
each_rule again s event [] l = some l
each_rule again s event (rule ∷ rules) l =
    let rest = each_rule again s event rules in
    if not (rule_matches rule event)
    then rest l
    else after_rule (offer_balance_thresholds again s rule.trigger_kind event) rest l
        (evaluate_rule s rule event l)

-- `onTriggerEvent`, which calls itself through the thresholds, to a depth of calls.
unfoldable pub on_trigger_event : ℕ → Setting → RewardTriggerEvent → Ledgers → Option Ledgers
on_trigger_event zero s event l = none
on_trigger_event (suc depth) s event l =
    each_rule (on_trigger_event depth s) s event
      (find_matching_rules s event.enterprise_id event.trigger_kind event.occurred_at_utc) l
