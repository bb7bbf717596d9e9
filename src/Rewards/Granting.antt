-- ===== src/Rewards/Granting.antt =====
-- Granting held awards when they are due, and taking awards back when their content is gone,
-- src/modules/rewards/reward-grant.service.ts.
pub mod Holds
pub mod Reversals
pub mod Sweeps
use mathlib.Core.Option
use wh_api_unified_service.Prelude.{
  ◌&&◌, ◌+◌, ◌==◌, ◌>>=◌, Bool, List, Option, String, [], false, if◌then◌else◌, map, none, not,
  some, true, ℕ, ◌∷◌,
}
use wh_api_unified_service.Rewards.{
  RewardProgramRow, RewardReversalPolicy, RewardRuleRow, RewardTriggerEvent, RewardTriggerKind,
  never_reversed, on_content_deleted,
}
use wh_api_unified_service.Rewards.Awards.{
  claim_due_held_awards, find_by_source, lock_held_award, mark_reversed, release_cap_slot,
}
use wh_api_unified_service.Rewards.Benefits.{BenefitContext, compensate_award}
use wh_api_unified_service.Rewards.Evaluator.{offer_balance_thresholds, on_trigger_event}
use wh_api_unified_service.Rewards.Grants.{GrantInput, grant, truthy_text}
use wh_api_unified_service.Rewards.Ledgers.{Ledgers, RewardAward, RewardAwardStatus, granted, held}
use wh_api_unified_service.Rewards.Matching.{Setting, find_program}

unfoldable pub find_rule : ℕ → ℕ → List RewardRuleRow → Option RewardRuleRow
find_rule enterprise id [] = none
find_rule enterprise id (r ∷ rs) =
    let rest = find_rule enterprise id rs in
    if (r.enterprise_id == enterprise) && (r.id == id) && not r.is_deleted then some r else rest

abbrev pub Outcome : Type 0
Outcome = Option (Ledgers × Option (RewardTriggerKind × Bool))

-- The rule's trigger, and whether points were credited.
abbrev pub told : RewardTriggerKind → Option (Ledgers × Bool) → Outcome
told kind none = none
told kind (some (l, credited_points)) = some (l, some (kind, credited_points))

abbrev pub held_input : RewardAward → RewardRuleRow → RewardProgramRow → Setting → GrantInput
held_input award rule program s = record {
  enterprise_id = award.enterprise_id;
  award_id = award.id;
  customer_id = award.customer_id;
  rule = rule;
  default_currency_code = program.enterprise_currency_code;
  period_key = award.period_key;
  occurred_at_utc = award.occurred_at_utc;
  benefits = s.load_benefits award.rule_id award.rule_version;
}

abbrev pub grant_in :
    Setting → RewardAward → RewardRuleRow → Option RewardProgramRow → Ledgers → Outcome
grant_in s award rule none l = some (l, none)
grant_in s award rule (some program) l =
    told rule.trigger_kind (grant s (held_input award rule program s) l)

abbrev pub grant_under : Setting → RewardAward → Option RewardRuleRow → Ledgers → Outcome
grant_under s award none l = some (l, none)
grant_under s award (some rule) l =
    grant_in s award rule (find_program award.enterprise_id rule.program_id s.programs) l

-- What the transaction of one due award comes to; `none` inside where it grants nothing.
unfoldable pub grant_held : Setting → RewardAward → Ledgers → Outcome
grant_held s award l =
    if not (lock_held_award award.enterprise_id award.id l)
    then some (l, none)
    else grant_under s award (find_rule award.enterprise_id award.rule_id s.rules) l

-- The event that the thresholds are offered for, by the award's customer and time.
abbrev pub event_of : RewardAward → RewardTriggerKind → RewardTriggerEvent
event_of award kind = record {
  enterprise_id = award.enterprise_id;
  customer_id = award.customer_id;
  trigger_kind = kind;
  source_ref_kind = award.source_ref_kind;
  source_ref_id = award.source_ref_id;
  channel_id = award.channel_id;
  occurred_at_utc = award.occurred_at_utc;
  content = none;
  customer_first_seen_at = none;
  points_balance = none;
}

-- After the transaction: the offer to the thresholds, where points were credited.
abbrev pub offer_after :
    (RewardTriggerKind → Ledgers → Option Ledgers)
    → RewardTriggerKind × Bool
    → Ledgers
    → Option Ledgers
offer_after offer (kind, true) l = offer kind l
offer_after offer (kind, false) l = some l

abbrev pub count_on : (Ledgers → Option (Ledgers × ℕ)) → Option Ledgers → Option (Ledgers × ℕ)
count_on rest none = none
count_on rest (some l) = Option.map (λ r. (r.0, r.1 + 1)) (rest l)

-- By what the transaction came to: one that throws leaves nothing behind.
abbrev pub after_held_award :
    (RewardTriggerKind → Ledgers → Option Ledgers)
    → (Ledgers → Option (Ledgers × ℕ))
    → Ledgers
    → Outcome
    → Option (Ledgers × ℕ)
after_held_award offer rest l none = rest l
after_held_award offer rest l (some (l', none)) = rest l'
after_held_award offer rest l (some (l', some grant_told)) =
    count_on rest (offer_after offer grant_told l')

-- The loop of `grantDueAwards`: how many were granted. Only the depth of `onTriggerEvent` gives `none`.
unfoldable pub grant_each : ℕ → Setting → List RewardAward → Ledgers → Option (Ledgers × ℕ)
grant_each depth s [] l = some (l, 0)
grant_each depth s (award ∷ awards) l =
    after_held_award
      (λ kind m.
        offer_balance_thresholds (on_trigger_event depth s) s kind (event_of award kind) award.id m)
      (grant_each depth s awards) l (grant_held s award l)

abbrev pub grant_batch_size : ℕ
grant_batch_size = 100

unfoldable pub grant_due_awards : ℕ → ℕ → Setting → Ledgers → Option (Ledgers × ℕ)
grant_due_awards depth now s l = grant_each depth s (claim_due_held_awards now grant_batch_size l) l

abbrev pub may_reverse : RewardAwardStatus → Bool
may_reverse granted = true
may_reverse held = true
may_reverse _ = false

abbrev pub is_granted : RewardAwardStatus → Bool
is_granted granted = true
is_granted _ = false

abbrev pub is_on_content_deleted : RewardReversalPolicy → Bool
is_on_content_deleted on_content_deleted = true
is_on_content_deleted never_reversed = false

abbrev pub award_context : RewardAward → BenefitContext
award_context award = record {
  enterprise_id = award.enterprise_id;
  customer_id = award.customer_id;
  award_id = award.id;
  rule_id = award.rule_id;
  rule_version = award.rule_version;
  occurred_at_utc = award.occurred_at_utc;
  idempotency_key = "";
}

abbrev pub hand_back_slot : RewardAward → Option String → Ledgers → Ledgers
hand_back_slot award none l = l
hand_back_slot award (some period) l =
    release_cap_slot award.enterprise_id award.rule_id award.customer_id period l

-- One reversal's transaction, on the award as it was read before.
unfoldable pub reverse_award : String → String → RewardAward → Ledgers → Option Ledgers
reverse_award group reason award l = do
  l' ← if is_granted award.status then compensate_award group (award_context award) l else some l
  some (
      mark_reversed award.enterprise_id award.id reason
        (hand_back_slot award (truthy_text award.period_key) l'))

unfoldable pub is_reversible : Setting → ℕ → RewardAward → Bool
is_reversible s enterprise award =
    may_reverse award.status && elim (find_rule enterprise award.rule_id s.rules) as (λ r. Bool) [
      | none ↦ false
      | some rule ↦ is_on_content_deleted rule.reversal_policy
    ]

-- The loop of `reverseForDeletedContent`; a transaction that throws leaves nothing behind.
unfoldable pub reverse_each :
    Setting → ℕ → String → String → List RewardAward → Ledgers → Ledgers × ℕ
reverse_each s enterprise group reason [] l = (l, 0)
reverse_each s enterprise group reason (award ∷ awards) l =
    let passed_over = reverse_each s enterprise group reason awards l in
    if not (is_reversible s enterprise award)
    then passed_over
    else elim (reverse_award group reason award l) [
      | none ↦ reverse_each s enterprise group reason awards l
      | some l' ↦ let (l'', n) = reverse_each s enterprise group reason awards l' in (l'', n + 1)
    ]

unfoldable pub reverse_for_deleted_content :
    Setting → ℕ → String → ℕ → String → String → Ledgers → Ledgers × ℕ
reverse_for_deleted_content s enterprise kind source group reason l =
    reverse_each s enterprise group reason (find_by_source enterprise kind source l) l
