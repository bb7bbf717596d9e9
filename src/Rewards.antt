-- ===== src/Rewards.antt =====
-- Reward rules, src/modules/rewards, with the kinds of src/shared/enums/reward.enum.ts and the rows of
-- src/database/repositories/reward-rule.repository.ts and reward-program.repository.ts. A time is a
-- number of milliseconds. A stored JSON value is modelled by what its schema makes of it.
pub mod Conditions
pub mod Factors
pub mod Periods
pub mod Ledgers
pub mod Awards
pub mod Entitlements
pub mod Benefits
pub mod Matching
pub mod Grants
pub mod Evaluator
pub mod Granting
pub mod Engine
mod Tests
use wh_api_unified_service.Prelude.{
  ◌==◌, Bool, List, Option, String, any, false, if◌then◌else◌, ltb, none, not, some, true, ℕ,
}

pub data RewardTriggerKind : Type 0 where
  direct_message_inbound story_reply story_mention message_reaction : RewardTriggerKind
  postback_tapped opt_in_granted referral_entry comment_on_own_post : RewardTriggerKind
  comment_on_mentioned_post post_tagging_us post_caption_mention post_like : RewardTriggerKind
  post_share points_balance_reached : RewardTriggerKind

-- Kinds are told apart by their numbers.
abbrev pub trigger_number : RewardTriggerKind → ℕ
trigger_number direct_message_inbound = 0
trigger_number story_reply = 1
trigger_number story_mention = 2
trigger_number message_reaction = 3
trigger_number postback_tapped = 4
trigger_number opt_in_granted = 5
trigger_number referral_entry = 6
trigger_number comment_on_own_post = 7
trigger_number comment_on_mentioned_post = 8
trigger_number post_tagging_us = 9
trigger_number post_caption_mention = 10
trigger_number post_like = 11
trigger_number post_share = 12
trigger_number points_balance_reached = 13

pub data RewardAwardMode : Type 0 where
  fixed up_to : RewardAwardMode

pub data RewardCapScope : Type 0 where
  per_lifetime per_day per_week per_month per_year uncapped : RewardCapScope

pub data RewardReversalPolicy : Type 0 where
  never_reversed on_content_deleted : RewardReversalPolicy

pub data RewardProgramStatus : Type 0 where
  draft in_force paused retired : RewardProgramStatus

pub record RewardTriggerConfig : Type 0 where
  pub channel_ids : Option (List ℕ)
  pub min_points_balance : Option ℕ

pub record TriggerMatchFacts : Type 0 where
  pub channel_id : Option ℕ
  pub points_balance : Option ℕ

abbrev channel_suits : Option (List ℕ) → Option ℕ → Bool
channel_suits none channel = true
channel_suits (some ids) none = false
channel_suits (some ids) (some channel) = any (λ id. id == channel) ids

abbrev balance_suits : Option ℕ → Option ℕ → Bool
balance_suits none balance = true
balance_suits (some least) none = false
balance_suits (some least) (some balance) = not (ltb balance least)

-- `matchesTriggerConfig` of trigger-match.util.ts.
unfoldable pub matches_trigger_config : RewardTriggerConfig → TriggerMatchFacts → Bool
matches_trigger_config config facts =
    if not (channel_suits config.channel_ids facts.channel_id)
    then false
    else balance_suits config.min_points_balance facts.points_balance

-- The object under `config` of a stored benefit: of each key that some kind of benefit has, its value
-- if it is there. Numbers are whole and not negative.
pub record BenefitFields : Type 0 where
  pub points : Option ℕ
  pub minor_units : Option ℕ
  pub currency_code : Option String
  pub item_ref : Option String
  pub valid_for_days : Option ℕ
  pub burn_points : Option ℕ
  pub grant_minor : Option ℕ

pub record RewardRuleBenefitRow : Type 0 where
  pub benefit_index : ℕ
  pub benefit_kind : String
  pub award_mode : RewardAwardMode
  pub award_cap : Option ℕ
  pub config : BenefitFields

-- `trigger_config` is `none` where the schema refuses what is stored.
pub record RewardRuleRow : Type 0 where
  pub id : ℕ
  pub enterprise_id : ℕ
  pub program_id : ℕ
  pub version : ℕ
  pub trigger_kind : RewardTriggerKind
  pub trigger_config : Option RewardTriggerConfig
  pub factor_provider_code : String
  pub cap_scope : RewardCapScope
  pub cap_count : ℕ
  pub hold_hours : ℕ
  pub reversal_policy : RewardReversalPolicy
  pub priority : ℕ
  pub is_active : Bool
  pub is_deleted : Bool

pub record RewardProgramRow : Type 0 where
  pub id : ℕ
  pub enterprise_id : ℕ
  pub status : RewardProgramStatus
  pub version : ℕ
  pub starts_at : Option ℕ
  pub ends_at : Option ℕ
  pub enterprise_timezone : Option String
  pub enterprise_currency_code : Option String
  pub is_deleted : Bool

pub record RewardTriggerEvent : Type 0 where
  pub enterprise_id : ℕ
  pub customer_id : ℕ
  pub trigger_kind : RewardTriggerKind
  pub source_ref_kind : String
  pub source_ref_id : ℕ
  pub channel_id : Option ℕ
  pub occurred_at_utc : ℕ
  pub content : Option String
  pub customer_first_seen_at : Option ℕ
  pub points_balance : Option ℕ
