-- ===== src/Rewards/Ledgers.antt =====
-- Awards, their benefits and the counters of caps, src/database/repositories/reward-award.repository.ts
-- and reward-entitlement.repository.ts, over the wallets of Wallet. Each statement is one atomic step.
-- Lists are kept newest first.
use wh_api_unified_service.Prelude.{Bool, List, Option, String, ℕ}
use wh_api_unified_service.Wallet.{Book}

pub data RewardAwardStatus : Type 0 where
  held granted reversed skipped_cap skipped_condition skipped_zero_factor lapsed : RewardAwardStatus

pub data RewardBenefitStatus : Type 0 where
  applied compensated : RewardBenefitStatus

pub data RewardEntitlementStatus : Type 0 where
  issued reserved redeemed entitlement_expired revoked : RewardEntitlementStatus

pub record RewardAward : Type 0 where
  pub id : ℕ
  pub enterprise_id : ℕ
  pub program_id : ℕ
  pub rule_id : ℕ
  pub rule_version : ℕ
  pub program_version : ℕ
  pub customer_id : ℕ
  pub channel_id : Option ℕ
  pub source_ref_kind : String
  pub source_ref_id : ℕ
  pub status : RewardAwardStatus
  pub period_key : Option String
  pub held_until : Option ℕ
  pub occurred_at_utc : ℕ
  pub reason_code : Option String
  pub factor_basis_points : Option ℕ
  pub is_deleted : Bool

pub record CapCounter : Type 0 where
  pub enterprise_id : ℕ
  pub rule_id : ℕ
  pub customer_id : ℕ
  pub period_key : String
  pub used : ℕ
  pub cap : ℕ

-- What a handler keeps to undo itself.
pub data Compensation : Type 0 where
  money : (entry_id wallet_id amount : ℕ) → Compensation
  conversion :
      (points_wallet_id currency_wallet_id burned_points granted_minor out_entry_id in_entry_id : ℕ)
      → Compensation
  entitlement : (entitlement_id : ℕ) → Compensation

pub record AwardBenefit : Type 0 where
  pub id : ℕ
  pub enterprise_id : ℕ
  pub award_id : ℕ
  pub benefit_index : ℕ
  pub benefit_kind : String
  pub compensation : Compensation
  pub status : RewardBenefitStatus
  pub idempotency_key : String

pub record RewardEntitlement : Type 0 where
  pub id : ℕ
  pub enterprise_id : ℕ
  pub customer_id : ℕ
  pub award_id : ℕ
  pub item_ref : String
  pub redemption_code : String
  pub expires_at : Option ℕ
  pub status : RewardEntitlementStatus

-- The tables that rewards are kept in.
pub record Ledgers : Type 0 where
  pub awards : List RewardAward
  pub counters : List CapCounter
  pub benefits : List AwardBenefit
  pub entitlements : List RewardEntitlement
  pub book : Book
  pub next_award : ℕ
  pub next_benefit : ℕ
  pub next_entitlement : ℕ
