-- ===== src/Rewards/Entitlements.antt =====
-- The statements on the benefits of an award and on entitlements,
-- src/database/repositories/reward-award.repository.ts and reward-entitlement.repository.ts. The column
-- is_deleted, which nothing sets, is left out.
use wh_api_unified_service.Prelude.{
  ◌&&◌, ◌+◌, ◌==◌, Bool, List, Option, String, any, false, filter, if◌then◌else◌, leb, map, sort,
  take, true, ℕ, ◌∷◌,
}
use wh_api_unified_service.Rewards.Awards.{is_due_at}
use wh_api_unified_service.Rewards.Ledgers.{
  AwardBenefit, Compensation, Ledgers, RewardEntitlement, RewardEntitlementStatus, applied,
  compensated, entitlement_expired, issued, revoked,
}

unfoldable pub record_benefit : ℕ → ℕ → ℕ → String → Compensation → String → Ledgers → Ledgers
record_benefit enterprise award index kind compensation key l = record l {
  benefits =
      record {
        id = l.next_benefit;
        enterprise_id = enterprise;
        award_id = award;
        benefit_index = index;
        benefit_kind = kind;
        compensation = compensation;
        status = applied;
        idempotency_key = key;
      }
      ∷ l.benefits;
  next_benefit = l.next_benefit + 1;
}

abbrev later_index : AwardBenefit → AwardBenefit → Bool
later_index a b = leb b.benefit_index a.benefit_index

-- `listAppliedBenefits`, already reversed: the last benefit first.
unfoldable pub applied_benefits_reversed : ℕ → ℕ → Ledgers → List AwardBenefit
applied_benefits_reversed enterprise award l =
    sort later_index
      (filter (λ b. (b.enterprise_id == enterprise) && (b.award_id == award)) l.benefits)

abbrev compensate_row : ℕ → ℕ → AwardBenefit → AwardBenefit
compensate_row enterprise id b =
    if (b.id == id) && (b.enterprise_id == enterprise) then record b { status = compensated } else b

unfoldable pub mark_benefit_compensated : ℕ → ℕ → Ledgers → Ledgers
mark_benefit_compensated enterprise id l = record l {
  benefits = map (compensate_row enterprise id) l.benefits;
}

unfoldable pub issue_entitlement : ℕ → ℕ → ℕ → String → String → Option ℕ → Ledgers → Ledgers × ℕ
issue_entitlement enterprise owner award item code expires_at l = (
  record l {
    entitlements =
        record {
          id = l.next_entitlement;
          enterprise_id = enterprise;
          customer_id = owner;
          award_id = award;
          item_ref = item;
          redemption_code = code;
          expires_at = expires_at;
          status = issued;
        }
        ∷ l.entitlements;
    next_entitlement = l.next_entitlement + 1;
  },
  l.next_entitlement,
)

abbrev is_issued : RewardEntitlementStatus → Bool
is_issued issued = true
is_issued _ = false

abbrev revoke_row : ℕ → ℕ → RewardEntitlement → RewardEntitlement
revoke_row enterprise id e =
    if (e.id == id) && (e.enterprise_id == enterprise) && is_issued e.status
    then record e { status = revoked }
    else e

unfoldable pub revoke_if_unredeemed : ℕ → ℕ → Ledgers → Ledgers
revoke_if_unredeemed enterprise id l = record l {
  entitlements = map (revoke_row enterprise id) l.entitlements;
}

unfoldable pub is_lapsed_entitlement : ℕ → RewardEntitlement → Bool
is_lapsed_entitlement now e = is_issued e.status && is_due_at now e.expires_at

-- `expireLapsed`: the order in which the subquery meets its rows is an argument.
unfoldable pub expire_lapsed : ℕ → List ℕ → ℕ → Ledgers → Ledgers
expire_lapsed now met limit l = record l {
  entitlements =
      map
        (λ e.
          if any (λ i. i == e.id) (take limit met) && is_lapsed_entitlement now e
          then record e { status = entitlement_expired }
          else e)
        l.entitlements;
}
