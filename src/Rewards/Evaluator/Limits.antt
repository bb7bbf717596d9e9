-- ===== src/Rewards/Evaluator/Limits.antt =====
-- What each statement of an evaluation does to the counters of caps, src/modules/rewards/rule-evaluator.service.ts.
use wh_api_unified_service.Prelude.{All, Bool-cases, any, inl, inr, subst, sym}
use wh_api_unified_service.Rewards.Awards.{
  CreateAwardInput, create_if_absent, mark_granted, mark_reversed, mark_skipped, same_source,
}
use wh_api_unified_service.Rewards.Awards.Caps.{
  AreCapped, IsWithinCap, claim_cap_slot-AreCapped, release_cap_slot-AreCapped,
}
use wh_api_unified_service.Rewards.Evaluator.Steps.{Stable}
use wh_api_unified_service.Rewards.Ledgers.{Ledgers}

pub creates :
    (input : CreateAwardInput) (l : Ledgers) → AreCapped l → AreCapped (create_if_absent input l).0
unfolding create_if_absent
creates input l h = elim (Bool-cases (any (same_source input) l.awards)) [
  | inl old ↦ rw old h
  | inr fresh ↦ rw fresh h
]

pub AreCapped-Stable : Stable AreCapped
unfolding mark_skipped mark_granted mark_reversed
AreCapped-Stable = record {
  same = λ l m same h. subst (All IsWithinCap) (sym same.counters) h;
  creates = creates;
  skips = λ enterprise id status reason period l h. h;
  grants = λ enterprise id factor period l h. h;
  claims = claim_cap_slot-AreCapped;
  releases = release_cap_slot-AreCapped;
  reverses = λ enterprise id reason l h. h;
}
