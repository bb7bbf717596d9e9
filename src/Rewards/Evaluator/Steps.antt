-- ===== src/Rewards/Evaluator/Steps.antt =====
-- What the statements of an evaluation keep, the evaluation keeps,
-- src/modules/rewards/rule-evaluator.service.ts.
use mathlib.Core.Option
use wh_api_unified_service.Prelude.{
  ◌&&◌, ◌<>◌, ◌>>=◌, >>=-IfSome, Bool, Bool-cases, IfSome, Option, String, any, false,
  if◌then◌else◌, inl, inr, is_none, none, some, true, ◌||◌, ℕ,
}
use wh_api_unified_service.Rewards.{RewardProgramRow, RewardRuleRow, RewardTriggerEvent}
use wh_api_unified_service.Rewards.Awards.{
  CreateAwardInput, claim_cap_slot, create_if_absent, mark_granted, mark_reversed, mark_skipped,
  release_cap_slot,
}
use wh_api_unified_service.Rewards.Evaluator.{
  after_claim, after_creation, claim_and_settle, credited_award, evaluate_in, evaluate_rule,
  failed_condition, from_cap, hold_until, is_capped, settle,
}
use wh_api_unified_service.Rewards.Evaluator.Depth.{Keeps}
use wh_api_unified_service.Rewards.Grants.{
  GrantInput, apply_all, grant, grant_by, is_zero, released, scales_to_nothing, truthy_text,
}
use wh_api_unified_service.Rewards.Grants.Slots.{OnlyGives, apply_all-OnlyGives}
use wh_api_unified_service.Rewards.Ledgers.{
  Ledgers, RewardAward, RewardAwardStatus, skipped_cap, skipped_condition, skipped_zero_factor,
}
use wh_api_unified_service.Rewards.Matching.{Setting, find_program}

-- What every statement on the awards and the counters keeps.
pub record Stable (Q : Ledgers → Type 0) : Type 0 where
  pub same : (l m : Ledgers) → OnlyGives l m → Q l → Q m
  pub creates : (input : CreateAwardInput) (l : Ledgers) → Q l → Q (create_if_absent input l).0
  pub skips :
      (enterprise id : ℕ) (status : RewardAwardStatus) (reason : String) (period : Option String)
      (l : Ledgers)
      → Q l
      → Q (mark_skipped enterprise id status reason period l)
  pub grants :
      (enterprise id : ℕ) (factor : Option ℕ) (period : Option String) (l : Ledgers)
      → Q l
      → Q (mark_granted enterprise id factor period l)
  pub claims :
      (enterprise rule owner : ℕ) (period : String) (cap : ℕ) (l : Ledgers)
      → Q l
      → Q (claim_cap_slot enterprise rule owner period cap l).0
  pub releases :
      (enterprise rule owner : ℕ) (period : String) (l : Ledgers)
      → Q l
      → Q (release_cap_slot enterprise rule owner period l)
  pub reverses :
      (enterprise id : ℕ) (reason : String) (l : Ledgers)
      → Q l
      → Q (mark_reversed enterprise id reason l)

module _ (Q : Ledgers → Type 0) (stable : Stable Q) where
  released-Holds :
      (input : GrantInput) (period : Option String) (l : Ledgers)
      → Q l
      → Q (released input period l)
  released-Holds input none l h = h
  released-Holds input (some period) l h =
      stable.releases input.enterprise_id input.rule.id input.customer_id period l h

  abbrev pub First : Ledgers × Bool → Type 0
  First r = Q r.0

  applies-Holds :
      (s : Setting) (input : GrantInput) (factor : Option ℕ) (points : Bool) (l : Ledgers)
      → Q l
      → IfSome First (
          apply_all s input factor input.benefits l >>= λ m.
          some (mark_granted input.enterprise_id input.award_id factor input.period_key m, points))
  applies-Holds s input factor points l h =
      >>=-IfSome (OnlyGives l) First (apply_all s input factor input.benefits l) _
        (apply_all-OnlyGives s input factor input.benefits l)
        (λ m same.
          stable.grants input.enterprise_id input.award_id factor input.period_key m
            (stable.same l m same h))

  grant_by-Holds :
      (s : Setting) (input : GrantInput) (needs_factor : Bool) (factor : Option ℕ) (l : Ledgers)
      → Q l
      → IfSome First (grant_by s input needs_factor factor l)
  unfolding grant_by
  grant_by-Holds s input needs_factor factor l h =
      elim (Bool-cases (
        needs_factor && (is_zero factor || any (λ b. scales_to_nothing b factor) input.benefits))) [
          | inl nothing ↦ rw nothing (
              stable.skips input.enterprise_id input.award_id skipped_zero_factor _ input.period_key
                _ (released-Holds input (truthy_text input.period_key) l h))
          | inr something ↦ rw something (applies-Holds s input factor _ l h)
        ]

  pub grant-Holds :
      (s : Setting) (input : GrantInput) (l : Ledgers) → Q l → IfSome First (grant s input l)
  unfolding grant
  grant-Holds s input l h = grant_by-Holds s input _ _ l h

  abbrev pub KeepsQ : Option (Ledgers × Option ℕ) → Type 0
  KeepsQ = Keeps Q

  credits :
      (award : ℕ) (o : Option (Ledgers × Bool))
      → IfSome First o
      → KeepsQ (Option.map (credited_award award) o)
  credits award none h = tt
  credits award (some (l, b)) h = h

  settle-KeepsQ :
      (s : Setting) (input : GrantInput) (hold : Option ℕ) (l : Ledgers)
      → Q l
      → KeepsQ (settle s input hold l)
  unfolding settle
  settle-KeepsQ s input (some until) l h = h
  settle-KeepsQ s input none l h =
      credits input.award_id (grant s input l) (grant-Holds s input l h)

  after_claim-KeepsQ :
      (s : Setting) (event : RewardTriggerEvent) (input : GrantInput) (hold : Option ℕ)
      (claimed : Ledgers × Bool)
      → Q claimed.0
      → KeepsQ (after_claim s event input hold claimed)
  after_claim-KeepsQ s event input hold (l, true) h = settle-KeepsQ s input hold l h
  after_claim-KeepsQ s event input hold (l, false) h =
      stable.skips event.enterprise_id input.award_id skipped_cap "cap_consumed" input.period_key l
        h

  claim_and_settle-KeepsQ :
      (s : Setting) (rule : RewardRuleRow) (event : RewardTriggerEvent) (input : GrantInput)
      (key : Option String) (l : Ledgers)
      → Q l
      → KeepsQ (claim_and_settle s rule event input key l)
  unfolding claim_and_settle
  claim_and_settle-KeepsQ s rule event input none l h =
      settle-KeepsQ s input (hold_until rule event) l h
  claim_and_settle-KeepsQ s rule event input (some key) l h =
      after_claim-KeepsQ s event input (hold_until rule event)
        (claim_cap_slot event.enterprise_id rule.id event.customer_id key rule.cap_count l)
        (stable.claims event.enterprise_id rule.id event.customer_id key rule.cap_count l h)

  pub after_creation-KeepsQ :
      (s : Setting) (rule : RewardRuleRow) (program : RewardProgramRow) (event : RewardTriggerEvent)
      (failed : Option String) (made : Ledgers × Option RewardAward)
      → Q made.0
      → KeepsQ (after_creation s rule program event failed made)
  unfolding after_creation from_cap
  after_creation-KeepsQ s rule program event failed (l, none) h = h
  after_creation-KeepsQ s rule program event (some kind) (l, some award) h =
      stable.skips event.enterprise_id award.id skipped_condition ("condition_failed:" <> kind) none
        l h
  after_creation-KeepsQ s rule program event none (l, some award) h =
      elim (Bool-cases (is_capped rule.cap_scope && is_none program.enterprise_timezone)) [
        | inl no_zone ↦ rw no_zone (
            stable.skips event.enterprise_id award.id skipped_condition
              "enterprise_timezone_not_set" none l h)
        | inr zone ↦ rw zone (
            claim_and_settle-KeepsQ s rule event _
              (if is_capped rule.cap_scope then truthy_text _ else none) l h)
      ]

  pub evaluate_rule-KeepsQ :
      (s : Setting) (rule : RewardRuleRow) (event : RewardTriggerEvent) (l : Ledgers)
      → Q l
      → KeepsQ (evaluate_rule s rule event l)
  unfolding evaluate_rule
  evaluate_rule-KeepsQ s rule event l h =
      elim (find_program event.enterprise_id rule.program_id s.programs)
        as (λ p. KeepsQ (evaluate_in s rule event p l)) [
          | none ↦ h
          | some program ↦
              after_creation-KeepsQ s rule program event (failed_condition s rule program event)
                (create_if_absent _ l) (stable.creates _ l h)
        ]
