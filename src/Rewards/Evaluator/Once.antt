-- ===== src/Rewards/Evaluator/Once.antt =====
-- One award per rule, customer and source, src/modules/rewards/rule-evaluator.service.ts.
use wh_api_unified_service.Prelude.{
  ◌&&◌, ◌==◌, Bool-cases, List, Option, [], any, ap, arith, inl, inr, none, refl, some, str_eq_refl,
  subst, true, ℕ, ◌∙◌, ◌∷◌, ◌≡◌,
}
use wh_api_unified_service.Rewards.{RewardProgramRow, RewardRuleRow, RewardTriggerEvent}
use wh_api_unified_service.Rewards.Awards.{
  CreateAwardInput, claim_cap_slot, create_if_absent, mark_granted, mark_reversed, mark_skipped,
  new_award, release_cap_slot, same_source, update_awards,
}
use wh_api_unified_service.Rewards.Evaluator.{
  after_creation, award_input, evaluate_in, evaluate_rule, failed_condition,
}
use wh_api_unified_service.Rewards.Evaluator.Steps.{KeepsQ, Stable, after_creation-KeepsQ}
use wh_api_unified_service.Rewards.Ledgers.{Ledgers, RewardAward}
use wh_api_unified_service.Rewards.Matching.{Setting, find_program}

-- An award of the same rule, customer and source is there.
abbrev pub IsKnown : CreateAwardInput → Ledgers → Type 0
IsKnown input l = any (same_source input) l.awards ≡ true

-- An update of the columns that are not in the unique index.
abbrev LeavesSource : (RewardAward → RewardAward) → Type 0
LeavesSource f =
    (input : CreateAwardInput) (a : RewardAward) → same_source input (f a) ≡ same_source input a

any-update :
    (input : CreateAwardInput) (enterprise id : ℕ) (f : RewardAward → RewardAward)
    (as' : List RewardAward)
    → LeavesSource f
    → any (same_source input) (update_awards enterprise id f as') ≡ any (same_source input) as'
unfolding update_awards
any-update input enterprise id f [] leaves = refl
any-update input enterprise id f (a ∷ as') leaves =
    elim (Bool-cases ((a.id == id) && (a.enterprise_id == enterprise))) [
      | inl this ↦ rw (this, leaves input a, any-update input enterprise id f as' leaves) refl
      | inr other ↦ rw (other, any-update input enterprise id f as' leaves) refl
    ]

own_source : (input : CreateAwardInput) (id : ℕ) → same_source input (new_award id input) ≡ true
unfolding same_source new_award
own_source input id = ground (arith, str_eq_refl input.source_ref_kind)

create_if_absent-IsKnown :
    (input : CreateAwardInput) (l : Ledgers) → IsKnown input (create_if_absent input l).0
unfolding create_if_absent
create_if_absent-IsKnown input l = elim (Bool-cases (any (same_source input) l.awards)) [
  | inl old ↦ rw old old
  | inr fresh ↦ rw (fresh, own_source input l.next_award) refl
]

any-create :
    (wanted input : CreateAwardInput) (l : Ledgers)
    → IsKnown wanted l
    → IsKnown wanted (create_if_absent input l).0
unfolding create_if_absent
any-create wanted input l h = elim (Bool-cases (any (same_source input) l.awards)) [
  | inl old ↦ rw old h
  | inr fresh ↦ rw (fresh, h) (ground arith)
]

IsKnown-Stable : (input : CreateAwardInput) → Stable (IsKnown input)
unfolding mark_skipped mark_granted mark_reversed same_source claim_cap_slot release_cap_slot
IsKnown-Stable input = record {
  same = λ l m same h. ap (any (same_source input)) same.awards ∙ h;
  creates = any-create input;
  skips = λ enterprise id status reason period l h.
      any-update input enterprise id _ l.awards (λ i a. refl) ∙ h;
  grants = λ enterprise id factor period l h.
      any-update input enterprise id _ l.awards (λ i a. refl) ∙ h;
  claims = λ enterprise rule owner period cap l h. h;
  releases = λ enterprise rule owner period l h. h;
  reverses =
      λ enterprise id reason l h. any-update input enterprise id _ l.awards (λ i a. refl) ∙ h;
}

evaluate_in_once :
    (s : Setting) (rule : RewardRuleRow) (event : RewardTriggerEvent)
    (program : Option RewardProgramRow) (l l' : Ledgers) (credited : Option ℕ)
    → evaluate_in s rule event program l ≡ some (l', credited)
    → evaluate_in s rule event program l' ≡ some (l', none)
unfolding create_if_absent after_creation
evaluate_in_once s rule event none l l' credited h = refl
evaluate_in_once s rule event (some program) l l' credited h =
    let failed = failed_condition s rule program event in
    let input = award_input rule program event failed in
    let known = subst (KeepsQ (IsKnown input) (IsKnown-Stable input)) h (
      after_creation-KeepsQ (IsKnown input) (IsKnown-Stable input) s rule program event failed
        (create_if_absent input l) (create_if_absent-IsKnown input l)) in
    rw known refl

-- A rule that was evaluated for an event gives nothing when the same event comes again: the second
-- evaluation ends, credits nothing and leaves every table as the first one left it.
pub evaluate_rule_once :
    (s : Setting) (rule : RewardRuleRow) (event : RewardTriggerEvent) (l l' : Ledgers)
    (credited : Option ℕ)
    → evaluate_rule s rule event l ≡ some (l', credited)
    → evaluate_rule s rule event l' ≡ some (l', none)
unfolding evaluate_rule
evaluate_rule_once s rule event l l' credited h =
    evaluate_in_once s rule event (find_program event.enterprise_id rule.program_id s.programs) l l'
      credited h
