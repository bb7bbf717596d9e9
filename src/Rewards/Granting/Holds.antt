-- ===== src/Rewards/Granting/Holds.antt =====
-- What becomes of the slot of a held award, src/modules/rewards/rule-evaluator.service.ts and
-- reward-grant.service.ts.
use mathlib.Core.Option
use wh_api_unified_service.Prelude.{
  ◌*◌, ◌+◌, Bool, Option, String, any, arith, false, false≢true, none, refl, some, true, ℕ, ◌≡◌,
  ◌≤◌,
}
use wh_api_unified_service.Rewards.{RewardProgramRow, RewardRuleRow, RewardTriggerEvent}
use wh_api_unified_service.Rewards.Awards.{
  CreateAwardInput, claim_cap_slot, create_if_absent, is_held, mark_reversed, new_award,
  same_source,
}
use wh_api_unified_service.Rewards.Evaluator.{
  after_claim, after_creation, award_input, claim_and_settle, evaluate_rule, failed_condition,
  from_cap, hold_until, is_capped, ms_per_hour, period_of, settle,
}
use wh_api_unified_service.Rewards.Granting.{reverse_award}
use wh_api_unified_service.Rewards.Grants.{GrantInput, truthy_text}
use wh_api_unified_service.Rewards.Ledgers.{Ledgers, held}
use wh_api_unified_service.Rewards.Matching.{Setting, find_program}

-- An award that is held carries no period, so that taking it back leaves every counter alone.
held_award_reversal :
    (group reason : String) (id : ℕ) (input : CreateAwardInput) (l : Ledgers)
    → input.status ≡ held
    → Option.map (λ m. m.counters) (reverse_award group reason (new_award id input) l)
      ≡ some l.counters
unfolding reverse_award new_award mark_reversed
held_award_reversal group reason id input l is_held = rw is_held refl

waits :
    (s : Setting) (event : RewardTriggerEvent) (input : GrantInput) (hold : Option ℕ) (until : ℕ)
    (claimed : Ledgers × Bool)
    → hold ≡ some until
    → claimed.1 ≡ true
    → after_claim s event input hold claimed ≡ some (claimed.0, none)
unfolding settle
waits s event input hold until (l, true) e h = rw e refl
waits s event input hold until (l, false) e h = absurd (false≢true h)

hold_until-some :
    (rule : RewardRuleRow) (event : RewardTriggerEvent)
    → 1 ≤ rule.hold_hours
    → hold_until rule event ≡ some (event.occurred_at_utc + rule.hold_hours * ms_per_hour)
unfolding hold_until
hold_until-some rule event h = ground arith

module _ (s : Setting) (rule : RewardRuleRow) (program : RewardProgramRow)
    (event : RewardTriggerEvent) (l : Ledgers) (zone key : String) where
  -- What an evaluation leaves that claims a slot for a new award.
  abbrev pub after_held : Ledgers × Bool
  after_held =
      claim_cap_slot event.enterprise_id rule.id event.customer_id key rule.cap_count
        (create_if_absent (award_input rule program event none) l).0

  -- A rule with a hold and a cap, whose conditions an event meets for the first time while the cap has
  -- room: the evaluation takes the slot, and the reversal of the award that it made, should the content be
  -- deleted before the award is due, leaves every counter as it is, the slot still taken.
  pub held_slot_is_lost :
      (group reason : String)
      → find_program event.enterprise_id rule.program_id s.programs ≡ some program
      → failed_condition s rule program event ≡ none
      → any (same_source (award_input rule program event none)) l.awards ≡ false
      → 1 ≤ rule.hold_hours
      → is_capped rule.cap_scope ≡ true
      → program.enterprise_timezone ≡ some zone
      → truthy_text (period_of s rule event (some zone)) ≡ some key
      → after_held.1 ≡ true
      → (evaluate_rule s rule event l ≡ some (after_held.0, none))
        × (Option.map
              (λ m. m.counters)
              (reverse_award group reason
                (new_award l.next_award (award_input rule program event none))
                after_held.0)
            ≡ some after_held.0.counters)
  unfolding evaluate_rule create_if_absent after_creation from_cap claim_and_settle settle
      hold_until
  held_slot_is_lost group reason p passed fresh holds capped in_zone has_key claimed = (
    rw (p, passed, fresh, capped, in_zone, has_key)
        (waits s event _ (hold_until rule event) _ _ (hold_until-some rule event holds)
          (rw fresh at claimed)),
    held_award_reversal group reason l.next_award (award_input rule program event none) after_held.0
        refl,
  )
