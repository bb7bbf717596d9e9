-- ===== src/Rewards/Tests.antt =====
-- The theorems on reward rules at concrete rules and events.
use mathlib.Core.Option
use wh_api_unified_service.Prelude.{
  ◌+◌, ◌/◌, ◌<◌, Bool, In, List, [], arith, false, none, refl, some, str_eq, true, ℕ, ◌↔◌, ◌∷◌, ◌≡◌,
}
use wh_api_unified_service.Rewards.{
  BenefitFields, RewardProgramRow, RewardRuleBenefitRow, RewardRuleRow, RewardTriggerEvent, fixed,
  in_force, on_content_deleted, per_lifetime, points_balance_reached, story_reply,
}
use wh_api_unified_service.Rewards.Awards.{
  claim_cap_slot, claim_slot, create_if_absent, is_counter, mark_granted, new_award, release_slot,
  update_awards,
}
use wh_api_unified_service.Rewards.Awards.Caps.{claim-release, used_of}
use wh_api_unified_service.Rewards.Benefits.{
  BenefitContext, apply_benefit, apply_money, benefit_key, compensate_benefit, dispatch,
  parse_benefit,
}
use wh_api_unified_service.Rewards.Benefits.Undoing.{money_comes_back}
use wh_api_unified_service.Rewards.Conditions.{
  LocalParts, TimeSlot, evaluate_conditions, slot_is_open,
}
use wh_api_unified_service.Rewards.Conditions.Windows.{
  IsSlot, open_for, since_opening, slot_is_open_iff,
}
use wh_api_unified_service.Rewards.Engine.{
  IsSound, RewardReach-IsSound, content_deleted, empty_ledgers, event_met, next, started,
}
use wh_api_unified_service.Rewards.Entitlements.{record_benefit}
use wh_api_unified_service.Rewards.Evaluator.{
  after_creation, award_input, claim_and_settle, evaluate_rule, failed_condition, from_cap,
  hold_until, on_trigger_event, period_of, settle,
}
use wh_api_unified_service.Rewards.Evaluator.Depth.{on_trigger_event_ends}
use wh_api_unified_service.Rewards.Evaluator.Once.{evaluate_rule_once}
use wh_api_unified_service.Rewards.Granting.{reverse_award, reverse_for_deleted_content}
use wh_api_unified_service.Rewards.Granting.Holds.{after_held, held_slot_is_lost}
use wh_api_unified_service.Rewards.Grants.{apply_all, grant, grant_by, resolve_config, truthy_text}
use wh_api_unified_service.Rewards.Ledgers.{CapCounter, Ledgers, applied, granted, money}
use wh_api_unified_service.Rewards.Matching.{Setting, find_program}
use wh_api_unified_service.Rewards.Periods.{derive_period_key, iso_week}
use wh_api_unified_service.Rewards.Periods.Weeks.{iso_week_iff}
use wh_api_unified_service.Wallet.{credit, earn, ensure_customer_wallet, new_wallet, points, post}
use wh_api_unified_service.Wallet.Books.{total}
use wh_api_unified_service.Wallet.Integers.{pos}

abbrev reply_rule : RewardRuleRow
reply_rule = record {
  id = 1;
  enterprise_id = 7;
  program_id = 3;
  version = 1;
  trigger_kind = story_reply;
  trigger_config = some (record { channel_ids = none; min_points_balance = none });
  factor_provider_code = "always_full";
  cap_scope = per_lifetime;
  cap_count = 1;
  hold_hours = 0;
  reversal_policy = on_content_deleted;
  priority = 1;
  is_active = true;
  is_deleted = false;
}

abbrev threshold_rule : RewardRuleRow
threshold_rule = record reply_rule {
  id = 2;
  trigger_kind = points_balance_reached;
  trigger_config = some (record { channel_ids = none; min_points_balance = some 10 });
}

abbrev summer : RewardProgramRow
summer = record {
  id = 3;
  enterprise_id = 7;
  status = in_force;
  version = 1;
  starts_at = none;
  ends_at = none;
  enterprise_timezone = some "Europe/Berlin";
  enterprise_currency_code = some "EUR";
  is_deleted = false;
}

abbrev no_fields : BenefitFields
no_fields = record {
  points = none;
  minor_units = none;
  currency_code = none;
  item_ref = none;
  valid_for_days = none;
  burn_points = none;
  grant_minor = none;
}

abbrev ten_points : RewardRuleBenefitRow
ten_points = record {
  benefit_index = 0;
  benefit_kind = "grant_points";
  award_mode = fixed;
  award_cap = none;
  config = record no_fields { points = some 10 };
}

abbrev shop_of : List RewardRuleRow → Setting
shop_of rules = record {
  rules = rules;
  programs = summer ∷ [];
  load_conditions = λ rule version. [];
  load_benefits = λ rule version. ten_points ∷ [];
  find_first_seen_at = λ enterprise owner. none;
  locale = record {
    local_parts = λ at zone. record { iso_day = 1; minutes = 600 };
    to_lower_case = λ text. text;
  };
  local_ymd = λ at zone. record { year = 2024; month = 5; day = 6 };
  fits = λ config. true;
  draws = λ award index. record { redemption_code = "code"; group_ref = "group" };
}

abbrev shop : Setting
shop = shop_of (reply_rule ∷ threshold_rule ∷ [])

abbrev replied : RewardTriggerEvent
replied = record {
  enterprise_id = 7;
  customer_id = 5;
  trigger_kind = story_reply;
  source_ref_kind = "message";
  source_ref_id = 40;
  channel_id = some 2;
  occurred_at_utc = 1000;
  content = some "hello";
  customer_first_seen_at = none;
  points_balance = none;
}

abbrev evening : TimeSlot
evening = record {
  days = 5 ∷ 7 ∷ [];
  start = record { hours = 22; minutes = 0 };
  end = record { hours = 2; minutes = 0 };
}

abbrev monday_night : LocalParts
monday_night = record { iso_day = 1; minutes = 30 }

evening-IsSlot : IsSlot evening
evening-IsSlot = record {
  days = ((omega arith, omega arith), ((omega arith, omega arith), tt));
  start = record { hours = omega arith; minutes = omega arith };
  end = record { hours = omega arith; minutes = omega arith };
}

slot_is_open_iff_example :
    (slot_is_open evening monday_night ≡ true)
    ↔ ((d : ℕ) × In d evening.days × (since_opening evening d monday_night < open_for evening))
slot_is_open_iff_example =
    slot_is_open_iff evening monday_night evening-IsSlot
      (record { day = (omega arith, omega arith); minute = omega arith })

iso_week_iff_example : (iso_week 738884 ≡ iso_week 738885) ↔ ((738884 + 5) / 7 ≡ (738885 + 5) / 7)
iso_week_iff_example = iso_week_iff 738884 738885 (omega arith) (omega arith)

on_trigger_event_ends_example :
    (l : Ledgers) × (on_trigger_event 2 shop replied empty_ledgers ≡ some l)
on_trigger_event_ends_example = on_trigger_event_ends shop replied empty_ledgers

abbrev used_up : CapCounter
used_up = record {
  enterprise_id = 7;
  rule_id = 1;
  customer_id = 5;
  period_key = "2024";
  used = 2;
  cap = 3;
}

has_room : (claim_slot 7 1 5 "2024" 3 (used_up ∷ [])).1 ≡ true
unfolding claim_slot is_counter str_eq
has_room = refl

claim-release_example :
    (used_of 7 1 5 "2024" (claim_slot 7 1 5 "2024" 3 (used_up ∷ [])).0
      ≡ used_of 7 1 5 "2024" (used_up ∷ []) + 1)
    × (used_of 7 1 5 "2024" (release_slot 7 1 5 "2024" (claim_slot 7 1 5 "2024" 3 (used_up ∷ [])).0)
        ≡ used_of 7 1 5 "2024" (used_up ∷ []))
claim-release_example = claim-release 7 1 5 "2024" 3 (used_up ∷ []) has_room

-- What the first evaluation leaves.
abbrev answered : Ledgers
answered = record {
  awards =
      record {
        id = 1;
        enterprise_id = 7;
        program_id = 3;
        rule_id = 1;
        rule_version = 1;
        program_version = 1;
        customer_id = 5;
        channel_id = some 2;
        source_ref_kind = "message";
        source_ref_id = 40;
        status = granted;
        period_key = some "LIFETIME";
        held_until = none;
        occurred_at_utc = 1000;
        reason_code = none;
        factor_basis_points = none;
        is_deleted = false;
      }
      ∷ [];
  counters =
      record {
        enterprise_id = 7;
        rule_id = 1;
        customer_id = 5;
        period_key = "LIFETIME";
        used = 1;
        cap = 1;
      }
      ∷ [];
  benefits =
      record {
        id = 1;
        enterprise_id = 7;
        award_id = 1;
        benefit_index = 0;
        benefit_kind = "grant_points";
        compensation = money 1 1 10;
        status = applied;
        idempotency_key = benefit_key 1 0;
      }
      ∷ [];
  entitlements = [];
  book = record {
    wallets =
        record (new_wallet 1 7 5 points none) {
          balance = pos 10;
          lifetime_earned = 10;
          version = 1;
        }
        ∷ [];
    entries =
        record {
          id = 1;
          enterprise_id = 7;
          wallet_id = 1;
          entry_kind = earn;
          amount = pos 10;
          balance_after = pos 10;
          award_id = some 1;
          rule_id = some 1;
          rule_version = some 1;
          group_ref = none;
          reverses_entry_id = none;
          idempotency_key = benefit_key 1 0;
          actor_kind = none;
          actor_id = none;
          reason_code = none;
          occurred_at_utc = 1000;
        }
        ∷ [];
    next_wallet = 2;
    next_entry = 2;
  };
  next_award = 2;
  next_benefit = 2;
  next_entitlement = 1;
}

first_answer : evaluate_rule shop reply_rule replied empty_ledgers ≡ some (answered, some 1)
unfolding evaluate_rule find_program after_creation create_if_absent failed_condition
    evaluate_conditions from_cap claim_and_settle period_of derive_period_key str_eq claim_cap_slot
    claim_slot settle hold_until grant grant_by apply_all mark_granted new_award update_awards
    apply_benefit apply_money dispatch parse_benefit resolve_config record_benefit
    ensure_customer_wallet credit post
first_answer = refl

evaluate_rule_once_example : evaluate_rule shop reply_rule replied answered ≡ some (answered, none)
evaluate_rule_once_example =
    evaluate_rule_once shop reply_rule replied empty_ledgers answered (some 1) first_answer

RewardReach-IsSound_example :
    IsSound
      (reverse_for_deleted_content shop 7 "message" 40 "group" "content_removed"
        (on_trigger_event_ends shop replied empty_ledgers).0).0
RewardReach-IsSound_example =
    let (l, same) = on_trigger_event_ends shop replied empty_ledgers in
    RewardReach-IsSound (
      next (next started (event_met shop replied l same))
        (content_deleted shop 7 "message" 40 "group" "content_removed"))

abbrev waiting_rule : RewardRuleRow
waiting_rule = record reply_rule { hold_hours = 24 }

abbrev patient_shop : Setting
patient_shop = shop_of (waiting_rule ∷ [])

abbrev held_state : Ledgers × Bool
held_state =
    after_held patient_shop waiting_rule summer replied empty_ledgers "Europe/Berlin" "LIFETIME"

finds_summer : find_program 7 3 (summer ∷ []) ≡ some summer
unfolding find_program
finds_summer = refl

passes : failed_condition patient_shop waiting_rule summer replied ≡ none
unfolding failed_condition evaluate_conditions
passes = refl

lifetime :
    truthy_text (period_of patient_shop waiting_rule replied (some "Europe/Berlin"))
    ≡ some "LIFETIME"
unfolding period_of derive_period_key str_eq
lifetime = refl

slot_taken : held_state.1 ≡ true
unfolding claim_cap_slot claim_slot create_if_absent
slot_taken = refl

held_slot_is_lost_example :
    (evaluate_rule patient_shop waiting_rule replied empty_ledgers ≡ some (held_state.0, none))
    × (Option.map
          (λ m. m.counters)
          (reverse_award "group" "content_removed"
            (new_award 1 (award_input waiting_rule summer replied none))
            held_state.0)
        ≡ some held_state.0.counters)
held_slot_is_lost_example =
    held_slot_is_lost patient_shop waiting_rule summer replied empty_ledgers "Europe/Berlin"
      "LIFETIME" "group" "content_removed" finds_summer passes refl (omega arith) refl refl lifetime
      slot_taken

abbrev gift : BenefitContext
gift = record {
  enterprise_id = 7;
  customer_id = 5;
  award_id = 1;
  rule_id = 1;
  rule_version = 1;
  occurred_at_utc = 1000;
  idempotency_key = benefit_key 1 0;
}

abbrev richer : Ledgers
richer = record empty_ledgers { book = answered.book }

was_given : apply_money points none 10 gift empty_ledgers ≡ some (richer, money 1 1 10)
unfolding apply_money ensure_customer_wallet credit post
was_given = refl

money_comes_back_example :
    (m : Ledgers) × (compensate_benefit "group" (money 1 1 10) gift richer ≡ some m)
    × (total 1 m.book.entries ≡ pos 0)
money_comes_back_example =
    money_comes_back "group" 1 points none 10 gift empty_ledgers richer (money 1 1 10) refl refl
      was_given
