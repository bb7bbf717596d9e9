-- ===== src/Rewards/Awards.antt =====
-- The statements on awards and on the counters of caps,
-- src/database/repositories/reward-award.repository.ts.
pub mod Caps
pub mod Sources
use wh_api_unified_service.Prelude.{
  ◌&&◌, ◌+◌, ◌-◌, ◌==◌, Bool, List, Option, String, [], any, false, filter, if◌then◌else◌, leb, ltb,
  none, not, or_else, some, sort, str_eq, take, true, ℕ, ◌∷◌,
}
use wh_api_unified_service.Rewards.Ledgers.{
  CapCounter, Ledgers, RewardAward, RewardAwardStatus, granted, held, reversed,
}

pub record CreateAwardInput : Type 0 where
  pub enterprise_id : ℕ
  pub program_id : ℕ
  pub rule_id : ℕ
  pub rule_version : ℕ
  pub program_version : ℕ
  pub customer_id : ℕ
  pub channel_id : Option ℕ
  pub source_ref_kind : String
  pub source_ref_id : ℕ
  pub status : RewardAwardStatus
  pub held_until : Option ℕ
  pub occurred_at_utc : ℕ

-- The columns of the unique index, of rows that are not deleted.
unfoldable pub same_source : CreateAwardInput → RewardAward → Bool
same_source input a =
    (a.enterprise_id == input.enterprise_id)
    && (a.rule_id == input.rule_id)
    && (a.customer_id == input.customer_id)
    && str_eq a.source_ref_kind input.source_ref_kind
    && (a.source_ref_id == input.source_ref_id)
    && not a.is_deleted

unfoldable pub new_award : ℕ → CreateAwardInput → RewardAward
new_award id input = record {
  id = id;
  enterprise_id = input.enterprise_id;
  program_id = input.program_id;
  rule_id = input.rule_id;
  rule_version = input.rule_version;
  program_version = input.program_version;
  customer_id = input.customer_id;
  channel_id = input.channel_id;
  source_ref_kind = input.source_ref_kind;
  source_ref_id = input.source_ref_id;
  status = input.status;
  period_key = none;
  held_until = input.held_until;
  occurred_at_utc = input.occurred_at_utc;
  reason_code = none;
  factor_basis_points = none;
  is_deleted = false;
}

unfoldable pub create_if_absent : CreateAwardInput → Ledgers → Ledgers × Option RewardAward
create_if_absent input l =
    if any (same_source input) l.awards
    then (l, none)
    else let fresh = new_award l.next_award input in
      (record l { awards = fresh ∷ l.awards; next_award = l.next_award + 1 }, some fresh)

unfoldable pub is_counter : ℕ → ℕ → ℕ → String → CapCounter → Bool
is_counter enterprise rule owner period c =
    (c.enterprise_id == enterprise)
    && (c.rule_id == rule)
    && (c.customer_id == owner)
    && str_eq c.period_key period

-- The upsert, on the one counter that the unique key finds: whether it returned a row.
unfoldable pub claim_slot : ℕ → ℕ → ℕ → String → ℕ → List CapCounter → List CapCounter × Bool
claim_slot enterprise rule owner period cap [] = (
  record {
    enterprise_id = enterprise;
    rule_id = rule;
    customer_id = owner;
    period_key = period;
    used = 1;
    cap = cap;
  }
      ∷ [],
  true,
)
claim_slot enterprise rule owner period cap (c ∷ cs) =
    let rest = claim_slot enterprise rule owner period cap cs in
    if is_counter enterprise rule owner period c
    then if ltb c.used c.cap then (record c { used = c.used + 1 } ∷ cs, true) else (c ∷ cs, false)
    else (c ∷ rest.0, rest.1)

unfoldable pub claim_cap_slot : ℕ → ℕ → ℕ → String → ℕ → Ledgers → Ledgers × Bool
claim_cap_slot enterprise rule owner period cap l =
    let (cs, claimed) = claim_slot enterprise rule owner period cap l.counters in
    (record l { counters = cs }, claimed)

-- `GREATEST(used - 1, 0)`
unfoldable pub release_slot : ℕ → ℕ → ℕ → String → List CapCounter → List CapCounter
release_slot enterprise rule owner period [] = []
release_slot enterprise rule owner period (c ∷ cs) =
    (if is_counter enterprise rule owner period c then record c { used = c.used - 1 } else c)
    ∷ release_slot enterprise rule owner period cs

unfoldable pub release_cap_slot : ℕ → ℕ → ℕ → String → Ledgers → Ledgers
release_cap_slot enterprise rule owner period l = record l {
  counters = release_slot enterprise rule owner period l.counters;
}

unfoldable pub update_awards :
    ℕ → ℕ → (RewardAward → RewardAward) → List RewardAward → List RewardAward
update_awards enterprise id f [] = []
update_awards enterprise id f (a ∷ as') =
    (if (a.id == id) && (a.enterprise_id == enterprise) then f a else a)
    ∷ update_awards enterprise id f as'

-- `COALESCE($5, period_key)`
abbrev coalesce : Option String → Option String → Option String
coalesce (some s) t = some s
coalesce none t = t

unfoldable pub mark_skipped : ℕ → ℕ → RewardAwardStatus → String → Option String → Ledgers → Ledgers
mark_skipped enterprise id status reason period l = record l {
  awards =
      update_awards enterprise id
        (λ a. record a {
          status = status;
          reason_code = some reason;
          period_key = coalesce period a.period_key;
        })
        l.awards;
}

unfoldable pub mark_granted : ℕ → ℕ → Option ℕ → Option String → Ledgers → Ledgers
mark_granted enterprise id factor period l = record l {
  awards =
      update_awards enterprise id
        (λ a. record a {
          status = granted;
          factor_basis_points = factor;
          period_key = coalesce period a.period_key;
        })
        l.awards;
}

unfoldable pub mark_reversed : ℕ → ℕ → String → Ledgers → Ledgers
mark_reversed enterprise id reason l = record l {
  awards =
      update_awards enterprise id (λ a. record a { status = reversed; reason_code = some reason })
        l.awards;
}

abbrev pub is_held : RewardAwardStatus → Bool
is_held held = true
is_held _ = false

abbrev pub is_due_at : ℕ → Option ℕ → Bool
is_due_at now none = false
is_due_at now (some until) = leb until now

unfoldable pub is_due_held : ℕ → RewardAward → Bool
is_due_held now a = is_held a.status && not a.is_deleted && is_due_at now a.held_until

abbrev held_first : RewardAward → RewardAward → Bool
held_first a b = leb (or_else a.held_until 0) (or_else b.held_until 0)

unfoldable pub claim_due_held_awards : ℕ → ℕ → Ledgers → List RewardAward
claim_due_held_awards now limit l = take limit (sort held_first (filter (is_due_held now) l.awards))

unfoldable pub lock_held_award : ℕ → ℕ → Ledgers → Bool
lock_held_award enterprise id l =
    any
      (λ a. (a.id == id) && (a.enterprise_id == enterprise) && is_held a.status && not a.is_deleted)
      l.awards

unfoldable pub find_by_source : ℕ → String → ℕ → Ledgers → List RewardAward
find_by_source enterprise kind id l =
    filter
      (λ a.
        (a.enterprise_id == enterprise)
        && str_eq a.source_ref_kind kind
        && (a.source_ref_id == id)
        && not a.is_deleted)
      l.awards
