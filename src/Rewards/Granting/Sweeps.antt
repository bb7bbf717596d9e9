-- ===== src/Rewards/Granting/Sweeps.antt =====
-- The sweep of held awards comes to an end, src/modules/rewards/reward-grant.service.ts.
use mathlib.Core.Option
use wh_api_unified_service.Prelude.{
  ◌+◌, Bool, Bool-cases, IfSome, In, List, Option, [], false, inl, inr, none, refl, some, true, ℕ,
  ◌∷◌, ◌≡◌,
}
use wh_api_unified_service.Rewards.{
  RewardProgramRow, RewardRuleRow, RewardTriggerEvent, RewardTriggerKind,
}
use wh_api_unified_service.Rewards.Awards.{claim_due_held_awards, lock_held_award}
use wh_api_unified_service.Rewards.Evaluator.{evaluate_rule, on_trigger_event}
use wh_api_unified_service.Rewards.Evaluator.Depth.{EndsIn, Keeps, offer-EndsIn, threshold-EndsIn}
use wh_api_unified_service.Rewards.Evaluator.Steps.{Stable, evaluate_rule-KeepsQ, grant-Holds}
use wh_api_unified_service.Rewards.Granting.{
  Outcome, after_held_award, count_on, event_of, find_rule, grant_batch_size, grant_due_awards,
  grant_each, grant_held, grant_in, grant_under, held_input, told,
}
use wh_api_unified_service.Rewards.Grants.{grant}
use wh_api_unified_service.Rewards.Ledgers.{Ledgers, RewardAward}
use wh_api_unified_service.Rewards.Matching.{Setting, find_program}

module _ (Q : Ledgers → Type 0) (stable : Stable Q) where
  abbrev Left : Outcome → Type 0
  Left o = IfSome (λ r. Q r.0) o

  told-Left :
      (kind : RewardTriggerKind) (o : Option (Ledgers × Bool))
      → IfSome (λ r. Q r.0) o
      → Left (told kind o)
  told-Left kind none h = tt
  told-Left kind (some (l, points)) h = h

  grant_in-Left :
      (s : Setting) (award : RewardAward) (rule : RewardRuleRow) (program : Option RewardProgramRow)
      (l : Ledgers)
      → Q l
      → Left (grant_in s award rule program l)
  grant_in-Left s award rule none l h = h
  grant_in-Left s award rule (some program) l h =
      told-Left rule.trigger_kind (grant s (held_input award rule program s) l)
        (grant-Holds Q stable s (held_input award rule program s) l h)

  grant_under-Left :
      (s : Setting) (award : RewardAward) (rule : Option RewardRuleRow) (l : Ledgers)
      → Q l
      → Left (grant_under s award rule l)
  grant_under-Left s award none l h = h
  grant_under-Left s award (some rule) l h =
      grant_in-Left s award rule (find_program award.enterprise_id rule.program_id s.programs) l h

  grant_held-Left :
      (s : Setting) (award : RewardAward) (l : Ledgers) → Q l → Left (grant_held s award l)
  unfolding grant_held
  grant_held-Left s award l h = elim (Bool-cases (lock_held_award award.enterprise_id award.id l)) [
    | inr gone ↦ rw gone h
    | inl locked ↦
        rw locked
          (grant_under-Left s award (find_rule award.enterprise_id award.rule_id s.rules) l h)
  ]

  -- A sweep that comes to an end, in such a state.
  abbrev pub Swept : Option (Ledgers × ℕ) → Type 0
  Swept none = ⊥
  Swept (some r) = Q r.0

  count_on-Swept :
      (rest : Ledgers → Option (Ledgers × ℕ)) (o : Option Ledgers)
      → ((l : Ledgers) → Q l → Swept (rest l))
      → EndsIn Q o
      → Swept (count_on rest o)
  count_on-Swept rest none ends h = h
  count_on-Swept rest (some l) ends h =
      elim (rest l) as (λ o. Swept o → Swept (Option.map (λ r. (r.0, r.1 + 1)) o)) [
        | none ↦ λ k. k
        | some r ↦ λ k. k
      ]
        (ends l h)

  after_held_award-Swept :
      (offer : RewardTriggerKind → Ledgers → Option Ledgers) (rest : Ledgers → Option (Ledgers × ℕ))
      (l : Ledgers) (o : Outcome)
      → ((kind : RewardTriggerKind) (m : Ledgers) → Q m → EndsIn Q (offer kind m))
      → ((m : Ledgers) → Q m → Swept (rest m))
      → Q l
      → Left o
      → Swept (after_held_award offer rest l o)
  after_held_award-Swept offer rest l none offers ends h k = ends l h
  after_held_award-Swept offer rest l (some (m, none)) offers ends h k = ends m k
  after_held_award-Swept offer rest l (some (m, some (kind, true))) offers ends h k =
      count_on-Swept rest (offer kind m) ends (offers kind m k)
  after_held_award-Swept offer rest l (some (m, some (kind, false))) offers ends h k =
      count_on-Swept rest (some m) ends k

  module _ (s : Setting) where
    pub evaluates :
        (r : RewardRuleRow) (e : RewardTriggerEvent) (l : Ledgers)
        → In r s.rules
        → Q l
        → Keeps Q (evaluate_rule s r e l)
    evaluates r e l i h = evaluate_rule-KeepsQ Q stable s r e l h

    pub grant_each-Swept :
        (awards : List RewardAward) (l : Ledgers) → Q l → Swept (grant_each 1 s awards l)
    unfolding grant_each
    grant_each-Swept [] l h = h
    grant_each-Swept (award ∷ awards) l h =
        after_held_award-Swept _ (grant_each 1 s awards) l (grant_held s award l)
          (λ kind m k.
            offer-EndsIn Q s evaluates (on_trigger_event 1 s) (event_of award kind) award.id kind m
              (λ f is_threshold. threshold-EndsIn Q s evaluates 0 f m is_threshold k) k)
          (grant_each-Swept awards) h (grant_held-Left s award l h)

  pub Swept-some : (o : Option (Ledgers × ℕ)) → Swept o → (r : Ledgers × ℕ) × (o ≡ some r) × Q r.0
  Swept-some none h = absurd h
  Swept-some (some r) h = (r, refl, h)

  pub grant_due_awards-Swept :
      (s : Setting) (now : ℕ) (l : Ledgers) → Q l → Swept (grant_due_awards 1 now s l)
  unfolding grant_due_awards
  grant_due_awards-Swept s now l h =
      grant_each-Swept s (claim_due_held_awards now grant_batch_size l) l h

Anything-Stable : Stable (λ l. Unit {0})
Anything-Stable = record {
  same = λ l m gives h. tt;
  creates = λ input l h. tt;
  skips = λ enterprise id status reason period l h. tt;
  grants = λ enterprise id factor period l h. tt;
  claims = λ enterprise rule owner period cap l h. tt;
  releases = λ enterprise rule owner period l h. tt;
  reverses = λ enterprise id reason l h. tt;
}

-- The sweep of the held awards that are due comes to an end, one call of the evaluator deep, whatever
-- the rules and the tables are.
pub grant_due_awards_ends :
    (s : Setting) (now : ℕ) (l : Ledgers)
    → (r : Ledgers × ℕ) × (grant_due_awards 1 now s l ≡ some r)
grant_due_awards_ends s now l =
    let (r, same, h) =
      Swept-some (λ m. Unit) Anything-Stable (grant_due_awards 1 now s l)
        (grant_due_awards-Swept (λ m. Unit) Anything-Stable s now l tt) in
    (r, same)
