-- ===== src/Rewards/Evaluator/Depth.antt =====
-- The evaluator calls itself once at most, src/modules/rewards/rule-evaluator.service.ts.
use wh_api_unified_service.Prelude.{
  Bool-cases, IfSome, In, In-filter, In-sort, List, Option, [], arith, inl, inr, none, refl, some,
  subst, suc, sym, true, ℕ, ◌∷◌, ◌≡◌,
}
use wh_api_unified_service.Rewards.{
  RewardRuleRow, RewardTriggerEvent, RewardTriggerKind, points_balance_reached,
}
use wh_api_unified_service.Rewards.Evaluator.{
  after_rule, each_rule, evaluate_rule, is_empty, offer_balance_thresholds, offer_to,
  on_trigger_event, positive_points, rule_matches, then_rest, threshold_event,
}
use wh_api_unified_service.Rewards.Ledgers.{Ledgers}
use wh_api_unified_service.Rewards.Matching.{
  Setting, by_priority, find_matching_rules, same_trigger,
}

-- A computation that comes to an end, in a state with the property.
abbrev pub EndsIn : (Ledgers → Type 0) → Option Ledgers → Type 0
EndsIn Q none = ⊥
EndsIn Q (some l) = Q l

-- A transaction that leaves such a state, or throws.
abbrev pub Keeps : (Ledgers → Type 0) → Option (Ledgers × Option ℕ) → Type 0
Keeps Q o = IfSome (λ r. Q r.0) o

-- The rules that an event finds are rules of its kind.
found :
    (s : Setting) (enterprise : ℕ) (kind : RewardTriggerKind) (at : ℕ) (r : RewardRuleRow)
    → In r (find_matching_rules s enterprise kind at)
    → In r s.rules × (same_trigger r.trigger_kind kind ≡ true)
unfolding find_matching_rules
found s enterprise kind at r i =
    let (j, on) = (In-filter _ s.rules r).0 ((In-sort by_priority _ r).0 i) in (j, ground arith)

-- A rule of the thresholds offers nothing further.
offer_none :
    (again : RewardTriggerEvent → Ledgers → Option Ledgers) (s : Setting)
    (event : RewardTriggerEvent) (award : ℕ) (kind : RewardTriggerKind) (l : Ledgers)
    → same_trigger kind points_balance_reached ≡ true
    → offer_balance_thresholds again s kind event award l ≡ some l
unfolding offer_balance_thresholds
offer_none again s event award kind l e = rw e refl

module _ (Q : Ledgers → Type 0) (s : Setting)
    (evaluates : (r : RewardRuleRow) (e : RewardTriggerEvent) (l : Ledgers)
      → In r s.rules
      → Q l
      → Keeps Q (evaluate_rule s r e l)) where
  then_rest-EndsIn :
      (rest : Ledgers → Option Ledgers) (o : Option Ledgers)
      → ((l : Ledgers) → Q l → EndsIn Q (rest l))
      → EndsIn Q o
      → EndsIn Q (then_rest rest o)
  then_rest-EndsIn rest none ends h = h
  then_rest-EndsIn rest (some l) ends h = ends l h

  after_rule-EndsIn :
      (offer : ℕ → Ledgers → Option Ledgers) (rest : Ledgers → Option Ledgers) (l : Ledgers)
      (o : Option (Ledgers × Option ℕ))
      → ((award : ℕ) (m : Ledgers) → Q m → EndsIn Q (offer award m))
      → ((m : Ledgers) → Q m → EndsIn Q (rest m))
      → Q l
      → Keeps Q o
      → EndsIn Q (after_rule offer rest l o)
  after_rule-EndsIn offer rest l none offers ends q k = ends l q
  after_rule-EndsIn offer rest l (some (m, none)) offers ends q k = ends m k
  after_rule-EndsIn offer rest l (some (m, some award)) offers ends q k =
      then_rest-EndsIn rest (offer award m) ends (offers award m k)

  each_rule-EndsIn :
      (again : RewardTriggerEvent → Ledgers → Option Ledgers) (e : RewardTriggerEvent)
      (rules : List RewardRuleRow)
      → ((r : RewardRuleRow) → In r rules → In r s.rules)
      → ((r : RewardRuleRow) (award : ℕ) (m : Ledgers)
          → In r rules
          → Q m
          → EndsIn Q (offer_balance_thresholds again s r.trigger_kind e award m))
      → (l : Ledgers) → Q l
      → EndsIn Q (each_rule again s e rules l)
  unfolding each_rule
  each_rule-EndsIn again e [] known offers l q = q
  each_rule-EndsIn again e (r ∷ rs) known offers l q =
      let rest =
        each_rule-EndsIn again e rs (λ x i. known x (inr i))
          (λ x award m i. offers x award m (inr i)) in
      elim (Bool-cases (rule_matches r e)) [
        | inr other ↦ rw other (rest l q)
        | inl fits ↦ rw fits (
            after_rule-EndsIn (offer_balance_thresholds again s r.trigger_kind e)
              (each_rule again s e rs) l (evaluate_rule s r e l)
              (λ award m. offers r award m (inl refl)) rest q
              (evaluates r e l (known r (inl refl)) q))
      ]

  offer_to-EndsIn :
      (again : RewardTriggerEvent → Ledgers → Option Ledgers) (e : RewardTriggerEvent) (award : ℕ)
      (balance : Option ℕ) (l : Ledgers)
      → ((f : RewardTriggerEvent) → f.trigger_kind ≡ points_balance_reached → EndsIn Q (again f l))
      → Q l
      → EndsIn Q (offer_to again e award balance l)
  offer_to-EndsIn again e award none l ends q = q
  offer_to-EndsIn again e award (some balance) l ends q =
      ends (threshold_event e award balance) refl

  pub offer-EndsIn :
      (again : RewardTriggerEvent → Ledgers → Option Ledgers) (e : RewardTriggerEvent) (award : ℕ)
      (kind : RewardTriggerKind) (l : Ledgers)
      → ((f : RewardTriggerEvent) → f.trigger_kind ≡ points_balance_reached → EndsIn Q (again f l))
      → Q l
      → EndsIn Q (offer_balance_thresholds again s kind e award l)
  unfolding offer_balance_thresholds
  offer-EndsIn again e award kind l ends q =
      let rules = find_matching_rules s e.enterprise_id points_balance_reached e.occurred_at_utc in
      elim (Bool-cases (same_trigger kind points_balance_reached)) [
        | inl last ↦ rw last q
        | inr first ↦ elim (Bool-cases (is_empty rules)) [
          | inl nothing ↦ rw (first, nothing) q
          | inr some_rules ↦
              rw (first, some_rules)
                (offer_to-EndsIn again e award (positive_points e.enterprise_id e.customer_id l) l
                  ends q)
        ]
      ]

  pub threshold-EndsIn :
      (depth : ℕ) (e : RewardTriggerEvent) (l : Ledgers)
      → e.trigger_kind ≡ points_balance_reached
      → Q l
      → EndsIn Q (on_trigger_event (suc depth) s e l)
  unfolding on_trigger_event
  threshold-EndsIn depth e l kind q =
      each_rule-EndsIn (on_trigger_event depth s) e
        (find_matching_rules s e.enterprise_id e.trigger_kind e.occurred_at_utc)
        (λ r i. (found s e.enterprise_id e.trigger_kind e.occurred_at_utc r i).0)
        (λ r award m i p.
          let same = (found s e.enterprise_id e.trigger_kind e.occurred_at_utc r i).1 in
          subst (EndsIn Q)
            (sym (
              offer_none (on_trigger_event depth s) s e award r.trigger_kind m
                (subst (λ k. same_trigger r.trigger_kind k ≡ true) kind same)))
            p)
        l q

  pub on_trigger_event-EndsIn :
      (depth : ℕ) (e : RewardTriggerEvent) (l : Ledgers)
      → Q l
      → EndsIn Q (on_trigger_event (suc (suc depth)) s e l)
  unfolding on_trigger_event
  on_trigger_event-EndsIn depth e l q =
      each_rule-EndsIn (on_trigger_event (suc depth) s) e
        (find_matching_rules s e.enterprise_id e.trigger_kind e.occurred_at_utc)
        (λ r i. (found s e.enterprise_id e.trigger_kind e.occurred_at_utc r i).0)
        (λ r award m i p.
          offer-EndsIn (on_trigger_event (suc depth) s) e award r.trigger_kind m
            (λ f kind. threshold-EndsIn depth f m kind p) p)
        l q

Unit-Keeps : (o : Option (Ledgers × Option ℕ)) → Keeps (λ l. Unit {0}) o
Unit-Keeps none = tt
Unit-Keeps (some (l, c)) = tt

EndsIn-some : (o : Option Ledgers) → EndsIn (λ l. Unit {0}) o → (l : Ledgers) × (o ≡ some l)
EndsIn-some none h = absurd h
EndsIn-some (some l) h = (l, refl)

-- The evaluator comes to an end whatever the rules, the event and the tables are, and two calls deep:
-- points that an event credits are offered to the rules of the thresholds, and what those credit is
-- not offered again.
pub on_trigger_event_ends :
    (s : Setting) (e : RewardTriggerEvent) (l : Ledgers)
    → (l' : Ledgers) × (on_trigger_event 2 s e l ≡ some l')
on_trigger_event_ends s e l = EndsIn-some (on_trigger_event 2 s e l) (
    on_trigger_event-EndsIn (λ m. Unit) s (λ r f m i q. Unit-Keeps (evaluate_rule s r f m)) 0 e l
      tt)
