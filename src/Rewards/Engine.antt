-- ===== src/Rewards/Engine.antt =====
-- The reward engine as a whole, src/modules/rewards: events, the sweep of held awards, deletions, lapses
-- and what else is posted to the wallets, in any order.
use wh_api_unified_service.Prelude.{
  Bool-cases, List, String, [], any, inl, inr, refl, some, subst, sym, ℕ, ◌≡◌,
}
use wh_api_unified_service.Rewards.{RewardTriggerEvent}
use wh_api_unified_service.Rewards.Awards.{
  CreateAwardInput, claim_cap_slot, create_if_absent, mark_granted, mark_reversed, mark_skipped,
  release_cap_slot, same_source,
}
use wh_api_unified_service.Rewards.Awards.Caps.{AreCapped}
use wh_api_unified_service.Rewards.Awards.Sources.{
  HaveSources, create_if_absent-HaveSources, update_awards-HaveSources,
}
use wh_api_unified_service.Rewards.Entitlements.{expire_lapsed}
use wh_api_unified_service.Rewards.Evaluator.{on_trigger_event}
use wh_api_unified_service.Rewards.Evaluator.Depth.{EndsIn, on_trigger_event-EndsIn}
use wh_api_unified_service.Rewards.Evaluator.Limits.{AreCapped-Stable}
use wh_api_unified_service.Rewards.Evaluator.Steps.{Stable, evaluate_rule-KeepsQ}
use wh_api_unified_service.Rewards.Granting.{grant_due_awards, reverse_for_deleted_content}
use wh_api_unified_service.Rewards.Granting.Reversals.{reverse_for_deleted_content-Holds}
use wh_api_unified_service.Rewards.Granting.Sweeps.{Swept, grant_due_awards-Swept}
use wh_api_unified_service.Rewards.Grants.Slots.{same}
use wh_api_unified_service.Rewards.Ledgers.{Ledgers}
use wh_api_unified_service.Rewards.Matching.{Setting}
use wh_api_unified_service.Wallet.{Book}
use wh_api_unified_service.Wallet.Books.{
  BookReach-IsBalanced, BookReach-keeps, BookStep, IsBalanced, after, begin, empty_book,
}

-- What changes the tables. The rules and programs may be others at each step.
pub data RewardStep (l : Ledgers) : Ledgers → Type 0 where
  event_met :
      (s : Setting) (event : RewardTriggerEvent) (l' : Ledgers)
      → on_trigger_event 2 s event l ≡ some l'
      → RewardStep l l'
  sweep_ran :
      (s : Setting) (now : ℕ) (r : Ledgers × ℕ)
      → grant_due_awards 1 now s l ≡ some r
      → RewardStep l r.0
  content_deleted :
      (s : Setting) (enterprise : ℕ) (kind : String) (source : ℕ) (group reason : String)
      → RewardStep l (reverse_for_deleted_content s enterprise kind source group reason l).0
  entitlements_lapsed :
      (now : ℕ) (met : List ℕ) (limit : ℕ) → RewardStep l (expire_lapsed now met limit l)
  wallets_changed : (b : Book) → BookStep l.book b → RewardStep l (record l { book = b })

pub data RewardReach (l : Ledgers) : Ledgers → Type 0 where
  started : RewardReach l l
  next : {m n : Ledgers} → RewardReach l m → RewardStep m n → RewardReach l n

abbrev pub empty_ledgers : Ledgers
empty_ledgers = record {
  awards = [];
  counters = [];
  benefits = [];
  entitlements = [];
  book = empty_book;
  next_award = 1;
  next_benefit = 1;
  next_entitlement = 1;
}

pub record IsSound (l : Ledgers) : Type 0 where
  pub capped : AreCapped l
  pub balanced : IsBalanced l.book
  pub sources : HaveSources l.awards

creation_book :
    (input : CreateAwardInput) (l : Ledgers) → (create_if_absent input l).0.book ≡ l.book
unfolding create_if_absent
creation_book input l = elim (Bool-cases (any (same_source input) l.awards)) [
  | inl old ↦ rw old refl
  | inr fresh ↦ rw fresh refl
]

IsSound-Stable : Stable IsSound
unfolding mark_skipped mark_granted mark_reversed claim_cap_slot release_cap_slot create_if_absent
IsSound-Stable = record {
  same = λ l m gives h. record {
    capped = AreCapped-Stable.same l m gives h.capped;
    balanced = BookReach-keeps gives.book h.balanced;
    sources = subst HaveSources (sym gives.awards) h.sources;
  };
  creates = λ input l h. record {
    capped = AreCapped-Stable.creates input l h.capped;
    balanced = subst IsBalanced (sym (creation_book input l)) h.balanced;
    sources = create_if_absent-HaveSources input l h.sources;
  };
  skips = λ enterprise id status reason period l h. record {
    capped = h.capped;
    balanced = h.balanced;
    sources = update_awards-HaveSources enterprise id _ (λ a b. (refl, refl)) l.awards h.sources;
  };
  grants = λ enterprise id factor period l h. record {
    capped = h.capped;
    balanced = h.balanced;
    sources = update_awards-HaveSources enterprise id _ (λ a b. (refl, refl)) l.awards h.sources;
  };
  claims = λ enterprise rule owner period cap l h. record {
    capped = AreCapped-Stable.claims enterprise rule owner period cap l h.capped;
    balanced = h.balanced;
    sources = h.sources;
  };
  releases = λ enterprise rule owner period l h. record {
    capped = AreCapped-Stable.releases enterprise rule owner period l h.capped;
    balanced = h.balanced;
    sources = h.sources;
  };
  reverses = λ enterprise id reason l h. record {
    capped = h.capped;
    balanced = h.balanced;
    sources = update_awards-HaveSources enterprise id _ (λ a b. (refl, refl)) l.awards h.sources;
  };
}

step-IsSound : {l m : Ledgers} → RewardStep l m → IsSound l → IsSound m
unfolding expire_lapsed
step-IsSound {l} (event_met s event m same) h = subst (EndsIn IsSound) same (
    on_trigger_event-EndsIn IsSound s
      (λ r f k i q. evaluate_rule-KeepsQ IsSound IsSound-Stable s r f k q) 0 event l h)
step-IsSound {l} (sweep_ran s now r same) h =
    subst (Swept IsSound IsSound-Stable) same
      (grant_due_awards-Swept IsSound IsSound-Stable s now l h)
step-IsSound {l} (content_deleted s enterprise kind source group reason) h =
    reverse_for_deleted_content-Holds IsSound IsSound-Stable s enterprise kind source group reason l
      h
step-IsSound {l} (entitlements_lapsed now met limit) h = record {
  capped = h.capped;
  balanced = h.balanced;
  sources = h.sources;
}
step-IsSound {l} (wallets_changed b s) h = record {
  capped = h.capped;
  balanced = BookReach-keeps (after begin s) h.balanced;
  sources = h.sources;
}

-- After any sequence of events, sweeps, deletions, lapses and other postings on empty tables: no
-- counter is past its cap (or past 1, where the cap is 0), no two awards are for one rule, one
-- customer and one source, each wallet's balance is the sum of its entries, and each entry carries
-- the balance that it led to.
pub RewardReach-IsSound : {l : Ledgers} → RewardReach empty_ledgers l → IsSound l
RewardReach-IsSound started = record {
  capped = tt;
  balanced = BookReach-IsBalanced begin;
  sources = tt;
}
RewardReach-IsSound (next r s) = step-IsSound s (RewardReach-IsSound r)
