-- ===== src/Rewards/Granting/Reversals.antt =====
-- What taking awards back leaves alone, src/modules/rewards/reward-grant.service.ts with
-- src/modules/rewards/benefits.
use wh_api_unified_service.Prelude.{
  >>=-IfSome, Bool-cases, IfSome, IfSome-imp, List, Option, Option-cases, String, [], if◌then◌else◌,
  inl, inr, none, refl, some, subst, ℕ, ◌∷◌,
}
use wh_api_unified_service.Rewards.Awards.{find_by_source}
use wh_api_unified_service.Rewards.Benefits.{
  BenefitContext, compensate_award, compensate_benefit, compensate_book, compensate_one,
  compensate_rows, conversion_back, credited, is_known_kind, money_back, negated,
}
use wh_api_unified_service.Rewards.Entitlements.{mark_benefit_compensated, revoke_if_unredeemed}
use wh_api_unified_service.Rewards.Evaluator.Steps.{Stable}
use wh_api_unified_service.Rewards.Granting.{
  award_context, hand_back_slot, is_granted, is_reversible, reverse_award, reverse_each,
  reverse_for_deleted_content,
}
use wh_api_unified_service.Rewards.Grants.{truthy_text}
use wh_api_unified_service.Rewards.Grants.Slots.{
  OnlyGives, OnlyGives-trans, Reaches, book_only, credited-Reaches, same,
}
use wh_api_unified_service.Rewards.Ledgers.{
  AwardBenefit, Compensation, Ledgers, RewardAward, conversion, entitlement, money,
}
use wh_api_unified_service.Rewards.Matching.{Setting}
use wh_api_unified_service.Wallet.{Book, PostEntryInput, post_unchecked}
use wh_api_unified_service.Wallet.Books.{BookReach, after, begin, was_posted}
use wh_api_unified_service.Wallet.Integers.{pos}

posts :
    (a b : Book) (input : PostEntryInput)
    → BookReach a b
    → IfSome (Reaches a) (credited (post_unchecked input b))
posts a b input reach = credited-Reaches a (post_unchecked input b) (after reach (was_posted input))

compensate_book-reaches :
    (group : String) (c : Compensation) (ctx : BenefitContext) (b : Book)
    → IfSome (BookReach b) (compensate_book group c ctx b)
unfolding compensate_book
compensate_book-reaches group (money entry wallet amount) ctx b =
    >>=-IfSome (Reaches b) (BookReach b)
      (credited (post_unchecked (money_back entry wallet amount ctx) b)) _ (posts b b _ begin)
      (λ r h. h)
compensate_book-reaches group (conversion pw cw burned minor out_entry in_entry) ctx b =
    let first = conversion_back group in_entry cw (negated minor) ":in:reversal" ctx in
    let second = conversion_back group out_entry pw (pos burned) ":out:reversal" ctx in
    >>=-IfSome (Reaches b) (BookReach b) (credited (post_unchecked first b)) _
      (posts b b first begin)
      (λ r h.
        >>=-IfSome (Reaches b) (BookReach b) (credited (post_unchecked second r.0)) _
          (posts b r.0 second h) (λ q k. k))
compensate_book-reaches group (entitlement id) ctx b = begin

compensate_benefit-OnlyGives :
    (group : String) (c : Compensation) (ctx : BenefitContext) (l : Ledgers)
    → IfSome (OnlyGives l) (compensate_benefit group c ctx l)
unfolding compensate_benefit revoke_if_unredeemed
compensate_benefit-OnlyGives group (entitlement id) ctx l = record {
  awards = refl;
  counters = refl;
  book = begin;
}
compensate_benefit-OnlyGives group (money entry wallet amount) ctx l =
    >>=-IfSome (BookReach l.book) (OnlyGives l)
      (compensate_book group (money entry wallet amount) ctx l.book) _
      (compensate_book-reaches group (money entry wallet amount) ctx l.book)
      (λ b h. book_only l b h)
compensate_benefit-OnlyGives group (conversion pw cw burned minor out_entry in_entry) ctx l =
    >>=-IfSome (BookReach l.book) (OnlyGives l)
      (compensate_book group (conversion pw cw burned minor out_entry in_entry) ctx l.book) _
      (compensate_book-reaches group (conversion pw cw burned minor out_entry in_entry) ctx l.book)
      (λ b h. book_only l b h)

compensate_one-OnlyGives :
    (group : String) (ctx : BenefitContext) (row : AwardBenefit) (l : Ledgers)
    → IfSome (OnlyGives l) (compensate_one group ctx row l)
unfolding mark_benefit_compensated
compensate_one-OnlyGives group ctx row l = elim (Bool-cases (is_known_kind row.benefit_kind)) [
  | inr unknown ↦ rw unknown (same l)
  | inl known ↦ rw known (
      >>=-IfSome (OnlyGives l) (OnlyGives l) (compensate_benefit group row.compensation _ l) _
        (compensate_benefit-OnlyGives group row.compensation _ l)
        (λ m h. record { awards = h.awards; counters = h.counters; book = h.book }))
]

compensate_rows-OnlyGives :
    (group : String) (ctx : BenefitContext) (rows : List AwardBenefit) (l : Ledgers)
    → IfSome (OnlyGives l) (compensate_rows group ctx rows l)
unfolding compensate_rows
compensate_rows-OnlyGives group ctx [] l = same l
compensate_rows-OnlyGives group ctx (row ∷ rows) l =
    >>=-IfSome (OnlyGives l) (OnlyGives l) (compensate_one group ctx row l) _
      (compensate_one-OnlyGives group ctx row l)
      (λ m h.
        IfSome-imp (compensate_rows group ctx rows m) (OnlyGives-trans l m h)
          (compensate_rows-OnlyGives group ctx rows m))

pub compensate_award-OnlyGives :
    (group : String) (ctx : BenefitContext) (l : Ledgers)
    → IfSome (OnlyGives l) (compensate_award group ctx l)
unfolding compensate_award
compensate_award-OnlyGives group ctx l = compensate_rows-OnlyGives group ctx _ l

module _ (Q : Ledgers → Type 0) (stable : Stable Q) where
  hand_back-Holds :
      (award : RewardAward) (period : Option String) (l : Ledgers)
      → Q l
      → Q (hand_back_slot award period l)
  hand_back-Holds award none l h = h
  hand_back-Holds award (some period) l h =
      stable.releases award.enterprise_id award.rule_id award.customer_id period l h

  compensates :
      (group : String) (award : RewardAward) (l : Ledgers)
      → IfSome (OnlyGives l) (
          if is_granted award.status
          then compensate_award group (award_context award) l
          else some l)
  compensates group award l = elim (Bool-cases (is_granted award.status)) [
    | inl given ↦ rw given (compensate_award-OnlyGives group (award_context award) l)
    | inr waiting ↦ rw waiting (same l)
  ]

  reverse_award-Holds :
      (group reason : String) (award : RewardAward) (l : Ledgers)
      → Q l
      → IfSome Q (reverse_award group reason award l)
  unfolding reverse_award
  reverse_award-Holds group reason award l h =
      >>=-IfSome (OnlyGives l) Q
        (if is_granted award.status then compensate_award group (award_context award) l else some l)
        _ (compensates group award l)
        (λ m gives.
          stable.reverses award.enterprise_id award.id reason
            (hand_back_slot award (truthy_text award.period_key) m)
            (hand_back-Holds award (truthy_text award.period_key) m (stable.same l m gives h)))

  reverse_each-Holds :
      (s : Setting) (enterprise : ℕ) (group reason : String) (awards : List RewardAward)
      (l : Ledgers)
      → Q l
      → Q (reverse_each s enterprise group reason awards l).0
  unfolding reverse_each
  reverse_each-Holds s enterprise group reason [] l h = h
  reverse_each-Holds s enterprise group reason (award ∷ awards) l h =
      let rest = reverse_each-Holds s enterprise group reason awards in
      elim (Bool-cases (is_reversible s enterprise award)) [
        | inr kept ↦ rw kept (rest l h)
        | inl taken ↦ rw taken (elim (Option-cases (reverse_award group reason award l)) [
          | inl failed ↦ rw failed (rest l h)
          | inr (m, done) ↦
              rw done (rest m (subst (IfSome Q) done (reverse_award-Holds group reason award l h)))
        ])
      ]

  pub reverse_for_deleted_content-Holds :
      (s : Setting) (enterprise : ℕ) (kind : String) (source : ℕ) (group reason : String)
      (l : Ledgers)
      → Q l
      → Q (reverse_for_deleted_content s enterprise kind source group reason l).0
  unfolding reverse_for_deleted_content
  reverse_for_deleted_content-Holds s enterprise kind source group reason l h =
      reverse_each-Holds s enterprise group reason (find_by_source enterprise kind source l) l h
