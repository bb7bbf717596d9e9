-- ===== src/Rewards/Grants/Slots.antt =====
-- What granting leaves alone, and the slot that comes back, src/modules/rewards/rule-evaluator.service.ts.
use wh_api_unified_service.Prelude.{
  ◌*◌, ◌>>=◌, >>=-IfSome, >>=-IfSome_any, Bool-cases, IfSome, IfSome-imp, List, Option, String, [],
  inl, inr, ltb, none, refl, some, ℕ, ◌∙◌, ◌∷◌, ◌≡◌,
}
use wh_api_unified_service.Rewards.{RewardRuleBenefitRow}
use wh_api_unified_service.Rewards.Benefits.{
  BenefitContext, Draws, RewardBenefit, apply_benefit, apply_conversion, apply_money, convert_times,
  convert_value, credited, dispatch, give_entitlement, grant_currency, grant_points, in_posting,
  out_posting, parse_benefit, posting, times_of, usable_code,
}
use wh_api_unified_service.Rewards.Entitlements.{issue_entitlement, record_benefit}
use wh_api_unified_service.Rewards.Grants.{GrantInput, apply_all, apply_stored, context_of}
use wh_api_unified_service.Rewards.Ledgers.{Compensation, Ledgers}
use wh_api_unified_service.Rewards.Matching.{Setting}
use wh_api_unified_service.Wallet.{
  Book, Posted, RewardWallet, RewardWalletKind, credit, currency, debit_if_sufficient, earn,
  ensure_customer_wallet, needs_negative, not_enough, points, posted, wallet_missing,
}
use wh_api_unified_service.Wallet.Books.{
  BookReach, BookReach-trans, after, begin, ensured, was_credited, was_debited,
}
use wh_api_unified_service.Wallet.Integers.{pos}

-- Awards and counters stay as they are, and the books are changed by the calls of the wallets only.
pub record OnlyGives (l l' : Ledgers) : Type 0 where
  pub awards : l'.awards ≡ l.awards
  pub counters : l'.counters ≡ l.counters
  pub book : BookReach l.book l'.book

pub OnlyGives-trans :
    (k l : Ledgers) → OnlyGives k l → (m : Ledgers) → OnlyGives l m → OnlyGives k m
OnlyGives-trans k l a m b = record {
  awards = b.awards ∙ a.awards;
  counters = b.counters ∙ a.counters;
  book = BookReach-trans a.book b.book;
}

pub same : (l : Ledgers) → OnlyGives l l
same l = record { awards = refl; counters = refl; book = begin }

pub book_only : (l : Ledgers) (b : Book) → BookReach l.book b → OnlyGives l (record l { book = b })
book_only l b reach = record { awards = refl; counters = refl; book = reach }

abbrev Applied : Ledgers → Ledgers × Compensation → Type 0
Applied l r = OnlyGives l r.0

abbrev pub Reaches : Book → Book × ℕ → Type 0
Reaches b r = BookReach b r.0

pub credited-Reaches :
    (b : Book) (p : Book × Posted) → BookReach b p.0 → IfSome (Reaches b) (credited p)
credited-Reaches b (c, posted e) reach = reach
credited-Reaches b (c, not_enough) reach = tt
credited-Reaches b (c, wallet_missing) reach = tt
credited-Reaches b (c, needs_negative) reach = tt

pays :
    (l : Ledgers) (m : Option (Book × ℕ)) (kept : Book × ℕ → Compensation)
    → IfSome (Reaches l.book) m
    → IfSome (Applied l) (m >>= λ r. some (record l { book = r.0 }, kept r))
pays l m kept reach = >>=-IfSome (Reaches l.book) (Applied l) m _ reach (λ r h. book_only l r.0 h)

apply_money-Applied :
    (kind : RewardWalletKind) (code : Option String) (amount : ℕ) (ctx : BenefitContext)
    (l : Ledgers)
    → IfSome (Applied l) (apply_money kind code amount ctx l)
unfolding apply_money
apply_money-Applied kind code amount ctx l =
    let (b, w) = ensure_customer_wallet ctx.enterprise_id ctx.customer_id kind code l.book in
    let input = posting ctx w.id earn (pos amount) ctx.idempotency_key in
    pays l (credited (credit input b)) _ (
      credited-Reaches l.book (credit input b) (
        after (after begin (ensured ctx.enterprise_id ctx.customer_id kind code))
          (was_credited input)))

convert_times-Applied :
    (group : String) (burned minor : ℕ) (code : String) (ctx : BenefitContext) (l : Ledgers)
    (w : RewardWallet) (b : Book)
    → BookReach l.book b
    → IfSome (Applied l) (convert_times group burned minor code ctx l w b)
convert_times-Applied group burned minor code ctx l w b reach =
    let out = out_posting group w.id burned ctx in
    >>=-IfSome (Reaches l.book) (Applied l) (credited (debit_if_sufficient out b)) _
      (credited-Reaches l.book (debit_if_sufficient out b) (after reach (was_debited out)))
      (λ r h.
        let (c, v) =
          ensure_customer_wallet ctx.enterprise_id ctx.customer_id currency (some code) r.0 in
        let input = in_posting group v.id minor ctx in
        pays l (credited (credit input c)) _ (
          credited-Reaches l.book (credit input c) (
            after (after h (ensured ctx.enterprise_id ctx.customer_id currency (some code)))
              (was_credited input))))

apply_conversion-Applied :
    (group : String) (burn_points grant_minor : ℕ) (code : String) (ctx : BenefitContext)
    (l : Ledgers)
    → IfSome (Applied l) (apply_conversion group burn_points grant_minor code ctx l)
unfolding apply_conversion
apply_conversion-Applied group burn_points grant_minor code ctx l =
    let (b, w) = ensure_customer_wallet ctx.enterprise_id ctx.customer_id points none l.book in
    let times = times_of w.balance burn_points in
    elim (Bool-cases (ltb times 1)) [
      | inl poor ↦ rw poor tt
      | inr enough ↦ rw enough (
          convert_times-Applied group (times * burn_points) (times * grant_minor) code ctx l w b
            (after begin (ensured ctx.enterprise_id ctx.customer_id points none)))
    ]

apply_benefit-Applied :
    (d : Draws) (b : RewardBenefit) (ctx : BenefitContext) (l : Ledgers)
    → IfSome (Applied l) (apply_benefit d b ctx l)
unfolding apply_benefit issue_entitlement
apply_benefit-Applied d (grant_points n) ctx l = apply_money-Applied points none n ctx l
apply_benefit-Applied d (grant_currency n code) ctx l =
    >>=-IfSome_any (Applied l) (usable_code code) _
      (λ c. apply_money-Applied currency (some c) n ctx l)
apply_benefit-Applied d (give_entitlement item days) ctx l = record {
  awards = refl;
  counters = refl;
  book = begin;
}
apply_benefit-Applied d (convert_value b m code) ctx l =
    >>=-IfSome_any (Applied l) (usable_code code) _
      (λ c. apply_conversion-Applied d.group_ref b m c ctx l)

dispatch-OnlyGives :
    (d : Draws) (b : RewardBenefit) (index : ℕ) (ctx : BenefitContext) (l : Ledgers)
    → IfSome (OnlyGives l) (dispatch d b index ctx l)
unfolding dispatch record_benefit
dispatch-OnlyGives d b index ctx l =
    >>=-IfSome (Applied l) (OnlyGives l) (apply_benefit d b _ l) _ (apply_benefit-Applied d b _ l)
      (λ r h. record { awards = h.awards; counters = h.counters; book = h.book })

pub apply_all-OnlyGives :
    (s : Setting) (input : GrantInput) (factor : Option ℕ) (rows : List RewardRuleBenefitRow)
    (l : Ledgers)
    → IfSome (OnlyGives l) (apply_all s input factor rows l)
unfolding apply_all
apply_all-OnlyGives s input factor [] l = same l
apply_all-OnlyGives s input factor (r ∷ rs) l =
    >>=-IfSome (OnlyGives l) (OnlyGives l) (apply_stored s input factor r l) _
      (>>=-IfSome_any (OnlyGives l) (parse_benefit s.fits r.benefit_kind _) _
        (λ b. dispatch-OnlyGives _ b r.benefit_index (context_of input) l))
      (λ m h.
        IfSome-imp (apply_all s input factor rs m) (OnlyGives-trans l m h)
          (apply_all-OnlyGives s input factor rs m))
