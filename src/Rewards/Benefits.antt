-- ===== src/Rewards/Benefits.antt =====
-- What a benefit gives and takes back, src/modules/rewards/benefits and benefit-dispatcher.service.ts,
-- with the schemas of src/shared/contracts/rewards/reward.contract.ts. An exception is `none`.
pub mod Undoing
use mathlib.Core.Option
use wh_api_unified_service.Prelude.{
  ◌&&◌, ◌*◌, ◌+◌, ◌/◌, ◌<>◌, ◌>>=◌, Bool, List, Option, String, [], decimal, if◌then◌else◌, is_none,
  ltb, min, none, not, some, str_eq, suc, zero, ◌||◌, ℕ, ◌∷◌,
}
use wh_api_unified_service.Rewards.{BenefitFields}
use wh_api_unified_service.Rewards.Entitlements.{
  applied_benefits_reversed, issue_entitlement, mark_benefit_compensated, record_benefit,
  revoke_if_unredeemed,
}
use wh_api_unified_service.Rewards.Ledgers.{
  AwardBenefit, Compensation, Ledgers, conversion, entitlement, money,
}
use wh_api_unified_service.Wallet.{
  Book, PostEntryInput, Posted, RewardEntryKind, RewardWallet, RewardWalletKind, convert_in,
  convert_out, credit, currency, debit_if_sufficient, earn, ensure_customer_wallet, points,
  post_unchecked, posted, reversal,
}
use wh_api_unified_service.Wallet.Integers.{negsuc, pos, ℤ}

-- A benefit whose stored form its schema accepted.
pub data RewardBenefit : Type 0 where
  grant_points : ℕ → RewardBenefit
  grant_currency : ℕ → Option String → RewardBenefit
  give_entitlement : String → Option ℕ → RewardBenefit
  convert_value : (burn_points grant_minor : ℕ) → Option String → RewardBenefit

abbrev is_positive : Option ℕ → Option ℕ
is_positive none = none
is_positive (some n) = if ltb 0 n then some n else none

-- The schema is strict: a key of another kind refuses the whole.
abbrev only_points : BenefitFields → Bool
only_points c =
    is_none c.minor_units
    && is_none c.currency_code
    && is_none c.item_ref
    && is_none c.valid_for_days
    && is_none c.burn_points
    && is_none c.grant_minor

abbrev only_currency : BenefitFields → Bool
only_currency c =
    is_none c.points
    && is_none c.item_ref
    && is_none c.valid_for_days
    && is_none c.burn_points
    && is_none c.grant_minor

abbrev only_entitlement : BenefitFields → Bool
only_entitlement c =
    is_none c.points
    && is_none c.minor_units
    && is_none c.currency_code
    && is_none c.burn_points
    && is_none c.grant_minor

abbrev only_conversion : BenefitFields → Bool
only_conversion c =
    is_none c.points && is_none c.minor_units && is_none c.item_ref && is_none c.valid_for_days

-- `RewardBenefitConfigSchema.safeParse`. The bounds on the length of a text, on the days of an
-- entitlement and on the size of an amount, and the form of a currency code, are what `fits` says.
unfoldable pub parse_benefit :
    (BenefitFields → Bool) → String → BenefitFields → Option RewardBenefit
parse_benefit fits kind c =
    if not (fits c)
    then none
    else if str_eq kind "grant_points"
    then if only_points c then Option.map grant_points (is_positive c.points) else none
    else if str_eq kind "grant_currency"
    then if only_currency c
      then Option.map (λ n. grant_currency n c.currency_code) (is_positive c.minor_units)
      else none
    else if str_eq kind "issue_entitlement"
    then if only_entitlement c
      then Option.map (λ item. give_entitlement item c.valid_for_days) c.item_ref
      else none
    else if str_eq kind "convert_value"
    then if only_conversion c
      then elim (is_positive c.burn_points) [
        | none ↦ none
        | some burn_points ↦
            Option.map (λ n. convert_value burn_points n c.currency_code)
              (is_positive c.grant_minor)
      ]
      else none
    else none

pub record BenefitContext : Type 0 where
  pub enterprise_id : ℕ
  pub customer_id : ℕ
  pub award_id : ℕ
  pub rule_id : ℕ
  pub rule_version : ℕ
  pub occurred_at_utc : ℕ
  pub idempotency_key : String

-- An entry of an award, as the handlers post it.
abbrev pub posting : BenefitContext → ℕ → RewardEntryKind → ℤ → String → PostEntryInput
posting ctx wallet kind amount key = record {
  enterprise_id = ctx.enterprise_id;
  wallet_id = wallet;
  entry_kind = kind;
  amount = amount;
  idempotency_key = key;
  occurred_at_utc = ctx.occurred_at_utc;
  award_id = some ctx.award_id;
  rule_id = some ctx.rule_id;
  rule_version = some ctx.rule_version;
  group_ref = none;
  reverses_entry_id = none;
  actor_kind = none;
  actor_id = none;
  reason_code = none;
}

-- An entry that takes another back.
abbrev pub reversing : BenefitContext → ℕ → ℕ → ℤ → String → String → PostEntryInput
reversing ctx wallet entry amount key reason = record (posting ctx wallet reversal amount key) {
  rule_version = none;
  reverses_entry_id = some entry;
  reason_code = some reason;
}

-- `-n`
abbrev pub negated : ℕ → ℤ
negated zero = pos 0
negated (suc n) = negsuc n

-- `credit`, which throws when the wallet is not there.
abbrev pub credited : Book × Posted → Option (Book × ℕ)
credited (b, posted e) = some (b, e.id)
credited (b, _) = none

-- Points and money: the wallet is made if need be, and credited.
unfoldable pub apply_money :
    RewardWalletKind
    → Option String
    → ℕ
    → BenefitContext
    → Ledgers
    → Option (Ledgers × Compensation)
apply_money kind code amount ctx l =
    let (b, w) = ensure_customer_wallet ctx.enterprise_id ctx.customer_id kind code l.book in
    do
      earned ← credited (credit (posting ctx w.id earn (pos amount) ctx.idempotency_key) b)
      some (record l { book = earned.0 }, money earned.1 w.id amount)

-- `!currencyCode`: absent or empty.
abbrev pub usable_code : Option String → Option String
usable_code none = none
usable_code (some code) = if str_eq code "" then none else some code

-- `Math.floor(balance / burnPoints)`, of a balance that is not in debt; in debt it is negative.
abbrev pub affordable : ℤ → ℕ → ℕ
affordable (pos balance) burn_points = balance / burn_points
affordable (negsuc n) burn_points = 0

abbrev pub max_conversions_per_apply : ℕ
max_conversions_per_apply = 100

abbrev pub times_of : ℤ → ℕ → ℕ
times_of balance burn_points = min (affordable balance burn_points) max_conversions_per_apply

-- The two entries of a conversion, of so many times; both carry the group that is drawn for them.
abbrev pub out_posting : String → ℕ → ℕ → BenefitContext → PostEntryInput
out_posting group wallet burned ctx =
    record (posting ctx wallet convert_out (negated burned) (ctx.idempotency_key <> ":out")) {
      group_ref = some group;
    }

abbrev pub in_posting : String → ℕ → ℕ → BenefitContext → PostEntryInput
in_posting group wallet minor ctx =
    record (posting ctx wallet convert_in (pos minor) (ctx.idempotency_key <> ":in")) {
      group_ref = some group;
    }

-- From the points wallet on.
abbrev pub convert_times :
    String
    → ℕ
    → ℕ
    → String
    → BenefitContext
    → Ledgers
    → RewardWallet
    → Book
    → Option (Ledgers × Compensation)
convert_times group burned minor code ctx l w b = do
  burnt ← credited (debit_if_sufficient (out_posting group w.id burned ctx) b)
  let (c, v) = ensure_customer_wallet ctx.enterprise_id ctx.customer_id currency (some code) burnt.0
  earned ← credited (credit (in_posting group v.id minor ctx) c)
  some (record l { book = earned.0 }, conversion w.id v.id burned minor burnt.1 earned.1)

unfoldable pub apply_conversion :
    String → ℕ → ℕ → String → BenefitContext → Ledgers → Option (Ledgers × Compensation)
apply_conversion group burn_points grant_minor code ctx l =
    let (b, w) = ensure_customer_wallet ctx.enterprise_id ctx.customer_id points none l.book in
    let times = times_of w.balance burn_points in
    if ltb times 1
    then none
    else convert_times group (times * burn_points) (times * grant_minor) code ctx l w b

-- The drawn values: the code of an entitlement and the group of a conversion.
pub record Draws : Type 0 where
  pub redemption_code : String
  pub group_ref : String

-- `handler.apply`.
unfoldable pub apply_benefit :
    Draws → RewardBenefit → BenefitContext → Ledgers → Option (Ledgers × Compensation)
apply_benefit d (grant_points n) ctx l = apply_money points none n ctx l
apply_benefit d (grant_currency n code) ctx l = do
  c ← usable_code code
  apply_money currency (some c) n ctx l
apply_benefit d (give_entitlement item valid_for_days) ctx l =
    let expires_at =
      Option.map (λ (days : ℕ). ctx.occurred_at_utc + days * 86400000) valid_for_days in
    let (l', id) =
      issue_entitlement ctx.enterprise_id ctx.customer_id ctx.award_id item d.redemption_code
        expires_at l in
    some (l', entitlement id)
apply_benefit d (convert_value burn_points grant_minor code) ctx l = do
  c ← usable_code code
  apply_conversion d.group_ref burn_points grant_minor c ctx l

-- The postings that take a benefit back.
abbrev pub money_back : ℕ → ℕ → ℕ → BenefitContext → PostEntryInput
money_back entry wallet amount ctx =
    reversing ctx wallet entry (negated amount) (ctx.idempotency_key <> ":reversal")
      "benefit_compensated"

abbrev pub conversion_back : String → ℕ → ℕ → ℤ → String → BenefitContext → PostEntryInput
conversion_back group entry wallet amount suffix ctx =
    record (reversing ctx wallet entry amount (ctx.idempotency_key <> suffix)
      "conversion_reversed") { rule_id = none; group_ref = some group }

-- `handler.compensate` on the books.
unfoldable pub compensate_book : String → Compensation → BenefitContext → Book → Option Book
compensate_book group (money entry wallet amount) ctx b = do
  back ← credited (post_unchecked (money_back entry wallet amount ctx) b)
  some back.0
compensate_book group (conversion pw cw burned minor out_entry in_entry) ctx b = do
  first ←
      credited
        (post_unchecked (conversion_back group in_entry cw (negated minor) ":in:reversal" ctx) b)
  second ←
      credited (
        post_unchecked (conversion_back group out_entry pw (pos burned) ":out:reversal" ctx)
          first.0)
  some second.0
compensate_book group (entitlement id) ctx b = some b

unfoldable pub compensate_benefit :
    String → Compensation → BenefitContext → Ledgers → Option Ledgers
compensate_benefit group (entitlement id) ctx l = some (revoke_if_unredeemed ctx.enterprise_id id l)
compensate_benefit group c ctx l = do
  b ← compensate_book group c ctx l.book
  some (record l { book = b })

-- `award:${awardId}:benefit:${benefitIndex}`
unfoldable pub benefit_key : ℕ → ℕ → String
benefit_key award index = "award:" <> decimal award <> ":benefit:" <> decimal index

abbrev pub kind_text : RewardBenefit → String
kind_text (grant_points n) = "grant_points"
kind_text (grant_currency n code) = "grant_currency"
kind_text (give_entitlement item days) = "issue_entitlement"
kind_text (convert_value b m code) = "convert_value"

-- `BenefitDispatcher.apply`.
unfoldable pub dispatch : Draws → RewardBenefit → ℕ → BenefitContext → Ledgers → Option Ledgers
dispatch d benefit index ctx l =
    let key = benefit_key ctx.award_id index in
    do
      done ← apply_benefit d benefit (record ctx { idempotency_key = key }) l
      some (
          record_benefit ctx.enterprise_id ctx.award_id index (kind_text benefit) done.1 key done.0)

-- `tryGet`: the kinds that the build knows. None of them is a pivot.
abbrev pub is_known_kind : String → Bool
is_known_kind kind =
    str_eq kind "grant_points"
    || str_eq kind "grant_currency"
    || str_eq kind "issue_entitlement"
    || str_eq kind "convert_value"

abbrev pub compensate_one : String → BenefitContext → AwardBenefit → Ledgers → Option Ledgers
compensate_one group ctx row l = if not (is_known_kind row.benefit_kind) then some l else do
  l' ←
      compensate_benefit group row.compensation
        (record ctx { idempotency_key = benefit_key ctx.award_id row.benefit_index }) l
  some (mark_benefit_compensated ctx.enterprise_id row.id l')

unfoldable pub compensate_rows :
    String → BenefitContext → List AwardBenefit → Ledgers → Option Ledgers
compensate_rows group ctx [] l = some l
compensate_rows group ctx (row ∷ rows) l =
    compensate_one group ctx row l >>= compensate_rows group ctx rows

-- `BenefitDispatcher.compensateAward`.
unfoldable pub compensate_award : String → BenefitContext → Ledgers → Option Ledgers
compensate_award group ctx l =
    compensate_rows group ctx (applied_benefits_reversed ctx.enterprise_id ctx.award_id l) l
