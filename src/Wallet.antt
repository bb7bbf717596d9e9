-- ===== src/Wallet.antt =====
-- Reward wallets and the ledger behind them, src/database/repositories/reward-wallet.repository.ts,
-- with the kinds of src/shared/enums/reward.enum.ts and actor.enum.ts. Each call runs alone: the loss of
-- an insert to a concurrent call with the same key is not modelled. The entries are kept newest first.
mod Tests
pub mod Integers
pub mod Rows
pub mod Books
pub mod Replays
use wh_api_unified_service.Prelude.{
  ◌&&◌, ◌+◌, ◌==◌, Bool, List, Option, String, [], false, if◌then◌else◌, none, not, or_else, some,
  str_eq, true, ℕ, ◌∷◌,
}
use wh_api_unified_service.Wallet.Integers.{◌+ℤ◌, at_least, is_negative, magnitude, minus, pos, ℤ}

pub data RewardWalletKind : Type 0 where
  points currency : RewardWalletKind

pub data RewardAccountKind : Type 0 where
  customer system_transit system_external : RewardAccountKind

pub data RewardEntryKind : Type 0 where
  earn burn convert_out convert_in forward_out transit_in transit_out external_out : RewardEntryKind
  forward_back reversal adjust transfer_in transfer_out : RewardEntryKind

pub data ActorKind : Type 0 where
  employee staff system : ActorKind

pub record RewardWallet : Type 0 where
  pub id : ℕ
  pub enterprise_id : ℕ
  pub account_kind : RewardAccountKind
  pub customer_id : Option ℕ
  pub wallet_kind : RewardWalletKind
  pub currency_code : Option String
  pub balance : ℤ
  pub lifetime_earned : ℕ
  pub version : ℕ
  pub is_deleted : Bool

pub record LedgerEntry : Type 0 where
  pub id : ℕ
  pub enterprise_id : ℕ
  pub wallet_id : ℕ
  pub entry_kind : RewardEntryKind
  pub amount : ℤ
  pub balance_after : ℤ
  pub award_id : Option ℕ
  pub rule_id : Option ℕ
  pub rule_version : Option ℕ
  pub group_ref : Option String
  pub reverses_entry_id : Option ℕ
  pub idempotency_key : String
  pub actor_kind : Option ActorKind
  pub actor_id : Option ℕ
  pub reason_code : Option String
  pub occurred_at_utc : ℕ

pub record PostEntryInput : Type 0 where
  pub enterprise_id : ℕ
  pub wallet_id : ℕ
  pub entry_kind : RewardEntryKind
  pub amount : ℤ
  pub idempotency_key : String
  pub occurred_at_utc : ℕ
  pub award_id : Option ℕ
  pub rule_id : Option ℕ
  pub rule_version : Option ℕ
  pub group_ref : Option String
  pub reverses_entry_id : Option ℕ
  pub actor_kind : Option ActorKind
  pub actor_id : Option ℕ
  pub reason_code : Option String

-- The two tables and their id sequences.
pub record Book : Type 0 where
  pub wallets : List RewardWallet
  pub entries : List LedgerEntry
  pub next_wallet : ℕ
  pub next_entry : ℕ

abbrev pub is_customer : RewardAccountKind → Bool
is_customer customer = true
is_customer _ = false

abbrev pub same_kind : RewardWalletKind → RewardWalletKind → Bool
same_kind points points = true
same_kind currency currency = true
same_kind _ _ = false

-- `customer_id = $2`, which NULL is not.
abbrev pub is_of : Option ℕ → ℕ → Bool
is_of none n = false
is_of (some m) n = m == n

-- The partial unique index that the conflict is on, with `COALESCE(currency_code, '---')`.
abbrev pub is_wallet_of : ℕ → ℕ → RewardWalletKind → Option String → RewardWallet → Bool
is_wallet_of enterprise owner kind code w =
    (w.enterprise_id == enterprise)
    && is_of w.customer_id owner
    && same_kind w.wallet_kind kind
    && str_eq (or_else w.currency_code "---") (or_else code "---")
    && is_customer w.account_kind
    && not w.is_deleted

abbrev pub first_wallet : (RewardWallet → Bool) → List RewardWallet → Option RewardWallet
first_wallet p [] = none
first_wallet p (w ∷ ws) = if p w then some w else first_wallet p ws

abbrev pub new_wallet : ℕ → ℕ → ℕ → RewardWalletKind → Option String → RewardWallet
new_wallet id enterprise owner kind code = record {
  id = id;
  enterprise_id = enterprise;
  account_kind = customer;
  customer_id = some owner;
  wallet_kind = kind;
  currency_code = code;
  balance = pos 0;
  lifetime_earned = 0;
  version = 0;
  is_deleted = false;
}

abbrev pub ensure_with : Option RewardWallet → RewardWallet → Book → Book × RewardWallet
ensure_with (some w) fresh b = (b, w)
ensure_with none fresh b =
    (record b { wallets = fresh ∷ b.wallets; next_wallet = b.next_wallet + 1 }, fresh)

unfoldable pub ensure_customer_wallet :
    ℕ → ℕ → RewardWalletKind → Option String → Book → Book × RewardWallet
ensure_customer_wallet enterprise owner kind code b =
    ensure_with (first_wallet (is_wallet_of enterprise owner kind code) b.wallets)
      (new_wallet b.next_wallet enterprise owner kind code) b

-- `enterprise_id = $1 AND idempotency_key = $10`
abbrev pub has_key : ℕ → String → LedgerEntry → Bool
has_key enterprise key e = (e.enterprise_id == enterprise) && str_eq e.idempotency_key key

abbrev pub find_entry : ℕ → String → List LedgerEntry → Option LedgerEntry
find_entry enterprise key [] = none
find_entry enterprise key (e ∷ es) =
    if has_key enterprise key e then some e else find_entry enterprise key es

-- `id = $2 AND enterprise_id = $1 AND is_deleted = false`
abbrev pub is_wallet : ℕ → ℕ → RewardWallet → Bool
is_wallet enterprise id w = (w.id == id) && (w.enterprise_id == enterprise) && not w.is_deleted

abbrev pub update_wallets :
    (RewardWallet → Bool) → (RewardWallet → RewardWallet) → List RewardWallet → List RewardWallet
update_wallets p f [] = []
update_wallets p f (w ∷ ws) = (if p w then f w else w) ∷ update_wallets p f ws

abbrev pub new_entry : ℕ → PostEntryInput → ℤ → LedgerEntry
new_entry id input balance_after = record {
  id = id;
  enterprise_id = input.enterprise_id;
  wallet_id = input.wallet_id;
  entry_kind = input.entry_kind;
  amount = input.amount;
  balance_after = balance_after;
  award_id = input.award_id;
  rule_id = input.rule_id;
  rule_version = input.rule_version;
  group_ref = input.group_ref;
  reverses_entry_id = input.reverses_entry_id;
  idempotency_key = input.idempotency_key;
  actor_kind = input.actor_kind;
  actor_id = input.actor_id;
  reason_code = input.reason_code;
  occurred_at_utc = input.occurred_at_utc;
}

-- An entry, null for want of funds, or one of the two errors.
pub data Posted : Type 0 where
  posted : LedgerEntry → Posted
  not_enough wallet_missing needs_negative : Posted

-- The wallet is changed and the entry written, in one statement.
abbrev pub write :
    PostEntryInput → (RewardWallet → RewardWallet) → RewardWallet → Book → Book × Posted
write input f w b =
    let e = new_entry b.next_entry input (f w).balance in
    (
      record b {
        wallets = update_wallets (is_wallet input.enterprise_id input.wallet_id) f b.wallets;
        entries = e ∷ b.entries;
        next_entry = b.next_entry + 1;
      },
      posted e,
    )

-- `isEarn && input.amount > 0 ? input.amount : 0`
abbrev pub lifetime_delta : Bool → ℤ → ℕ
lifetime_delta true (pos n) = n
lifetime_delta _ _ = 0

abbrev pub moved : ℤ → Bool → RewardWallet → RewardWallet
moved amount is_earn w = record w {
  balance = w.balance +ℤ amount;
  lifetime_earned = w.lifetime_earned + lifetime_delta is_earn amount;
  version = w.version + 1;
}

-- By the entry that has the key already and the wallet.
abbrev pub post_with :
    PostEntryInput → Bool → Option LedgerEntry → Option RewardWallet → Book → Book × Posted
post_with input is_earn (some e) w b = (b, posted e)
post_with input is_earn none none b = (b, wallet_missing)
post_with input is_earn none (some w) b = write input (moved input.amount is_earn) w b

unfoldable pub post : PostEntryInput → Bool → Book → Book × Posted
post input is_earn b =
    post_with input is_earn (find_entry input.enterprise_id input.idempotency_key b.entries)
      (first_wallet (is_wallet input.enterprise_id input.wallet_id) b.wallets) b

unfoldable pub credit : PostEntryInput → Book → Book × Posted
unfolding post
credit input b = post input true b

unfoldable pub post_unchecked : PostEntryInput → Book → Book × Posted
unfolding post
post_unchecked input b = post input false b

abbrev pub debited : ℤ → RewardWallet → RewardWallet
debited amount w = record w {
  balance = minus w.balance (magnitude amount);
  version = w.version + 1;
}

abbrev pub debit_with :
    PostEntryInput → Option LedgerEntry → Option RewardWallet → Book → Book × Posted
debit_with input (some e) w b = (b, posted e)
debit_with input none none b = (b, wallet_missing)
debit_with input none (some w) b =
    if at_least (magnitude input.amount) w.balance
    then write input (debited input.amount) w b
    else (b, not_enough)

unfoldable pub debit_if_sufficient : PostEntryInput → Book → Book × Posted
debit_if_sufficient input b =
    if is_negative input.amount
    then debit_with input (find_entry input.enterprise_id input.idempotency_key b.entries)
        (first_wallet (is_wallet input.enterprise_id input.wallet_id) b.wallets) b
    else (b, needs_negative)
