-- ===== src/Wallet/Tests.antt =====
-- The theorems on the wallets at concrete books.
use wh_api_unified_service.Prelude.{All, [], arith, false, inl, none, refl, some, true, ◌∷◌, ◌≡◌}
use wh_api_unified_service.Wallet.{
  Book, LedgerEntry, PostEntryInput, RewardWallet, burn, credit, debit_if_sufficient, earn,
  find_entry, new_entry, new_wallet, not_enough, points, post, post_unchecked, posted,
}
use wh_api_unified_service.Wallet.Books.{IsBalanced}
use wh_api_unified_service.Wallet.Integers.{negsuc, pos}
use wh_api_unified_service.Wallet.Replays.{IsSolvent, a_key_moves_money_once, debit_never_overdraws}

abbrev purse : RewardWallet
purse = record (new_wallet 1 7 5 points none) { balance = pos 30 }

abbrev earned : PostEntryInput
earned = record {
  enterprise_id = 7;
  wallet_id = 1;
  entry_kind = earn;
  amount = pos 30;
  idempotency_key = "award-1";
  occurred_at_utc = 10;
  award_id = some 1;
  rule_id = none;
  rule_version = none;
  group_ref = none;
  reverses_entry_id = none;
  actor_kind = none;
  actor_id = none;
  reason_code = none;
}

abbrev burnt : PostEntryInput
burnt = record earned { entry_kind = burn; amount = negsuc 39; idempotency_key = "burn-1" }

abbrev entry : LedgerEntry
entry = new_entry 1 earned (pos 30)

abbrev opened : Book
opened = record {
  wallets = new_wallet 1 7 5 points none ∷ [];
  entries = [];
  next_wallet = 2;
  next_entry = 1;
}

abbrev paid : Book
paid = record {
  wallets = record purse { lifetime_earned = 30; version = 1 } ∷ [];
  entries = entry ∷ [];
  next_wallet = 2;
  next_entry = 2;
}

paid-IsBalanced : IsBalanced paid
paid-IsBalanced = record {
  balances = (refl, tt);
  running = (refl, tt);
  distinct = (tt, tt);
  wallets_below = (omega arith, tt);
  entries_below = (omega arith, tt);
}

was_paid : post earned true opened ≡ (paid, posted entry)
unfolding post
was_paid = refl

a_key_moves_money_once_example :
    (credit (record earned { amount = pos 99 }) paid ≡ (paid, posted entry))
    × (post_unchecked (record earned { amount = pos 99 }) paid ≡ (paid, posted entry))
    × (false ≡ true
        → debit_if_sufficient (record earned { amount = pos 99 }) paid ≡ (paid, posted entry))
a_key_moves_money_once_example =
    a_key_moves_money_once earned (record earned { amount = pos 99 }) opened entry refl refl paid
      (inl (true, was_paid))

debit_never_overdraws_example :
    All IsSolvent (debit_if_sufficient burnt paid).0.wallets
    × ((debit_if_sufficient burnt paid).1 ≡ not_enough
        → ((debit_if_sufficient burnt paid).0 ≡ paid) × (find_entry 7 "burn-1" paid.entries ≡ none))
debit_never_overdraws_example = debit_never_overdraws burnt paid paid-IsBalanced (refl, tt)
