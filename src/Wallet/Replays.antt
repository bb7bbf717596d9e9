-- ===== src/Wallet/Replays.antt =====
-- Each idempotency key moves money once, and a debit never overdraws,
-- src/database/repositories/reward-wallet.repository.ts.
use wh_api_unified_service.Prelude.{
  ==_refl, All, Bool, Bool-cases, Option-cases, ap, arith, false, inl, inr, none, refl, some,
  str_eq_refl, subst, sym, true, ◌≡◌, ◌⊎◌,
}
use wh_api_unified_service.Wallet.{
  Book, LedgerEntry, PostEntryInput, RewardWallet, credit, debit_if_sufficient, debited, find_entry,
  first_wallet, is_wallet, not_enough, post, post_unchecked, posted, write,
}
use wh_api_unified_service.Wallet.Books.{IsBalanced}
use wh_api_unified_service.Wallet.Integers.{at_least, is_negative, magnitude, minus, negsuc, pos, ℤ}
use wh_api_unified_service.Wallet.Rows.{All-update_wallets, first_wallet-In, unique_wallet}

-- The entry that a call returned is the one that its key now finds.
posted_entry :
    (input : PostEntryInput) (is_earn : Bool) (b : Book) (e : LedgerEntry)
    → (post input is_earn b).1 ≡ posted e
    → find_entry input.enterprise_id input.idempotency_key (post input is_earn b).0.entries ≡ some e
unfolding post
posted_entry input is_earn b e done =
    elim (Option-cases (find_entry input.enterprise_id input.idempotency_key b.entries)) [
      | inr (a, found) ↦ ground (arith, found)
      | inl new ↦
          elim (Option-cases
            (first_wallet (is_wallet input.enterprise_id input.wallet_id) b.wallets)) [
              | inl missing ↦ ground (arith, missing)
              | inr (w, there) ↦
                  ground
                    (arith, there, str_eq_refl input.idempotency_key, ==_refl input.enterprise_id)
            ]
    ]

debited_entry :
    (input : PostEntryInput) (b : Book) (e : LedgerEntry)
    → (debit_if_sufficient input b).1 ≡ posted e
    → find_entry input.enterprise_id input.idempotency_key (debit_if_sufficient input b).0.entries
      ≡ some e
unfolding debit_if_sufficient
debited_entry input b e done =
    elim (Option-cases (find_entry input.enterprise_id input.idempotency_key b.entries)) [
      | inr (a, found) ↦ ground (arith, found)
      | inl new ↦
          elim (Option-cases
            (first_wallet (is_wallet input.enterprise_id input.wallet_id) b.wallets)) [
              | inl missing ↦ ground (arith, missing)
              | inr (w, there) ↦
                  ground
                    (arith, there, str_eq_refl input.idempotency_key, ==_refl input.enterprise_id)
            ]
    ]

-- A call whose key has an entry gets that entry and changes nothing.
replay :
    (input : PostEntryInput) (b : Book) (e : LedgerEntry)
    → find_entry input.enterprise_id input.idempotency_key b.entries ≡ some e
    → ((is_earn : Bool) → post input is_earn b ≡ (b, posted e))
      × (is_negative input.amount ≡ true → debit_if_sufficient input b ≡ (b, posted e))
unfolding post debit_if_sufficient
replay input b e found = (λ is_earn. rw found refl, λ negative. rw (negative, found) refl)

-- A key moves money once: after a credit, an unchecked posting or a debit that returned an entry, any
-- posting and any debit with the same enterprise and key, whatever else they say, return that entry
-- and leave wallets and ledger as they are.
pub a_key_moves_money_once :
    (input input' : PostEntryInput) (b : Book) (e : LedgerEntry)
    → input'.enterprise_id ≡ input.enterprise_id
    → input'.idempotency_key ≡ input.idempotency_key
    → (c : Book)
    → (((is_earn : Bool) × (post input is_earn b ≡ (c, posted e)))
        ⊎ (debit_if_sufficient input b ≡ (c, posted e)))
    → (credit input' c ≡ (c, posted e))
      × (post_unchecked input' c ≡ (c, posted e))
      × (is_negative input'.amount ≡ true → debit_if_sufficient input' c ≡ (c, posted e))
unfolding credit post_unchecked
a_key_moves_money_once input input' b e tenant key c done =
    let there : find_entry input.enterprise_id input.idempotency_key c.entries ≡ some e =
      elim done [
        | inl (is_earn, same) ↦
            subst (λ x. find_entry input.enterprise_id input.idempotency_key x.entries ≡ some e)
              (ap (λ x. x.0) same) (posted_entry input is_earn b e (ap (λ x. x.1) same))
        | inr same ↦
            subst (λ x. find_entry input.enterprise_id input.idempotency_key x.entries ≡ some e)
              (ap (λ x. x.0) same) (debited_entry input b e (ap (λ x. x.1) same))
      ] in
    let again = replay input' c e (rw (tenant, key) there) in (again.0 true, again.0 false, again.1)

-- No wallet is in debt.
abbrev pub IsSolvent : RewardWallet → Type 0
IsSolvent w = is_negative w.balance ≡ false

stays_solvent :
    (x amount : ℤ)
    → is_negative amount ≡ true
    → at_least (magnitude amount) x ≡ true
    → is_negative (minus x (magnitude amount)) ≡ false
stays_solvent (pos m) (pos n) negative enough = cc
stays_solvent (pos m) (negsuc n) negative enough = ground arith
stays_solvent (negsuc m) amount negative enough = cc

after_debit :
    (input : PostEntryInput) (w : RewardWallet) (b : Book)
    → IsBalanced b
    → first_wallet (is_wallet input.enterprise_id input.wallet_id) b.wallets ≡ some w
    → is_negative input.amount ≡ true
    → at_least (magnitude input.amount) w.balance ≡ true
    → All IsSolvent b.wallets
    → All IsSolvent (write input (debited input.amount) w b).0.wallets
after_debit input w b ok found negative enough solvent =
    let p = is_wallet input.enterprise_id input.wallet_id in
    let (there, mine) = first_wallet-In p b.wallets w found in
    All-update_wallets IsSolvent IsSolvent p (debited input.amount) b.wallets
      (λ v i was on.
        let same : v.id ≡ w.id = ground arith in
        let one = unique_wallet b.wallets v w ok.distinct i there same in
        stays_solvent v.balance input.amount negative
          (subst (λ x. at_least (magnitude input.amount) x.balance ≡ true) (sym one) enough))
      (λ v i was off. was) solvent

-- A debit takes only what is there: when no wallet is in debt none is afterwards, whatever the amount
-- and whichever wallet is named; and a debit that was refused for want of funds changed nothing and did
-- not use up its key.
pub debit_never_overdraws :
    (input : PostEntryInput) (b : Book)
    → IsBalanced b
    → All IsSolvent b.wallets
    → All IsSolvent (debit_if_sufficient input b).0.wallets
      × ((debit_if_sufficient input b).1 ≡ not_enough
          → ((debit_if_sufficient input b).0 ≡ b)
            × (find_entry input.enterprise_id input.idempotency_key b.entries ≡ none))
unfolding debit_if_sufficient
debit_never_overdraws input b ok solvent = elim (Bool-cases (is_negative input.amount)) [
  | inr positive ↦ rw positive (solvent, λ is. ground arith)
  | inl negative ↦
      rw negative
        (elim (Option-cases (find_entry input.enterprise_id input.idempotency_key b.entries)) [
          | inr (e, found) ↦ rw found (solvent, λ is. ground arith)
          | inl new ↦
              rw new
                (elim (Option-cases
                  (first_wallet (is_wallet input.enterprise_id input.wallet_id) b.wallets)) [
                    | inl missing ↦ rw missing (solvent, λ is. ground arith)
                    | inr (w, there) ↦
                        rw there (elim (Bool-cases (at_least (magnitude input.amount) w.balance)) [
                          | inr poor ↦ rw poor (solvent, λ is. (refl, refl))
                          | inl enough ↦ rw enough (
                            after_debit input w b ok there negative enough solvent,
                            λ is. ground arith,
                          )
                        ])
                  ])
        ])
]
