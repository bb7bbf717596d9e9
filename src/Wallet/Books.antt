-- ===== src/Wallet/Books.antt =====
-- The books balance, src/database/repositories/reward-wallet.repository.ts.
use wh_api_unified_service.Prelude.{
  ◌+◌, ◌<◌, ◌==◌, ==_refl, All, All-In, All-imp, Bool, Bool-cases, In, List, Option, Option-cases,
  String, [], ap, arith, false, false≢true, if◌then◌else◌, inl, inr, refl, some, subst, sym, true,
  ℕ, ◌∙◌, ◌∷◌, ◌≡◌, ◌≢◌,
}
use wh_api_unified_service.Wallet.{
  Book, LedgerEntry, PostEntryInput, RewardWallet, RewardWalletKind, credit, debit_if_sufficient,
  debited, ensure_customer_wallet, find_entry, first_wallet, is_wallet, is_wallet_of, moved,
  new_entry, post, post_unchecked, write,
}
use wh_api_unified_service.Wallet.Integers.{
  ◌+ℤ◌, at_least, is_negative, magnitude, minus, negsuc, pos, ℤ,
}
use wh_api_unified_service.Wallet.Rows.{
  Adds, All-update_wallets, Distinct, Distinct-update, first_wallet-In, unique_wallet,
}

-- What the entries of a wallet add up to, the oldest first.
abbrev pub total : ℕ → List LedgerEntry → ℤ
total id [] = pos 0
total id (e ∷ es) = let rest = total id es in if e.wallet_id == id then rest +ℤ e.amount else rest

-- Each entry carries what its wallet's entries added up to when it was written.
abbrev pub HasRunningBalance : List LedgerEntry → Type 0
HasRunningBalance [] = Unit
HasRunningBalance (e ∷ es) = (e.balance_after ≡ total e.wallet_id (e ∷ es)) × HasRunningBalance es

pub record IsBalanced (b : Book) : Type 0 where
  pub balances : All (λ w. w.balance ≡ total w.id b.entries) b.wallets
  pub running : HasRunningBalance b.entries
  pub distinct : Distinct b.wallets
  pub wallets_below : All (λ w. w.id < b.next_wallet) b.wallets
  pub entries_below : All (λ e. e.wallet_id < b.next_wallet) b.entries

-- The calls that change the books.
pub data BookStep (b : Book) : Book → Type 0 where
  ensured :
      (enterprise owner : ℕ) (kind : RewardWalletKind) (code : Option String)
      → BookStep b (ensure_customer_wallet enterprise owner kind code b).0
  was_credited : (input : PostEntryInput) → BookStep b (credit input b).0
  was_posted : (input : PostEntryInput) → BookStep b (post_unchecked input b).0
  was_debited : (input : PostEntryInput) → BookStep b (debit_if_sufficient input b).0

pub data BookReach (b : Book) : Book → Type 0 where
  begin : BookReach b b
  after : {c d : Book} → BookReach b c → BookStep c d → BookReach b d

pub BookReach-trans : {b c d : Book} → BookReach b c → BookReach c d → BookReach b d
BookReach-trans r begin = r
BookReach-trans r (after q s) = after (BookReach-trans r q) s

abbrev pub empty_book : Book
empty_book = record { wallets = []; entries = []; next_wallet = 1; next_entry = 1 }

no_entries : (id : ℕ) (es : List LedgerEntry) → All (λ e. e.wallet_id < id) es → total id es ≡ pos 0
no_entries id [] h = refl
no_entries id (e ∷ es) h = let below = h.0 in ground (arith, no_entries id es h.1)

total_same :
    (id : ℕ) (e : LedgerEntry) (es : List LedgerEntry)
    → e.wallet_id ≡ id
    → total id (e ∷ es) ≡ total id es +ℤ e.amount
total_same id e es at = rw at (rw (==_refl id) refl)

total_other :
    (id : ℕ) (e : LedgerEntry) (es : List LedgerEntry)
    → e.wallet_id ≢ id
    → total id (e ∷ es) ≡ total id es
total_other id e es away = ground arith

-- A wallet that the entry is of still has the sum of its entries as its balance.
written_on :
    (e : LedgerEntry) (es : List LedgerEntry) (f : RewardWallet → RewardWallet) (v : RewardWallet)
    → Adds e.amount f
    → e.wallet_id ≡ v.id
    → v.balance ≡ total v.id es
    → (f v).balance ≡ total (f v).id (e ∷ es)
written_on e es f v h same was =
    h.adds v
    ∙ ap (λ x. x +ℤ e.amount) was
    ∙ sym (total_same v.id e es same)
    ∙ ap (λ n. total n (e ∷ es)) (sym (h.id v))

-- So has any other.
written_off :
    (p : RewardWallet → Bool) (ws : List RewardWallet) (e : LedgerEntry) (es : List LedgerEntry)
    (v w : RewardWallet)
    → Distinct ws
    → In v ws
    → In w ws
    → w.id ≡ e.wallet_id
    → p w ≡ true
    → p v ≡ false
    → v.balance ≡ total v.id es
    → v.balance ≡ total v.id (e ∷ es)
written_off p ws e es v w apart i there at mine off was =
    was
    ∙ sym (
        total_other v.id e es (λ same.
          let one : v ≡ w = unique_wallet ws v w apart i there (sym same ∙ sym at) in
          false≢true (sym off ∙ subst (λ x. p x ≡ true) (sym one) mine)))

write-IsBalanced :
    (input : PostEntryInput) (f : RewardWallet → RewardWallet) (w : RewardWallet) (b : Book)
    → Adds input.amount f
    → first_wallet (is_wallet input.enterprise_id input.wallet_id) b.wallets ≡ some w
    → IsBalanced b
    → IsBalanced (write input f w b).0
write-IsBalanced input f w b h found ok =
    let p = is_wallet input.enterprise_id input.wallet_id in
    let e = new_entry b.next_entry input (f w).balance in
    let (there, mine) = first_wallet-In p b.wallets w found in
    let at : w.id ≡ input.wallet_id = ground arith in
    let is_balance : w.balance ≡ total w.id b.entries =
      All-In (λ v. v.balance ≡ total v.id b.entries) b.wallets w ok.balances there in
    let run : (f w).balance ≡ total input.wallet_id (e ∷ b.entries) =
      h.adds w
      ∙ ap (λ x. x +ℤ input.amount) is_balance
      ∙ ap (λ n. total n b.entries +ℤ input.amount) at
      ∙ sym (total_same input.wallet_id e b.entries refl) in
    record {
      balances =
          All-update_wallets (λ v. v.balance ≡ total v.id b.entries)
            (λ v. v.balance ≡ total v.id (e ∷ b.entries)) p f b.wallets
            (λ v i was on.
              written_on e b.entries f v h
                (let same : input.wallet_id ≡ v.id = ground arith in same) was)
            (λ v i was off.
              written_off p b.wallets e b.entries v w ok.distinct i there at mine off was)
            ok.balances;
      running = (run, ok.running);
      distinct = Distinct-update p f h.id b.wallets ok.distinct;
      wallets_below =
          All-update_wallets (λ v. v.id < b.next_wallet) (λ v. v.id < b.next_wallet) p f b.wallets
            (λ v i lt on. rw (h.id v) lt) (λ v i lt off. lt) ok.wallets_below;
      entries_below = (
        subst (λ n. n < b.next_wallet) at
            (All-In (λ v. v.id < b.next_wallet) b.wallets w ok.wallets_below there),
        ok.entries_below,
      );
    }

credit-Adds : (amount : ℤ) (is_earn : Bool) → Adds amount (moved amount is_earn)
credit-Adds amount is_earn = record { id = λ w. refl; adds = λ w. refl }

minus-magnitude :
    (x amount : ℤ) → is_negative amount ≡ true → minus x (magnitude amount) ≡ x +ℤ amount
minus-magnitude x (pos n) h = cc
minus-magnitude x (negsuc n) h = refl

debit-Adds : (amount : ℤ) → is_negative amount ≡ true → Adds amount (debited amount)
debit-Adds amount h = record { id = λ w. refl; adds = λ w. minus-magnitude w.balance amount h }

post-IsBalanced :
    (input : PostEntryInput) (is_earn : Bool) (b : Book)
    → IsBalanced b
    → IsBalanced (post input is_earn b).0
unfolding post
post-IsBalanced input is_earn b ok =
    elim (Option-cases (find_entry input.enterprise_id input.idempotency_key b.entries)) [
      | inr (e, found) ↦ rw found ok
      | inl new ↦
          rw new
            (elim (Option-cases
              (first_wallet (is_wallet input.enterprise_id input.wallet_id) b.wallets)) [
                | inl missing ↦ rw missing ok
                | inr (w, there) ↦ rw there (
                    write-IsBalanced input (moved input.amount is_earn) w b
                      (credit-Adds input.amount is_earn) there ok)
              ])
    ]

debit-IsBalanced :
    (input : PostEntryInput) (b : Book) → IsBalanced b → IsBalanced (debit_if_sufficient input b).0
unfolding debit_if_sufficient
debit-IsBalanced input b ok = elim (Bool-cases (is_negative input.amount)) [
  | inr positive ↦ rw positive ok
  | inl negative ↦
      rw negative
        (elim (Option-cases (find_entry input.enterprise_id input.idempotency_key b.entries)) [
          | inr (e, found) ↦ rw found ok
          | inl new ↦
              rw new
                (elim (Option-cases
                  (first_wallet (is_wallet input.enterprise_id input.wallet_id) b.wallets)) [
                    | inl missing ↦ rw missing ok
                    | inr (w, there) ↦
                        rw there (elim (Bool-cases (at_least (magnitude input.amount) w.balance)) [
                          | inr poor ↦ rw poor ok
                          | inl enough ↦ rw enough (
                              write-IsBalanced input (debited input.amount) w b
                                (debit-Adds input.amount negative) there ok)
                        ])
                  ])
        ])
]

ensure-IsBalanced :
    (enterprise owner : ℕ) (kind : RewardWalletKind) (code : Option String) (b : Book)
    → IsBalanced b
    → IsBalanced (ensure_customer_wallet enterprise owner kind code b).0
unfolding ensure_customer_wallet
ensure-IsBalanced enterprise owner kind code b ok =
    elim (Option-cases (first_wallet (is_wallet_of enterprise owner kind code) b.wallets)) [
      | inr (w, there) ↦ rw there ok
      | inl new ↦ rw new (record {
        balances = (sym (no_entries b.next_wallet b.entries ok.entries_below), ok.balances);
        running = ok.running;
        distinct = (
          All-imp (λ v. v.id < b.next_wallet) (λ v. v.id ≢ b.next_wallet)
              (λ v lt. omega (arith, lt)) b.wallets ok.wallets_below,
          ok.distinct,
        );
        wallets_below = (
          omega arith,
          All-imp (λ v. v.id < b.next_wallet) (λ v. v.id < b.next_wallet + 1)
              (λ v lt. omega (arith, lt)) b.wallets ok.wallets_below,
        );
        entries_below =
            All-imp (λ e. e.wallet_id < b.next_wallet) (λ e. e.wallet_id < b.next_wallet + 1)
              (λ e lt. omega (arith, lt)) b.entries ok.entries_below;
      })
    ]

step-IsBalanced : {b c : Book} → BookStep b c → IsBalanced b → IsBalanced c
unfolding credit post_unchecked
step-IsBalanced {b} (ensured enterprise owner kind code) ok =
    ensure-IsBalanced enterprise owner kind code b ok
step-IsBalanced {b} (was_credited input) ok = post-IsBalanced input true b ok
step-IsBalanced {b} (was_posted input) ok = post-IsBalanced input false b ok
step-IsBalanced {b} (was_debited input) ok = debit-IsBalanced input b ok

pub BookReach-keeps : {b c : Book} → BookReach b c → IsBalanced b → IsBalanced c
BookReach-keeps begin ok = ok
BookReach-keeps (after r s) ok = step-IsBalanced s (BookReach-keeps r ok)

-- The balance of a wallet is a projection of the ledger: after any sequence of calls on empty books,
-- each wallet's balance is the sum of its entries, each entry carries the balance that it led to, and
-- no two wallets have one id.
pub BookReach-IsBalanced : {b : Book} → BookReach empty_book b → IsBalanced b
BookReach-IsBalanced r =
    BookReach-keeps r (record {
      balances = tt;
      running = tt;
      distinct = tt;
      wallets_below = tt;
      entries_below = tt;
    })
