-- ===== src/Rewards/Benefits/Undoing.antt =====
-- Money that was given is taken back whole, src/modules/rewards/benefits.
use Prim.Native.String.{count}
use text.Mathlib.TextLemmas.{length-append}
use wh_api_unified_service.Prelude.{
  ◌+◌, ◌<>◌, ◌==◌, ==_refl, Bool, Bool-cases, List, Option, Option-cases, String, [], ap, arith,
  false, inl, inr, none, refl, some, str_eq, str_eq_iff, subst, suc, true, zero, ℕ, ◌∙◌, ◌∷◌, ◌≡◌,
}
use wh_api_unified_service.Rewards.Benefits.{
  BenefitContext, apply_money, compensate_benefit, compensate_book, money_back, negated, posting,
}
use wh_api_unified_service.Rewards.Ledgers.{Compensation, Ledgers, money}
use wh_api_unified_service.Wallet.{
  Book, RewardWallet, RewardWalletKind, credit, earn, ensure_customer_wallet, find_entry,
  first_wallet, is_wallet, is_wallet_of, moved, post, post_unchecked, update_wallets, write,
}
use wh_api_unified_service.Wallet.Books.{total}
use wh_api_unified_service.Wallet.Integers.{◌+ℤ◌, negsuc, pos, ℤ}

-- A key is not its own reversal's.
longer : (s : String) → str_eq s (s <> ":reversal") ≡ false
longer s = elim (Bool-cases (str_eq s (s <> ":reversal"))) [
  | inr differ ↦ differ
  | inl same ↦
      let e : s ≡ s <> ":reversal" = (str_eq_iff s (s <> ":reversal")).0 same in
      let n : count s ≡ count s + 9 = ap count e ∙ length-append s ":reversal" in
      absurd (omega (arith, n))
]

cancels : (x : ℤ) (n : ℕ) → x +ℤ pos n +ℤ negated n ≡ x
cancels (pos m) zero = ap pos (omega arith)
cancels (pos m) (suc n) = ground arith
cancels (negsuc m) zero = ground arith
cancels (negsuc m) (suc n) = ground arith

-- The wallet that is updated is still there.
still-there :
    (p : RewardWallet → Bool) (f : RewardWallet → RewardWallet) (ws : List RewardWallet)
    (w : RewardWallet)
    → ((v : RewardWallet) → p (f v) ≡ p v)
    → first_wallet p ws ≡ some w
    → first_wallet p (update_wallets p f ws) ≡ some (f w)
still-there p f [] w keeps h = cc
still-there p f (v ∷ vs) w keeps h = elim (Bool-cases (p v)) [
  | inl on ↦ let same : v ≡ w = cc in rw (on, keeps v, on) (ap (λ x. some (f x)) same)
  | inr off ↦ rw (off, off) (still-there p f vs w keeps (rw off at h))
]

-- Once the amount has been written to a wallet that is there.
goes_back :
    (group : String) (id wallet amount : ℕ) (ctx : BenefitContext) (b : Book) (v : RewardWallet)
    → find_entry ctx.enterprise_id (ctx.idempotency_key <> ":reversal") b.entries ≡ none
    → first_wallet (is_wallet ctx.enterprise_id wallet) b.wallets ≡ some v
    → (c : Book) × (compensate_book group
          (money b.next_entry wallet amount)
          ctx
          (write
            (posting ctx wallet earn (pos amount) ctx.idempotency_key)
            (moved (pos amount) true)
            v
            b).0
        ≡ some c)
      × (total id c.entries ≡ total id b.entries)
unfolding compensate_book post_unchecked post
goes_back group id wallet amount ctx b v fresh there =
    let input = posting ctx wallet earn (pos amount) ctx.idempotency_key in
    let w = (write input (moved (pos amount) true) v b).0 in
    let own = longer ctx.idempotency_key in
    let still =
      still-there (is_wallet ctx.enterprise_id wallet) (moved (pos amount) true) b.wallets v
        (λ x. refl) there in
    let back = money_back b.next_entry wallet amount ctx in
    (
      (write back (moved (negated amount) false) (moved (pos amount) true v) w).0,
      rw (own, fresh, still, ==_refl ctx.enterprise_id) refl,
      elim (Bool-cases (wallet == id)) [
        | inl mine ↦ rw mine (cancels (total id b.entries) amount)
        | inr other ↦ rw other refl
      ],
    )

ensure-entries :
    (enterprise owner : ℕ) (kind : RewardWalletKind) (code : Option String) (b : Book)
    → (ensure_customer_wallet enterprise owner kind code b).0.entries ≡ b.entries
unfolding ensure_customer_wallet
ensure-entries enterprise owner kind code b =
    elim (Option-cases (first_wallet (is_wallet_of enterprise owner kind code) b.wallets)) [
      | inl new ↦ rw new refl
      | inr (w, there) ↦ rw there refl
    ]

-- What was kept of a grant takes it back: after points or money were granted under a key that no entry
-- has, nor its reversal's, the compensation succeeds, and the entries of every wallet add up to what they
-- did before the grant.
pub money_comes_back :
    (group : String) (id : ℕ) (kind : RewardWalletKind) (code : Option String) (amount : ℕ)
    (ctx : BenefitContext) (l l' : Ledgers) (kept : Compensation)
    → find_entry ctx.enterprise_id ctx.idempotency_key l.book.entries ≡ none
    → find_entry ctx.enterprise_id (ctx.idempotency_key <> ":reversal") l.book.entries ≡ none
    → apply_money kind code amount ctx l ≡ some (l', kept)
    → (m : Ledgers) × (compensate_benefit group kept ctx l' ≡ some m)
      × (total id m.book.entries ≡ total id l.book.entries)
unfolding apply_money credit post compensate_benefit
money_comes_back group id kind code amount ctx l l' kept fresh unreversed done =
    let (b, w) = ensure_customer_wallet ctx.enterprise_id ctx.customer_id kind code l.book in
    let same = ensure-entries ctx.enterprise_id ctx.customer_id kind code l.book in
    let fresh' : find_entry ctx.enterprise_id ctx.idempotency_key b.entries ≡ none =
      rw same fresh in
    let unreversed' : find_entry ctx.enterprise_id (ctx.idempotency_key <> ":reversal") b.entries
        ≡ none =
      rw same unreversed in
    elim (Option-cases (first_wallet (is_wallet ctx.enterprise_id w.id) b.wallets)) [
      | inl missing ↦ let no : none ≡ some (l', kept) = rw (fresh', missing) at done in cc
      | inr (v, there) ↦
          let (c, back, sum) = goes_back group id w.id amount ctx b v unreversed' there in
          let written =
            (write (posting ctx w.id earn (pos amount) ctx.idempotency_key)
              (moved (pos amount) true) v b).0 in
          let was : some (record l { book = written }, money b.next_entry w.id amount)
              ≡ some (l', kept) =
            rw (fresh', there) at done in
          let state : record l { book = written } ≡ l' = cc in
          let keeps : money b.next_entry w.id amount ≡ kept = cc in
          (
            record l { book = c },
            subst (λ k. compensate_benefit group k ctx l' ≡ some (record l { book = c })) keeps
                (subst
                  (λ u.
                    compensate_benefit group (money b.next_entry w.id amount) ctx u
                    ≡ some (record l { book = c }))
                  state (rw back refl)),
            sum ∙ ap (total id) same,
          )
    ]
