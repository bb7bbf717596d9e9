-- ===== src/Wallet/Rows.antt =====
-- Finding and changing wallets whose ids are distinct,
-- src/database/repositories/reward-wallet.repository.ts.
use wh_api_unified_service.Prelude.{
  All, All-In, Bool, Bool-cases, In, List, [], ap, arith, false, if◌then◌else◌, inl, inr, refl,
  some, subst, sym, true, ◌∙◌, ◌∷◌, ◌≡◌, ◌≢◌,
}
use wh_api_unified_service.Wallet.{RewardWallet, first_wallet, update_wallets}
use wh_api_unified_service.Wallet.Integers.{◌+ℤ◌, ℤ}

abbrev pub Distinct : List RewardWallet → Type 0
Distinct [] = Unit
Distinct (w ∷ ws) = All (λ v. v.id ≢ w.id) ws × Distinct ws

pub first_wallet-In :
    (p : RewardWallet → Bool) (ws : List RewardWallet) (w : RewardWallet)
    → first_wallet p ws ≡ some w
    → In w ws × (p w ≡ true)
first_wallet-In p [] w h = cc
first_wallet-In p (x ∷ xs) w h = elim (Bool-cases (p x)) [
  | inl on ↦ let same : w ≡ x = ground arith in (inl same, subst (λ y. p y ≡ true) (sym same) on)
  | inr off ↦ let (i, on) = first_wallet-In p xs w (ground arith) in (inr i, on)
]

-- A change of a wallet that adds the amount of the entry.
pub record Adds (amount : ℤ) (f : RewardWallet → RewardWallet) : Type 0 where
  pub id : (w : RewardWallet) → (f w).id ≡ w.id
  pub adds : (w : RewardWallet) → (f w).balance ≡ w.balance +ℤ amount

pub unique_wallet :
    (ws : List RewardWallet) (a b : RewardWallet)
    → Distinct ws
    → In a ws
    → In b ws
    → a.id ≡ b.id
    → a ≡ b
unique_wallet [] a b h i j e = absurd i
unique_wallet (x ∷ xs) a b h (inl i) (inl j) e = i ∙ sym j
unique_wallet (x ∷ xs) a b h (inl i) (inr j) e =
    absurd (All-In (λ v. v.id ≢ x.id) xs b h.0 j (sym e ∙ ap RewardWallet.id i))
unique_wallet (x ∷ xs) a b h (inr i) (inl j) e =
    absurd (All-In (λ v. v.id ≢ x.id) xs a h.0 i (e ∙ ap RewardWallet.id j))
unique_wallet (x ∷ xs) a b h (inr i) (inr j) e = unique_wallet xs a b h.1 i j e

module _ (P Q : RewardWallet → Type 0) (p : RewardWallet → Bool)
    (f : RewardWallet → RewardWallet) where
  pub All-update_wallets :
      (ws : List RewardWallet)
      → ((w : RewardWallet) → In w ws → P w → p w ≡ true → Q (f w))
      → ((w : RewardWallet) → In w ws → P w → p w ≡ false → Q w)
      → All P ws
      → All Q (update_wallets p f ws)
  All-update_wallets [] on off h = tt
  All-update_wallets (w ∷ ws) on off h = (
    elim (Bool-cases (p w)) [
      | inl hit ↦ rw hit (on w (inl refl) h.0 hit)
      | inr miss ↦ rw miss (off w (inl refl) h.0 miss)
    ],
    All-update_wallets ws (λ a i. on a (inr i)) (λ a i. off a (inr i)) h.1,
  )

module _ (p : RewardWallet → Bool) (f : RewardWallet → RewardWallet)
    (same : (w : RewardWallet) → (f w).id ≡ w.id) where
  touched-id : (w : RewardWallet) → (if p w then f w else w).id ≡ w.id
  touched-id w = elim (Bool-cases (p w)) [ inl on ↦ rw on (same w) | inr off ↦ rw off refl ]

  Apart-update :
      (w : RewardWallet) (ws : List RewardWallet)
      → All (λ v. v.id ≢ w.id) ws
      → All (λ v. v.id ≢ (if p w then f w else w).id) (update_wallets p f ws)
  Apart-update w [] h = tt
  Apart-update w (v ∷ ws) h = (rw (touched-id w, touched-id v) h.0, Apart-update w ws h.1)

  pub Distinct-update : (ws : List RewardWallet) → Distinct ws → Distinct (update_wallets p f ws)
  Distinct-update [] h = tt
  Distinct-update (w ∷ ws) h = (Apart-update w ws h.0, Distinct-update ws h.1)
