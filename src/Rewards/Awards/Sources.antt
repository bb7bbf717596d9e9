-- ===== src/Rewards/Awards/Sources.antt =====
-- One award per rule, customer and source, src/database/repositories/reward-award.repository.ts.
use wh_api_unified_service.Prelude.{
  ◌&&◌, ◌==◌, Bool, Bool-cases, List, [], any, false, inl, inr, not, refl, str_eq, ℕ, ◌∙◌, ◌∷◌, ◌≡◌,
}
use wh_api_unified_service.Rewards.Awards.{
  CreateAwardInput, create_if_absent, new_award, same_source, update_awards,
}
use wh_api_unified_service.Rewards.Ledgers.{Ledgers, RewardAward}

-- Both rows count for the unique index, and they agree on its columns.
abbrev pub clashes : RewardAward → RewardAward → Bool
clashes a b =
    not a.is_deleted
    && (b.enterprise_id == a.enterprise_id)
    && (b.rule_id == a.rule_id)
    && (b.customer_id == a.customer_id)
    && str_eq b.source_ref_kind a.source_ref_kind
    && (b.source_ref_id == a.source_ref_id)
    && not b.is_deleted

abbrev pub ClashWithNone : RewardAward → List RewardAward → Type 0
ClashWithNone a bs = any (clashes a) bs ≡ false

-- No two awards are for one rule, one customer and one source.
abbrev pub HaveSources : List RewardAward → Type 0
HaveSources [] = Unit
HaveSources (a ∷ as') = ClashWithNone a as' × HaveSources as'

-- An update of the columns that are not in the unique index.
abbrev pub KeepsSource : (RewardAward → RewardAward) → Type 0
KeepsSource f =
    (a b : RewardAward) → (clashes (f a) b ≡ clashes a b) × (clashes a (f b) ≡ clashes a b)

module _ (enterprise id : ℕ) (f : RewardAward → RewardAward) (keeps : KeepsSource f) where
  any-update :
      (a : RewardAward) (bs : List RewardAward)
      → any (clashes a) (update_awards enterprise id f bs) ≡ any (clashes a) bs
  unfolding update_awards
  any-update a [] = refl
  any-update a (b ∷ bs) = elim (Bool-cases ((b.id == id) && (b.enterprise_id == enterprise))) [
    | inl this ↦ rw (this, (keeps a b).1, any-update a bs) refl
    | inr other ↦ rw (other, any-update a bs) refl
  ]

  any-same : (a : RewardAward) (bs : List RewardAward) → any (clashes (f a)) bs ≡ any (clashes a) bs
  any-same a [] = refl
  any-same a (b ∷ bs) = rw ((keeps a b).0, any-same a bs) refl

  pub update_awards-HaveSources :
      (as' : List RewardAward) → HaveSources as' → HaveSources (update_awards enterprise id f as')
  unfolding update_awards
  update_awards-HaveSources [] h = tt
  update_awards-HaveSources (a ∷ as') h =
      let rest = update_awards-HaveSources as' h.1 in
      elim (Bool-cases ((a.id == id) && (a.enterprise_id == enterprise))) [
        | inl this ↦ rw this (any-same a _ ∙ any-update a as' ∙ h.0, rest)
        | inr other ↦ rw other (any-update a as' ∙ h.0, rest)
      ]

pub create_if_absent-HaveSources :
    (input : CreateAwardInput) (l : Ledgers)
    → HaveSources l.awards
    → HaveSources (create_if_absent input l).0.awards
unfolding create_if_absent same_source new_award
create_if_absent-HaveSources input l h = elim (Bool-cases (any (same_source input) l.awards)) [
  | inl old ↦ rw old h
  | inr fresh ↦ rw fresh (fresh, h)
]
