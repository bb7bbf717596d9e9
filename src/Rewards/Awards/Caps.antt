-- ===== src/Rewards/Awards/Caps.antt =====
-- The counters of caps, src/database/repositories/reward-award.repository.ts.
use wh_api_unified_service.Prelude.{
  ◌+◌, ◌-◌, All, Bool-cases, List, String, [], arith, if◌then◌else◌, inl, inr, ltb, max, refl,
  str_eq_refl, true, ℕ, ◌∷◌, ◌≡◌, ◌≤◌,
}
use wh_api_unified_service.Rewards.Awards.{
  claim_cap_slot, claim_slot, is_counter, release_cap_slot, release_slot,
}
use wh_api_unified_service.Rewards.Ledgers.{CapCounter, Ledgers}

abbrev pub IsWithinCap : CapCounter → Type 0
IsWithinCap c = c.used ≤ max c.cap 1

-- No counter is past its cap, or past 1 where the cap is 0: the first claim inserts a count of 1.
abbrev pub AreCapped : Ledgers → Type 0
AreCapped l = All IsWithinCap l.counters

module _ (enterprise rule owner : ℕ) (period : String) where
  claim_slot-All :
      (cap : ℕ) (cs : List CapCounter)
      → All IsWithinCap cs
      → All IsWithinCap (claim_slot enterprise rule owner period cap cs).0
  unfolding claim_slot
  claim_slot-All cap [] h = (omega arith, tt)
  claim_slot-All cap (c ∷ cs) h = ground (arith, claim_slot-All cap cs)

  pub claim_cap_slot-AreCapped :
      (cap : ℕ) (l : Ledgers)
      → AreCapped l
      → AreCapped (claim_cap_slot enterprise rule owner period cap l).0
  unfolding claim_cap_slot
  claim_cap_slot-AreCapped cap l h = claim_slot-All cap l.counters h

  release_slot-All :
      (cs : List CapCounter)
      → All IsWithinCap cs
      → All IsWithinCap (release_slot enterprise rule owner period cs)
  unfolding release_slot
  release_slot-All [] h = h
  release_slot-All (c ∷ cs) h = ground (arith, release_slot-All cs)

  pub release_cap_slot-AreCapped :
      (l : Ledgers) → AreCapped l → AreCapped (release_cap_slot enterprise rule owner period l)
  unfolding release_cap_slot
  release_cap_slot-AreCapped l h = release_slot-All l.counters h

  -- How often the slot is taken, by the first counter of the key.
  pub used_of : List CapCounter → ℕ
  used_of [] = 0
  used_of (c ∷ cs) =
      let rest = used_of cs in if is_counter enterprise rule owner period c then c.used else rest

  own_counter :
      (used cap : ℕ)
      → is_counter enterprise rule owner period (record {
        enterprise_id = enterprise;
        rule_id = rule;
        customer_id = owner;
        period_key = period;
        used = used;
        cap = cap;
      })
        ≡ true
  unfolding is_counter
  own_counter used cap = ground (arith, str_eq_refl period)

  other_used :
      (c : CapCounter) (used : ℕ)
      → is_counter enterprise rule owner period (record c { used = used })
        ≡ is_counter enterprise rule owner period c
  unfolding is_counter
  other_used c used = refl

  -- A claim that succeeds takes one slot more, and the release gives it back.
  pub claim-release :
      (cap : ℕ) (cs : List CapCounter)
      → (claim_slot enterprise rule owner period cap cs).1 ≡ true
      → (used_of (claim_slot enterprise rule owner period cap cs).0 ≡ used_of cs + 1)
        × (used_of (
              release_slot enterprise rule owner period
                (claim_slot enterprise rule owner period cap cs).0)
            ≡ used_of cs)
  unfolding claim_slot release_slot used_of
  claim-release cap [] h = rw (own_counter 1 cap, own_counter 0 cap) (refl, refl)
  claim-release cap (c ∷ cs) h = elim (Bool-cases (is_counter enterprise rule owner period c)) [
    | inl this ↦ elim (Bool-cases (ltb c.used c.cap)) [
      | inl room ↦
          rw (this, room, other_used c (c.used + 1), this, other_used c (c.used + 1 - 1), this)
            (refl, ground arith)
      | inr full ↦ ground arith
    ]
    | inr other ↦ ground (arith, claim-release cap cs)
  ]
