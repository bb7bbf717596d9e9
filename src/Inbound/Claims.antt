-- ===== src/Inbound/Claims.antt =====
-- What a claim takes and returns, src/database/repositories/inbound-event.repository.ts.
use wh_api_unified_service.Prelude.{
  ◌*◌, ◌+◌, ◌==◌, ==_refl, ==→eq, All, Bool, Bool-cases, In, In-filter, In-sort, List, String, [],
  any, ap, arith, filter, if◌then◌else◌, inl, inr, refl, sym, true, ℕ, ◌∷◌, ◌≡◌,
}
use wh_api_unified_service.Inbound.{
  InboundEvent, InboundLedger, claim_batch, in_ids, inbound_runs_first, select_inbound, taken_row,
  update_events, update_inbound,
}

abbrev pub has_inbound_id : ℕ → InboundEvent → Bool
has_inbound_id i e = e.id == i

-- Whether an id is among some ids does not depend on the row that has it.
pub ids_agree : (ids : List ℕ) (a b : InboundEvent) → a.id ≡ b.id → in_ids ids a ≡ in_ids ids b
ids_agree ids a b at = ap (λ k. any (λ j. j == k) ids) at

pub In-any :
    (i : ℕ) (es : List InboundEvent)
    → any (has_inbound_id i) es ≡ true
    → (e : InboundEvent) × In e es × (e.id ≡ i)
In-any i [] h = cc
In-any i (e ∷ es) h = elim (Bool-cases (e.id == i)) [
  | inl on ↦ (e, inl refl, ==→eq e.id i on)
  | inr off ↦ let (a, j, at) = In-any i es (ground arith) in (a, inr j, at)
]

pub any-In :
    (i : ℕ) (es : List InboundEvent) (e : InboundEvent)
    → In e es
    → e.id ≡ i
    → any (has_inbound_id i) es ≡ true
any-In i [] e j at = absurd j
any-In i (x ∷ es) e (inl same) at =
    let here : (x.id == i) ≡ true = rw (ap InboundEvent.id (sym same), at) (==_refl i) in
    rw here refl
any-In i (x ∷ es) e (inr j) at = let rest = any-In i es e j at in ground (arith, rest)

module _ (now limit lease_seconds : ℕ) (owner : String) (l : InboundLedger) where
  abbrev pub chosen : List ℕ
  chosen = select_inbound now limit l.events

  abbrev taken_events : List InboundEvent
  taken_events =
      update_events (in_ids chosen) (taken_row now owner (now + lease_seconds * 1000)) l.events

  -- What a claim hands out was among the rows, and picked.
  pub claimed_was_picked :
      (e : InboundEvent)
      → In e (claim_batch now owner limit lease_seconds l).1
      → In e taken_events × (in_ids chosen e ≡ true)
  unfolding claim_batch update_inbound
  claimed_was_picked e j =
      (In-filter (in_ids chosen) taken_events e).0
        ((In-sort inbound_runs_first (filter (in_ids chosen) taken_events) e).0 j)

  pub picked_is_claimed :
      (e : InboundEvent)
      → In e taken_events
      → in_ids chosen e ≡ true
      → In e (claim_batch now owner limit lease_seconds l).1
  unfolding claim_batch update_inbound
  picked_is_claimed e j on =
      (In-sort inbound_runs_first (filter (in_ids chosen) taken_events) e).1
        ((In-filter (in_ids chosen) taken_events e).1 (j, on))

pub In-update_from :
    (p : InboundEvent → Bool) (f : InboundEvent → InboundEvent) (es : List InboundEvent)
    (a : InboundEvent)
    → In a (update_events p f es)
    → (e : InboundEvent) × In e es × (a ≡ (if p e then f e else e))
In-update_from p f [] a j = absurd j
In-update_from p f (e ∷ es) a (inl same) = (e, inl refl, same)
In-update_from p f (e ∷ es) a (inr j) =
    let (b, k, same) = In-update_from p f es a j in (b, inr k, same)

pub In-update_to :
    (p : InboundEvent → Bool) (f : InboundEvent → InboundEvent) (es : List InboundEvent)
    (e : InboundEvent)
    → In e es
    → In (if p e then f e else e) (update_events p f es)
In-update_to p f (x ∷ es) e (inl same) = inl (ap (λ a. if p a then f a else a) same)
In-update_to p f (x ∷ es) e (inr j) = inr (In-update_to p f es e j)
In-update_to p f [] e j = absurd j

pub All-updated :
    (P : InboundEvent → Type 0) (p : InboundEvent → Bool) (f : InboundEvent → InboundEvent)
    (es : List InboundEvent)
    → ((e : InboundEvent) → In e es → P (if p e then f e else e))
    → All P (update_events p f es)
All-updated P p f [] h = tt
All-updated P p f (e ∷ es) h = (h e (inl refl), All-updated P p f es (λ a j. h a (inr j)))
