-- ===== src/Outbound/Claiming.antt =====
-- What a claim takes, src/database/repositories/outbound-event.repository.ts.
use mathlib.Core.Option.{some-injective}
use wh_api_unified_service.Prelude.{
  ◌*◌, ◌+◌, ◌==◌, ==→eq, All, Bool, Bool-cases, In, In-filter, In-sort, List, String, [], ap, arith,
  false≢true, filter, if◌then◌else◌, inl, inr, length, length-sort, length-take-le, map, refl, some,
  sort, subst, suc, sym, take, true, ℕ, ◌∙◌, ◌∷◌, ◌≡◌, ◌≢◌, ◌≤◌,
}
use wh_api_unified_service.Outbound.{Ledger, OutboundEvent, find_event, update, update_rows}
use wh_api_unified_service.Outbound.Consistency.{
  IsConsistent, Step-IsConsistent, kept, selected_is_due,
}
use wh_api_unified_service.Outbound.Pointwise.{
  AllPairs, MayCoexist, find_event-update_rows, find_event_unique,
}
use wh_api_unified_service.Outbound.Queue.{
  claim_due_batch, claim_row, comes_first, has_id, is_due, runs_first, select_due,
}
use wh_api_unified_service.Outbound.Steps.{claimed}

length-map : {A B : Type 0} (f : A → B) (xs : List A) → length (map f xs) ≡ length xs
length-map f [] = refl
length-map f (x ∷ xs) = ap suc (length-map f xs)

claimed_from :
    (now limit lease_seconds : ℕ) (owner : String) (l : Ledger) (r : OutboundEvent)
    → In r (claim_due_batch now owner limit lease_seconds l).1
    → In r (claim_due_batch now owner limit lease_seconds l).0.events
      × (has_id (select_due now limit l.events) r ≡ true)
unfolding claim_due_batch
claimed_from now limit lease_seconds owner l r i =
    (In-filter (has_id (select_due now limit l.events)) _ r).0 ((In-sort runs_first _ r).0 i)

-- A row after an UPDATE comes from one before it.
update_rows_from :
    (p : OutboundEvent → Bool) (f : OutboundEvent → OutboundEvent) (es : List OutboundEvent)
    (r : OutboundEvent)
    → In r (update_rows p f es)
    → (e : OutboundEvent) × In e es × (r ≡ (if p e then f e else e))
unfolding update_rows
update_rows_from p f [] r i = absurd i
update_rows_from p f (e ∷ es) r (inl same) = (e, inl refl, same)
update_rows_from p f (e ∷ es) r (inr i) =
    let (a, j, same) = update_rows_from p f es r i in (a, inr j, same)

-- Each row that a claim hands out was due, and is now in flight under the caller's name and lease with
-- one more attempt and nothing else changed; the table holds it so.
pub claimed_was_due :
    (now limit lease_seconds : ℕ) (owner : String) (l : Ledger) (r : OutboundEvent)
    → IsConsistent l
    → In r (claim_due_batch now owner limit lease_seconds l).1
    → (e : OutboundEvent) × In e l.events
      × (is_due now e ≡ true)
      × (r ≡ claim_row owner (now + lease_seconds * 1000) e)
      × (find_event e.id (claim_due_batch now owner limit lease_seconds l).0.events ≡ some r)
unfolding claim_due_batch update
claimed_was_due now limit lease_seconds owner l r h i =
    let ids = select_due now limit l.events in
    let claim = claim_row owner (now + lease_seconds * 1000) in
    let (there, picked) = claimed_from now limit lease_seconds owner l r i in
    let (e, j, same) = update_rows_from (has_id ids) claim l.events r there in
    elim (Bool-cases (has_id ids e)) [
      | inl on ↦
          let same' : r ≡ claim e = ground arith in
          (
            e,
            j,
            selected_is_due now limit l.events e h.keys j on,
            same',
            find_event-update_rows (has_id ids) claim (kept (λ a. refl) (λ a. refl) (λ a. refl))
                  e.id l.events
                ∙ rw (find_event_unique l.events e e.id h.keys j refl, on) (ap some (sym same')),
          )
      | inr off ↦
          let same' : r ≡ e = ground arith in
          absurd (false≢true (sym off ∙ subst (λ x. has_id ids x ≡ true) same' picked))
    ]

-- Two workers never hold the same row: what one claim on a consistent ledger hands out, a claim
-- that follows it at any time does not.
pub claims_are_disjoint :
    (now limit secs now' limit' secs' : ℕ) (owner owner' : String) (l : Ledger)
    (r r' : OutboundEvent)
    → IsConsistent l
    → In r (claim_due_batch now owner limit secs l).1
    → In r' (claim_due_batch now' owner' limit' secs' (claim_due_batch now owner limit secs l).0).1
    → r.id ≢ r'.id
claims_are_disjoint now limit secs now' limit' secs' owner owner' l r r' h i i' same =
    let m = (claim_due_batch now owner limit secs l).0 in
    let h' : IsConsistent m = Step-IsConsistent (claimed now limit secs owner) h in
    let (e, j, due, shape, found) = claimed_was_due now limit secs owner l r h i in
    let (e', j', due', shape', found') = claimed_was_due now' limit' secs' owner' m r' h' i' in
    let at : e'.id ≡ e.id = cc in
    let one : e' ≡ r =
      some-injective _ _ (sym (find_event_unique m.events e' e.id h'.keys j' at) ∙ found) in
    ground arith

same_count :
    (i : ℕ) (ids : List ℕ) (e : OutboundEvent) (es : List OutboundEvent)
    → All (MayCoexist e) es
    → e.id ≡ i
    → length (filter (has_id (i ∷ ids)) es) ≡ length (filter (has_id ids) es)
same_count i ids e [] h at = refl
same_count i ids e (a ∷ es) h at = let apart = h.0.0 in ground (arith, same_count i ids e es h.1 at)

count_le :
    (i : ℕ) (ids : List ℕ) (es : List OutboundEvent)
    → AllPairs es
    → length (filter (has_id (i ∷ ids)) es) ≤ 1 + length (filter (has_id ids) es)
count_le i ids [] h = omega arith
count_le i ids (e ∷ es) h = elim (Bool-cases (i == e.id)) [
  | inl at ↦ let count = same_count i ids e es h.0 (sym (==→eq _ _ at)) in ground arith
  | inr away ↦ ground (arith, count_le i ids es h.1)
]

no_ids : (es : List OutboundEvent) → length (filter (has_id []) es) ≡ 0
no_ids [] = refl
no_ids (e ∷ es) = no_ids es

matched_le :
    (ids : List ℕ) (es : List OutboundEvent)
    → AllPairs es
    → length (filter (has_id ids) es) ≤ length ids
matched_le [] es h = omega (arith, no_ids es)
matched_le (i ∷ ids) es h = omega (arith, count_le i ids es h, matched_le ids es h)

-- A claim on a consistent ledger hands out at most as many rows as were asked for.
pub claim-length-le :
    (now limit lease_seconds : ℕ) (owner : String) (l : Ledger)
    → IsConsistent l
    → length (claim_due_batch now owner limit lease_seconds l).1 ≤ limit
unfolding claim_due_batch select_due
claim-length-le now limit lease_seconds owner l h =
    let m = (claim_due_batch now owner limit lease_seconds l).0 in
    let h' : IsConsistent m = Step-IsConsistent (claimed now limit lease_seconds owner) h in
    let ids = select_due now limit l.events in
    let due = sort comes_first (filter (is_due now) l.events) in
    omega (
      arith,
      length-sort runs_first (filter (has_id ids) m.events),
      matched_le ids m.events h'.keys,
      length-map OutboundEvent.id (take limit due),
      length-take-le limit due,
    )
