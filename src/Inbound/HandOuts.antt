-- ===== src/Inbound/HandOuts.antt =====
-- How often an inbound event is handed to a worker, src/database/repositories/inbound-event.repository.ts.
use wh_api_unified_service.Prelude.{
  ◌*◌, ◌+◌, ◌<◌, All, All-In, Bool, Bool-cases, In, List, String, [], any, ap, arith, false,
  false≢true, if◌then◌else◌, inl, inr, refl, sym, true, ℕ, ◌∙◌, ◌≡◌, ◌≤◌,
}
use wh_api_unified_service.Inbound.{
  InboundEvent, InboundEventInput, InboundLedger, claim_batch, delete_settled_inbound, in_ids,
  insert_ignoring_duplicate, mark_inbound_failed, mark_processed, mark_skipped, reclaim_inbound,
  same_inbound_key, taken_row, update_inbound,
}
use wh_api_unified_service.Inbound.Budget.{
  All-kept, All-update_events, InboundReach, InboundReach-IsBudgeted, InboundStep, IsBudgeted,
  IsBudgetedLedger, at_start, cleaned, empty_inbound, failed_again, inserted, lapsed,
  selected_was_due, taken, then_step, was_processed, was_skipped,
}
use wh_api_unified_service.Inbound.Claims.{
  All-updated, In-any, In-update_from, In-update_to, any-In, chosen, claimed_was_picked,
  has_inbound_id, ids_agree, picked_is_claimed,
}

-- The rows that a statement returns to the worker that runs it, to be projected.
unfoldable pub handed_out : {l m : InboundLedger} → InboundStep l m → List InboundEvent
handed_out (inserted now input) = []
handed_out {l} (taken now limit lease_seconds owner) =
    (claim_batch now owner limit lease_seconds l).1
handed_out (was_processed now id owner) = []
handed_out (was_skipped now id owner reason) = []
handed_out (failed_again now id owner error retry) = []
handed_out (lapsed now limit met) = []
handed_out (cleaned cutoff limit) = []

abbrev one_more : Bool → ℕ → ℕ
one_more b n = if b then n + 1 else n

-- A run of the ledger from the empty table, and how often the event with id i was handed out in it.
pub data HandOuts (i : ℕ) : ℕ → InboundLedger → Type 0 where
  not_yet : HandOuts i 0 empty_inbound
  and_then :
      {n : ℕ} {l m : InboundLedger}
      → HandOuts i n l
      → (s : InboundStep l m) → HandOuts i (one_more (any (has_inbound_id i) (handed_out s)) n) m

-- That the row's own count is the number of times that it was handed out, 0 before it is inserted
-- and at most 3.
pub record AreCounted (i n : ℕ) (l : InboundLedger) : Type 0 where
  pub most : n ≤ 3
  pub counted : All (λ e. e.id ≡ i → e.attempt_count ≡ n) l.events
  pub unborn : l.next_id ≤ i → n ≡ 0

module _ (i n : ℕ) (p : InboundEvent → Bool) (f : InboundEvent → InboundEvent)
    (same : (e : InboundEvent) → ((f e).id ≡ e.id) × ((f e).attempt_count ≡ e.attempt_count)) where
  update-AreCounted :
      (l : InboundLedger) → AreCounted i n l → AreCounted i n (update_inbound p f l).0
  unfolding update_inbound
  update-AreCounted l h = record {
    most = h.most;
    counted =
        All-update_events (λ e. e.id ≡ i → e.attempt_count ≡ n) p f l.events
          (λ e j was on at. (same e).1 ∙ was (sym (same e).0 ∙ at)) h.counted;
    unborn = h.unborn;
  }

insert-AreCounted :
    (i n now : ℕ) (input : InboundEventInput) (l : InboundLedger)
    → AreCounted i n l
    → AreCounted i n (insert_ignoring_duplicate now input l).0
unfolding insert_ignoring_duplicate
insert-AreCounted i n now input l h =
    elim (Bool-cases (any (same_inbound_key input.enterprise_id input.dedup_key) l.events)) [
      | inl duplicate ↦ rw duplicate h
      | inr new ↦ rw new (record {
        most = h.most;
        counted = (λ at. sym (h.unborn (omega (arith, at))), h.counted);
        unborn = λ le. h.unborn (omega (arith, le));
      })
    ]

-- What a claim does to the count of one event.
module _ (i n now limit lease_seconds : ℕ) (owner : String) (l : InboundLedger)
    (budgeted : IsBudgetedLedger l) (h : AreCounted i n l) where
  abbrev picks : InboundEvent → Bool
  picks = in_ids (chosen now limit lease_seconds owner l)

  abbrev take_row : InboundEvent → InboundEvent
  take_row = taken_row now owner (now + lease_seconds * 1000)

  abbrev batch : List InboundEvent
  batch = (claim_batch now owner limit lease_seconds l).1

  take-id : (e : InboundEvent) → (if picks e then take_row e else e).id ≡ e.id
  take-id e = elim (Bool-cases (picks e)) [ inl on ↦ rw on refl | inr off ↦ rw off refl ]

  -- Where it was handed out, a row of its id was picked.
  picked_row :
      any (has_inbound_id i) batch ≡ true
      → (e : InboundEvent) × In e l.events × (e.id ≡ i) × (picks e ≡ true)
  picked_row out =
      let (a, j, at) = In-any i batch out in
      let (k, on) = claimed_was_picked now limit lease_seconds owner l a j in
      let (e, there, same) = In-update_from picks take_row l.events a k in
      let id : a.id ≡ e.id = ap InboundEvent.id same ∙ take-id e in
      (e, there, sym id ∙ at, sym (ids_agree _ a e id) ∙ on)

  -- Where it was not, no row of its id was.
  none_picked :
      any (has_inbound_id i) batch ≡ false
      → (e : InboundEvent) → In e l.events
      → e.id ≡ i
      → picks e ≡ false
  none_picked out e j at = elim (Bool-cases (picks e)) [
    | inr off ↦ off
    | inl on ↦
        let k = In-update_to picks take_row l.events e j in
        let id = take-id e in
        let taken_one = if picks e then take_row e else e in
        let got =
          picked_is_claimed now limit lease_seconds owner l taken_one k
            (ids_agree (chosen now limit lease_seconds owner l) taken_one e id ∙ on) in
        absurd (false≢true (sym out ∙ any-In i batch _ got (id ∙ at)))
  ]

  claimed-AreCounted :
      any (has_inbound_id i) batch ≡ true
      → AreCounted i (n + 1) (claim_batch now owner limit lease_seconds l).0
  unfolding claim_batch update_inbound
  claimed-AreCounted out =
      let (e, j, at, on) = picked_row out in
      let due = selected_was_due now limit l.events e budgeted.distinct j on in
      let row = All-In IsBudgeted l.events e budgeted.rows j in
      let count = All-In (λ a. a.id ≡ i → a.attempt_count ≡ n) l.events e h.counted j at in
      let below = All-In (λ a. a.id < l.next_id) l.events e budgeted.below j in
      let few : e.attempt_count < 3 = row.can_try (ground arith) in
      record {
        most = omega (arith, few, count);
        counted =
            All-updated (λ a. a.id ≡ i → a.attempt_count ≡ n + 1) picks take_row l.events
              (λ a k own.
                let id = sym (take-id a) ∙ own in
                let same = ids_agree _ a e (id ∙ sym at) ∙ on in
                let was = All-In (λ b. b.id ≡ i → b.attempt_count ≡ n) l.events a h.counted k id in
                rw same (omega (arith, was)));
        unborn = λ le. omega (arith, le, below, at);
      }

  passed_over-AreCounted :
      any (has_inbound_id i) batch ≡ false
      → AreCounted i n (claim_batch now owner limit lease_seconds l).0
  unfolding claim_batch update_inbound
  passed_over-AreCounted out = record {
    most = h.most;
    counted =
        All-updated (λ a. a.id ≡ i → a.attempt_count ≡ n) picks take_row l.events
          (λ a k own.
            let id = sym (take-id a) ∙ own in
            rw (none_picked out a k id)
              (All-In (λ b. b.id ≡ i → b.attempt_count ≡ n) l.events a h.counted k id));
    unborn = h.unborn;
  }

  claim-AreCounted :
      AreCounted i
        (one_more (any (has_inbound_id i) batch) n)
        (claim_batch now owner limit lease_seconds l).0
  claim-AreCounted = elim (Bool-cases (any (has_inbound_id i) batch)) [
    | inl out ↦ rw out (claimed-AreCounted out)
    | inr out ↦ rw out (passed_over-AreCounted out)
  ]

step-AreCounted :
    (i n : ℕ) {l m : InboundLedger} (s : InboundStep l m)
    → IsBudgetedLedger l
    → AreCounted i n l
    → AreCounted i (one_more (any (has_inbound_id i) (handed_out s)) n) m
unfolding handed_out mark_processed mark_skipped mark_inbound_failed reclaim_inbound
    delete_settled_inbound
step-AreCounted i n {l} (inserted now input) b h = insert-AreCounted i n now input l h
step-AreCounted i n {l} (taken now limit secs owner) b h =
    claim-AreCounted i n now limit secs owner l b h
step-AreCounted i n {l} (was_processed now id owner) b h =
    update-AreCounted i n _ _ (λ e. (refl, refl)) l h
step-AreCounted i n {l} (was_skipped now id owner reason) b h =
    update-AreCounted i n _ _ (λ e. (refl, refl)) l h
step-AreCounted i n {l} (failed_again now id owner error retry) b h =
    update-AreCounted i n _ _ (λ e. (refl, refl)) l h
step-AreCounted i n {l} (lapsed now limit met) b h =
    update-AreCounted i n _ _ (λ e. (refl, refl)) l h
step-AreCounted i n {l} (cleaned cutoff limit) b h = record {
  most = h.most;
  counted = All-kept _ (λ e. e.id ≡ i → e.attempt_count ≡ n) l.events h.counted;
  unborn = h.unborn;
}

run : {i n : ℕ} {l : InboundLedger} → HandOuts i n l → InboundReach empty_inbound l
run not_yet = at_start
run (and_then r s) = then_step (run r) s

counts : {i n : ℕ} {l : InboundLedger} → HandOuts i n l → AreCounted i n l
counts not_yet = record { most = omega arith; counted = tt; unborn = λ le. refl }
counts (and_then {n} r s) = step-AreCounted _ n s (InboundReach-IsBudgeted (run r)) (counts r)

-- No inbound event is handed to workers more than three times, however they fail: whatever happens
-- from the empty table on, crashes and lapsed leases included, at most three claims return the event,
-- and its row, while it is there, counts each of them.
pub attempts_are_bounded :
    {i n : ℕ} {l : InboundLedger}
    → HandOuts i n l
    → (n ≤ 3) × All (λ e. e.id ≡ i → e.attempt_count ≡ n) l.events
attempts_are_bounded r = let h = counts r in (h.most, h.counted)
