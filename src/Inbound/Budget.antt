-- ===== src/Inbound/Budget.antt =====
-- The budget of attempts of an inbound event, src/database/repositories/inbound-event.repository.ts.
use wh_api_unified_service.Prelude.{
  ◌&&◌, ◌*◌, ◌+◌, ◌<◌, All, All-In, All-imp, Bool, Bool-cases, In, In-filter, In-map, In-sort,
  In-take, List, String, [], any, ap, arith, filter, if◌then◌else◌, inl, inr, refl, sort, subst,
  sym, take, true, ℕ, ◌∙◌, ◌∷◌, ◌≡◌, ◌≢◌, ◌≤◌,
}
use wh_api_unified_service.Inbound.{
  InboundEvent, InboundEventInput, InboundLedger, claim_batch, delete_settled_inbound,
  failed_inbound_row, held_unprocessed, in_ids, inbound_comes_first, inbound_held,
  insert_ignoring_duplicate, is_inbound_due, is_lapsed, is_open, lapsed_row, mark_inbound_failed,
  mark_processed, mark_skipped, processed_row, reclaim_inbound, same_inbound_key, select_inbound,
  skipped_row, taken_row, update_events, update_inbound,
}

-- The statements that anybody runs on the inbound ledger.
pub data InboundStep (l : InboundLedger) : InboundLedger → Type 0 where
  inserted :
      (now : ℕ) (input : InboundEventInput)
      → InboundStep l (insert_ignoring_duplicate now input l).0
  taken :
      (now limit lease_seconds : ℕ) (owner : String)
      → InboundStep l (claim_batch now owner limit lease_seconds l).0
  was_processed : (now id : ℕ) (owner : String) → InboundStep l (mark_processed now id owner l).0
  was_skipped :
      (now id : ℕ) (owner reason : String) → InboundStep l (mark_skipped now id owner reason l).0
  failed_again :
      (now id : ℕ) (owner error : String) (retry : ℕ)
      → InboundStep l (mark_inbound_failed now id owner error retry l).0
  lapsed : (now limit : ℕ) (met : List ℕ) → InboundStep l (reclaim_inbound now met limit l).0
  cleaned : (cutoff limit : ℕ) → InboundStep l (delete_settled_inbound cutoff limit l).0

pub data InboundReach (l : InboundLedger) : InboundLedger → Type 0 where
  at_start : InboundReach l l
  then_step : {m n : InboundLedger} → InboundReach l m → InboundStep m n → InboundReach l n

abbrev pub empty_inbound : InboundLedger
empty_inbound = record { events = []; next_id = 1 }

-- What holds of every row: its budget is the column's default, it never had more attempts, and one that
-- may still be claimed has an attempt left.
pub record IsBudgeted (e : InboundEvent) : Type 0 where
  pub budget : e.max_attempts ≡ 3
  pub bounded : e.attempt_count ≤ 3
  pub can_try : is_open e.status ≡ true → e.attempt_count < 3

abbrev pub DistinctEvents : List InboundEvent → Type 0
DistinctEvents [] = Unit
DistinctEvents (e ∷ es) = All (λ a. a.id ≢ e.id) es × DistinctEvents es

pub record IsBudgetedLedger (l : InboundLedger) : Type 0 where
  pub rows : All IsBudgeted l.events
  pub distinct : DistinctEvents l.events
  pub below : All (λ e. e.id < l.next_id) l.events

module _ (P : InboundEvent → Type 0) (p : InboundEvent → Bool)
    (f : InboundEvent → InboundEvent) where
  pub All-update_events :
      (es : List InboundEvent)
      → ((e : InboundEvent) → In e es → P e → p e ≡ true → P (f e))
      → All P es
      → All P (update_events p f es)
  All-update_events [] step h = tt
  All-update_events (e ∷ es) step h = (
    elim (Bool-cases (p e)) [ inl on ↦ rw on (step e (inl refl) h.0 on) | inr off ↦ rw off h.0 ],
    All-update_events es (λ a i. step a (inr i)) h.1,
  )

module _ (p : InboundEvent → Bool) (f : InboundEvent → InboundEvent)
    (same : (e : InboundEvent) → (f e).id ≡ e.id) where
  updated-id : (e : InboundEvent) → (if p e then f e else e).id ≡ e.id
  updated-id e = elim (Bool-cases (p e)) [ inl on ↦ rw on (same e) | inr off ↦ rw off refl ]

  apart_events :
      (e : InboundEvent) (es : List InboundEvent)
      → All (λ a. a.id ≢ e.id) es
      → All (λ a. a.id ≢ (if p e then f e else e).id) (update_events p f es)
  apart_events e [] h = tt
  apart_events e (a ∷ es) h = (rw (updated-id e, updated-id a) h.0, apart_events e es h.1)

  DistinctEvents-update :
      (es : List InboundEvent) → DistinctEvents es → DistinctEvents (update_events p f es)
  DistinctEvents-update [] h = tt
  DistinctEvents-update (e ∷ es) h = (apart_events e es h.0, DistinctEvents-update es h.1)

  update-IsBudgeted :
      (l : InboundLedger)
      → ((e : InboundEvent) → In e l.events → IsBudgeted e → p e ≡ true → IsBudgeted (f e))
      → IsBudgetedLedger l
      → IsBudgetedLedger (update_inbound p f l).0
  unfolding update_inbound
  update-IsBudgeted l step h = record {
    rows = All-update_events IsBudgeted p f l.events step h.rows;
    distinct = DistinctEvents-update l.events h.distinct;
    below =
        All-update_events (λ e. e.id < l.next_id) p f l.events (λ e i lt on. rw (same e) lt)
          h.below;
  }

pub unique_event :
    (es : List InboundEvent) (a b : InboundEvent)
    → DistinctEvents es
    → In a es
    → In b es
    → a.id ≡ b.id
    → a ≡ b
unique_event [] a b h i j e = absurd i
unique_event (x ∷ xs) a b h (inl i) (inl j) e = i ∙ sym j
unique_event (x ∷ xs) a b h (inl i) (inr j) e =
    absurd (All-In (λ v. v.id ≢ x.id) xs b h.0 j (sym e ∙ ap InboundEvent.id i))
unique_event (x ∷ xs) a b h (inr i) (inl j) e =
    absurd (All-In (λ v. v.id ≢ x.id) xs a h.0 i (e ∙ ap InboundEvent.id j))
unique_event (x ∷ xs) a b h (inr i) (inr j) e = unique_event xs a b h.1 i j e

pub In-in_ids : (ids : List ℕ) (e : InboundEvent) → in_ids ids e ≡ true → In e.id ids
In-in_ids [] e h = cc
In-in_ids (i ∷ ids) e h = ground (arith, In-in_ids ids e)

pub selected_was_due :
    (now limit : ℕ) (es : List InboundEvent) (e : InboundEvent)
    → DistinctEvents es
    → In e es
    → in_ids (select_inbound now limit es) e ≡ true
    → is_inbound_due now e ≡ true
unfolding select_inbound
selected_was_due now limit es e distinct i on =
    let due = filter (is_inbound_due now) es in
    let (a, j, same) =
      In-map InboundEvent.id (take limit (sort inbound_comes_first due)) e.id (In-in_ids _ e on) in
    let sorted = In-take limit (sort inbound_comes_first due) a j in
    let (k, was) =
      (In-filter (is_inbound_due now) es a).0 ((In-sort inbound_comes_first due a).0 sorted) in
    subst (λ x. is_inbound_due now x ≡ true) (unique_event es a e distinct k i (sym same)) was

module _ (q : InboundEvent → Bool) where
  pub All-kept :
      (P : InboundEvent → Type 0) (es : List InboundEvent) → All P es → All P (filter q es)
  All-kept P [] h = tt
  All-kept P (e ∷ es) h = elim (Bool-cases (q e)) [
    | inl on ↦ rw on (h.0, All-kept P es h.1)
    | inr off ↦ rw off (All-kept P es h.1)
  ]

  DistinctEvents-kept : (es : List InboundEvent) → DistinctEvents es → DistinctEvents (filter q es)
  DistinctEvents-kept [] h = tt
  DistinctEvents-kept (e ∷ es) h = elim (Bool-cases (q e)) [
    | inl on ↦ rw on (All-kept (λ a. a.id ≢ e.id) es h.0, DistinctEvents-kept es h.1)
    | inr off ↦ rw off (DistinctEvents-kept es h.1)
  ]

taken-IsBudgeted :
    (now at expires : ℕ) (owner : String) (e : InboundEvent)
    → is_inbound_due at e ≡ true
    → IsBudgeted e
    → IsBudgeted (taken_row now owner expires e)
taken-IsBudgeted now at expires owner e due h = ground arith

insert-IsBudgeted :
    (now : ℕ) (input : InboundEventInput) (l : InboundLedger)
    → IsBudgetedLedger l
    → IsBudgetedLedger (insert_ignoring_duplicate now input l).0
unfolding insert_ignoring_duplicate
insert-IsBudgeted now input l h =
    elim (Bool-cases (any (same_inbound_key input.enterprise_id input.dedup_key) l.events)) [
      | inl duplicate ↦ rw duplicate h
      | inr new ↦ rw new (record {
        rows =
            (record { budget = refl; bounded = omega arith; can_try = λ o. omega arith }, h.rows);
        distinct = (
          All-imp (λ e. e.id < l.next_id) (λ e. e.id ≢ l.next_id) (λ e lt. omega (arith, lt))
              l.events h.below,
          h.distinct,
        );
        below = (
          omega arith,
          All-imp (λ e. e.id < l.next_id) (λ e. e.id < l.next_id + 1) (λ e lt. omega (arith, lt))
              l.events h.below,
        );
      })
    ]

pub InboundStep-IsBudgeted :
    {l m : InboundLedger} → InboundStep l m → IsBudgetedLedger l → IsBudgetedLedger m
unfolding claim_batch mark_processed mark_skipped mark_inbound_failed reclaim_inbound
    delete_settled_inbound
InboundStep-IsBudgeted {l} (inserted now input) h = insert-IsBudgeted now input l h
InboundStep-IsBudgeted {l} (taken now limit secs owner) h =
    update-IsBudgeted (in_ids (select_inbound now limit l.events))
      (taken_row now owner (now + secs * 1000)) (λ e. refl) l
      (λ e i was on.
        taken-IsBudgeted now now _ owner e (selected_was_due now limit l.events e h.distinct i on)
          was)
      h
InboundStep-IsBudgeted {l} (was_processed now id owner) h =
    update-IsBudgeted (inbound_held id owner) (processed_row now) (λ e. refl) l
      (λ e i was on. ground arith) h
InboundStep-IsBudgeted {l} (was_skipped now id owner reason) h =
    update-IsBudgeted (inbound_held id owner) (skipped_row now reason) (λ e. refl) l
      (λ e i was on. ground arith) h
InboundStep-IsBudgeted {l} (failed_again now id owner error retry) h =
    update-IsBudgeted (held_unprocessed id owner) (failed_inbound_row now error retry) (λ e. refl) l
      (λ e i was on. ground arith) h
InboundStep-IsBudgeted {l} (lapsed now limit met) h =
    update-IsBudgeted (λ e. is_lapsed now e && in_ids (take limit met) e) (lapsed_row now)
      (λ e. refl) l (λ e i was on. ground arith) h
InboundStep-IsBudgeted {l} (cleaned cutoff limit) h = record {
  rows = All-kept _ IsBudgeted l.events h.rows;
  distinct = DistinctEvents-kept _ l.events h.distinct;
  below = All-kept _ (λ e. e.id < l.next_id) l.events h.below;
}

-- Whatever happens from the empty table on, every row keeps the budget of 3, has at most 3 attempts, and
-- is out of reach of a claim once it has had them.
pub InboundReach-IsBudgeted :
    {l : InboundLedger} → InboundReach empty_inbound l → IsBudgetedLedger l
InboundReach-IsBudgeted at_start = record { rows = tt; distinct = tt; below = tt }
InboundReach-IsBudgeted (then_step r s) = InboundStep-IsBudgeted s (InboundReach-IsBudgeted r)
