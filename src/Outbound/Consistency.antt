-- ===== src/Outbound/Consistency.antt =====
-- The invariant of the whole ledger, src/database/repositories/outbound-event.repository.ts.
use wh_api_unified_service.Prelude.{
  ◌*◌, ◌+◌, ◌++◌, ◌<◌, All, All-append, All-imp, Bool, Bool-cases, In, In-filter, In-map, In-sort,
  In-take, List, String, [], any, arith, false, filter, inl, inr, refl, sort, str_eq_iff, subst,
  sym, take, true, ℕ, ◌∙◌, ◌∷◌, ◌≡◌,
}
use wh_api_unified_service.Outbound.{Ledger, OutboundEvent, cancelled, update}
use wh_api_unified_service.Outbound.Pointwise.{
  All-update_rows, AllPairs, AllPairs-update_rows, KeepsKey, MayCoexist, unique_row,
}
use wh_api_unified_service.Outbound.Queue.{
  EnqueueOutboundInput, claim_due_batch, claim_row, comes_first, enqueue, has_id, is_due, new_event,
  same_key, select_due,
}
use wh_api_unified_service.Outbound.Replay.{
  awaits_read_back, by_last_error, list_ambiguous_awaiting_read_back, mark_read_back_resolved,
  may_replay, requeue_dead_lettered, requeued_row, resolved_row, unresolved,
}
use wh_api_unified_service.Outbound.Rows.{
  IsSound, ambiguous_row-IsSound, cancelled_row-IsSound, claim_row-IsSound, failed_row-IsSound,
  new_event-IsSound, parked_row-IsSound, reclaimed_row-IsSound, requeued_row-IsSound,
  resolved_row-IsSound, sent_row-IsSound,
}
use wh_api_unified_service.Outbound.Settle.{
  ambiguous_row, cancel, cancel_ambiguous, cancelled_row, failed_row, held, held_unsent,
  mark_failed, mark_rate_limited, mark_sent, parked_row, sent_row,
}
use wh_api_unified_service.Outbound.Steps.{
  Reach, Step, WasListed, claimed, empty_ledger, enqueued, had_failed, here, next, reclaimed,
  replayed, swept, was_ambiguous, was_cancelled, was_limited, was_read_back, was_sent,
}
use wh_api_unified_service.Outbound.Sweep.{
  delete_settled_before, reclaim_expired_leases, reclaimed_row, reclaims,
}

-- Every row is sound, ids and deduplication keys are unique, and the id sequence is ahead of all.
pub record IsConsistent (l : Ledger) : Type 0 where
  pub rows : All IsSound l.events
  pub keys : AllPairs l.events
  pub fresh : All (λ e. e.id < l.next_id) l.events

pub kept :
    {f : OutboundEvent → OutboundEvent}
    → ((e : OutboundEvent) → (f e).id ≡ e.id)
    → ((e : OutboundEvent) → (f e).enterprise_id ≡ e.enterprise_id)
    → ((e : OutboundEvent) → (f e).dedup_key ≡ e.dedup_key)
    → KeepsKey f
kept i e k = record { id = i; enterprise = e; key = k }

module _ (p : OutboundEvent → Bool) (f : OutboundEvent → OutboundEvent) (keeps : KeepsKey f)
    (l : Ledger) where
  update-IsConsistent :
      ((e : OutboundEvent) → In e l.events → IsSound e → p e ≡ true → IsSound (f e))
      → IsConsistent l
      → IsConsistent (update p f l).0
  unfolding update
  update-IsConsistent step h = record {
    rows = All-update_rows IsSound p f l.events step h.rows;
    keys = AllPairs-update_rows p f keeps l.events h.keys;
    fresh =
        All-update_rows (λ e. e.id < l.next_id) p f l.events (λ e i lt on. rw (keeps.id e) lt)
          h.fresh;
  }

-- Appending a row whose key nobody has.
AllPairs-snoc :
    (es : List OutboundEvent) (e : OutboundEvent)
    → AllPairs es
    → All (λ a. MayCoexist a e) es
    → AllPairs (es ++ e ∷ [])
AllPairs-snoc [] e h k = (tt, tt)
AllPairs-snoc (a ∷ es) e h k =
    (All-append (MayCoexist a) es (e ∷ []) h.0 (k.0, tt), AllPairs-snoc es e h.1 k.1)

same_key_sym :
    (a b : OutboundEvent)
    → same_key b.enterprise_id b.dedup_key a ≡ false
    → same_key a.enterprise_id a.dedup_key b ≡ false
same_key_sym a b h =
    ground (arith, str_eq_iff a.dedup_key b.dedup_key, str_eq_iff b.dedup_key a.dedup_key)

nobody_has_key :
    (es : List OutboundEvent) (e : OutboundEvent) (n : ℕ)
    → any (same_key e.enterprise_id e.dedup_key) es ≡ false
    → All (λ a. a.id < n) es
    → e.id ≡ n
    → All (λ a. MayCoexist a e) es
nobody_has_key [] e n none_there fresh new = tt
nobody_has_key (a ∷ es) e n none_there fresh new = (
  (omega (arith, fresh.0), same_key_sym a e (ground arith)),
  nobody_has_key es e n (ground arith) fresh.1 new,
)

enqueue-IsConsistent :
    (now : ℕ) (input : EnqueueOutboundInput) (l : Ledger)
    → IsConsistent l
    → IsConsistent (enqueue now input l).0
unfolding enqueue
enqueue-IsConsistent now input l h =
    elim (Bool-cases (any (same_key input.enterprise_id input.dedup_key) l.events)) [
      | inl duplicate ↦ rw duplicate h
      | inr new ↦
          let e = new_event now l.next_id input in
          let grown : IsConsistent
              (record l { events = l.events ++ e ∷ []; next_id = l.next_id + 1 }) =
            record {
              rows =
                  All-append IsSound l.events (e ∷ []) h.rows
                    (new_event-IsSound now l.next_id input, tt);
              keys =
                  AllPairs-snoc l.events e h.keys
                    (nobody_has_key l.events e l.next_id new h.fresh refl);
              fresh =
                  All-append (λ a. a.id < l.next_id + 1) l.events (e ∷ [])
                    (All-imp (λ a. a.id < l.next_id) (λ a. a.id < l.next_id + 1)
                      (λ a lt. omega arith) l.events h.fresh)
                    (omega arith, tt);
            } in
          rw new grown
    ]

pub has_id→In : (ids : List ℕ) (e : OutboundEvent) → has_id ids e ≡ true → In e.id ids
has_id→In [] e h = cc
has_id→In (i ∷ ids) e h = ground (arith, has_id→In ids e)

pub In→has_id : (ids : List ℕ) (e : OutboundEvent) → In e.id ids → has_id ids e ≡ true
In→has_id [] e h = absurd h
In→has_id (i ∷ ids) e (inl h) = ground arith
In→has_id (i ∷ ids) e (inr h) = ground (arith, In→has_id ids e h)

-- What the inner SELECT of the claim returns are ids of rows that are due.
pub selected_row :
    (now limit i : ℕ) (es : List OutboundEvent)
    → In i (select_due now limit es)
    → (e : OutboundEvent) × In e es × (i ≡ e.id) × (is_due now e ≡ true)
unfolding select_due
selected_row now limit i es h =
    let (e, j, same) =
      In-map OutboundEvent.id (take limit (sort comes_first (filter (is_due now) es))) i h in
    let sorted = In-take limit (sort comes_first (filter (is_due now) es)) e j in
    let (k, due) =
      (In-filter (is_due now) es e).0 ((In-sort comes_first (filter (is_due now) es) e).0 sorted) in
    (e, k, same, due)

pub selected_is_due :
    (now limit : ℕ) (es : List OutboundEvent) (e : OutboundEvent)
    → AllPairs es
    → In e es
    → has_id (select_due now limit es) e ≡ true
    → is_due now e ≡ true
selected_is_due now limit es e keys i h =
    let (a, j, same, due) = selected_row now limit e.id es (has_id→In _ e h) in
    subst (λ x. is_due now x ≡ true) (unique_row es a e keys j i (sym same)) due

claim-IsConsistent :
    (now limit lease_seconds : ℕ) (owner : String) (l : Ledger)
    → IsConsistent l
    → IsConsistent (claim_due_batch now owner limit lease_seconds l).0
unfolding claim_due_batch
claim-IsConsistent now limit lease_seconds owner l h =
    update-IsConsistent (has_id (select_due now limit l.events))
      (claim_row owner (now + lease_seconds * 1000)) (kept (λ e. refl) (λ e. refl) (λ e. refl)) l
      (λ e i sound on.
        claim_row-IsSound now _ owner e sound (selected_is_due now limit l.events e h.keys i on))
      h

pub listed_cancelled :
    (id : ℕ) (l : Ledger) (e : OutboundEvent)
    → AllPairs l.events
    → WasListed id l
    → In e l.events
    → e.id ≡ id
    → (e.status ≡ cancelled) × (e.ambiguous ≡ true)
unfolding list_ambiguous_awaiting_read_back
listed_cancelled id l e keys (now, limit, ms, a, same, i) j at =
    let sorted =
      In-take limit (sort by_last_error (filter (awaits_read_back now ms) l.events)) a i in
    let (k, waits) =
      (In-filter (awaits_read_back now ms) l.events a).0
        ((In-sort by_last_error (filter (awaits_read_back now ms) l.events) a).0 sorted) in
    let one : a ≡ e = unique_row l.events a e keys k j (same ∙ sym at) in
    let waits' = subst (λ x. awaits_read_back now ms x ≡ true) one waits in
    (ground arith, ground arith)

module _ (q : OutboundEvent → Bool) where
  pub All-filter :
      (P : OutboundEvent → Type 0) (es : List OutboundEvent) → All P es → All P (filter q es)
  All-filter P [] h = tt
  All-filter P (e ∷ es) h = elim (Bool-cases (q e)) [
    | inl on ↦ rw on (h.0, All-filter P es h.1)
    | inr off ↦ rw off (All-filter P es h.1)
  ]

  pub AllPairs-filter : (es : List OutboundEvent) → AllPairs es → AllPairs (filter q es)
  AllPairs-filter [] h = tt
  AllPairs-filter (e ∷ es) h = elim (Bool-cases (q e)) [
    | inl on ↦ rw on (All-filter (MayCoexist e) es h.0, AllPairs-filter es h.1)
    | inr off ↦ rw off (AllPairs-filter es h.1)
  ]

-- Every statement keeps the ledger consistent.
pub Step-IsConsistent : {l m : Ledger} → Step l m → IsConsistent l → IsConsistent m
unfolding mark_sent mark_failed mark_rate_limited cancel cancel_ambiguous mark_read_back_resolved
    requeue_dead_lettered reclaim_expired_leases delete_settled_before
Step-IsConsistent {l} (enqueued now input) h = enqueue-IsConsistent now input l h
Step-IsConsistent {l} (claimed now limit secs owner) h = claim-IsConsistent now limit secs owner l h
Step-IsConsistent {l} (was_sent now id owner pid) h =
    update-IsConsistent (held id owner) (sent_row now pid)
      (kept (λ e. refl) (λ e. refl) (λ e. refl)) l
      (λ e i sound on. sent_row-IsSound now id owner pid e sound on) h
Step-IsConsistent {l} (had_failed now id owner error retry) h =
    update-IsConsistent (held_unsent id owner) (failed_row now error retry)
      (kept (λ e. refl) (λ e. refl) (λ e. refl)) l
      (λ e i sound on. failed_row-IsSound now id owner error retry e sound on) h
Step-IsConsistent {l} (was_limited now id retry_at wait owner error) h =
    update-IsConsistent (held_unsent id owner) (parked_row now retry_at error wait)
      (kept (λ e. refl) (λ e. refl) (λ e. refl)) l
      (λ e i sound on. parked_row-IsSound now id retry_at wait owner error e sound on) h
Step-IsConsistent {l} (was_cancelled now id owner reason) h =
    update-IsConsistent (held_unsent id owner) (cancelled_row now reason)
      (kept (λ e. refl) (λ e. refl) (λ e. refl)) l
      (λ e i sound on. cancelled_row-IsSound now reason e sound) h
Step-IsConsistent {l} (was_ambiguous now id owner reason) h =
    update-IsConsistent (held_unsent id owner) (ambiguous_row now reason)
      (kept (λ e. refl) (λ e. refl) (λ e. refl)) l
      (λ e i sound on. ambiguous_row-IsSound now reason e sound) h
Step-IsConsistent {l} (was_read_back id outcome pid listed) h =
    update-IsConsistent (unresolved id) (resolved_row outcome pid)
      (kept (λ e. refl) (λ e. refl) (λ e. refl)) l
      (λ e i sound on.
        resolved_row-IsSound outcome pid e sound
          (listed_cancelled id l e h.keys listed i (ground arith)).0)
      h
Step-IsConsistent {l} (replayed now enterprise id max_replays) h =
    update-IsConsistent (may_replay enterprise id max_replays) (requeued_row now)
      (kept (λ e. refl) (λ e. refl) (λ e. refl)) l
      (λ e i sound on. requeued_row-IsSound now e sound (ground arith)) h
Step-IsConsistent {l} (reclaimed now limit met) h =
    update-IsConsistent (reclaims now (take limit met)) reclaimed_row
      (kept (λ e. refl) (λ e. refl) (λ e. refl)) l
      (λ e i sound on. reclaimed_row-IsSound e sound (ground arith)) h
Step-IsConsistent {l} (swept cutoff limit) h = record {
  rows = All-filter _ IsSound l.events h.rows;
  keys = AllPairs-filter _ l.events h.keys;
  fresh = All-filter _ (λ e. e.id < l.next_id) l.events h.fresh;
}

-- From the empty table, whatever workers do in whatever order: a row in flight has a lease and no
-- other row has one, no id and no deduplication key is there twice, and a send of unknown outcome is
-- cancelled unless it was read back and found.
pub Reach-IsConsistent : {l : Ledger} → Reach empty_ledger l → IsConsistent l
Reach-IsConsistent here = record { rows = tt; keys = tt; fresh = tt }
Reach-IsConsistent (next r s) = Step-IsConsistent s (Reach-IsConsistent r)
