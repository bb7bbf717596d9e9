-- ===== src/Outbound/Trace.antt =====
-- What one statement on the ledger does to one row, src/database/repositories/outbound-event.repository.ts.
use wh_api_unified_service.Prelude.{
  ◌*◌, ◌+◌, ◌++◌, ◌<◌, Bool, Bool-cases, In-filter, List, Option, Option-cases, String, [], any, ap,
  arith, filter, inl, inr, none, refl, some, sym, take, true, ℕ, ◌∙◌, ◌∷◌, ◌≡◌, ◌⊎◌,
}
use wh_api_unified_service.Outbound.{
  Ledger, OutboundEvent, ReadBackOutcome, cancelled, dead_letter, find_event, update,
}
use wh_api_unified_service.Outbound.Consistency.{
  IsConsistent, kept, listed_cancelled, selected_is_due,
}
use wh_api_unified_service.Outbound.Pointwise.{
  AllPairs, KeepsKey, find_event-In, find_event-update_rows, unique_row,
}
use wh_api_unified_service.Outbound.Queue.{
  claim_due_batch, claim_row, enqueue, has_id, is_due, new_event, same_key, select_due,
}
use wh_api_unified_service.Outbound.Replay.{
  mark_read_back_resolved, may_replay, requeue_dead_lettered, requeued_row, resolved_row,
  unresolved,
}
use wh_api_unified_service.Outbound.Settle.{
  ambiguous_row, cancel, cancel_ambiguous, cancelled_row, failed_row, held, held_unsent,
  mark_failed, mark_rate_limited, mark_sent, parked_row, sent_row,
}
use wh_api_unified_service.Outbound.Steps.{
  Step, claimed, enqueued, had_failed, reclaimed, replayed, swept, was_ambiguous, was_cancelled,
  was_limited, was_read_back, was_sent,
}
use wh_api_unified_service.Outbound.Sweep.{
  delete_settled_before, is_reclaimable, reclaim_expired_leases, reclaimed_row, reclaims,
}

-- The changes that a row can go through, each with what the statement demanded of the row.
pub data RowStep (e : OutboundEvent) : OutboundEvent → Type 0 where
  untouched : RowStep e e
  claim :
      (now expires : ℕ) (owner : String)
      → is_due now e ≡ true
      → RowStep e (claim_row owner expires e)
  send :
      (now id : ℕ) (owner : String) (platform_id : Option String)
      → held id owner e ≡ true
      → RowStep e (sent_row now platform_id e)
  fail :
      (now id : ℕ) (owner error : String) (retry : Option ℕ)
      → held_unsent id owner e ≡ true
      → RowStep e (failed_row now error retry e)
  park :
      (now id retry_at wait : ℕ) (owner error : String)
      → held_unsent id owner e ≡ true
      → RowStep e (parked_row now retry_at error wait e)
  drop :
      (now id : ℕ) (owner reason : String)
      → held_unsent id owner e ≡ true
      → RowStep e (cancelled_row now reason e)
  doubt :
      (now id : ℕ) (owner reason : String)
      → held_unsent id owner e ≡ true
      → RowStep e (ambiguous_row now reason e)
  resolve :
      (outcome : ReadBackOutcome) (platform_id : Option String)
      → e.status ≡ cancelled
      → e.ambiguous ≡ true
      → e.read_back ≡ none
      → RowStep e (resolved_row outcome platform_id e)
  requeue :
      (now max_replays : ℕ)
      → e.status ≡ dead_letter
      → e.replays < max_replays
      → RowStep e (requeued_row now e)
  reclaim : (now : ℕ) → is_reclaimable now e ≡ true → RowStep e (reclaimed_row e)

-- The row after a step: gone, or changed in one of those ways.
abbrev pub After : ℕ → OutboundEvent → Ledger → Type 0
After i e m =
    (find_event i m.events ≡ none)
    ⊎ ((e' : OutboundEvent) × (find_event i m.events ≡ some e') × RowStep e e')

module _ (i : ℕ) (l : Ledger) (e : OutboundEvent) (found : find_event i l.events ≡ some e) where
  After-update :
      (p : OutboundEvent → Bool) (f : OutboundEvent → OutboundEvent)
      → KeepsKey f
      → (p e ≡ true → RowStep e (f e))
      → After i e (update p f l).0
  unfolding update
  After-update p f keeps step = elim (Bool-cases (p e)) [
    | inl on ↦ inr (f e, find_event-update_rows p f keeps i l.events ∙ (rw (found, on)), step on)
    | inr off ↦ inr (e, find_event-update_rows p f keeps i l.events ∙ (rw (found, off)), untouched)
  ]

pub find_event-append :
    (i : ℕ) (es : List OutboundEvent) (a e : OutboundEvent)
    → find_event i es ≡ some e
    → find_event i (es ++ a ∷ []) ≡ some e
unfolding find_event
find_event-append i [] a e h = cc
find_event-append i (x ∷ xs) a e h = ground (arith, find_event-append i xs a e)

find_event-filter :
    (q : OutboundEvent → Bool) (i : ℕ) (es : List OutboundEvent) (e : OutboundEvent)
    → AllPairs es
    → find_event i es ≡ some e
    → (find_event i (filter q es) ≡ none) ⊎ (find_event i (filter q es) ≡ some e)
find_event-filter q i es e keys h = elim (Option-cases (find_event i (filter q es))) [
  | inl gone ↦ inl gone
  | inr (a, still) ↦
      let (j, at) = find_event-In i (filter q es) a still in
      let (k, at') = find_event-In i es e h in
      let same = unique_row es a e keys ((In-filter q es a).0 j).0 k (at ∙ sym at') in
      inr (still ∙ ap some same)
]

-- Every statement either takes the row off the table or makes one of these changes.
pub row-Step :
    (i : ℕ) {l m : Ledger} (e : OutboundEvent)
    → Step l m
    → IsConsistent l
    → find_event i l.events ≡ some e
    → After i e m
unfolding enqueue claim_due_batch mark_sent mark_failed mark_rate_limited cancel cancel_ambiguous
    mark_read_back_resolved requeue_dead_lettered reclaim_expired_leases delete_settled_before
row-Step i {l} e (enqueued now input) h found =
    elim (Bool-cases (any (same_key input.enterprise_id input.dedup_key) l.events)) [
      | inl duplicate ↦ rw duplicate (inr (e, found, untouched))
      | inr new ↦
          rw new (
            inr
              (e, find_event-append i l.events (new_event now l.next_id input) e found, untouched))
    ]
row-Step i {l} e (claimed now limit secs owner) h found =
    After-update i l e found (has_id (select_due now limit l.events))
      (claim_row owner (now + secs * 1000)) (kept (λ a. refl) (λ a. refl) (λ a. refl))
      (λ on.
        claim now (now + secs * 1000) owner
          (selected_is_due now limit l.events e h.keys (find_event-In i l.events e found).0 on))
row-Step i {l} e (was_sent now id owner pid) h found =
    After-update i l e found (held id owner) (sent_row now pid)
      (kept (λ a. refl) (λ a. refl) (λ a. refl)) (send now id owner pid)
row-Step i {l} e (had_failed now id owner error retry) h found =
    After-update i l e found (held_unsent id owner) (failed_row now error retry)
      (kept (λ a. refl) (λ a. refl) (λ a. refl)) (fail now id owner error retry)
row-Step i {l} e (was_limited now id retry_at wait owner error) h found =
    After-update i l e found (held_unsent id owner) (parked_row now retry_at error wait)
      (kept (λ a. refl) (λ a. refl) (λ a. refl)) (park now id retry_at wait owner error)
row-Step i {l} e (was_cancelled now id owner reason) h found =
    After-update i l e found (held_unsent id owner) (cancelled_row now reason)
      (kept (λ a. refl) (λ a. refl) (λ a. refl)) (drop now id owner reason)
row-Step i {l} e (was_ambiguous now id owner reason) h found =
    After-update i l e found (held_unsent id owner) (ambiguous_row now reason)
      (kept (λ a. refl) (λ a. refl) (λ a. refl)) (doubt now id owner reason)
row-Step i {l} e (was_read_back id outcome pid listed) h found =
    After-update i l e found (unresolved id) (resolved_row outcome pid)
      (kept (λ a. refl) (λ a. refl) (λ a. refl))
      (λ on.
        let (was, unsure) =
          listed_cancelled id l e h.keys listed (find_event-In i l.events e found).0
            (ground arith) in
        resolve outcome pid was unsure (ground arith))
row-Step i {l} e (replayed now enterprise id max_replays) h found =
    After-update i l e found (may_replay enterprise id max_replays) (requeued_row now)
      (kept (λ a. refl) (λ a. refl) (λ a. refl))
      (λ on. requeue now max_replays (ground arith) (ground arith))
row-Step i {l} e (reclaimed now limit met) h found =
    After-update i l e found (reclaims now (take limit met)) reclaimed_row
      (kept (λ a. refl) (λ a. refl) (λ a. refl)) (λ on. reclaim now (ground arith))
row-Step i {l} e (swept cutoff limit) h found =
    elim (find_event-filter _ i l.events e h.keys found) [
      | inl gone ↦ inl gone
      | inr still ↦ inr (e, still, untouched)
    ]
