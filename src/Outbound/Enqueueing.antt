-- ===== src/Outbound/Enqueueing.antt =====
-- Deduplication, and what parking costs a row, src/database/repositories/outbound-event.repository.ts.
use wh_api_unified_service.Prelude.{
  ◌&&◌, ◌*◌, ◌+◌, ◌++◌, ◌<◌, ◌==◌, ==_refl, All, Bool, Bool-cases, List, Option, String, [], any,
  ap, arith, false, inl, inr, is_none, none, or_else, refl, some, str_eq, str_eq_refl, true, ◌||◌,
  ℕ, ◌∙◌, ◌∷◌, ◌≡◌, ◌≤◌,
}
use wh_api_unified_service.Outbound.{Ledger, OutboundEvent, find_event, pending, update}
use wh_api_unified_service.Outbound.Consistency.{IsConsistent, Step-IsConsistent, kept}
use wh_api_unified_service.Outbound.Holding.{holder_settles_row}
use wh_api_unified_service.Outbound.Pointwise.{find_event-update_rows}
use wh_api_unified_service.Outbound.Queue.{
  EnqueueOutboundInput, claim_due_batch, claim_row, enqueue, has_id, is_due, new_event, same_key,
  select_due,
}
use wh_api_unified_service.Outbound.Settle.{mark_rate_limited, may_wait, parked, parked_row}
use wh_api_unified_service.Outbound.Steps.{claimed}

any-append_last :
    (p : OutboundEvent → Bool) (es : List OutboundEvent) (e : OutboundEvent)
    → p e ≡ true
    → any p (es ++ e ∷ []) ≡ true
any-append_last p [] e h = ground arith
any-append_last p (x ∷ xs) e h = ground (arith, any-append_last p xs e h)

any-same_key :
    (a b : Option ℕ) (k k' : String) (es : List OutboundEvent)
    → or_else a 0 ≡ or_else b 0
    → k ≡ k'
    → any (same_key a k) es ≡ any (same_key b k') es
any-same_key a b k k' [] tenant key = refl
any-same_key a b k k' (e ∷ es) tenant key =
    rw (key, any-same_key a b k k' es tenant key)
      (ap
        (λ n. ((or_else e.enterprise_id 0 == n) && str_eq e.dedup_key k') || any (same_key b k') es)
        tenant)

-- Enqueueing is idempotent in the enterprise and the deduplication key, whatever else the second call
-- says and whenever it comes: the second call reports a duplicate, wakes nobody and changes nothing.
pub enqueue_twice :
    (now now' : ℕ) (input input' : EnqueueOutboundInput) (l : Ledger)
    → or_else input'.enterprise_id 0 ≡ or_else input.enterprise_id 0
    → input'.dedup_key ≡ input.dedup_key
    → enqueue now' input' (enqueue now input l).0
      ≡ ((enqueue now input l).0, record { id = none; duplicate = true; notified = false })
unfolding enqueue
enqueue_twice now now' input input' l tenant key =
    let test = any (same_key input.enterprise_id input.dedup_key) in
    let same = λ (es : List OutboundEvent).
      any-same_key input'.enterprise_id input.enterprise_id input'.dedup_key input.dedup_key es
        tenant key in
    elim (Bool-cases (test l.events)) [
      | inl there ↦ rw there (rw (same l.events, there) refl)
      | inr new ↦
          let e = new_event now l.next_id input in
          let found : test (l.events ++ e ∷ []) ≡ true =
            any-append_last (same_key input.enterprise_id input.dedup_key) l.events e (
              ground
                (arith, str_eq_refl input.dedup_key, ==_refl (or_else input.enterprise_id 0))) in
          rw new (rw (same (l.events ++ e ∷ []), found) refl)
    ]

find_event-append_new :
    (i : ℕ) (es : List OutboundEvent) (a : OutboundEvent)
    → All (λ e. e.id < i) es
    → a.id ≡ i
    → find_event i (es ++ a ∷ []) ≡ some a
unfolding find_event
find_event-append_new i [] a h at = ground arith
find_event-append_new i (e ∷ es) a h at =
    let below = h.0 in ground (arith, find_event-append_new i es a h.1 at)

-- A key that no row of a consistent ledger has gets a row: it is found under the id that is returned,
-- the first claim after the scheduled time may take it, and the queue is woken unless it is scheduled.
pub enqueue_new :
    (now : ℕ) (input : EnqueueOutboundInput) (l : Ledger)
    → IsConsistent l
    → any (same_key input.enterprise_id input.dedup_key) l.events ≡ false
    → ((enqueue now input l).1
        ≡ record { id = some l.next_id; duplicate = false; notified = is_none input.scheduled_at })
      × (find_event l.next_id (enqueue now input l).0.events ≡ some (new_event now l.next_id input))
      × ((t : ℕ)
          → or_else input.scheduled_at now ≤ t
          → is_due t (new_event now l.next_id input) ≡ true)
unfolding enqueue
enqueue_new now input l h new =
    rw new (refl, find_event-append_new l.next_id l.events _ h.fresh refl, λ t late. ground arith)

-- A send that was only held back by a rate limit costs its row nothing: in a consistent ledger, a row
-- that a claim took and its holder parked within the longest wait is pending again, free, due at the
-- given time and with the attempts that it had before the claim.
pub parking_refunds :
    (now limit secs now' i retry_at wait : ℕ) (owner error : String) (l : Ledger)
    (e : OutboundEvent)
    → IsConsistent l
    → find_event i l.events ≡ some e
    → has_id (select_due now limit l.events) e ≡ true
    → now' < e.created_at + wait
    → (mark_rate_limited now' i owner retry_at error wait
          (claim_due_batch now owner limit secs l).0).1
        ≡ parked
      × ((e' : OutboundEvent) × (find_event i
              (mark_rate_limited now' i owner retry_at error wait
                (claim_due_batch now owner limit secs l).0).0.events
            ≡ some e')
          × (e'.status ≡ pending)
          × (e'.lease_owner ≡ none)
          × (e'.next_attempt_at ≡ some retry_at)
          × (e'.attempt_count ≡ e.attempt_count))
unfolding claim_due_batch update
parking_refunds now limit secs now' i retry_at wait owner error l e h found picked early =
    let claim = claim_row owner (now + secs * 1000) in
    let m = (claim_due_batch now owner limit secs l).0 in
    let h' : IsConsistent m = Step-IsConsistent (claimed now limit secs owner) h in
    let there : find_event i m.events ≡ some (claim e) =
      find_event-update_rows (has_id (select_due now limit l.events)) claim
        (kept (λ a. refl) (λ a. refl) (λ a. refl)) i l.events
      ∙ rw (found, picked) refl in
    let (sends, fails, (outcome, row), drops, doubts) =
      holder_settles_row now' i owner m (claim e) h' there refl none error none retry_at wait in
    let waits : may_wait now' wait (claim e) ≡ true = ground arith in
    (
      outcome ∙ rw waits refl,
      (
        parked_row now' retry_at error wait (claim e),
        row,
        rw waits refl,
        refl,
        rw waits refl,
        rw waits (omega arith),
      ),
    )
