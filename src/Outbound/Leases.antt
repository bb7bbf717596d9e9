-- ===== src/Outbound/Leases.antt =====
-- Exclusion: what may change a row while it is in flight,
-- src/database/repositories/outbound-event.repository.ts.
use wh_api_unified_service.Prelude.{
  ◌*◌, ◌+◌, ◌<◌, ◌==◌, Bool, Bool-cases, In-filter, In-map, In-sort, In-take, List, String, [], any,
  arith, false, false≢true, filter, inl, inr, map, not, refl, some, sort, str_eq_iff, subst, sym,
  take, true, ℕ, ◌∙◌, ◌∷◌, ◌≡◌, ◌≢◌, ◌≤◌, ◌⊎◌,
}
use wh_api_unified_service.Outbound.{
  Ledger, OutboundEvent, cancelled, find_event, sending, sent, update,
}
use wh_api_unified_service.Outbound.Consistency.{
  IsConsistent, has_id→In, kept, listed_cancelled, selected_is_due,
}
use wh_api_unified_service.Outbound.Pointwise.{
  AllPairs, KeepsKey, find_event-In, find_event-update_rows, unique_row,
}
use wh_api_unified_service.Outbound.Queue.{
  claim_due_batch, claim_row, enqueue, has_id, new_event, same_key, select_due,
}
use wh_api_unified_service.Outbound.Replay.{
  mark_read_back_resolved, may_replay, requeue_dead_lettered, requeued_row, resolved_row,
  unresolved,
}
use wh_api_unified_service.Outbound.Settle.{
  ambiguous_row, cancel, cancel_ambiguous, cancelled_row, failed_row, held, held_unsent,
  mark_failed, mark_rate_limited, mark_sent, parked_row, sent_row,
}
use wh_api_unified_service.Outbound.Steps.{
  Step, claimed, enqueued, had_failed, reclaimed, replayed, swept, was_ambiguous, was_cancelled,
  was_limited, was_read_back, was_sent,
}
use wh_api_unified_service.Outbound.Sweep.{
  by_age, delete_settled_before, is_sweepable, reclaim_expired_leases, reclaimed_row, reclaims,
  sending_reap_grace_ms,
}
use wh_api_unified_service.Outbound.Trace.{find_event-append}

-- The statements that may change a row with this id, held by this owner until this time: its
-- holder's, and those of the reaper once the lease and the grace have passed.
abbrev pub MayTouch : ℕ → String → ℕ → {l m : Ledger} → Step l m → Type 0
MayTouch i o at (was_sent now id owner pid) = (id ≡ i) × (owner ≡ o)
MayTouch i o at (had_failed now id owner error retry) = (id ≡ i) × (owner ≡ o)
MayTouch i o at (was_limited now id retry_at wait owner error) = (id ≡ i) × (owner ≡ o)
MayTouch i o at (was_cancelled now id owner reason) = (id ≡ i) × (owner ≡ o)
MayTouch i o at (was_ambiguous now id owner reason) = (id ≡ i) × (owner ≡ o)
MayTouch i o at (reclaimed now limit met) = at + sending_reap_grace_ms < now
MayTouch i o at _ = ⊥

module _ (i : ℕ) (l : Ledger) (e : OutboundEvent) (found : find_event i l.events ≡ some e) where
  -- An UPDATE leaves the row alone, or its test let the row through.
  kept_or :
      {A : Type 0} (p : OutboundEvent → Bool) (f : OutboundEvent → OutboundEvent)
      → KeepsKey f
      → (p e ≡ true → A)
      → (find_event i (update p f l).0.events ≡ some e) ⊎ A
  unfolding update
  kept_or p f keeps through = elim (Bool-cases (p e)) [
    | inl on ↦ inr (through on)
    | inr off ↦ inl (find_event-update_rows p f keeps i l.events ∙ rw (found, off) refl)
  ]

held_by_another :
    (i id : ℕ) (o owner : String) (e : OutboundEvent)
    → e.id ≡ i
    → e.lease_owner ≡ some o
    → held id owner e ≡ true
    → (id ≡ i) × (owner ≡ o)
held_by_another i id o owner e at mine on = ground (arith, str_eq_iff o owner)

find_event-filter_kept :
    (q : OutboundEvent → Bool) (i : ℕ) (es : List OutboundEvent) (e : OutboundEvent)
    → find_event i es ≡ some e
    → q e ≡ true
    → find_event i (filter q es) ≡ some e
unfolding find_event
find_event-filter_kept q i [] e found keep = found
find_event-filter_kept q i (x ∷ xs) e found keep = elim (Bool-cases (x.id == i)) [
  | inl at ↦
      let same : x ≡ e = ground arith in
      let keep' = subst (λ y. q y ≡ true) (sym same) keep in ground arith
  | inr away ↦ ground (arith, find_event-filter_kept q i xs e)
]

sweep_spares :
    (cutoff limit i : ℕ) (l : Ledger) (e : OutboundEvent)
    → AllPairs l.events
    → find_event i l.events ≡ some e
    → is_sweepable cutoff e ≡ false
    → find_event i (delete_settled_before cutoff limit l).0.events ≡ some e
unfolding delete_settled_before
sweep_spares cutoff limit i l e keys found safe =
    let ids =
      map OutboundEvent.id (take limit (sort by_age (filter (is_sweepable cutoff) l.events))) in
    let (there, at) = find_event-In i l.events e found in
    let spared : has_id ids e ≡ false = elim (Bool-cases (has_id ids e)) [
      | inr off ↦ off
      | inl on ↦
          let (a, j, same) =
            In-map OutboundEvent.id
              (take limit (sort by_age (filter (is_sweepable cutoff) l.events))) e.id
              (has_id→In ids e on) in
          let sorted = In-take limit (sort by_age (filter (is_sweepable cutoff) l.events)) a j in
          let (k, old) =
            (In-filter (is_sweepable cutoff) l.events a).0
              ((In-sort by_age (filter (is_sweepable cutoff) l.events) a).0 sorted) in
          let one = unique_row l.events a e keys k there (sym same) in
          absurd (false≢true (sym safe ∙ subst (λ x. is_sweepable cutoff x ≡ true) one old))
    ] in
    find_event-filter_kept (λ a. not (has_id ids a)) i l.events e found (rw spared refl)

-- While a row of a consistent ledger is in flight, one statement leaves it exactly as it is unless it is
-- its holder's own settlement of it, or the reaper more than the grace after the lease ran out: no
-- claim, no other worker, no replay, no read-back and no sweep reaches it.
pub in_flight_row_is_exclusive :
    (i at : ℕ) (o : String) (e : OutboundEvent) {l m : Ledger} (s : Step l m)
    → IsConsistent l
    → find_event i l.events ≡ some e
    → e.status ≡ sending
    → e.lease_owner ≡ some o
    → e.lease_expires_at ≡ some at
    → (find_event i m.events ≡ some e) ⊎ MayTouch i o at s
unfolding enqueue claim_due_batch mark_sent mark_failed mark_rate_limited cancel cancel_ambiguous
    mark_read_back_resolved requeue_dead_lettered reclaim_expired_leases
in_flight_row_is_exclusive i at o e {l} (enqueued now input) h found flying mine until =
    elim (Bool-cases (any (same_key input.enterprise_id input.dedup_key) l.events)) [
      | inl duplicate ↦ rw duplicate (inl found)
      | inr new ↦
          rw new (inl (find_event-append i l.events (new_event now l.next_id input) e found))
    ]
in_flight_row_is_exclusive i at o e {l} (claimed now limit secs owner) h found flying mine until =
    kept_or i l e found (has_id (select_due now limit l.events))
      (claim_row owner (now + secs * 1000)) (kept (λ a. refl) (λ a. refl) (λ a. refl))
      (λ on.
        let due =
          selected_is_due now limit l.events e h.keys (find_event-In i l.events e found).0 on in
        ground arith)
in_flight_row_is_exclusive i at o e {l} (was_sent now id owner pid) h found flying mine until =
    kept_or i l e found (held id owner) (sent_row now pid)
      (kept (λ a. refl) (λ a. refl) (λ a. refl))
      (λ on. held_by_another i id o owner e (find_event-In i l.events e found).1 mine on)
in_flight_row_is_exclusive i at o e {l} (had_failed now id owner error retry) h found flying mine
      until =
    kept_or i l e found (held_unsent id owner) (failed_row now error retry)
      (kept (λ a. refl) (λ a. refl) (λ a. refl))
      (λ on.
        held_by_another i id o owner e (find_event-In i l.events e found).1 mine (ground arith))
in_flight_row_is_exclusive i at o e {l} (was_limited now id retry_at wait owner error) h found
      flying mine until =
    kept_or i l e found (held_unsent id owner) (parked_row now retry_at error wait)
      (kept (λ a. refl) (λ a. refl) (λ a. refl))
      (λ on.
        held_by_another i id o owner e (find_event-In i l.events e found).1 mine (ground arith))
in_flight_row_is_exclusive i at o e {l} (was_cancelled now id owner reason) h found flying mine
      until =
    kept_or i l e found (held_unsent id owner) (cancelled_row now reason)
      (kept (λ a. refl) (λ a. refl) (λ a. refl))
      (λ on.
        held_by_another i id o owner e (find_event-In i l.events e found).1 mine (ground arith))
in_flight_row_is_exclusive i at o e {l} (was_ambiguous now id owner reason) h found flying mine
      until =
    kept_or i l e found (held_unsent id owner) (ambiguous_row now reason)
      (kept (λ a. refl) (λ a. refl) (λ a. refl))
      (λ on.
        held_by_another i id o owner e (find_event-In i l.events e found).1 mine (ground arith))
in_flight_row_is_exclusive i at o e {l} (was_read_back id outcome pid listed) h found flying mine
      until =
    kept_or i l e found (unresolved id) (resolved_row outcome pid)
      (kept (λ a. refl) (λ a. refl) (λ a. refl))
      (λ on.
        let (was, unsure) =
          listed_cancelled id l e h.keys listed (find_event-In i l.events e found).0
            (ground arith) in
        ground arith)
in_flight_row_is_exclusive i at o e {l} (replayed now enterprise id most) h found flying mine
      until =
    kept_or i l e found (may_replay enterprise id most) (requeued_row now)
      (kept (λ a. refl) (λ a. refl) (λ a. refl)) (λ on. ground arith)
in_flight_row_is_exclusive i at o e {l} (reclaimed now limit met) h found flying mine until =
    kept_or i l e found (reclaims now (take limit met)) reclaimed_row
      (kept (λ a. refl) (λ a. refl) (λ a. refl)) (λ on. ground arith)
in_flight_row_is_exclusive i at o e {l} (swept cutoff limit) h found flying mine until =
    inl (sweep_spares cutoff limit i l e h.keys found (ground arith))

-- The sweep removes only rows that are sent or cancelled and older than the cutoff: a dead letter, a
-- row that may still be sent and a recent row are all found afterwards as they were.
pub sweep_keeps_work :
    (cutoff limit i : ℕ) (l : Ledger) (e : OutboundEvent)
    → IsConsistent l
    → find_event i l.events ≡ some e
    → ((e.status ≢ sent) × (e.status ≢ cancelled)) ⊎ (cutoff ≤ e.created_at)
    → find_event i (delete_settled_before cutoff limit l).0.events ≡ some e
sweep_keeps_work cutoff limit i l e h found safe =
    sweep_spares cutoff limit i l e h.keys found (ground arith)
