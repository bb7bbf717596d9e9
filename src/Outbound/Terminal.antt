-- ===== src/Outbound/Terminal.antt =====
-- What is settled stays settled, src/database/repositories/outbound-event.repository.ts.
use wh_api_unified_service.Prelude.{
  ◌++◌, ◌<◌, All-In, Bool, Bool-cases, List, [], any, ap, arith, filter, inl, inr, none, refl, some,
  subst, sym, true, ℕ, ◌∙◌, ◌∷◌, ◌≡◌, ◌≢◌, ◌≤◌, ◌⊎◌,
}
use wh_api_unified_service.Outbound.{Ledger, OutboundEvent, find_event, sending, sent, update}
use wh_api_unified_service.Outbound.Consistency.{IsConsistent, Step-IsConsistent, kept}
use wh_api_unified_service.Outbound.Pointwise.{KeepsKey, find_event-In, find_event-update_rows}
use wh_api_unified_service.Outbound.Queue.{claim_due_batch, enqueue, new_event, same_key}
use wh_api_unified_service.Outbound.Replay.{mark_read_back_resolved, requeue_dead_lettered}
use wh_api_unified_service.Outbound.Rows.{IsSound}
use wh_api_unified_service.Outbound.Settle.{
  cancel, cancel_ambiguous, mark_failed, mark_rate_limited, mark_sent,
}
use wh_api_unified_service.Outbound.Steps.{
  Reach, Step, claimed, enqueued, had_failed, here, next, reclaimed, replayed, swept, was_ambiguous,
  was_cancelled, was_limited, was_read_back, was_sent,
}
use wh_api_unified_service.Outbound.Sweep.{delete_settled_before, reclaim_expired_leases}
use wh_api_unified_service.Outbound.Trace.{
  RowStep, claim, doubt, drop, fail, park, reclaim, requeue, resolve, row-Step, send, untouched,
}

-- The row is gone from the table for good, or it is there and P holds of it.
abbrev pub GoneOr : ℕ → Ledger → (OutboundEvent → Type 0) → Type 0
GoneOr i m P =
    ((find_event i m.events ≡ none) × (i < m.next_id))
    ⊎ ((e : OutboundEvent) × (find_event i m.events ≡ some e) × P e)

next_id_grows : {l m : Ledger} → Step l m → l.next_id ≤ m.next_id
unfolding enqueue claim_due_batch mark_sent mark_failed mark_rate_limited cancel cancel_ambiguous
    mark_read_back_resolved requeue_dead_lettered reclaim_expired_leases delete_settled_before
    update
next_id_grows {l} (enqueued now input) =
    elim (Bool-cases (any (same_key input.enterprise_id input.dedup_key) l.events)) [
      | inl duplicate ↦ rw duplicate (omega arith)
      | inr new ↦ rw new (omega arith)
    ]
next_id_grows (claimed now limit secs owner) = omega arith
next_id_grows (was_sent now id owner pid) = omega arith
next_id_grows (had_failed now id owner error retry) = omega arith
next_id_grows (was_limited now id retry_at wait owner error) = omega arith
next_id_grows (was_cancelled now id owner reason) = omega arith
next_id_grows (was_ambiguous now id owner reason) = omega arith
next_id_grows (was_read_back id outcome pid listed) = omega arith
next_id_grows (replayed now enterprise id max_replays) = omega arith
next_id_grows (reclaimed now limit met) = omega arith
next_id_grows (swept cutoff limit) = omega arith

find_event-filter-none :
    (q : OutboundEvent → Bool) (i : ℕ) (es : List OutboundEvent)
    → find_event i es ≡ none
    → find_event i (filter q es) ≡ none
unfolding find_event
find_event-filter-none q i [] h = h
find_event-filter-none q i (e ∷ es) h = ground (arith, find_event-filter-none q i es)

find_event-append_none :
    (i : ℕ) (es : List OutboundEvent) (a : OutboundEvent)
    → find_event i es ≡ none
    → a.id ≢ i
    → find_event i (es ++ a ∷ []) ≡ none
unfolding find_event
find_event-append_none i [] a h k = ground arith
find_event-append_none i (e ∷ es) a h k = ground (arith, find_event-append_none i es a)

gone_after_update :
    (p : OutboundEvent → Bool) (f : OutboundEvent → OutboundEvent)
    → KeepsKey f
    → (i : ℕ) (l : Ledger) → find_event i l.events ≡ none
    → find_event i (update p f l).0.events ≡ none
unfolding update
gone_after_update p f keeps i l gone = find_event-update_rows p f keeps i l.events ∙ rw gone refl

-- A row that is gone never comes back under its id.
gone_stays :
    (i : ℕ) {l m : Ledger}
    → Step l m
    → find_event i l.events ≡ none
    → i < l.next_id
    → find_event i m.events ≡ none
unfolding enqueue claim_due_batch mark_sent mark_failed mark_rate_limited cancel cancel_ambiguous
    mark_read_back_resolved requeue_dead_lettered reclaim_expired_leases delete_settled_before
gone_stays i {l} (enqueued now input) gone old =
    elim (Bool-cases (any (same_key input.enterprise_id input.dedup_key) l.events)) [
      | inl duplicate ↦ rw duplicate gone
      | inr new ↦
          rw new
            (find_event-append_none i l.events (new_event now l.next_id input) gone (omega arith))
    ]
gone_stays i {l} (claimed now limit secs owner) gone old =
    gone_after_update _ _ (kept (λ e. refl) (λ e. refl) (λ e. refl)) i l gone
gone_stays i {l} (was_sent now id owner pid) gone old =
    gone_after_update _ _ (kept (λ e. refl) (λ e. refl) (λ e. refl)) i l gone
gone_stays i {l} (had_failed now id owner error retry) gone old =
    gone_after_update _ _ (kept (λ e. refl) (λ e. refl) (λ e. refl)) i l gone
gone_stays i {l} (was_limited now id retry_at wait owner error) gone old =
    gone_after_update _ _ (kept (λ e. refl) (λ e. refl) (λ e. refl)) i l gone
gone_stays i {l} (was_cancelled now id owner reason) gone old =
    gone_after_update _ _ (kept (λ e. refl) (λ e. refl) (λ e. refl)) i l gone
gone_stays i {l} (was_ambiguous now id owner reason) gone old =
    gone_after_update _ _ (kept (λ e. refl) (λ e. refl) (λ e. refl)) i l gone
gone_stays i {l} (was_read_back id outcome pid listed) gone old =
    gone_after_update _ _ (kept (λ e. refl) (λ e. refl) (λ e. refl)) i l gone
gone_stays i {l} (replayed now enterprise id max_replays) gone old =
    gone_after_update _ _ (kept (λ e. refl) (λ e. refl) (λ e. refl)) i l gone
gone_stays i {l} (reclaimed now limit met) gone old =
    gone_after_update _ _ (kept (λ e. refl) (λ e. refl) (λ e. refl)) i l gone
gone_stays i {l} (swept cutoff limit) gone old = find_event-filter-none _ i l.events gone

IsSound-row :
    (i : ℕ) (l : Ledger) (e : OutboundEvent)
    → IsConsistent l
    → find_event i l.events ≡ some e
    → IsSound e
IsSound-row i l e h found = All-In IsSound l.events e h.rows (find_event-In i l.events e found).0

id_below :
    (i : ℕ) (l : Ledger) (e : OutboundEvent)
    → IsConsistent l
    → find_event i l.events ≡ some e
    → i < l.next_id
id_below i l e h found =
    let (j, at) = find_event-In i l.events e found in
    omega (arith, at, All-In (λ a. a.id < l.next_id) l.events e h.fresh j)

Reach-IsConsistent_from : {l m : Ledger} → IsConsistent l → Reach l m → IsConsistent m
Reach-IsConsistent_from h here = h
Reach-IsConsistent_from h (next r s) = Step-IsConsistent s (Reach-IsConsistent_from h r)

-- What no change of a sound row can break holds of the row for as long as it is there.
module _ (i : ℕ) (P : OutboundEvent → Type 0)
    (closed : (e e' : OutboundEvent) → IsSound e → P e → RowStep e e' → P e') where
  step_stays : {l m : Ledger} → IsConsistent l → GoneOr i l P → Step l m → GoneOr i m P
  step_stays h (inl (gone, old)) s = inl (gone_stays i s gone old, omega (arith, next_id_grows s))
  step_stays {l} h (inr (e, found, p)) s = elim (row-Step i e s h found) [
    | inl gone ↦ inl (gone, omega (arith, next_id_grows s, id_below i l e h found))
    | inr (e', found', change) ↦ inr (e', found', closed e e' (IsSound-row i l e h found) p change)
  ]

  pub stays : {l m : Ledger} → IsConsistent l → GoneOr i l P → Reach l m → GoneOr i m P
  stays h p here = p
  stays h p (next r s) = step_stays (Reach-IsConsistent_from h r) (stays h p r) s

sent_is_final : (e e' : OutboundEvent) → IsSound e → e.status ≡ sent → RowStep e e' → e' ≡ e
sent_is_final e e' h on untouched = refl
sent_is_final e e' h on (claim now expires owner due) = ground arith
sent_is_final e e' h on (send now id owner pid mine) = ground arith
sent_is_final e e' h on (fail now id owner error retry mine) = ground arith
sent_is_final e e' h on (park now id retry_at wait owner error mine) = ground arith
sent_is_final e e' h on (drop now id owner reason mine) = ground arith
sent_is_final e e' h on (doubt now id owner reason mine) = ground arith
sent_is_final e e' h on (resolve outcome pid was unsure unread) = ground arith
sent_is_final e e' h on (requeue now most was few) = ground arith
sent_is_final e e' h on (reclaim now lapsed) = ground arith

-- A row that reached `sent` in a consistent ledger is never changed again by anybody: later it is the
-- same row, or the sweep has removed it and no row has its id.
pub sent_row_is_final :
    (i : ℕ) (e : OutboundEvent) {l m : Ledger}
    → IsConsistent l
    → find_event i l.events ≡ some e
    → e.status ≡ sent
    → Reach l m
    → (find_event i m.events ≡ none) ⊎ (find_event i m.events ≡ some e)
sent_row_is_final i e h found on r =
    elim (stays i (λ a. a ≡ e)
      (λ a b sound same change.
        sent_is_final a b sound (subst (λ x. x.status ≡ sent) (sym same) on) change ∙ same)
      h (inr (e, found, refl)) r) [
        | inl gone ↦ inl gone.0
        | inr (a, there, same) ↦ inr (there ∙ ap some same)
      ]

-- Its outcome was never confirmed, and nobody has attempted it since.
abbrev pub IsLeftAlone : ℕ → OutboundEvent → Type 0
IsLeftAlone attempts e = (e.ambiguous ≡ true) × (e.status ≢ sending) × (e.attempt_count ≡ attempts)

left_alone :
    (attempts : ℕ) (e e' : OutboundEvent)
    → IsSound e
    → IsLeftAlone attempts e
    → RowStep e e'
    → IsLeftAlone attempts e'
left_alone n e e' h k untouched = k
left_alone n e e' h k (claim now expires owner due) = ground arith
left_alone n e e' h k (send now id owner pid mine) = ground arith
left_alone n e e' h k (fail now id owner error retry mine) = ground arith
left_alone n e e' h k (park now id retry_at wait owner error mine) = ground arith
left_alone n e e' h k (drop now id owner reason mine) = ground arith
left_alone n e e' h k (doubt now id owner reason mine) = ground arith
left_alone n e e' h k (resolve outcome pid was unsure unread) = ground arith
left_alone n e e' h k (requeue now most was few) = ground arith
left_alone n e e' h k (reclaim now lapsed) = ground arith

not_in_flight : (e : OutboundEvent) → IsSound e → e.ambiguous ≡ true → e.status ≢ sending
not_in_flight e h unsure = ground arith

-- A send whose outcome is unknown is never sent a second time: whatever happens in a consistent ledger
-- after a row was marked ambiguous, it is not claimed again, no replay takes it up and its attempts do
-- not grow, until the sweep removes it.
pub ambiguous_never_resent :
    (i : ℕ) (e : OutboundEvent) {l m : Ledger}
    → IsConsistent l
    → find_event i l.events ≡ some e
    → e.ambiguous ≡ true
    → Reach l m
    → GoneOr i m (IsLeftAlone e.attempt_count)
ambiguous_never_resent i e {l} h found unsure r =
    stays i (IsLeftAlone e.attempt_count) (left_alone e.attempt_count) h
      (inr (e, found, (unsure, not_in_flight e (IsSound-row i l e h found) unsure, refl))) r
