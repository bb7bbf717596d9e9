-- ===== src/Outbound/Fencing.antt =====
-- Who may settle a row: the five statements that a worker ends a send with,
-- src/database/repositories/outbound-event.repository.ts.
use wh_api_unified_service.Prelude.{
  ◌+◌, ◌<◌, All, All-In, All-imp, Bool, Bool-cases, List, Option, String, [], ap, arith, false,
  if◌then◌else◌, inl, inr, none, refl, some, str_eq, str_eq_iff, true, ℕ, ◌∷◌, ◌≡◌, ◌≢◌, ◌≤◌, ◌⊎◌,
}
use wh_api_unified_service.Outbound.{
  Ledger, OutboundEvent, cancelled, dead_letter, failed, find_event, pending, sending, sent,
}
use wh_api_unified_service.Outbound.Consistency.{IsConsistent}
use wh_api_unified_service.Outbound.Holding.{first_of_none, holder_settles_row, update_on_nothing}
use wh_api_unified_service.Outbound.Pointwise.{find_event-In}
use wh_api_unified_service.Outbound.Rows.{IsSound}
use wh_api_unified_service.Outbound.Settle.{
  RateLimitOutcome, ambiguous_row, cancel, cancel_ambiguous, cancelled_row, dead_lettered,
  failed_row, held, held_unsent, mark_failed, mark_rate_limited, mark_sent, may_wait, not_applied,
  parked, parked_row, sent_row,
}

-- The row is not in flight, or another worker has the lease on it.
abbrev pub IsOutOfHand : String → OutboundEvent → Type 0
IsOutOfHand owner e = (e.status ≢ sending) ⊎ (e.lease_owner ≢ some owner)

is_owner :
    (owner : String) (o : Option String)
    → (elim o [ none ↦ false | some x ↦ str_eq x owner ]) ≡ true
    → o ≡ some owner
is_owner owner none h = cc
is_owner owner (some x) h = ap some ((str_eq_iff x owner).0 h)

not_held :
    (id : ℕ) (owner : String) (e : OutboundEvent)
    → IsSound e
    → ((e.id ≡ id) → IsOutOfHand owner e)
    → held id owner e ≡ false
not_held id owner e sound away = elim (Bool-cases (held id owner e)) [
  | inr off ↦ off
  | inl on ↦
      let at : e.id ≡ id = ground arith in
      let mine : e.lease_owner ≡ some owner = is_owner owner e.lease_owner (ground arith) in
      let not_mine = away at in ground arith
]

none_held :
    (id : ℕ) (owner : String) (es : List OutboundEvent)
    → All IsSound es
    → All (λ e. (e.id ≡ id) → IsOutOfHand owner e) es
    → All (λ e. held id owner e ≡ false) es
none_held id owner [] sound away = tt
none_held id owner (e ∷ es) sound away =
    (not_held id owner e sound.0 away.0, none_held id owner es sound.1 away.1)

-- A worker that comes too late changes nothing: in a consistent ledger where the row of this id is not
-- in flight any more, because it was settled, reaped or removed, or is leased to another worker, none
-- of the five settling statements changes anything, and each of them tells the worker so.
pub without_lease_nothing_settles :
    (now id : ℕ) (owner : String) (l : Ledger)
    → IsConsistent l
    → All (λ e. (e.id ≡ id) → IsOutOfHand owner e) l.events
    → (pid : Option String) (error : String) (retry : Option ℕ) (retry_at wait : ℕ)
    → (mark_sent now id owner pid l ≡ (l, false))
      × (mark_failed now id owner error retry l ≡ (l, false))
      × (mark_rate_limited now id owner retry_at error wait l ≡ (l, not_applied))
      × (cancel now id owner error l ≡ (l, false))
      × (cancel_ambiguous now id owner error l ≡ (l, false))
unfolding mark_sent mark_failed mark_rate_limited cancel cancel_ambiguous
without_lease_nothing_settles now id owner l ok away pid error retry retry_at wait =
    let h = none_held id owner l.events ok.rows away in
    let unsent =
      All-imp (λ e. held id owner e ≡ false) (λ e. held_unsent id owner e ≡ false)
        (λ e off. ground arith) l.events h in
    (
      rw (update_on_nothing (held id owner) (sent_row now pid) l h) refl,
      rw (update_on_nothing (held_unsent id owner) (failed_row now error retry) l unsent) refl,
      rw
          (
            update_on_nothing (held_unsent id owner) (parked_row now retry_at error wait) l unsent,
            first_of_none (held_unsent id owner) l.events unsent,
          )
          refl,
      rw (update_on_nothing (held_unsent id owner) (cancelled_row now error) l unsent) refl,
      rw (update_on_nothing (held_unsent id owner) (ambiguous_row now error) l unsent) refl,
    )

in_flight_tried :
    (owner : String) (e : OutboundEvent)
    → IsSound e
    → e.lease_owner ≡ some owner
    → 0 < e.attempt_count
in_flight_tried owner e h mine = ground arith

-- The row of this id is there, free again, and P holds of it.
abbrev pub Leaves : ℕ → Ledger → (OutboundEvent → Type 0) → Type 0
Leaves i m P =
    (r : OutboundEvent) × (find_event i m.events ≡ some r)
    × (r.lease_owner ≡ none)
    × (r.lease_expires_at ≡ none)
    × P r

abbrev pub IsDelivered : ℕ → Option String → OutboundEvent → OutboundEvent → Type 0
IsDelivered now pid e r =
    (r.status ≡ sent)
    × (r.sent_at ≡ some now)
    × (r.platform_event_id ≡ pid)
    × (r.attempt_count ≡ e.attempt_count)

-- It is tried again at the given time while it has attempts left, and is dead otherwise.
abbrev pub IsTriedAgainOrDead : ℕ → Option ℕ → OutboundEvent → OutboundEvent → Type 0
IsTriedAgainOrDead now retry e r =
    (r.attempt_count ≡ e.attempt_count)
    × (((e.attempt_count < e.max_attempts)
          × (r.status ≡ failed)
          × (r.dead_lettered_at ≡ none)
          × ((at : ℕ) × (retry ≡ some at) × (r.next_attempt_at ≡ some at)))
        ⊎ (((retry ≡ none) ⊎ (e.max_attempts ≤ e.attempt_count))
            × (r.status ≡ dead_letter)
            × (r.dead_lettered_at ≡ some now)))

-- It waits with its attempt given back, or has waited long enough and is dead.
abbrev pub IsParkedOrDead : ℕ → ℕ → ℕ → RateLimitOutcome → OutboundEvent → OutboundEvent → Type 0
IsParkedOrDead now retry_at wait outcome e r =
    ((now < e.created_at + wait)
      × (outcome ≡ parked)
      × (r.status ≡ pending)
      × (r.next_attempt_at ≡ some retry_at)
      × (r.attempt_count + 1 ≡ e.attempt_count))
    ⊎ ((e.created_at + wait ≤ now)
        × (outcome ≡ dead_lettered)
        × (r.status ≡ dead_letter)
        × (r.dead_lettered_at ≡ some now)
        × (r.attempt_count ≡ e.attempt_count))

abbrev pub IsDropped : Bool → OutboundEvent → OutboundEvent → Type 0
IsDropped ambiguous e r =
    (r.status ≡ cancelled) × (r.ambiguous ≡ ambiguous) × (r.attempt_count ≡ e.attempt_count)

tried_again_or_dead :
    (now : ℕ) (error : String) (retry : Option ℕ) (e : OutboundEvent)
    → IsTriedAgainOrDead now retry e (failed_row now error retry e)
tried_again_or_dead now error none e = (refl, inr (inl refl, refl, refl))
tried_again_or_dead now error (some at) e = ground arith

parked_or_dead :
    (now retry_at wait : ℕ) (error : String) (e : OutboundEvent) (outcome : RateLimitOutcome)
    → 0 < e.attempt_count
    → outcome ≡ (if may_wait now wait e then parked else dead_lettered)
    → IsParkedOrDead now retry_at wait outcome e (parked_row now retry_at error wait e)
parked_or_dead now retry_at wait error e outcome tried told = ground arith

-- The holder of a lease settles its row: in a consistent ledger each of the five statements finds it,
-- reports that it did and takes the lease off. The row is then sent; failed until the given time, or
-- dead where no time is given or its attempts are spent; pending with its attempt given back, or dead
-- where it has waited too long; cancelled, with its mark of an unknown outcome as it was; or cancelled
-- and marked.
pub holder_settles :
    (now i : ℕ) (owner : String) (l : Ledger) (e : OutboundEvent)
    → IsConsistent l
    → find_event i l.events ≡ some e
    → e.lease_owner ≡ some owner
    → (pid : Option String) (error : String) (retry : Option ℕ) (retry_at wait : ℕ)
    → (((mark_sent now i owner pid l).1 ≡ true)
        × Leaves i (mark_sent now i owner pid l).0 (IsDelivered now pid e))
      × (((mark_failed now i owner error retry l).1 ≡ true)
          × Leaves i (mark_failed now i owner error retry l).0 (IsTriedAgainOrDead now retry e))
      × Leaves i (mark_rate_limited now i owner retry_at error wait l).0 (
          IsParkedOrDead now retry_at wait
            (mark_rate_limited now i owner retry_at error wait l).1
            e)
      × (((cancel now i owner error l).1 ≡ true)
          × Leaves i (cancel now i owner error l).0 (IsDropped e.ambiguous e))
      × (((cancel_ambiguous now i owner error l).1 ≡ true)
          × Leaves i (cancel_ambiguous now i owner error l).0 (IsDropped true e))
holder_settles now i owner l e h found mine pid error retry retry_at wait =
    let (sends, fails, (outcome, parks), drops, doubts) =
      holder_settles_row now i owner l e h found mine pid error retry retry_at wait in
    let (there, at) = find_event-In i l.events e found in
    let tried = in_flight_tried owner e (All-In IsSound l.events e h.rows there) mine in
    let park = parked_row now retry_at error wait e in
    let waits = parked_or_dead now retry_at wait error e _ tried outcome in
    (
      (sends.0, (sent_row now pid e, sends.1, refl, refl, (refl, refl, refl, refl))),
      (
        fails.0,
        (failed_row now error retry e, fails.1, refl, refl, tried_again_or_dead now error retry e),
      ),
      (park, parks, refl, refl, waits),
      (drops.0, (cancelled_row now error e, drops.1, refl, refl, (refl, refl, refl))),
      (doubts.0, (ambiguous_row now error e, doubts.1, refl, refl, (refl, refl, refl))),
    )
