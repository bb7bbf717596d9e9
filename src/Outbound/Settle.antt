-- ===== src/Outbound/Settle.antt =====
-- Settling a claimed row, src/database/repositories/outbound-event.repository.ts.
use mathlib.Core.Option
use wh_api_unified_service.Prelude.{
  ◌&&◌, ◌+◌, ◌-◌, ◌==◌, Bool, List, Option, String, [], any, false, if◌then◌else◌, is_none, leb,
  ltb, none, not, some, suc, true, zero, ◌||◌, ℕ, ◌∷◌,
}
use wh_api_unified_service.Outbound.{
  Ledger, OutboundEvent, cancelled, dead_letter, failed, owned_by, pending, sent, status_is, update,
}

-- `text.slice(0, n)`, where a character outside the basic plane counts once.
pub slice_to : ℕ → String → String
slice_to zero s = ""
slice_to (suc n) String.[] = ""
slice_to (suc n) (String.◌∷◌ c s) = String.◌∷◌ c (slice_to n s)

abbrev pub error_text : String → String
error_text s = slice_to 2000 s

-- `id = $1 AND lease_owner = $2`, and with `status <> 'sent'`.
abbrev pub held : ℕ → String → OutboundEvent → Bool
held id owner e = (e.id == id) && owned_by owner e

abbrev pub held_unsent : ℕ → String → OutboundEvent → Bool
held_unsent id owner e = held id owner e && not (status_is e.status sent)

abbrev pub sent_row : ℕ → Option String → OutboundEvent → OutboundEvent
sent_row now platform_event_id e = record e {
  status = sent;
  sent_at = some now;
  platform_event_id = platform_event_id;
  lease_owner = none;
  lease_expires_at = none;
}

unfoldable pub mark_sent : ℕ → ℕ → String → Option String → Ledger → Ledger × Bool
mark_sent now id owner platform_event_id l =
    let (l', affected) = update (held id owner) (sent_row now platform_event_id) l in
    (l', affected == 1)

-- `… AND lease_expires_at > now()`
unfoldable pub still_holds_lease : ℕ → ℕ → String → Ledger → Bool
still_holds_lease now id owner l =
    any (λ e. held id owner e && (elim e.lease_expires_at [ none ↦ false | some at ↦ ltb now at ]))
      l.events

-- `$5::timestamptz IS NULL OR attempt_count >= max_attempts`
abbrev pub is_spent : Option ℕ → OutboundEvent → Bool
is_spent next_attempt_at e = is_none next_attempt_at || leb e.max_attempts e.attempt_count

abbrev pub failed_row : ℕ → String → Option ℕ → OutboundEvent → OutboundEvent
failed_row now error next_attempt_at e = record e {
  status = if is_spent next_attempt_at e then dead_letter else failed;
  dead_lettered_at = if is_spent next_attempt_at e then some now else none;
  last_error = some (error_text error);
  last_error_at = some now;
  next_attempt_at = next_attempt_at;
  lease_owner = none;
  lease_expires_at = none;
}

unfoldable pub mark_failed : ℕ → ℕ → String → String → Option ℕ → Ledger → Ledger × Bool
mark_failed now id owner error next_attempt_at l =
    let (l', affected) = update (held_unsent id owner) (failed_row now error next_attempt_at) l in
    (l', affected == 1)

-- `created_at > now() - maxWaitMs`; the wait is added on the left, where nothing is cut off at 0.
abbrev pub may_wait : ℕ → ℕ → OutboundEvent → Bool
may_wait now max_wait_ms e = ltb now (e.created_at + max_wait_ms)

abbrev pub parked_row : ℕ → ℕ → String → ℕ → OutboundEvent → OutboundEvent
parked_row now retry_at error max_wait_ms e = record e {
  status = if may_wait now max_wait_ms e then pending else dead_letter;
  attempt_count = if may_wait now max_wait_ms e then e.attempt_count - 1 else e.attempt_count;
  dead_lettered_at = if may_wait now max_wait_ms e then none else some now;
  next_attempt_at = if may_wait now max_wait_ms e then some retry_at else none;
  last_error = some (error_text error);
  last_error_at = some now;
  lease_owner = none;
  lease_expires_at = none;
}

pub data RateLimitOutcome : Type 0 where
  parked dead_lettered not_applied : RateLimitOutcome

-- What `RETURNING status` says: the status of the row that was changed, if one was.
abbrev pub rate_limit_outcome : Option OutboundEvent → RateLimitOutcome
rate_limit_outcome none = not_applied
rate_limit_outcome (some e) = if status_is e.status dead_letter then dead_lettered else parked

abbrev pub first_of_rows : (OutboundEvent → Bool) → List OutboundEvent → Option OutboundEvent
first_of_rows p [] = none
first_of_rows p (e ∷ es) = if p e then some e else first_of_rows p es

unfoldable pub mark_rate_limited :
    ℕ → ℕ → String → ℕ → String → ℕ → Ledger → Ledger × RateLimitOutcome
mark_rate_limited now id owner retry_at error max_wait_ms l =
    let park = parked_row now retry_at error max_wait_ms in
    (
      (update (held_unsent id owner) park l).0,
      rate_limit_outcome (Option.map park (first_of_rows (held_unsent id owner) l.events)),
    )

abbrev pub cancelled_row : ℕ → String → OutboundEvent → OutboundEvent
cancelled_row now reason e = record e {
  status = cancelled;
  last_error = some (error_text reason);
  last_error_at = some now;
  lease_owner = none;
  lease_expires_at = none;
}

unfoldable pub cancel : ℕ → ℕ → String → String → Ledger → Ledger × Bool
cancel now id owner reason l =
    let (l', affected) = update (held_unsent id owner) (cancelled_row now reason) l in
    (l', affected == 1)

abbrev pub ambiguous_row : ℕ → String → OutboundEvent → OutboundEvent
ambiguous_row now reason e = record e {
  status = cancelled;
  last_error = some (error_text reason);
  last_error_at = some now;
  ambiguous = true;
  lease_owner = none;
  lease_expires_at = none;
}

unfoldable pub cancel_ambiguous : ℕ → ℕ → String → String → Ledger → Ledger × Bool
cancel_ambiguous now id owner reason l =
    let (l', affected) = update (held_unsent id owner) (ambiguous_row now reason) l in
    (l', ltb 0 affected)
