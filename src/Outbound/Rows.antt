-- ===== src/Outbound/Rows.antt =====
-- What holds of every row of the outbound ledger between two statements.
use wh_api_unified_service.Prelude.{◌<◌, Option, String, arith, none, some, true, ℕ, ◌≡◌, ◌≢◌, ◌⊎◌}
use wh_api_unified_service.Outbound.{
  OutboundEvent, ReadBackOutcome, cancelled, dead_letter, landed, leased, sending, sent,
}
use wh_api_unified_service.Outbound.Queue.{EnqueueOutboundInput, claim_row, is_due, new_event}
use wh_api_unified_service.Outbound.Replay.{requeued_row, resolved_row}
use wh_api_unified_service.Outbound.Settle.{
  ambiguous_row, cancelled_row, failed_row, held, held_unsent, parked_row, sent_row,
}
use wh_api_unified_service.Outbound.Sweep.{reclaimed_row}

pub record IsSound (e : OutboundEvent) : Type 0 where
  -- A lease goes with the status `sending` and with no other; `leased` is never written.
  pub leased_out : e.status ≡ sending → (e.lease_owner ≢ none) × (e.lease_expires_at ≢ none)
  pub free : e.status ≢ sending → e.lease_owner ≡ none
  pub not_leased : e.status ≢ leased
  -- A row in flight has spent an attempt.
  pub attempted : e.status ≡ sending → 0 < e.attempt_count
  pub dead_at : e.status ≡ dead_letter → e.dead_lettered_at ≢ none
  -- A send of unknown outcome stays cancelled, or was read back and found.
  pub settled_ambiguous :
      e.ambiguous ≡ true
      → (e.status ≡ cancelled) ⊎ ((e.status ≡ sent) × (e.read_back ≡ some landed))

pub new_event-IsSound :
    (now id : ℕ) (input : EnqueueOutboundInput) → IsSound (new_event now id input)
new_event-IsSound now id input = ground arith

pub claim_row-IsSound :
    (now expires : ℕ) (owner : String) (e : OutboundEvent)
    → IsSound e
    → is_due now e ≡ true
    → IsSound (claim_row owner expires e)
claim_row-IsSound now expires owner e h due = ground arith

pub sent_row-IsSound :
    (now id : ℕ) (owner : String) (platform_id : Option String) (e : OutboundEvent)
    → IsSound e
    → held id owner e ≡ true
    → IsSound (sent_row now platform_id e)
sent_row-IsSound now id owner platform_id e h on = ground arith

pub failed_row-IsSound :
    (now id : ℕ) (owner error : String) (next : Option ℕ) (e : OutboundEvent)
    → IsSound e
    → held_unsent id owner e ≡ true
    → IsSound (failed_row now error next e)
failed_row-IsSound now id owner error next e h on = ground arith

pub parked_row-IsSound :
    (now id retry_at wait : ℕ) (owner error : String) (e : OutboundEvent)
    → IsSound e
    → held_unsent id owner e ≡ true
    → IsSound (parked_row now retry_at error wait e)
parked_row-IsSound now id retry_at wait owner error e h on = ground arith

pub cancelled_row-IsSound :
    (now : ℕ) (reason : String) (e : OutboundEvent)
    → IsSound e
    → IsSound (cancelled_row now reason e)
cancelled_row-IsSound now reason e h = ground arith

pub ambiguous_row-IsSound :
    (now : ℕ) (reason : String) (e : OutboundEvent)
    → IsSound e
    → IsSound (ambiguous_row now reason e)
ambiguous_row-IsSound now reason e h = ground arith

pub resolved_row-IsSound :
    (outcome : ReadBackOutcome) (platform_id : Option String) (e : OutboundEvent)
    → IsSound e
    → e.status ≡ cancelled
    → IsSound (resolved_row outcome platform_id e)
resolved_row-IsSound outcome platform_id e h on = ground arith

pub requeued_row-IsSound :
    (now : ℕ) (e : OutboundEvent)
    → IsSound e
    → e.status ≡ dead_letter
    → IsSound (requeued_row now e)
requeued_row-IsSound now e h on = ground arith

pub reclaimed_row-IsSound :
    (e : OutboundEvent) → IsSound e → e.status ≡ sending → IsSound (reclaimed_row e)
reclaimed_row-IsSound e h on = ground arith
