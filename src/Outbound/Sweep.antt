-- ===== src/Outbound/Sweep.antt =====
-- The reaper and the retention sweep, src/database/repositories/outbound-event.repository.ts. The
-- reaper's subquery has no ORDER BY: the database may take any rows that qualify, up to the limit, so
-- the ids in the order in which it meets them are an argument.
use wh_api_unified_service.Prelude.{
  ◌&&◌, Bool, List, false, filter, leb, length, ltb, map, none, not, sort, take, true, ◌||◌, ℕ,
}
use wh_api_unified_service.Outbound.{
  Ledger, OutboundEvent, OutboundEventStatus, cancelled, expired_before, leased, pending, sending,
  sent, status_is, update,
}
use wh_api_unified_service.Outbound.Queue.{has_id}

-- `SENDING_REAP_GRACE_MS`, twice `PLATFORM_REQUEST_TIMEOUT_MS`.
abbrev pub sending_reap_grace_ms : ℕ
sending_reap_grace_ms = 20000

abbrev pub is_reclaimable : ℕ → OutboundEvent → Bool
is_reclaimable now e =
    (status_is e.status leased && expired_before 0 now e)
    || (status_is e.status sending && expired_before sending_reap_grace_ms now e)

abbrev pub reclaimed_row : OutboundEvent → OutboundEvent
reclaimed_row e = record e { status = pending; lease_owner = none; lease_expires_at = none }

abbrev pub reclaims : ℕ → List ℕ → OutboundEvent → Bool
reclaims now chosen e = is_reclaimable now e && has_id chosen e

unfoldable pub reclaim_expired_leases : ℕ → List ℕ → ℕ → Ledger → Ledger × ℕ
reclaim_expired_leases now met limit l = update (reclaims now (take limit met)) reclaimed_row l

-- `SETTLED_OUTBOUND_STATUSES`
abbrev pub is_settled : OutboundEventStatus → Bool
is_settled sent = true
is_settled cancelled = true
is_settled _ = false

-- `status = ANY(settled) AND created_at < cutoff`
abbrev pub is_sweepable : ℕ → OutboundEvent → Bool
is_sweepable cutoff e = is_settled e.status && ltb e.created_at cutoff

-- `ORDER BY created_at`
abbrev pub by_age : OutboundEvent → OutboundEvent → Bool
by_age a b = leb a.created_at b.created_at

unfoldable pub delete_settled_before : ℕ → ℕ → Ledger → Ledger × ℕ
delete_settled_before cutoff limit l =
    let ids =
      map OutboundEvent.id (take limit (sort by_age (filter (is_sweepable cutoff) l.events))) in
    (
      record l { events = filter (λ e. not (has_id ids e)) l.events },
      length (filter (has_id ids) l.events),
    )
