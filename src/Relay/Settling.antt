-- ===== src/Relay/Settling.antt =====
-- Writing down that a send failed, src/workers/outbound-relay.worker.ts (`settleAsFailed`, `settle`,
-- `handleSendFailure`).
use wh_api_unified_service.Prelude.{
  ◌&&◌, ◌*◌, ◌<>◌, Bool, Option, String, false, if◌then◌else◌, is_none, none, not, some, true, ℕ,
}
use wh_api_unified_service.Backoff.{park_for, schedule_retry}
use wh_api_unified_service.Channels.{find_send_context, mark_reauth_required, revoked}
use wh_api_unified_service.Graph.{
  ErrorCode, GraphApiError, channel_reauth_required, is_ambiguous_failure, map_graph_error,
  messaging_window_closed, permission_denied, upstream_contract_changed, upstream_rate_limited,
  upstream_unavailable,
}
use wh_api_unified_service.Messages.{message_failed, record_delivery}
use wh_api_unified_service.Outbound.{OutboundEvent}
use wh_api_unified_service.Outbound.Settle.{
  RateLimitOutcome, cancel, cancel_ambiguous, dead_lettered, mark_failed, mark_rate_limited,
  not_applied, parked,
}
use wh_api_unified_service.Relay.{World}

abbrev pub outbound_rate_limit_park_ms : ℕ
outbound_rate_limit_park_ms = 300000

abbrev pub outbound_rate_limit_max_wait_ms : ℕ
outbound_rate_limit_max_wait_ms = 86400000

-- The message that waits for this event fails with it; an event of no enterprise has none.
abbrev pub settle_message : ℕ → Option ℕ → ℕ → World → World
settle_message now none event w = w
settle_message now (some enterprise) event w = record w {
  messages = record_delivery now enterprise event none message_failed w.messages;
}

-- One transaction: the row is cancelled, and if it was, the message fails.
unfoldable pub settle_as_failed : ℕ → String → Option ℕ → ℕ → String → Bool → World → World
settle_as_failed now owner enterprise event reason ambiguous w =
    let (l, was_cancelled) =
      if ambiguous
      then cancel_ambiguous now event owner reason w.ledger
      else cancel now event owner reason w.ledger in
    if was_cancelled
    then settle_message now enterprise event (record w { ledger = l })
    else record w { ledger = l }

-- `markFailed`, and the message fails with the row when no retry is left.
unfoldable pub fail_event : ℕ → String → OutboundEvent → String → Option ℕ → World → World
fail_event now owner e error retry w =
    let (l, applied) = mark_failed now e.id owner error retry w.ledger in
    if applied && is_none retry
    then settle_message now e.enterprise_id e.id (record w { ledger = l })
    else record w { ledger = l }

abbrev pub error_code_text : ErrorCode → String
error_code_text upstream_unavailable = "UPSTREAM_UNAVAILABLE"
error_code_text messaging_window_closed = "MESSAGING_WINDOW_CLOSED"
error_code_text channel_reauth_required = "CHANNEL_REAUTH_REQUIRED"
error_code_text upstream_rate_limited = "UPSTREAM_RATE_LIMITED"
error_code_text permission_denied = "PERMISSION_DENIED"
error_code_text upstream_contract_changed = "UPSTREAM_CONTRACT_CHANGED"

abbrev pub failure_text : GraphApiError → String
failure_text e = error_code_text (map_graph_error e).code <> ": " <> e.message

abbrev pub is_upstream_rate_limited : ErrorCode → Bool
is_upstream_rate_limited upstream_rate_limited = true
is_upstream_rate_limited _ = false

-- The branch of a dead credential: the connection and its channels are marked, the event is cancelled.
unfoldable pub reject_credential : ℕ → String → ℕ → ℕ → OutboundEvent → World → World
reject_credential now owner enterprise channel e w =
    let marked : World = elim (find_send_context enterprise channel w.channels) [
      | none ↦ w
      | some c ↦
          let (connections, channels) =
            mark_reauth_required enterprise c.provider_connection_id revoked w.connections
              w.channels in
          record w { connections = connections; channels = channels }
    ] in
    settle_as_failed now owner (some enterprise) e.id "the provider rejected the credential" false
      marked

-- How long a rate limit is waited out: as long as Meta said, or the default.
abbrev pub rate_limit_wait : GraphApiError → ℕ
rate_limit_wait error = elim error.retry_after_minutes [
  | none ↦ outbound_rate_limit_park_ms
  | some minutes ↦ minutes * 60000
]

abbrev pub settle_parked : ℕ → OutboundEvent → RateLimitOutcome → World → World
settle_parked now e dead_lettered w = settle_message now e.enterprise_id e.id w
settle_parked now e parked w = w
settle_parked now e not_applied w = w

-- The branch of a rate limit.
unfoldable pub park_event : ℕ → ℕ → String → OutboundEvent → GraphApiError → World → World
park_event now draw owner e error w =
    let (l, outcome) =
      mark_rate_limited now e.id owner (park_for draw now (rate_limit_wait error))
        (failure_text error) outbound_rate_limit_max_wait_ms w.ledger in
    settle_parked now e outcome (record w { ledger = l })

-- What follows the test for a dead credential.
unfoldable pub handle_refusal : ℕ → ℕ → String → OutboundEvent → GraphApiError → World → World
handle_refusal now draw owner e error w =
    if is_ambiguous_failure error
    then settle_as_failed now owner e.enterprise_id e.id
        "the outcome was ambiguous; a read-back is required before any retry" true w
    else if not (map_graph_error error).retryable
    then fail_event now owner e (failure_text error) none w
    else if is_upstream_rate_limited (map_graph_error error).code
    then park_event now draw owner e error w
    else fail_event now owner e (failure_text error)
        (schedule_retry draw now e.attempt_count e.max_attempts) w

-- `event.enterpriseId !== null && event.channelId !== null`, after the test of the mapped error.
abbrev pub handle_dead_credential :
    ℕ → ℕ → String → OutboundEvent → GraphApiError → Option ℕ → Option ℕ → World → World
handle_dead_credential now draw owner e error (some enterprise) (some channel) w =
    reject_credential now owner enterprise channel e w
handle_dead_credential now draw owner e error (some enterprise) none w =
    handle_refusal now draw owner e error w
handle_dead_credential now draw owner e error none channel w =
    handle_refusal now draw owner e error w

unfoldable pub handle_graph_error : ℕ → ℕ → String → OutboundEvent → GraphApiError → World → World
handle_graph_error now draw owner e error w =
    if (map_graph_error error).requires_reauth
    then handle_dead_credential now draw owner e error e.enterprise_id e.channel_id w
    else handle_refusal now draw owner e error w

-- Another exception than Graph's.
unfoldable pub handle_other_error : ℕ → ℕ → String → OutboundEvent → String → World → World
handle_other_error now draw owner e message w =
    fail_event now owner e message (schedule_retry draw now e.attempt_count e.max_attempts) w
