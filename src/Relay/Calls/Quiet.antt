-- ===== src/Relay/Calls/Quiet.antt =====
-- What follows a call makes no other, src/workers/outbound-relay.worker.ts.
use wh_api_unified_service.Prelude.{Bool, Option, String, arith, none, some, true, ℕ, ◌≡◌}
use wh_api_unified_service.Backoff.{schedule_retry}
use wh_api_unified_service.Graph.{GraphApiError}
use wh_api_unified_service.Outbound.{OutboundEvent}
use wh_api_unified_service.Relay.{Circumstances, World}
use wh_api_unified_service.Relay.Delivery.{record_send}
use wh_api_unified_service.Relay.Settling.{
  fail_event, failure_text, handle_dead_credential, handle_graph_error, handle_refusal, park_event,
  reject_credential, settle_as_failed, settle_message,
}

pub settle_message-calls :
    (now : ℕ) (enterprise : Option ℕ) (event : ℕ) (w : World)
    → (settle_message now enterprise event w).calls ≡ w.calls
settle_message-calls now enterprise event w = ground arith

pub settle_as_failed-calls :
    (now : ℕ) (owner : String) (enterprise : Option ℕ) (event : ℕ) (reason : String)
    (ambiguous : Bool) (w : World)
    → (settle_as_failed now owner enterprise event reason ambiguous w).calls ≡ w.calls
unfolding settle_as_failed
settle_as_failed-calls now owner enterprise event reason ambiguous w = ground arith

pub fail_event-calls :
    (now : ℕ) (owner : String) (e : OutboundEvent) (error : String) (retry : Option ℕ) (w : World)
    → (fail_event now owner e error retry w).calls ≡ w.calls
unfolding fail_event
fail_event-calls now owner e error retry w = ground arith

pub reject_credential-calls :
    (now : ℕ) (owner : String) (enterprise channel : ℕ) (e : OutboundEvent) (w : World)
    → (reject_credential now owner enterprise channel e w).calls ≡ w.calls
unfolding reject_credential settle_as_failed
reject_credential-calls now owner enterprise channel e w = ground arith

pub park_event-calls :
    (now draw : ℕ) (owner : String) (e : OutboundEvent) (error : GraphApiError) (w : World)
    → (park_event now draw owner e error w).calls ≡ w.calls
unfolding park_event
park_event-calls now draw owner e error w = ground arith

pub handle_refusal-calls :
    (now draw : ℕ) (owner : String) (e : OutboundEvent) (error : GraphApiError) (w : World)
    → (handle_refusal now draw owner e error w).calls ≡ w.calls
unfolding handle_refusal
handle_refusal-calls now draw owner e error w = ground (
  arith,
  settle_as_failed-calls now owner e.enterprise_id e.id
      "the outcome was ambiguous; a read-back is required before any retry" true w,
  fail_event-calls now owner e (failure_text error) none w,
  park_event-calls now draw owner e error w,
  fail_event-calls now owner e (failure_text error)
      (schedule_retry draw now e.attempt_count e.max_attempts) w,
)

pub handle_dead_credential-calls :
    (now draw : ℕ) (owner : String) (e : OutboundEvent) (error : GraphApiError)
    (enterprise channel : Option ℕ) (w : World)
    → (handle_dead_credential now draw owner e error enterprise channel w).calls ≡ w.calls
handle_dead_credential-calls now draw owner e error none channel w =
    handle_refusal-calls now draw owner e error w
handle_dead_credential-calls now draw owner e error (some enterprise) none w =
    handle_refusal-calls now draw owner e error w
handle_dead_credential-calls now draw owner e error (some enterprise) (some channel) w =
    reject_credential-calls now owner enterprise channel e w

pub handle_graph_error-calls :
    (now draw : ℕ) (owner : String) (e : OutboundEvent) (error : GraphApiError) (w : World)
    → (handle_graph_error now draw owner e error w).calls ≡ w.calls
unfolding handle_graph_error
handle_graph_error-calls now draw owner e error w = ground (
  arith,
  handle_refusal-calls now draw owner e error w,
  handle_dead_credential-calls now draw owner e error e.enterprise_id e.channel_id w,
)

pub record_send-calls :
    (k : Circumstances) (owner : String) (e : OutboundEvent) (enterprise : ℕ) (pid : Option String)
    (w : World)
    → (record_send k owner e enterprise pid w).calls ≡ w.calls
unfolding record_send
record_send-calls k owner e enterprise pid w = ground arith
