-- ===== src/Relay/Doubt.antt =====
-- A send whose outcome is unknown, src/workers/outbound-relay.worker.ts.
use wh_api_unified_service.Prelude.{String, ap, false, none, refl, some, true, ℕ, ◌∙◌, ◌≡◌}
use wh_api_unified_service.Graph.{GraphApiError, is_ambiguous_failure, map_graph_error}
use wh_api_unified_service.Messages.{message_failed, record_delivery}
use wh_api_unified_service.Outbound.{Ledger, OutboundEvent, find_event}
use wh_api_unified_service.Outbound.Consistency.{IsConsistent, Step-IsConsistent}
use wh_api_unified_service.Outbound.Fencing.{IsDropped, Leaves}
use wh_api_unified_service.Outbound.Holding.{holder_settles_row}
use wh_api_unified_service.Outbound.Settle.{ambiguous_row, cancel_ambiguous}
use wh_api_unified_service.Outbound.Steps.{Reach, was_ambiguous}
use wh_api_unified_service.Outbound.Terminal.{GoneOr, IsLeftAlone, ambiguous_never_resent}
use wh_api_unified_service.Relay.{Circumstances, GraphCall, Services, World, refused}
use wh_api_unified_service.Relay.Calls.{WasAllowed}
use wh_api_unified_service.Relay.Delivery.{after_call, after_response, deliver}
use wh_api_unified_service.Relay.Outcome.{deliver-allowed}
use wh_api_unified_service.Relay.Settling.{handle_graph_error, handle_refusal, settle_as_failed}

abbrev pub doubt_reason : String
doubt_reason = "the outcome was ambiguous; a read-back is required before any retry"

handle_doubt :
    (now draw : ℕ) (owner : String) (e : OutboundEvent) (error : GraphApiError) (w : World)
    → is_ambiguous_failure error ≡ true
    → (map_graph_error error).requires_reauth ≡ false
    → handle_graph_error now draw owner e error w
      ≡ settle_as_failed now owner e.enterprise_id e.id doubt_reason true w
unfolding handle_graph_error handle_refusal
handle_doubt now draw owner e error w unsure alive = rw (alive, unsure) refl

settle_doubt :
    (now : ℕ) (owner : String) (enterprise event : ℕ) (w : World)
    → (cancel_ambiguous now event owner doubt_reason w.ledger).1 ≡ true
    → settle_as_failed now owner (some enterprise) event doubt_reason true w ≡ record w {
      ledger = (cancel_ambiguous now event owner doubt_reason w.ledger).0;
      messages = record_delivery now enterprise event none message_failed w.messages;
    }
unfolding settle_as_failed
settle_doubt now owner enterprise event w done = rw done refl

-- A call that timed out or ended in a server error, whose error does not also report a dead
-- credential, and whose row this worker still holds, is settled once and for all: the row is
-- cancelled and marked, its message fails, and from then on no sequence of statements by anybody
-- claims that row or sends it again.
pub ambiguous_send_is_not_retried :
    (s : Services) (k : Circumstances) (owner : String) (e r : OutboundEvent) (w : World)
    (c : GraphCall) (error : GraphApiError) (h : WasAllowed s k owner e w c)
    → s.respond c ≡ refused error
    → is_ambiguous_failure error ≡ true
    → (map_graph_error error).requires_reauth ≡ false
    → IsConsistent (k.meanwhile w.ledger)
    → find_event e.id (k.meanwhile w.ledger).events ≡ some r
    → r.lease_owner ≡ some owner
    → let m = deliver s k owner e w in
      (m.messages ≡ record_delivery k.later h.enterprise e.id none message_failed w.messages)
      × Leaves e.id m.ledger (IsDropped true r)
      × ((later : Ledger) → Reach m.ledger later → GoneOr e.id later (IsLeftAlone r.attempt_count))
ambiguous_send_is_not_retried s k owner e r w c error h answer unsure alive ok found mine =
    let v = after_call k c w in
    let (sends, fails, parks, drops, (done, row)) =
      holder_settles_row k.later e.id owner v.ledger r ok found mine none doubt_reason none 0 0 in
    let settled =
      deliver-allowed s k owner e w c h
      ∙ ap (λ x. after_response k owner e h.enterprise c x v) answer
      ∙ handle_doubt k.later k.draw owner e error v unsure alive
      ∙ ap (λ x. settle_as_failed k.later owner x e.id doubt_reason true v) h.of_enterprise
      ∙ settle_doubt k.later owner h.enterprise e.id v done in
    rw settled (
      refl,
      (ambiguous_row k.later doubt_reason r, row, refl, refl, (refl, refl, refl)),
      λ later r'.
          ambiguous_never_resent e.id (ambiguous_row k.later doubt_reason r)
            (Step-IsConsistent (was_ambiguous k.later e.id owner doubt_reason) ok) row refl r',
    )
