-- ===== src/Relay/Outcome.antt =====
-- What a delivery that made its call leaves behind, src/workers/outbound-relay.worker.ts.
use wh_api_unified_service.Prelude.{
  Option, String, ap, arith, false, leb, refl, some, ◌∙◌, ◌≡◌, ◌⊎◌,
}
use wh_api_unified_service.Messages.{message_sent, record_delivery}
use wh_api_unified_service.Outbound.{OutboundEvent}
use wh_api_unified_service.Outbound.Settle.{mark_sent}
use wh_api_unified_service.Relay.{Circumstances, GraphCall, Services, World, replied}
use wh_api_unified_service.Relay.Calls.{WasAllowed}
use wh_api_unified_service.Relay.Delivery.{
  after_call, after_response, attempt_send, deliver, deliver_for, deliver_through, own_pressure,
  record_send, send_with_token,
}
use wh_api_unified_service.Relay.Sending.{recorded_id}

send_with_token-allowed :
    (s : Services) (k : Circumstances) (owner : String) (e : OutboundEvent) (w : World)
    (c : GraphCall) (h : WasAllowed s k owner e w c)
    → send_with_token s k owner e h.enterprise h.context h.token w
      ≡ after_response k owner e h.enterprise c (s.respond c) (after_call k c w)
unfolding send_with_token attempt_send
send_with_token-allowed s k owner e w c h = rw (h.leased_now, h.planned) refl

deliver_through-allowed :
    (s : Services) (k : Circumstances) (owner : String) (e : OutboundEvent) (w : World)
    (c : GraphCall) (h : WasAllowed s k owner e w c)
    → deliver_through s k owner e h.enterprise h.context w
      ≡ after_response k owner e h.enterprise c (s.respond c) (after_call k c w)
unfolding deliver_through
deliver_through-allowed s k owner e w c h =
    let calm : leb 80 (own_pressure s h.context) ≡ false = ground (arith, h.calm) in
    rw (h.alive, h.managed, h.has_token, calm, h.opened) (send_with_token-allowed s k owner e w c h)

-- When nothing forbids the call, a delivery is the call, what others do during it, and then what
-- the response asks for.
pub deliver-allowed :
    (s : Services) (k : Circumstances) (owner : String) (e : OutboundEvent) (w : World)
    (c : GraphCall) (h : WasAllowed s k owner e w c)
    → deliver s k owner e w
      ≡ after_response k owner e h.enterprise c (s.respond c) (after_call k c w)
unfolding deliver
deliver-allowed s k owner e w c h =
    ap (λ x. deliver_for s k owner e x e.channel_id w) h.of_enterprise
    ∙ ap (λ x. deliver_for s k owner e (some h.enterprise) x w) h.of_channel
    ∙ rw (h.found, deliver_for) (deliver_through-allowed s k owner e w c h)

-- Once the platform has answered a call, the delivery never reports it as failed, even when a write
-- after it fails: the ledger is as the others left it or has the row marked as sent, and the messages
-- are as they were or have the event's message marked as sent.
pub answered_call_never_fails :
    (s : Services) (k : Circumstances) (owner : String) (e : OutboundEvent) (w : World)
    (c : GraphCall) (pid : Option String) (h : WasAllowed s k owner e w c)
    → s.respond c ≡ replied pid
    → let m = deliver s k owner e w in
      let id = recorded_id c pid in
      let l = k.meanwhile w.ledger in
      ((m.ledger ≡ l) ⊎ (m.ledger ≡ (mark_sent k.later e.id owner id l).0))
      × ((m.messages ≡ w.messages)
          ⊎ (m.messages ≡ record_delivery k.later h.enterprise e.id id message_sent w.messages))
unfolding record_send
answered_call_never_fails s k owner e w c pid h answer =
    rw (deliver-allowed s k owner e w c h, answer) (ground arith)
