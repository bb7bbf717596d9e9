-- ===== src/Relay/Parking.antt =====
-- Waiting out a limit, and the brake of the whole queue, src/workers/outbound-relay.worker.ts.
use wh_api_unified_service.Prelude.{
  ◌+◌, ◌-◌, ◌<◌, String, ap, arith, false, leb, none, refl, some, true, ℕ, ◌∙◌, ◌≡◌, ◌≤◌,
}
use wh_api_unified_service.Backoff.{park_for, random_steps}
use wh_api_unified_service.Backoff.Bounds.{jittered_bounds}
use wh_api_unified_service.Channels.{ChannelSendContext, find_send_context}
use wh_api_unified_service.Graph.{
  GraphApiError, is_ambiguous_failure, map_graph_error, upstream_rate_limited,
}
use wh_api_unified_service.Graph.Mapping.{verdicts_agree}
use wh_api_unified_service.Messages.{message_failed, record_delivery}
use wh_api_unified_service.Outbound.{Ledger, OutboundEvent, dead_letter, find_event, pending}
use wh_api_unified_service.Outbound.Consistency.{IsConsistent}
use wh_api_unified_service.Outbound.Holding.{holder_settles_row}
use wh_api_unified_service.Outbound.Settle.{
  RateLimitOutcome, dead_lettered, mark_rate_limited, may_wait, not_applied, parked, parked_row,
}
use wh_api_unified_service.Relay.{Circumstances, GraphCall, Services, World, refused}
use wh_api_unified_service.Relay.Calls.{WasAllowed}
use wh_api_unified_service.Relay.Delivery.{
  after_call, after_response, deliver, deliver_for, deliver_through, own_pressure,
  park_for_pressure, poll_once, pressure_text,
}
use wh_api_unified_service.Relay.Outcome.{deliver-allowed}
use wh_api_unified_service.Relay.Sending.{truthy}
use wh_api_unified_service.Relay.Settling.{
  failure_text, handle_graph_error, handle_refusal, outbound_rate_limit_max_wait_ms, park_event,
  rate_limit_wait, settle_message,
}

-- What stood in the world when an account's own allowance held its event back.
pub record IsHeldBack (s : Services) (e : OutboundEvent) (w : World) : Type 0 where
  pub enterprise : ℕ
  pub channel : ℕ
  pub context : ChannelSendContext
  pub sealed : String
  pub of_enterprise : e.enterprise_id ≡ some enterprise
  pub of_channel : e.channel_id ≡ some channel
  pub found : find_send_context enterprise channel w.channels ≡ some context
  pub alive : context.reauth_required ≡ false
  pub managed : context.is_managed ≡ true
  pub has_token : truthy context.effective_access_token ≡ some sealed
  pub busy : 80 ≤ own_pressure s context

deliver_through-held :
    (s : Services) (k : Circumstances) (owner : String) (e : OutboundEvent) (w : World)
    (h : IsHeldBack s e w)
    → deliver_through s k owner e h.enterprise h.context w
      ≡ park_for_pressure s k owner e h.context w
unfolding deliver_through park_for_pressure
deliver_through-held s k owner e w h =
    let busy : leb 80 (own_pressure s h.context) ≡ true = ground (arith, h.busy) in
    rw (h.alive, h.managed, h.has_token, busy) refl

deliver-held :
    (s : Services) (k : Circumstances) (owner : String) (e : OutboundEvent) (w : World)
    (h : IsHeldBack s e w)
    → deliver s k owner e w ≡ park_for_pressure s k owner e h.context w
unfolding deliver
deliver-held s k owner e w h =
    ap (λ x. deliver_for s k owner e x e.channel_id w) h.of_enterprise
    ∙ ap (λ x. deliver_for s k owner e (some h.enterprise) x w) h.of_channel
    ∙ rw (h.found, deliver_for) (deliver_through-held s k owner e w h)

-- An event whose account is close to its own limit makes no call and costs no attempt: within a day of
-- its creation its row is pending again, free, with the attempt of this claim given back and due no
-- later than five minutes from now.
pub held_back_event_waits :
    (s : Services) (k : Circumstances) (owner : String) (e r : OutboundEvent) (w : World)
    (h : IsHeldBack s e w)
    → k.draw < random_steps
    → IsConsistent w.ledger
    → find_event e.id w.ledger.events ≡ some r
    → r.lease_owner ≡ some owner
    → k.now < r.created_at + 86400000
    → let m = deliver s k owner e w in
      (m.calls ≡ w.calls)
      × (m.messages ≡ w.messages)
      × ((r' : OutboundEvent) × (find_event e.id m.ledger.events ≡ some r')
          × (r'.status ≡ pending)
          × (r'.lease_owner ≡ none)
          × (r'.attempt_count ≡ r.attempt_count - 1)
          × ((at : ℕ) × (r'.next_attempt_at ≡ some at) × (k.now ≤ at) × (at ≤ k.now + 300000)))
unfolding park_for_pressure park_for
held_back_event_waits s k owner e r w h drawn ok found mine young =
    let at = park_for k.draw k.now 300000 in
    let (sends, fails, (outcome, row), drops, doubts) =
      holder_settles_row k.now e.id owner w.ledger r ok found mine none
        (pressure_text (own_pressure s h.context)) none at 86400000 in
    let waits : may_wait k.now 86400000 r ≡ true = ground arith in
    let (low, high) = jittered_bounds 300000 k.draw drawn in
    rw (deliver-held s k owner e w h) (
      refl,
      refl,
      (
        parked_row k.now at (pressure_text (own_pressure s h.context)) 86400000 r,
        row,
        rw waits refl,
        refl,
        rw waits refl,
        (at, rw waits refl, omega arith, omega (arith, high)),
      ),
    )

-- The same branch a day or more after the row was created: the row becomes a dead letter, and no
-- message is told, so a message of the event that was pending stays pending. The branch for a limit
-- that the platform reports does tell it.
pub held_back_event_dies_untold :
    (s : Services) (k : Circumstances) (owner : String) (e r : OutboundEvent) (w : World)
    (h : IsHeldBack s e w)
    → IsConsistent w.ledger
    → find_event e.id w.ledger.events ≡ some r
    → r.lease_owner ≡ some owner
    → r.created_at + 86400000 ≤ k.now
    → let m = deliver s k owner e w in
      (m.messages ≡ w.messages)
      × ((r' : OutboundEvent) × (find_event e.id m.ledger.events ≡ some r')
          × (r'.status ≡ dead_letter))
unfolding park_for_pressure
held_back_event_dies_untold s k owner e r w h ok found mine old =
    let at = park_for k.draw k.now 300000 in
    let (sends, fails, (outcome, row), drops, doubts) =
      holder_settles_row k.now e.id owner w.ledger r ok found mine none
        (pressure_text (own_pressure s h.context)) none at 86400000 in
    let late : may_wait k.now 86400000 r ≡ false = ground arith in
    rw (deliver-held s k owner e w h) (
      refl,
      (
        parked_row k.now at (pressure_text (own_pressure s h.context)) 86400000 r,
        row,
        rw late refl,
      ),
    )

may_wait_lem :
    (now wait : ℕ) (r : OutboundEvent) → now < r.created_at + wait → may_wait now wait r ≡ true
may_wait_lem now wait r young = ground arith

may_not_wait_lem :
    (now wait : ℕ) (r : OutboundEvent) → r.created_at + wait ≤ now → may_wait now wait r ≡ false
may_not_wait_lem now wait r old = ground arith

handle_limit :
    (now draw : ℕ) (owner : String) (e : OutboundEvent) (error : GraphApiError) (w : World)
    → is_ambiguous_failure error ≡ false
    → (map_graph_error error).code ≡ upstream_rate_limited
    → handle_graph_error now draw owner e error w ≡ park_event now draw owner e error w
unfolding handle_graph_error handle_refusal
handle_limit now draw owner e error w sure limited =
    ground (arith, sure, limited, verdicts_agree error)

told :
    (now enterprise : ℕ) (e : OutboundEvent) (l : Ledger) (w : World)
    → e.enterprise_id ≡ some enterprise
    → (settle_message now e.enterprise_id e.id (record w { ledger = l })).messages
      ≡ record_delivery now enterprise e.id none message_failed w.messages
told now enterprise e l w of =
    ap (λ x. (settle_message now x e.id (record w { ledger = l })).messages) of

parked_messages :
    (now draw : ℕ) (owner : String) (e : OutboundEvent) (error : GraphApiError) (w : World)
    (enterprise : ℕ) (outcome : RateLimitOutcome)
    → e.enterprise_id ≡ some enterprise
    → (mark_rate_limited now e.id owner
        (park_for draw now (rate_limit_wait error))
        (failure_text error)
        outbound_rate_limit_max_wait_ms
        w.ledger).1
      ≡ outcome
    → (park_event now draw owner e error w).messages ≡ (elim outcome [
      | dead_lettered ↦ record_delivery now enterprise e.id none message_failed w.messages
      | _ ↦ w.messages
    ])
unfolding park_event
parked_messages now draw owner e error w enterprise parked of is = rw is refl
parked_messages now draw owner e error w enterprise not_applied of is = rw is refl
parked_messages now draw owner e error w enterprise dead_lettered of is =
    rw is (told now enterprise e _ w of)

-- The limit that the platform reports itself: the event's row is parked or dead, and its message fails
-- exactly when the row is dead, that is a day or more after its creation.
pub reported_limit_is_told :
    (s : Services) (k : Circumstances) (owner : String) (e r : OutboundEvent) (w : World)
    (c : GraphCall) (error : GraphApiError) (h : WasAllowed s k owner e w c)
    → s.respond c ≡ refused error
    → is_ambiguous_failure error ≡ false
    → (map_graph_error error).code ≡ upstream_rate_limited
    → IsConsistent (k.meanwhile w.ledger)
    → find_event e.id (k.meanwhile w.ledger).events ≡ some r
    → r.lease_owner ≡ some owner
    → let m = deliver s k owner e w in
      ((k.later < r.created_at + 86400000) → m.messages ≡ w.messages)
      × ((r.created_at + 86400000 ≤ k.later)
          → m.messages ≡ record_delivery k.later h.enterprise e.id none message_failed w.messages)
reported_limit_is_told s k owner e r w c error h answer sure limited ok found mine =
    let v = after_call k c w in
    let at = park_for k.draw k.later (rate_limit_wait error) in
    let (sends, fails, (outcome, row), drops, doubts) =
      holder_settles_row k.later e.id owner v.ledger r ok found mine none (failure_text error) none
        at 86400000 in
    let parks : deliver s k owner e w ≡ park_event k.later k.draw owner e error v =
      deliver-allowed s k owner e w c h
      ∙ ap (λ x. after_response k owner e h.enterprise c x v) answer
      ∙ handle_limit k.later k.draw owner e error v sure limited in
    rw parks (
      λ young.
          parked_messages k.later k.draw owner e error v h.enterprise parked h.of_enterprise
            (outcome ∙ rw (may_wait_lem k.later 86400000 r young) refl),
      λ old.
          parked_messages k.later k.draw owner e error v h.enterprise dead_lettered h.of_enterprise
            (outcome ∙ rw (may_not_wait_lem k.later 86400000 r old) refl),
    )

-- Once the application's allowance is nearly spent, a poll claims nothing and changes nothing.
pub brake_stops_the_poll :
    (s : Services) (ks : OutboundEvent → Circumstances) (owner : String) (now size secs : ℕ)
    (w : World)
    → 80 ≤ s.app_pressure
    → poll_once s ks owner now size secs w ≡ (w, 0)
unfolding poll_once
brake_stops_the_poll s ks owner now size secs w busy = ground arith
