-- ===== src/Relay/Delivery.antt =====
-- Delivering one event and a batch, src/workers/outbound-relay.worker.ts (`deliver`, `pollOnce`).
use wh_api_unified_service.Prelude.{
  ◌<>◌, List, Option, String, [], decimal, false, if◌then◌else◌, leb, length, max, none, not, some,
  ℕ, ◌∷◌,
}
use wh_api_unified_service.Backoff.{park_for}
use wh_api_unified_service.Channels.{ChannelSendContext, find_send_context}
use wh_api_unified_service.Messages.{message_sent, record_delivery}
use wh_api_unified_service.Outbound.{OutboundEvent}
use wh_api_unified_service.Outbound.Queue.{claim_due_batch}
use wh_api_unified_service.Outbound.Settle.{mark_rate_limited, mark_sent, still_holds_lease}
use wh_api_unified_service.Relay.{
  Circumstances, GraphCall, Response, Services, World, mark_sent_fails, no_fault,
  record_delivery_fails, refused, replied, threw,
}
use wh_api_unified_service.Relay.Sending.{Attempt, call, impossible, plan, recorded_id, truthy}
use wh_api_unified_service.Relay.Settling.{
  handle_graph_error, handle_other_error, outbound_rate_limit_max_wait_ms,
  outbound_rate_limit_park_ms, settle_as_failed,
}

abbrev pub meta_usage_soft_limit_pct : ℕ
meta_usage_soft_limit_pct = 80

abbrev pub own_pressure : Services → ChannelSendContext → ℕ
own_pressure s c =
    max (s.pressure_for c.platform_channel_id)
      (elim c.parent_platform_channel_id [ none ↦ 0 | some p ↦ s.pressure_for p ])

-- The two writes after a send. A failure of either is logged and nothing else.
unfoldable pub record_send :
    Circumstances → String → OutboundEvent → ℕ → Option String → World → World
record_send k owner e enterprise pid w = elim k.fault [
  | mark_sent_fails ↦ w
  | record_delivery_fails ↦ record w { ledger = (mark_sent k.later e.id owner pid w.ledger).0 }
  | no_fault ↦
      let (l, settled) = mark_sent k.later e.id owner pid w.ledger in
      if settled
      then record w {
        ledger = l;
        messages = record_delivery k.later enterprise e.id pid message_sent w.messages;
      }
      else record w { ledger = l }
]

-- The call is made, and others go on meanwhile.
abbrev pub after_call : Circumstances → GraphCall → World → World
after_call k c w = record w { ledger = k.meanwhile w.ledger; calls = c ∷ w.calls }

-- What follows the call, by what came of it.
abbrev pub after_response :
    Circumstances → String → OutboundEvent → ℕ → GraphCall → Response → World → World
after_response k owner e enterprise c (replied pid) w =
    record_send k owner e enterprise (recorded_id c pid) w
after_response k owner e enterprise c (refused error) w =
    handle_graph_error k.later k.draw owner e error w
after_response k owner e enterprise c (threw message) w =
    handle_other_error k.later k.draw owner e message w

unfoldable pub attempt_send :
    Services → Circumstances → String → OutboundEvent → ℕ → Attempt → World → World
attempt_send s k owner e enterprise (impossible message) w =
    handle_other_error k.later k.draw owner e message w
attempt_send s k owner e enterprise (call c) w =
    after_response k owner e enterprise c (s.respond c) (after_call k c w)

abbrev pub pressure_text : ℕ → String
pressure_text p = "this account's Meta allowance is " <> decimal p <> "% spent"

-- Once the token is in the clear: the lease is checked again, and then the call is made.
unfoldable pub send_with_token :
    Services
    → Circumstances
    → String
    → OutboundEvent
    → ℕ
    → ChannelSendContext
    → String
    → World
    → World
send_with_token s k owner e enterprise c token w =
    if still_holds_lease k.now e.id owner w.ledger
    then attempt_send s k owner e enterprise (plan e c token) w
    else w

unfoldable pub park_for_pressure :
    Services → Circumstances → String → OutboundEvent → ChannelSendContext → World → World
park_for_pressure s k owner e c w = record w {
  ledger =
      (mark_rate_limited k.now e.id owner (park_for k.draw k.now outbound_rate_limit_park_ms)
        (pressure_text (own_pressure s c)) outbound_rate_limit_max_wait_ms w.ledger).0;
}

unfoldable pub deliver_through :
    Services → Circumstances → String → OutboundEvent → ℕ → ChannelSendContext → World → World
deliver_through s k owner e enterprise c w =
    let drop =
      λ (reason : String). settle_as_failed k.now owner (some enterprise) e.id reason false w in
    if c.reauth_required
    then drop "the channel needs re-authentication"
    else if not c.is_managed
    then drop "the channel is not managed"
    else elim (truthy c.effective_access_token) [
      | none ↦ drop "no usable access token for the channel"
      | some sealed ↦
          if leb meta_usage_soft_limit_pct (own_pressure s c)
          then park_for_pressure s k owner e c w
          else elim (s.decrypt sealed) [
            | none ↦ drop "the channel token could not be decrypted"
            | some token ↦ send_with_token s k owner e enterprise c token w
          ]
    ]

-- By the enterprise and the channel that the event names.
abbrev pub deliver_for :
    Services → Circumstances → String → OutboundEvent → Option ℕ → Option ℕ → World → World
deliver_for s k owner e (some enterprise) (some channel) w =
    elim (find_send_context enterprise channel w.channels) [
      | none ↦
          settle_as_failed k.now owner (some enterprise) e.id "the channel no longer exists" false w
      | some c ↦ deliver_through s k owner e enterprise c w
    ]
deliver_for s k owner e (some enterprise) none w =
    settle_as_failed k.now owner (some enterprise) e.id "the event names no channel to send through"
      false w
deliver_for s k owner e none channel w =
    settle_as_failed k.now owner none e.id "the event names no channel to send through" false w

unfoldable pub deliver : Services → Circumstances → String → OutboundEvent → World → World
deliver s k owner e w = deliver_for s k owner e e.enterprise_id e.channel_id w

-- The batch, one event after another, each under its own circumstances.
pub deliver_all :
    Services → (OutboundEvent → Circumstances) → String → List OutboundEvent → World → World
deliver_all s ks owner [] w = w
deliver_all s ks owner (e ∷ es) w = deliver_all s ks owner es (deliver s (ks e) owner e w)

unfoldable pub poll_once :
    Services → (OutboundEvent → Circumstances) → String → ℕ → ℕ → ℕ → World → World × ℕ
poll_once s ks owner now batch_size lease_seconds w =
    if leb meta_usage_soft_limit_pct s.app_pressure
    then (w, 0)
    else (let (l, claimed) = claim_due_batch now owner batch_size lease_seconds w.ledger in
        (deliver_all s ks owner claimed (record w { ledger = l }), length claimed))
