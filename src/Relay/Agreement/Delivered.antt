-- ===== src/Relay/Agreement/Delivered.antt =====
-- Whatever a delivery does, the messages and the ledger agree, src/workers/outbound-relay.worker.ts.
use wh_api_unified_service.Prelude.{
  Bool-cases, Option, Option-cases, String, false, inl, inr, leb, none, refl, some, ℕ,
}
use wh_api_unified_service.Channels.{ChannelSendContext, find_send_context}
use wh_api_unified_service.Graph.{GraphApiError, map_graph_error}
use wh_api_unified_service.Messages.{message_sent}
use wh_api_unified_service.Outbound.{OutboundEvent}
use wh_api_unified_service.Outbound.Consistency.{kept}
use wh_api_unified_service.Outbound.Holding.{only_held}
use wh_api_unified_service.Outbound.Pointwise.{AllPairs}
use wh_api_unified_service.Outbound.Settle.{held, mark_sent, sent_row, still_holds_lease}
use wh_api_unified_service.Relay.{
  Circumstances, GraphCall, Response, Services, World, mark_sent_fails, no_fault,
  record_delivery_fails, refused, replied, threw,
}
use wh_api_unified_service.Relay.Agreement.{
  Told, fail_event-Told, handle_refusal-Told, one_is_some, reject_credential-Told,
  settle_as_failed-Told, update_hit,
}
use wh_api_unified_service.Relay.Delivery.{
  after_call, after_response, attempt_send, deliver, deliver_for, deliver_through, own_pressure,
  park_for_pressure, record_send, send_with_token,
}
use wh_api_unified_service.Relay.Sending.{Attempt, call, impossible, plan, recorded_id, truthy}
use wh_api_unified_service.Relay.Settling.{
  handle_dead_credential, handle_graph_error, handle_other_error,
}

handle_dead_credential-Told :
    (now draw : ℕ) (owner : String) (e : OutboundEvent) (error : GraphApiError)
    (enterprise channel : Option ℕ) (w : World)
    → AllPairs w.ledger.events
    → Told e.id w.messages (handle_dead_credential now draw owner e error enterprise channel w)
handle_dead_credential-Told now draw owner e error none channel w keys =
    handle_refusal-Told now draw owner e error w keys
handle_dead_credential-Told now draw owner e error (some enterprise) none w keys =
    handle_refusal-Told now draw owner e error w keys
handle_dead_credential-Told now draw owner e error (some enterprise) (some channel) w keys =
    reject_credential-Told now owner enterprise channel e w keys

record_send-Told :
    (k : Circumstances) (owner : String) (e : OutboundEvent) (enterprise : ℕ) (pid : Option String)
    (w : World)
    → AllPairs w.ledger.events
    → Told e.id w.messages (record_send k owner e enterprise pid w)
unfolding record_send mark_sent
record_send-Told k owner e enterprise pid w keys =
    elim (k.fault)
      as (λ f.
        Told e.id w.messages (record_send (record k { fault = f }) owner e enterprise pid w)) [
          | mark_sent_fails ↦ inl refl
          | record_delivery_fails ↦ inl refl
          | no_fault ↦ elim (Bool-cases (mark_sent k.later e.id owner pid w.ledger).1) [
            | inr off ↦ rw off (inl refl)
            | inl on ↦
                let (a, found, was) =
                  update_hit e.id (held e.id owner) (sent_row k.later pid) w.ledger
                    (kept (λ x. refl) (λ x. refl) (λ x. refl)) (only_held e.id owner) keys
                    (one_is_some _ on) in
                rw on (
                  inr (
                    k.later,
                    enterprise,
                    pid,
                    message_sent,
                    refl,
                    sent_row k.later pid a,
                    found,
                    refl,
                  ))
          ]
        ]

after_response-Told :
    (k : Circumstances) (owner : String) (e : OutboundEvent) (enterprise : ℕ) (c : GraphCall)
    (r : Response) (w : World)
    → AllPairs w.ledger.events
    → Told e.id w.messages (after_response k owner e enterprise c r w)
unfolding handle_graph_error handle_other_error
after_response-Told k owner e enterprise c (replied pid) w keys =
    record_send-Told k owner e enterprise (recorded_id c pid) w keys
after_response-Told k owner e enterprise c (refused error) w keys =
    elim (Bool-cases (map_graph_error error).requires_reauth) [
      | inl dead ↦ rw dead (
          handle_dead_credential-Told k.later k.draw owner e error e.enterprise_id e.channel_id w
            keys)
      | inr alive ↦ rw alive (handle_refusal-Told k.later k.draw owner e error w keys)
    ]
after_response-Told k owner e enterprise c (threw message) w keys =
    fail_event-Told k.later owner e message _ w keys

attempt_send-Told :
    (s : Services) (k : Circumstances) (owner : String) (e : OutboundEvent) (enterprise : ℕ)
    (a : Attempt) (w : World)
    → AllPairs w.ledger.events
    → AllPairs (k.meanwhile w.ledger).events
    → Told e.id w.messages (attempt_send s k owner e enterprise a w)
unfolding attempt_send handle_other_error
attempt_send-Told s k owner e enterprise (impossible message) w keys keys' =
    fail_event-Told k.later owner e message _ w keys
attempt_send-Told s k owner e enterprise (call c) w keys keys' =
    after_response-Told k owner e enterprise c (s.respond c) (after_call k c w) keys'

deliver_through-Told :
    (s : Services) (k : Circumstances) (owner : String) (e : OutboundEvent) (enterprise : ℕ)
    (context : ChannelSendContext) (w : World)
    → AllPairs w.ledger.events
    → AllPairs (k.meanwhile w.ledger).events
    → Told e.id w.messages (deliver_through s k owner e enterprise context w)
unfolding deliver_through park_for_pressure send_with_token
deliver_through-Told s k owner e enterprise context w keys keys' =
    let dropped = λ (reason : String).
      settle_as_failed-Told k.now owner (some enterprise) e.id reason false w keys in
    elim (Bool-cases context.reauth_required) [
      | inl dead ↦ rw dead (dropped _)
      | inr alive ↦ rw alive (elim (Bool-cases context.is_managed) [
        | inr unmanaged ↦ rw unmanaged (dropped _)
        | inl managed ↦ rw managed (elim (Option-cases (truthy context.effective_access_token)) [
          | inl none_there ↦ rw none_there (dropped _)
          | inr (sealed, has) ↦ rw has (elim (Bool-cases (leb 80 (own_pressure s context))) [
            | inl busy ↦ rw busy (inl refl)
            | inr calm ↦ rw calm (elim (Option-cases (s.decrypt sealed)) [
              | inl closed ↦ rw closed (dropped _)
              | inr (token, opened) ↦
                  rw opened (elim (Bool-cases (still_holds_lease k.now e.id owner w.ledger)) [
                    | inr lapsed ↦ rw lapsed (inl refl)
                    | inl leased_now ↦ rw leased_now (
                        attempt_send-Told s k owner e enterprise (plan e context token) w keys
                          keys')
                  ])
            ])
          ])
        ])
      ])
    ]

deliver_for-Told :
    (s : Services) (k : Circumstances) (owner : String) (e : OutboundEvent) (w : World)
    (enterprise channel : Option ℕ)
    → AllPairs w.ledger.events
    → AllPairs (k.meanwhile w.ledger).events
    → Told e.id w.messages (deliver_for s k owner e enterprise channel w)
deliver_for-Told s k owner e w none channel keys keys' =
    settle_as_failed-Told k.now owner none e.id _ false w keys
deliver_for-Told s k owner e w (some enterprise) none keys keys' =
    settle_as_failed-Told k.now owner (some enterprise) e.id _ false w keys
deliver_for-Told s k owner e w (some enterprise) (some channel) keys keys' =
    elim (Option-cases (find_send_context enterprise channel w.channels)) [
      | inl gone ↦
          rw (gone, deliver_for)
            (settle_as_failed-Told k.now owner (some enterprise) e.id _ false w keys)
      | inr (context, found) ↦
          rw (found, deliver_for) (deliver_through-Told s k owner e enterprise context w keys keys')
    ]

-- A delivery never tells an agent something that the ledger denies: either it leaves all messages as
-- they are, or it gives the event's messages one status, and then the event's row is found and is sent
-- for `sent`, and cancelled or a dead letter for `failed`. The ids in the ledger are unique before the
-- delivery and after what others do during its call.
pub message_agrees_with_ledger :
    (s : Services) (k : Circumstances) (owner : String) (e : OutboundEvent) (w : World)
    → AllPairs w.ledger.events
    → AllPairs (k.meanwhile w.ledger).events
    → Told e.id w.messages (deliver s k owner e w)
unfolding deliver
message_agrees_with_ledger s k owner e w keys keys' =
    deliver_for-Told s k owner e w e.enterprise_id e.channel_id keys keys'
