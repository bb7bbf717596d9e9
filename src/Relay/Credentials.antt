-- ===== src/Relay/Credentials.antt =====
-- A credential that the platform rejects, src/workers/outbound-relay.worker.ts.
use wh_api_unified_service.Prelude.{
  Bool, Option, String, ap, arith, false, false≢true, some, subst, sym, true, ℕ, ◌∙◌, ◌≡◌, ◌≢◌,
}
use wh_api_unified_service.Channels.{
  ChannelSendContext, find_send_context, mark_reauth_required, revoked,
}
use wh_api_unified_service.Channels.Revocation.{revoked_everywhere}
use wh_api_unified_service.Graph.{GraphApiError, map_graph_error}
use wh_api_unified_service.Outbound.{OutboundEvent}
use wh_api_unified_service.Relay.{Circumstances, GraphCall, Services, World, refused}
use wh_api_unified_service.Relay.Calls.{WasAllowed}
use wh_api_unified_service.Relay.Delivery.{after_call, after_response, deliver}
use wh_api_unified_service.Relay.Outcome.{deliver-allowed}
use wh_api_unified_service.Relay.Settling.{handle_graph_error, reject_credential, settle_as_failed}

settle_as_failed-channels :
    (now : ℕ) (owner : String) (enterprise : Option ℕ) (event : ℕ) (reason : String)
    (ambiguous : Bool) (w : World)
    → (settle_as_failed now owner enterprise event reason ambiguous w).channels ≡ w.channels
unfolding settle_as_failed
settle_as_failed-channels now owner enterprise event reason ambiguous w = ground arith

handle_dead_token :
    (now draw : ℕ) (owner : String) (e : OutboundEvent) (error : GraphApiError) (w : World)
    (enterprise channel : ℕ)
    → (map_graph_error error).requires_reauth ≡ true
    → e.enterprise_id ≡ some enterprise
    → e.channel_id ≡ some channel
    → (handle_graph_error now draw owner e error w).channels
      ≡ (reject_credential now owner enterprise channel e w).channels
unfolding handle_graph_error
handle_dead_token now draw owner e error w enterprise channel dead of through = ground arith

reject_credential-channels :
    (now : ℕ) (owner : String) (enterprise channel : ℕ) (e : OutboundEvent) (w : World)
    (context : ChannelSendContext)
    → find_send_context enterprise channel w.channels ≡ some context
    → (reject_credential now owner enterprise channel e w).channels
      ≡ (mark_reauth_required enterprise context.provider_connection_id revoked w.connections
          w.channels).1
unfolding reject_credential
reject_credential-channels now owner enterprise channel e w context found = rw found (
    settle_as_failed-channels now owner (some enterprise) e.id
      "the provider rejected the credential" false _)

-- A credential that the platform rejected is not used again: after the delivery that found it dead, no
-- delivery of any event by any worker is allowed a call through any channel of that connection.
pub rejected_credential_is_not_used :
    (s s' : Services) (k k' : Circumstances) (owner owner' : String) (e e' : OutboundEvent)
    (w : World) (c c' : GraphCall) (error : GraphApiError) (h : WasAllowed s k owner e w c)
    → s.respond c ≡ refused error
    → (map_graph_error error).requires_reauth ≡ true
    → (h' : WasAllowed s' k' owner' e' (deliver s k owner e w) c') → h'.enterprise ≡ h.enterprise
    → h'.context.provider_connection_id ≢ h.context.provider_connection_id
rejected_credential_is_not_used s s' k k' owner owner' e e' w c c' error h answer dead h' same by =
    let v = after_call k c w in
    let marked : (deliver s k owner e w).channels
        ≡ (mark_reauth_required h.enterprise h.context.provider_connection_id revoked w.connections
            w.channels).1 =
      ap World.channels (
        deliver-allowed s k owner e w c h
        ∙ ap (λ x. after_response k owner e h.enterprise c x v) answer)
      ∙ handle_dead_token k.later k.draw owner e error v h.enterprise h.channel dead h.of_enterprise
          h.of_channel
      ∙ reject_credential-channels k.later owner h.enterprise h.channel e v h.context h.found in
    let there =
      subst (λ n. find_send_context n h'.channel (deliver s k owner e w).channels ≡ some h'.context)
        same h'.found in
    let there' =
      subst (λ cs. find_send_context h.enterprise h'.channel cs ≡ some h'.context) marked there in
    false≢true (
      sym h'.alive
      ∙ revoked_everywhere h.enterprise h.context.provider_connection_id h'.channel revoked
          w.connections w.channels h'.context there' by)
