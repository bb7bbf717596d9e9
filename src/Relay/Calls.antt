-- ===== src/Relay/Calls.antt =====
-- Which calls a delivery makes, src/workers/outbound-relay.worker.ts.
mod Quiet
use wh_api_unified_service.Prelude.{
  ◌<◌, Bool-cases, List, Option, Option-cases, String, ap, arith, false, inl, inr, leb, none, refl,
  some, true, ℕ, ◌∙◌, ◌∷◌, ◌≡◌, ◌⊎◌,
}
use wh_api_unified_service.Backoff.{schedule_retry}
use wh_api_unified_service.Channels.{ChannelSendContext, find_send_context}
use wh_api_unified_service.Outbound.{OutboundEvent}
use wh_api_unified_service.Outbound.Settle.{still_holds_lease}
use wh_api_unified_service.Relay.{
  Circumstances, GraphCall, Response, Services, World, refused, replied, threw,
}
use wh_api_unified_service.Relay.Calls.Quiet.{
  fail_event-calls, handle_graph_error-calls, record_send-calls, settle_as_failed-calls,
}
use wh_api_unified_service.Relay.Delivery.{
  after_call, after_response, attempt_send, deliver, deliver_for, deliver_through, own_pressure,
  park_for_pressure, send_with_token,
}
use wh_api_unified_service.Relay.Sending.{Attempt, call, impossible, plan, recorded_id, truthy}
use wh_api_unified_service.Relay.Settling.{handle_other_error}

-- What an attempt adds to the calls.
abbrev pub called : Attempt → List GraphCall → List GraphCall
called (impossible message) cs = cs
called (call c) cs = c ∷ cs

after_response-calls :
    (k : Circumstances) (owner : String) (e : OutboundEvent) (enterprise : ℕ) (c : GraphCall)
    (r : Response) (w : World)
    → (after_response k owner e enterprise c r w).calls ≡ w.calls
unfolding handle_other_error
after_response-calls k owner e enterprise c (replied pid) w =
    record_send-calls k owner e enterprise (recorded_id c pid) w
after_response-calls k owner e enterprise c (refused error) w =
    handle_graph_error-calls k.later k.draw owner e error w
after_response-calls k owner e enterprise c (threw message) w =
    fail_event-calls k.later owner e message
      (schedule_retry k.draw k.later e.attempt_count e.max_attempts) w

attempt_send-calls :
    (s : Services) (k : Circumstances) (owner : String) (e : OutboundEvent) (enterprise : ℕ)
    (a : Attempt) (w : World)
    → (attempt_send s k owner e enterprise a w).calls ≡ called a w.calls
unfolding attempt_send handle_other_error
attempt_send-calls s k owner e enterprise (impossible message) w =
    fail_event-calls k.later owner e message
      (schedule_retry k.draw k.later e.attempt_count e.max_attempts) w
attempt_send-calls s k owner e enterprise (call c) w =
    after_response-calls k owner e enterprise c (s.respond c) (after_call k c w)

Attempt-cases :
    (a : Attempt) → ((m : String) × (a ≡ impossible m)) ⊎ ((c : GraphCall) × (a ≡ call c))
Attempt-cases (impossible m) = inl (m, refl)
Attempt-cases (call c) = inr (c, refl)

-- What stood in the world when the relay made a call for an event.
pub record WasAllowed (s : Services) (k : Circumstances) (owner : String) (e : OutboundEvent)
    (w : World) (c : GraphCall) : Type 0 where
  pub enterprise : ℕ
  pub channel : ℕ
  pub context : ChannelSendContext
  pub sealed : String
  pub token : String
  pub of_enterprise : e.enterprise_id ≡ some enterprise
  pub of_channel : e.channel_id ≡ some channel
  pub found : find_send_context enterprise channel w.channels ≡ some context
  pub alive : context.reauth_required ≡ false
  pub managed : context.is_managed ≡ true
  pub has_token : truthy context.effective_access_token ≡ some sealed
  pub calm : own_pressure s context < 80
  pub opened : s.decrypt sealed ≡ some token
  pub leased_now : still_holds_lease k.now e.id owner w.ledger ≡ true
  pub planned : plan e context token ≡ call c

module _ (s : Services) (k : Circumstances) (owner : String) (e : OutboundEvent) (w : World)
    (enterprise channel : ℕ) (context : ChannelSendContext)
    (of_enterprise : e.enterprise_id ≡ some enterprise) (of_channel : e.channel_id ≡ some channel)
    (found : find_send_context enterprise channel w.channels ≡ some context) where
  send_with_token-calls :
      (sealed token : String)
      → context.reauth_required ≡ false
      → context.is_managed ≡ true
      → truthy context.effective_access_token ≡ some sealed
      → own_pressure s context < 80
      → s.decrypt sealed ≡ some token
      → let m = send_with_token s k owner e enterprise context token w in
        (m.calls ≡ w.calls)
        ⊎ ((c : GraphCall) × (m.calls ≡ c ∷ w.calls) × WasAllowed s k owner e w c)
  unfolding send_with_token
  send_with_token-calls sealed token alive managed has calm opened =
      elim (Bool-cases (still_holds_lease k.now e.id owner w.ledger)) [
        | inr lapsed ↦ rw lapsed (inl refl)
        | inl leased_now ↦
            let made = attempt_send-calls s k owner e enterprise (plan e context token) w in
            rw leased_now (elim (Attempt-cases (plan e context token)) [
              | inl (m, hopeless) ↦ inl (made ∙ ap (λ a. called a w.calls) hopeless)
              | inr (c, planned) ↦ inr (
                c,
                made ∙ ap (λ a. called a w.calls) planned,
                record {
                  enterprise = enterprise;
                  channel = channel;
                  context = context;
                  sealed = sealed;
                  token = token;
                  of_enterprise = of_enterprise;
                  of_channel = of_channel;
                  found = found;
                  alive = alive;
                  managed = managed;
                  has_token = has;
                  calm = calm;
                  opened = opened;
                  leased_now = leased_now;
                  planned = planned;
                },
              )
            ])
      ]

  deliver_through-calls :
      let m = deliver_through s k owner e enterprise context w in
      (m.calls ≡ w.calls) ⊎ ((c : GraphCall) × (m.calls ≡ c ∷ w.calls) × WasAllowed s k owner e w c)
  unfolding deliver_through park_for_pressure
  deliver_through-calls =
      let dropped = λ (reason : String).
        settle_as_failed-calls k.now owner (some enterprise) e.id reason false w in
      elim (Bool-cases context.reauth_required) [
        | inl dead ↦ rw dead (inl (dropped "the channel needs re-authentication"))
        | inr alive ↦ rw alive (elim (Bool-cases context.is_managed) [
          | inr unmanaged ↦ rw unmanaged (inl (dropped "the channel is not managed"))
          | inl managed ↦ rw managed (elim (Option-cases (truthy context.effective_access_token)) [
            | inl none_there ↦
                rw none_there (inl (dropped "no usable access token for the channel"))
            | inr (sealed, has) ↦ rw has (elim (Bool-cases (leb 80 (own_pressure s context))) [
              | inl busy ↦ rw busy (inl refl)
              | inr calm ↦ rw calm (elim (Option-cases (s.decrypt sealed)) [
                | inl closed ↦ rw closed (inl (dropped "the channel token could not be decrypted"))
                | inr (token, opened) ↦
                    rw opened
                      (send_with_token-calls sealed token alive managed has (ground arith) opened)
              ])
            ])
          ])
        ])
      ]

deliver_for-calls :
    (s : Services) (k : Circumstances) (owner : String) (e : OutboundEvent) (w : World)
    (enterprise channel : Option ℕ)
    → e.enterprise_id ≡ enterprise
    → e.channel_id ≡ channel
    → ((deliver_for s k owner e enterprise channel w).calls ≡ w.calls)
      ⊎ ((c : GraphCall) × ((deliver_for s k owner e enterprise channel w).calls ≡ c ∷ w.calls)
          × WasAllowed s k owner e w c)
deliver_for-calls s k owner e w none channel of through = inl (
    settle_as_failed-calls k.now owner none e.id "the event names no channel to send through" false
      w)
deliver_for-calls s k owner e w (some enterprise) none of through = inl (
    settle_as_failed-calls k.now owner (some enterprise) e.id
      "the event names no channel to send through" false w)
deliver_for-calls s k owner e w (some enterprise) (some channel) of through =
    elim (Option-cases (find_send_context enterprise channel w.channels)) [
      | inl gone ↦
          rw (gone, deliver_for)
            (inl (
              settle_as_failed-calls k.now owner (some enterprise) e.id
                "the channel no longer exists" false w))
      | inr (context, found) ↦
          rw (found, deliver_for)
            (deliver_through-calls s k owner e w enterprise channel context of through found)
    ]

-- A delivery makes at most one call to the platform, and only when nothing forbids it: the event names
-- an enterprise and a channel that is found, alive and managed, its token is there and opens, the
-- account's allowance is not nearly spent, and this worker holds the row's lease at that moment.
pub one_call_and_only_when_allowed :
    (s : Services) (k : Circumstances) (owner : String) (e : OutboundEvent) (w : World)
    → ((deliver s k owner e w).calls ≡ w.calls)
      ⊎ ((c : GraphCall) × ((deliver s k owner e w).calls ≡ c ∷ w.calls)
          × WasAllowed s k owner e w c)
unfolding deliver
one_call_and_only_when_allowed s k owner e w =
    deliver_for-calls s k owner e w e.enterprise_id e.channel_id refl refl
