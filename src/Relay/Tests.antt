-- ===== src/Relay/Tests.antt =====
-- The theorems on the relay at a concrete event, channel and response.
use wh_api_unified_service.Prelude.{
  Option, [], arith, false, none, refl, some, str_eq, str_eq_refl, true, ℕ, ◌∷◌, ◌≡◌, ◌⊎◌,
}
use wh_api_unified_service.Channels.{
  Channel, channel_active, find_send_context, mark_reauth_required, revoked, revoked_channel,
  send_context, valid,
}
use wh_api_unified_service.Channels.Revocation.{revoked_everywhere}
use wh_api_unified_service.Graph.{
  GraphApiError, from_transport, is_ambiguous_failure, is_rate_limit, map_graph_error,
  upstream_rate_limited,
}
use wh_api_unified_service.Messages.{message_failed, message_sent, record_delivery}
use wh_api_unified_service.Outbound.{
  Ledger, OutboundEvent, comment_reply, dead_letter, find_event, instagram, update, update_rows,
}
use wh_api_unified_service.Outbound.Consistency.{IsConsistent}
use wh_api_unified_service.Outbound.Fencing.{IsDropped, Leaves}
use wh_api_unified_service.Outbound.Queue.{EnqueueOutboundInput, claim_row, new_event}
use wh_api_unified_service.Outbound.Rows.{claim_row-IsSound, new_event-IsSound}
use wh_api_unified_service.Outbound.Settle.{cancel, mark_sent, still_holds_lease}
use wh_api_unified_service.Outbound.Steps.{Reach}
use wh_api_unified_service.Outbound.Terminal.{GoneOr, IsLeftAlone}
use wh_api_unified_service.Relay.{
  Circumstances, GraphCall, Response, Services, World, no_fault, refused, replied, reply_to_comment,
}
use wh_api_unified_service.Relay.Agreement.{Told}
use wh_api_unified_service.Relay.Agreement.Delivered.{message_agrees_with_ledger}
use wh_api_unified_service.Relay.Calls.{WasAllowed, one_call_and_only_when_allowed}
use wh_api_unified_service.Relay.Credentials.{rejected_credential_is_not_used}
use wh_api_unified_service.Relay.Delivery.{attempt_send, deliver, deliver_through, send_with_token}
use wh_api_unified_service.Relay.Doubt.{ambiguous_send_is_not_retried}
use wh_api_unified_service.Relay.Outcome.{answered_call_never_fails}
use wh_api_unified_service.Relay.Parking.{IsHeldBack, held_back_event_dies_untold}
use wh_api_unified_service.Relay.Sending.{call, plan}
use wh_api_unified_service.Relay.Settling.{handle_graph_error, reject_credential, settle_as_failed}

abbrev reply_input : EnqueueOutboundInput
reply_input = record {
  enterprise_id = some 7;
  channel_id = some 3;
  platform = instagram;
  event_type = comment_reply;
  recipient_platform_id = none;
  dedup_key = "k1";
  payload = record {
    comment_id = some "c1";
    media_id = none;
    message = some "hi";
    hidden = none;
    reply_to_platform_message_id = none;
  };
  scheduled_at = none;
  priority = none;
}

abbrev due_row : OutboundEvent
due_row = new_event 100 1 reply_input

abbrev row : OutboundEvent
row = claim_row "w1" 120200 due_row

abbrev row_ledger : Ledger
row_ledger = record { events = row ∷ []; next_id = 2 }

row_ledger-IsConsistent : IsConsistent row_ledger
row_ledger-IsConsistent = record {
  rows = (claim_row-IsSound 200 120200 "w1" due_row (new_event-IsSound 100 1 reply_input) refl, tt);
  keys = (tt, tt);
  fresh = (omega arith, tt);
}

row_found : find_event 1 row_ledger.events ≡ some row
unfolding find_event
row_found = refl

abbrev account : Channel
account = record {
  id = 3;
  enterprise_id = 7;
  provider_connection_id = 9;
  parent_channel_id = none;
  platform = instagram;
  platform_channel_id = "ig";
  access_token = some "sealed";
  token_status = valid;
  reauth_required = false;
  is_managed = true;
  is_deleted = false;
  status = channel_active;
}

abbrev world : World
world = record {
  ledger = row_ledger;
  messages = [];
  connections = [];
  channels = account ∷ [];
  calls = [];
}

abbrev reply_call : GraphCall
reply_call = reply_to_comment "c1" "hi" "token" instagram

abbrev services : Response → ℕ → ℕ → Services
services answer app own = record {
  respond = λ c. answer;
  decrypt = λ t. some "token";
  app_pressure = app;
  pressure_for = λ i. own;
}

abbrev calm : Circumstances
calm = record { now = 300; later = 400; draw = 0; meanwhile = λ l. l; fault = no_fault }

account_found : find_send_context 7 3 (account ∷ []) ≡ some (send_context account none)
unfolding find_send_context
account_found = refl

lease_stands : still_holds_lease 300 1 "w1" row_ledger ≡ true
unfolding still_holds_lease
lease_stands = ground (arith, str_eq_refl "w1")

is_planned : plan row (send_context account none) "token" ≡ call reply_call
unfolding plan
is_planned = refl

abbrev was_allowed :
    (answer : Response) → WasAllowed (services answer 0 10) calm "w1" row world reply_call
was_allowed answer = record {
  enterprise = 7;
  channel = 3;
  context = send_context account none;
  sealed = "sealed";
  token = "token";
  of_enterprise = refl;
  of_channel = refl;
  found = account_found;
  alive = refl;
  managed = refl;
  has_token = refl;
  calm = omega arith;
  opened = refl;
  leased_now = lease_stands;
  planned = is_planned;
}

one_call_and_only_when_allowed_example :
    ((deliver (services (replied (some "p1")) 0 10) calm "w1" row world).calls ≡ [])
    ⊎ ((c : GraphCall) × ((deliver (services (replied (some "p1")) 0 10) calm "w1" row world).calls
          ≡ c ∷ [])
        × WasAllowed (services (replied (some "p1")) 0 10) calm "w1" row world c)
one_call_and_only_when_allowed_example =
    one_call_and_only_when_allowed (services (replied (some "p1")) 0 10) calm "w1" row world

message_agrees_with_ledger_example :
    Told 1 [] (deliver (services (replied (some "p1")) 0 10) calm "w1" row world)
message_agrees_with_ledger_example =
    message_agrees_with_ledger (services (replied (some "p1")) 0 10) calm "w1" row world (tt, tt)
      (tt, tt)

abbrev answered : World
answered = deliver (services (replied (some "p1")) 0 10) calm "w1" row world

answered_call_never_fails_example :
    ((answered.ledger ≡ row_ledger)
      ⊎ (answered.ledger ≡ (mark_sent 400 1 "w1" (some "p1") row_ledger).0))
    × ((answered.messages ≡ [])
        ⊎ (answered.messages ≡ record_delivery 400 7 1 (some "p1") message_sent []))
answered_call_never_fails_example =
    answered_call_never_fails (services (replied (some "p1")) 0 10) calm "w1" row world reply_call
      (some "p1") (was_allowed (replied (some "p1"))) refl

abbrev timeout : GraphApiError
timeout = from_transport "timeout"

timeout_unsure : is_ambiguous_failure timeout ≡ true
unfolding is_ambiguous_failure
timeout_unsure = refl

timeout_alive : (map_graph_error timeout).requires_reauth ≡ false
unfolding map_graph_error
timeout_alive = refl

ambiguous_send_is_not_retried_example :
    ((deliver (services (refused timeout) 0 10) calm "w1" row world).messages
      ≡ record_delivery 400 7 1 none message_failed [])
    × Leaves 1
        (deliver (services (refused timeout) 0 10) calm "w1" row world).ledger
        (IsDropped true row)
    × ((later : Ledger)
        → Reach (deliver (services (refused timeout) 0 10) calm "w1" row world).ledger later
        → GoneOr 1 later (IsLeftAlone 1))
ambiguous_send_is_not_retried_example =
    ambiguous_send_is_not_retried (services (refused timeout) 0 10) calm "w1" row row world
      reply_call timeout (was_allowed (refused timeout)) refl timeout_unsure timeout_alive
      row_ledger-IsConsistent row_found refl

abbrev graph_error : ℕ → Option ℕ → GraphApiError
graph_error status code = record {
  http_status = status;
  code = code;
  subcode = none;
  type = none;
  fb_trace_id = none;
  message = "no";
  retry_after_minutes = none;
}

abbrev revoked_token : GraphApiError
revoked_token = graph_error 400 (some 190)

token_dead : (map_graph_error revoked_token).requires_reauth ≡ true
unfolding map_graph_error
token_dead = refl

revoked_found :
    find_send_context 7 3 (mark_reauth_required 7 9 revoked [] (account ∷ [])).1
    ≡ some (send_context (revoked_channel 7 9 account) none)
unfolding find_send_context mark_reauth_required
revoked_found = refl

revoked_everywhere_example : true ≡ true
revoked_everywhere_example =
    revoked_everywhere 7 9 3 revoked [] (account ∷ [])
      (send_context (revoked_channel 7 9 account) none) revoked_found refl

-- Another account under another connection, with an event that another worker holds.
abbrev other_account : Channel
other_account = record account { id = 4; provider_connection_id = 8 }

abbrev other_row : OutboundEvent
other_row =
    claim_row "w2" 120200
      (new_event 100 2 (record reply_input { channel_id = some 4; dedup_key = "k2" }))

abbrev two_accounts : World
two_accounts = record world {
  ledger = record { events = row ∷ other_row ∷ []; next_id = 3 };
  channels = account ∷ other_account ∷ [];
}

two_accounts_found : find_send_context 7 3 two_accounts.channels ≡ some (send_context account none)
unfolding find_send_context
two_accounts_found = refl

two_accounts_leased : still_holds_lease 300 1 "w1" two_accounts.ledger ≡ true
unfolding still_holds_lease
two_accounts_leased = ground (arith, str_eq_refl "w1")

abbrev was_allowed_too :
    WasAllowed (services (refused revoked_token) 0 10) calm "w1" row two_accounts reply_call
was_allowed_too = record {
  enterprise = 7;
  channel = 3;
  context = send_context account none;
  sealed = "sealed";
  token = "token";
  of_enterprise = refl;
  of_channel = refl;
  found = two_accounts_found;
  alive = refl;
  managed = refl;
  has_token = refl;
  calm = omega arith;
  opened = refl;
  leased_now = two_accounts_leased;
  planned = is_planned;
}

abbrev after_rejection : World
after_rejection = deliver (services (refused revoked_token) 0 10) calm "w1" row two_accounts

other_found :
    find_send_context 7 4 after_rejection.channels ≡ some (send_context other_account none)
unfolding deliver deliver_through send_with_token attempt_send still_holds_lease handle_graph_error
    reject_credential settle_as_failed cancel update update_rows map_graph_error find_send_context
    mark_reauth_required plan str_eq
other_found = refl

other_leased : still_holds_lease 300 2 "w2" after_rejection.ledger ≡ true
unfolding deliver deliver_through send_with_token attempt_send still_holds_lease handle_graph_error
    reject_credential settle_as_failed cancel update update_rows map_graph_error find_send_context
    mark_reauth_required plan str_eq
other_leased = refl

other_planned : plan other_row (send_context other_account none) "token" ≡ call reply_call
unfolding plan
other_planned = refl

rejected_credential_is_not_used_example : ¬ (◌≡◌ {A = ℕ} 8 9)
rejected_credential_is_not_used_example =
    rejected_credential_is_not_used (services (refused revoked_token) 0 10)
      (services (replied none) 0 10) calm calm "w1" "w2" row other_row two_accounts reply_call
      reply_call revoked_token was_allowed_too refl token_dead
      (record {
        enterprise = 7;
        channel = 4;
        context = send_context other_account none;
        sealed = "sealed";
        token = "token";
        of_enterprise = refl;
        of_channel = refl;
        found = other_found;
        alive = refl;
        managed = refl;
        has_token = refl;
        calm = omega arith;
        opened = refl;
        leased_now = other_leased;
        planned = other_planned;
      })
      refl

abbrev quota_left : GraphApiError
quota_left = graph_error 400 (some 4)

quota_sure : is_ambiguous_failure quota_left ≡ false
unfolding is_ambiguous_failure
quota_sure = refl

quota_limited : (map_graph_error quota_left).code ≡ upstream_rate_limited
unfolding map_graph_error is_rate_limit
quota_limited = refl

abbrev held_back : IsHeldBack (services (replied none) 0 90) row world
held_back = record {
  enterprise = 7;
  channel = 3;
  context = send_context account none;
  sealed = "sealed";
  of_enterprise = refl;
  of_channel = refl;
  found = account_found;
  alive = refl;
  managed = refl;
  has_token = refl;
  busy = omega arith;
}

abbrev next_day : Circumstances
next_day = record calm { now = 90000000 }

held_back_event_dies_untold_example :
    ((deliver (services (replied none) 0 90) next_day "w1" row world).messages ≡ [])
    × ((r : OutboundEvent) × (find_event 1
            (deliver (services (replied none) 0 90) next_day "w1" row world).ledger.events
          ≡ some r)
        × (r.status ≡ dead_letter))
held_back_event_dies_untold_example =
    held_back_event_dies_untold (services (replied none) 0 90) next_day "w1" row row world held_back
      row_ledger-IsConsistent row_found refl (omega arith)
