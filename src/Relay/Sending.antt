-- ===== src/Relay/Sending.antt =====
-- From an event to a call, src/workers/outbound-relay.worker.ts (`send`).
use wh_api_unified_service.Prelude.{◌<>◌, Option, String, none, or_else, some, true}
use wh_api_unified_service.Channels.{ChannelSendContext}
use wh_api_unified_service.Outbound.{
  OutboundEvent, OutboundEventType, Payload, Platform, comment_delete, comment_hide, comment_reply,
  direct_message, instagram, mention_reply, post_publish, verification_send,
}
use wh_api_unified_service.Relay.{
  GraphCall, delete_comment, hide_comment, reply_to_comment, reply_to_mention, send_direct_message,
}

-- `!text`: null, undefined and "" are all false.
abbrev pub truthy : Option String → Option String
truthy none = none
truthy (some String.[]) = none
truthy (some (String.◌∷◌ c s)) = some (String.◌∷◌ c s)

-- Either the exception of an event that cannot be sent, or the call to make.
pub data Attempt : Type 0 where
  impossible : String → Attempt
  call : GraphCall → Attempt

abbrev pub event_type_text : OutboundEventType → String
event_type_text comment_reply = "comment_reply"
event_type_text mention_reply = "mention_reply"
event_type_text direct_message = "direct_message"
event_type_text comment_hide = "comment_hide"
event_type_text comment_delete = "comment_delete"
event_type_text post_publish = "post_publish"
event_type_text verification_send = "verification_send"

abbrev pub comment_reply_call : Payload → String → Platform → Attempt
comment_reply_call p token platform = elim (truthy p.comment_id) [
  | none ↦ impossible "incomplete comment reply"
  | some comment ↦ elim (truthy p.message) [
    | none ↦ impossible "incomplete comment reply"
    | some message ↦ call (reply_to_comment comment message token platform)
  ]
]

abbrev pub mention_reply_call : Payload → String → String → Attempt
mention_reply_call p user token = elim (truthy p.message) [
  | none ↦ impossible "incomplete mention reply"
  | some message ↦ elim (truthy p.media_id) [
    | none ↦ impossible "the mention has no post recorded, so it cannot be answered"
    | some media ↦ call (reply_to_mention user media p.comment_id message token)
  ]
]

abbrev pub direct_message_call : Option String → Payload → String → String → Attempt
direct_message_call recipient p target token = elim (truthy recipient) [
  | none ↦ impossible "incomplete direct message"
  | some to ↦ elim (truthy p.message) [
    | none ↦ impossible "incomplete direct message"
    | some message ↦
        call (send_direct_message target to message token p.reply_to_platform_message_id)
  ]
]

-- `payload.hidden ?? true`
abbrev pub comment_hide_call : Payload → String → Platform → Attempt
comment_hide_call p token platform = elim (truthy p.comment_id) [
  | none ↦ impossible "incomplete comment hide"
  | some comment ↦ call (hide_comment comment (or_else p.hidden true) token platform)
]

abbrev pub comment_delete_call : Payload → String → Attempt
comment_delete_call p token = elim (truthy p.comment_id) [
  | none ↦ impossible "incomplete comment delete"
  | some comment ↦ call (delete_comment comment token)
]

-- An Instagram message goes to the Page behind the account.
abbrev pub messaging_target : ChannelSendContext → String
messaging_target c = elim c.platform [
  | instagram ↦ or_else c.parent_platform_channel_id c.platform_channel_id
  | _ ↦ c.platform_channel_id
]

unfoldable pub plan : OutboundEvent → ChannelSendContext → String → Attempt
plan e c token = elim e.event_type [
  | comment_reply ↦ comment_reply_call e.payload token c.platform
  | mention_reply ↦ mention_reply_call e.payload c.platform_channel_id token
  | direct_message ↦
      direct_message_call e.recipient_platform_id e.payload (messaging_target c) token
  | comment_hide ↦ comment_hide_call e.payload token c.platform
  | comment_delete ↦ comment_delete_call e.payload token
  | other ↦ impossible ("no sender for event_type \"" <> event_type_text other <> "\"")
]

-- A moderation call has no id to record.
abbrev pub recorded_id : GraphCall → Option String → Option String
recorded_id (hide_comment comment hidden token platform) id = none
recorded_id (delete_comment comment token) id = none
recorded_id _ id = id
