-- ===== src/ReplyWindow.antt =====
-- Whether a conversation can be answered now, src/modules/inbox/reply-window.ts, with the enums of
-- src/shared/enums/conversation.enum.ts. Times are milliseconds.
mod Tests
pub mod Verdicts
use wh_api_unified_service.Prelude.{
  ◌&&◌, ◌-◌, ◌/◌, ◌<>◌, Bool, Option, String, decimal, false, if◌then◌else◌, is_none, ltb, none,
  not, some, true, ℕ,
}
use wh_api_unified_service.Outbound.{
  OutboundEventType, comment_reply, direct_message, mention_reply,
}
use wh_api_unified_service.Rbac.Conversations.{ConversationKind, comment_thread, mention, review}

pub data ConversationStatus : Type 0 where
  conversation_open conversation_pending resolved closed archived : ConversationStatus

pub data MentionKind : Type 0 where
  caption comment tagged : MentionKind

abbrev pub messaging_window_ms : ℕ
messaging_window_ms = 86400000

-- `CLOSED_TO_REPLIES`
abbrev pub closed_to_replies : ConversationStatus → Bool
closed_to_replies resolved = true
closed_to_replies closed = true
closed_to_replies archived = true
closed_to_replies _ = false

abbrev pub status_text : ConversationStatus → String
status_text conversation_open = "open"
status_text conversation_pending = "pending"
status_text resolved = "resolved"
status_text closed = "closed"
status_text archived = "archived"

unfoldable pub reply_event_type_for : ConversationKind → Option OutboundEventType
reply_event_type_for ConversationKind.direct_message = some OutboundEventType.direct_message
reply_event_type_for comment_thread = some comment_reply
reply_event_type_for mention = some mention_reply
reply_event_type_for review = none

-- `WINDOWED_KINDS`
abbrev pub is_windowed : ConversationKind → Bool
is_windowed ConversationKind.direct_message = true
is_windowed _ = false

pub record ReplyWindow : Type 0 where
  pub can_reply : Bool
  pub reason : Option String

-- The argument of `evaluateReplyWindow`; what is absent there is `none` here.
pub record ReplyWindowInput : Type 0 where
  pub mention_kind : Option MentionKind
  pub conversation_kind : ConversationKind
  pub last_inbound_at : Option ℕ
  pub status : Option ConversationStatus

abbrev pub allowed : ReplyWindow
allowed = record { can_reply = true; reason = none }

abbrev pub refused_because : String → ReplyWindow
refused_because why = record { can_reply = false; reason = some why }

abbrev pub is_closed : Option ConversationStatus → Bool
is_closed none = false
is_closed (some s) = closed_to_replies s

abbrev pub closed_reason : Option ConversationStatus → String
closed_reason none = ""
closed_reason (some s) =
    "This conversation is " <> status_text s <> ". Reopen it to reply, or add an internal note."

abbrev pub is_mention : ConversationKind → Bool
is_mention mention = true
is_mention _ = false

abbrev pub is_tagged : Option MentionKind → Bool
is_tagged (some tagged) = true
is_tagged _ = false

-- `elapsed > MESSAGING_WINDOW_MS`; a time before the last message has elapsed 0, which is not.
abbrev pub evaluate_messaging_window : ℕ → Option ℕ → ReplyWindow
evaluate_messaging_window now none =
    refused_because
      "This person has not messaged yet, and a business cannot open a message thread. Wait for them to write first."
evaluate_messaging_window now (some last) =
    if ltb messaging_window_ms (now - last)
    then refused_because (
        "The platform only accepts a reply within 24 hours of the customer's last message, and "
        <> "theirs was "
        <> decimal ((now - last) / 3600000)
        <> " hours ago. You can still add an internal note.")
    else allowed

unfoldable pub evaluate_reply_window : ℕ → ReplyWindowInput → ReplyWindow
evaluate_reply_window now input =
    if is_closed input.status
    then refused_because (closed_reason input.status)
    else if is_none (reply_event_type_for input.conversation_kind)
    then refused_because
        "The platform does not accept replies to this kind of item. You can still add an internal note."
    else if is_mention input.conversation_kind && is_tagged input.mention_kind
    then refused_because (
        "Instagram does not allow replying to a post you were tagged in — only to one that "
        <> "@mentions you in its caption or in a comment. You can still add an internal note.")
    else if not (is_windowed input.conversation_kind)
    then allowed
    else evaluate_messaging_window now input.last_inbound_at
