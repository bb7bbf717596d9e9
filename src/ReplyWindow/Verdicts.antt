-- ===== src/ReplyWindow/Verdicts.antt =====
-- What the reply window decides, src/modules/inbox/reply-window.ts.
use wh_api_unified_service.Prelude.{◌+◌, arith, false, none, some, true, ℕ, ◌↔◌, ◌≡◌, ◌≢◌, ◌≤◌}
use wh_api_unified_service.Rbac.Conversations.{ConversationKind, mention, review}
use wh_api_unified_service.ReplyWindow.{
  ReplyWindowInput, archived, closed, evaluate_reply_window, reply_event_type_for, resolved, tagged,
}

-- A reply is allowed exactly when the thread is not resolved, closed or archived, its kind can be
-- answered, it is not a mention by a tag, and, for a direct message, the customer has written and not
-- more than 24 hours ago.
pub can_reply_iff :
    (now : ℕ) (input : ReplyWindowInput)
    → ((evaluate_reply_window now input).can_reply ≡ true) ↔ (
        (input.status ≢ some resolved)
        × (input.status ≢ some closed)
        × (input.status ≢ some archived)
        × (input.conversation_kind ≢ review)
        × ((input.conversation_kind ≡ mention) → input.mention_kind ≢ some tagged)
        × ((input.conversation_kind ≡ ConversationKind.direct_message)
            → (last : ℕ) × (input.last_inbound_at ≡ some last) × (now ≤ last + 86400000)))
unfolding evaluate_reply_window reply_event_type_for
can_reply_iff now input = ground arith

-- A reply that is refused always comes with a reason, and one that is allowed never does.
pub reason_iff_refused :
    (now : ℕ) (input : ReplyWindowInput)
    → ((evaluate_reply_window now input).reason ≡ none)
      ↔ ((evaluate_reply_window now input).can_reply ≡ true)
unfolding evaluate_reply_window reply_event_type_for
reason_iff_refused now input = ground arith

-- Time only closes a window: a reply that is refused stays refused at every later time, as long as
-- nothing else about the conversation changes.
refused_stays_refused :
    (now later : ℕ) (input : ReplyWindowInput)
    → now ≤ later
    → (evaluate_reply_window now input).can_reply ≡ false
    → (evaluate_reply_window later input).can_reply ≡ false
unfolding evaluate_reply_window reply_event_type_for
refused_stays_refused now later input le shut = ground arith
