-- ===== src/ReplyWindow/Tests.antt =====
-- The theorems on the reply window at concrete conversations.
use wh_api_unified_service.Prelude.{◌+◌, false, none, refl, some, true, ℕ, ◌↔◌, ◌≡◌, ◌≢◌, ◌≤◌}
use wh_api_unified_service.Rbac.Conversations.{ConversationKind, mention, review}
use wh_api_unified_service.ReplyWindow.{
  ReplyWindowInput, archived, closed, evaluate_reply_window, reply_event_type_for, resolved, tagged,
}
use wh_api_unified_service.ReplyWindow.Verdicts.{can_reply_iff}

abbrev quiet : ReplyWindowInput
quiet = record {
  mention_kind = none;
  conversation_kind = ConversationKind.direct_message;
  last_inbound_at = some 1000;
  status = none;
}

can_reply_iff_example : ((evaluate_reply_window 5000 quiet).can_reply ≡ true) ↔ (
    (none ≢ some resolved)
    × (none ≢ some closed)
    × (none ≢ some archived)
    × (ConversationKind.direct_message ≢ review)
    × ((ConversationKind.direct_message ≡ mention) → none ≢ some tagged)
    × ((ConversationKind.direct_message ≡ ConversationKind.direct_message)
        → (last : ℕ) × (some 1000 ≡ some last) × (5000 ≤ last + 86400000)))
can_reply_iff_example = can_reply_iff 5000 quiet

too_late : (evaluate_reply_window 90000000 quiet).can_reply ≡ false
unfolding evaluate_reply_window reply_event_type_for
too_late = refl
