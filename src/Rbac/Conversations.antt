-- ===== src/Rbac/Conversations.antt =====
-- src/shared/rbac/conversation-permissions.ts: which permission governs which kind of thread. A code
-- is its text; a set of codes is the list of its members.
pub mod Separation
use wh_api_unified_service.Prelude.{List, String, [], false, filter, includes, true, ◌∷◌}

pub data ConversationKind : Type 0 where
  direct_message comment_thread mention review : ConversationKind

pub data ConversationAction : Type 0 where
  view reply assign manage : ConversationAction

-- `BY_KIND`, one function for each entry of the table.
abbrev conversation_code : ConversationAction → String
conversation_code view = "conversations.view"
conversation_code reply = "conversations.reply"
conversation_code assign = "conversations.assign"
conversation_code manage = "conversations.manage"

abbrev comment_code : ConversationAction → String
comment_code view = "comments.view"
comment_code reply = "comments.reply"
comment_code assign = "comments.assign"
comment_code manage = "comments.manage"

abbrev mention_code : ConversationAction → String
mention_code view = "mentions.view"
mention_code reply = "mentions.reply"
mention_code assign = "mentions.assign"
mention_code manage = "mentions.manage"

unfoldable pub permission_for : ConversationKind → ConversationAction → String
permission_for direct_message action = conversation_code action
permission_for comment_thread action = comment_code action
permission_for mention action = mention_code action
permission_for review action = conversation_code action

-- The keys of `BY_KIND`, in the order of the source.
abbrev pub kinds : List ConversationKind
kinds = direct_message ∷ comment_thread ∷ mention ∷ review ∷ []

-- `[...new Set(xs)]` keeps the first of equal texts.
dedup : List String → List String → List String
dedup seen [] = []
dedup seen (x ∷ xs) = elim (includes seen x) [
  | true ↦ dedup seen xs
  | false ↦ x ∷ dedup (x ∷ seen) xs
]

codes_for : ConversationAction → List ConversationKind → List String
codes_for action [] = []
codes_for action (k ∷ ks) = permission_for k action ∷ codes_for action ks

unfoldable pub any_permission_for : ConversationAction → List String
unfolding dedup codes_for
any_permission_for action = dedup [] (codes_for action kinds)

unfoldable pub visible_kinds : List String → List ConversationKind
visible_kinds held = filter (λ k. includes held (permission_for k view)) kinds
