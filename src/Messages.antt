-- ===== src/Messages.antt =====
-- The write-back of a send to its message, src/database/repositories/message.repository.ts
-- (`recordDelivery`) and src/shared/enums/conversation.enum.ts.
use wh_api_unified_service.Prelude.{
  ◌&&◌, ◌==◌, Bool, List, Option, String, [], false, if◌then◌else◌, none, some, true, ℕ, ◌∷◌,
}

pub data MessageStatus : Type 0 where
  message_pending message_sending message_sent delivered message_failed : MessageStatus

-- The columns of `messages` that a write-back reads or writes.
pub record Message : Type 0 where
  pub id : ℕ
  pub enterprise_id : ℕ
  pub outbound_event_id : Option ℕ
  pub platform_message_id : Option String
  pub status : MessageStatus
  pub platform_sent_at : Option ℕ

abbrev pub is_sent_status : MessageStatus → Bool
is_sent_status message_sent = true
is_sent_status _ = false

-- `enterprise_id = $1 AND outbound_event_id = $2`
abbrev pub belongs_to : ℕ → ℕ → Message → Bool
belongs_to enterprise event m = elim m.outbound_event_id [
  | none ↦ false
  | some e ↦ (m.enterprise_id == enterprise) && (e == event)
]

abbrev pub delivered_row : ℕ → Option String → MessageStatus → Message → Message
delivered_row now platform_message_id status m = record m {
  platform_message_id = elim platform_message_id [ none ↦ m.platform_message_id | some p ↦ some p ];
  status = status;
  platform_sent_at = if is_sent_status status then some now else m.platform_sent_at;
}

pub record_delivery : ℕ → ℕ → ℕ → Option String → MessageStatus → List Message → List Message
record_delivery now enterprise event pid status [] = []
record_delivery now enterprise event pid status (m ∷ ms) =
    (if belongs_to enterprise event m then delivered_row now pid status m else m)
    ∷ record_delivery now enterprise event pid status ms
