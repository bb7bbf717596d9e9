-- ===== src/Outbound.antt =====
-- The outbound ledger, src/database/repositories/outbound-event.repository.ts, with the statuses and
-- types of src/shared/enums/ledger.enum.ts. A statement of SQL is one atomic step on the table; a
-- time is a number of milliseconds and `now()` an argument; NULL is `none`, and a test of NULL fails.
pub mod Queue
pub mod Settle
pub mod Replay
pub mod Sweep
pub mod Pointwise
pub mod Rows
pub mod Steps
pub mod Consistency
pub mod Enqueueing
pub mod Fencing
pub mod Holding
pub mod Leases
pub mod Claiming
pub mod Terminal
pub mod Trace
pub mod CrashLoop
mod Tests
use wh_api_unified_service.Prelude.{
  ◌+◌, ◌==◌, Bool, List, Option, String, [], false, filter, if◌then◌else◌, length, ltb, none, some,
  str_eq, true, ℕ, ◌∷◌,
}

pub data OutboundEventStatus : Type 0 where
  pending scheduled leased sending sent failed dead_letter cancelled : OutboundEventStatus

pub data OutboundEventType : Type 0 where
  comment_reply mention_reply direct_message comment_hide comment_delete : OutboundEventType
  post_publish verification_send : OutboundEventType

pub data Platform : Type 0 where
  facebook instagram whats_app you_tube zendesk internal : Platform

-- What a read-back concluded about a send whose outcome was never confirmed.
pub data ReadBackOutcome : Type 0 where
  landed lost unknown : ReadBackOutcome

-- The fields of the JSON payload that any sender reads.
pub record Payload : Type 0 where
  pub comment_id : Option String
  pub media_id : Option String
  pub message : Option String
  pub hidden : Option Bool
  pub reply_to_platform_message_id : Option String

-- A row of `outbound_events`; `ambiguous`, `read_back` and `replays` are keys of its `metadata`.
pub record OutboundEvent : Type 0 where
  pub id : ℕ
  pub enterprise_id : Option ℕ
  pub channel_id : Option ℕ
  pub platform : Platform
  pub event_type : OutboundEventType
  pub recipient_platform_id : Option String
  pub dedup_key : String
  pub payload : Payload
  pub priority : ℕ
  pub status : OutboundEventStatus
  pub scheduled_at : Option ℕ
  pub next_attempt_at : Option ℕ
  pub created_at : ℕ
  pub attempt_count : ℕ
  pub max_attempts : ℕ
  pub lease_owner : Option String
  pub lease_expires_at : Option ℕ
  pub last_error : Option String
  pub last_error_at : Option ℕ
  pub sent_at : Option ℕ
  pub dead_lettered_at : Option ℕ
  pub platform_event_id : Option String
  pub ambiguous : Bool
  pub read_back : Option ReadBackOutcome
  pub replays : ℕ

-- The table and the next value of its id sequence.
pub record Ledger : Type 0 where
  pub events : List OutboundEvent
  pub next_id : ℕ

abbrev pub status_is : OutboundEventStatus → OutboundEventStatus → Bool
status_is pending pending = true
status_is scheduled scheduled = true
status_is leased leased = true
status_is sending sending = true
status_is sent sent = true
status_is failed failed = true
status_is dead_letter dead_letter = true
status_is cancelled cancelled = true
status_is _ _ = false

-- `UPDATE … SET f WHERE p`, and the number of rows that it changed.
unfoldable pub update_rows :
    (OutboundEvent → Bool)
    → (OutboundEvent → OutboundEvent)
    → List OutboundEvent
    → List OutboundEvent
update_rows p f [] = []
update_rows p f (e ∷ es) = (if p e then f e else e) ∷ update_rows p f es

unfoldable pub update :
    (OutboundEvent → Bool) → (OutboundEvent → OutboundEvent) → Ledger → Ledger × ℕ
update p f l = (record l { events = update_rows p f l.events }, length (filter p l.events))

-- `lease_owner = $owner`
abbrev pub owned_by : String → OutboundEvent → Bool
owned_by owner e = elim e.lease_owner [ none ↦ false | some o ↦ str_eq o owner ]

-- `lease_expires_at < now() - grace`; the grace is added on the left, where nothing is cut off at 0.
abbrev pub expired_before : ℕ → ℕ → OutboundEvent → Bool
expired_before grace now e = elim e.lease_expires_at [
  | none ↦ false
  | some at ↦ ltb (at + grace) now
]

-- The row with this id.
unfoldable pub find_event : ℕ → List OutboundEvent → Option OutboundEvent
find_event i [] = none
find_event i (e ∷ es) = if e.id == i then some e else find_event i es
