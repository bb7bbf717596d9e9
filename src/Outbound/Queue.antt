-- ===== src/Outbound/Queue.antt =====
-- Putting work on the ledger and taking it off, src/database/repositories/outbound-event.repository.ts.
-- No other transaction holds a row lock, so `SKIP LOCKED` skips nothing.
use wh_api_unified_service.Prelude.{
  ◌&&◌, ◌*◌, ◌+◌, ◌++◌, ◌==◌, Bool, List, Option, String, [], any, false, filter, if◌then◌else◌,
  is_none, leb, ltb, map, none, or_else, some, sort, str_eq, take, true, ◌||◌, ℕ, ◌∷◌,
}
use wh_api_unified_service.Outbound.{
  Ledger, OutboundEvent, OutboundEventStatus, OutboundEventType, Payload, Platform, failed, pending,
  scheduled, sending, update,
}

-- `EventPriority.Normal` and `MAX_SEND_ATTEMPTS`.
abbrev pub normal_priority : ℕ
normal_priority = 30

abbrev pub max_send_attempts : ℕ
max_send_attempts = 5

pub record EnqueueOutboundInput : Type 0 where
  pub enterprise_id : Option ℕ
  pub channel_id : Option ℕ
  pub platform : Platform
  pub event_type : OutboundEventType
  pub recipient_platform_id : Option String
  pub dedup_key : String
  pub payload : Payload
  pub scheduled_at : Option ℕ
  pub priority : Option ℕ

-- The key of the unique index: `(COALESCE(enterprise_id, 0), dedup_key)`.
abbrev pub same_key : Option ℕ → String → OutboundEvent → Bool
same_key enterprise key e =
    (or_else e.enterprise_id 0 == or_else enterprise 0) && str_eq e.dedup_key key

abbrev pub new_event : ℕ → ℕ → EnqueueOutboundInput → OutboundEvent
new_event now id input = record {
  id = id;
  enterprise_id = input.enterprise_id;
  channel_id = input.channel_id;
  platform = input.platform;
  event_type = input.event_type;
  recipient_platform_id = input.recipient_platform_id;
  dedup_key = input.dedup_key;
  payload = input.payload;
  priority = or_else input.priority normal_priority;
  status = if is_none input.scheduled_at then pending else scheduled;
  scheduled_at = input.scheduled_at;
  next_attempt_at = some (or_else input.scheduled_at now);
  created_at = now;
  attempt_count = 0;
  max_attempts = max_send_attempts;
  lease_owner = none;
  lease_expires_at = none;
  last_error = none;
  last_error_at = none;
  sent_at = none;
  dead_lettered_at = none;
  platform_event_id = none;
  ambiguous = false;
  read_back = none;
  replays = 0;
}

-- What `enqueue` returns, with whether it notified the queue.
pub record Enqueued : Type 0 where
  pub id : Option ℕ
  pub duplicate : Bool
  pub notified : Bool

-- `ON CONFLICT … DO NOTHING`: a key that is there already changes nothing.
unfoldable pub enqueue : ℕ → EnqueueOutboundInput → Ledger → Ledger × Enqueued
enqueue now input l =
    if any (same_key input.enterprise_id input.dedup_key) l.events
    then (l, record { id = none; duplicate = true; notified = false })
    else (
      record l { events = l.events ++ new_event now l.next_id input ∷ []; next_id = l.next_id + 1 },
      record { id = some l.next_id; duplicate = false; notified = is_none input.scheduled_at },
    )

-- `status IN ('pending','scheduled','failed')`
abbrev pub is_claimable : OutboundEventStatus → Bool
is_claimable pending = true
is_claimable scheduled = true
is_claimable failed = true
is_claimable _ = false

abbrev pub due_at : OutboundEvent → ℕ
due_at e = or_else e.next_attempt_at (or_else e.scheduled_at e.created_at)

abbrev pub is_due : ℕ → OutboundEvent → Bool
is_due now e = is_claimable e.status && leb (due_at e) now

-- `ORDER BY priority, COALESCE(next_attempt_at, scheduled_at, created_at), id`
abbrev pub comes_first : OutboundEvent → OutboundEvent → Bool
comes_first a b =
    ltb a.priority b.priority
    || ((a.priority == b.priority)
        && (ltb (due_at a) (due_at b) || ((due_at a == due_at b) && leb a.id b.id)))

-- `(a, b) => a.priority - b.priority || a.id - b.id`
abbrev pub runs_first : OutboundEvent → OutboundEvent → Bool
runs_first a b = ltb a.priority b.priority || ((a.priority == b.priority) && leb a.id b.id)

-- `SET status = 'sending', …`
abbrev pub claim_row : String → ℕ → OutboundEvent → OutboundEvent
claim_row owner expires e = record e {
  status = sending;
  lease_owner = some owner;
  lease_expires_at = some expires;
  attempt_count = e.attempt_count + 1;
}

abbrev pub has_id : List ℕ → OutboundEvent → Bool
has_id ids e = any (λ i. i == e.id) ids

-- The inner SELECT.
unfoldable pub select_due : ℕ → ℕ → List OutboundEvent → List ℕ
select_due now limit es =
    map OutboundEvent.id (take limit (sort comes_first (filter (is_due now) es)))

-- The claim: the ledger after it, and the claimed rows in the order they are worked on.
unfoldable pub claim_due_batch : ℕ → String → ℕ → ℕ → Ledger → Ledger × List OutboundEvent
claim_due_batch now owner limit lease_seconds l =
    let ids = select_due now limit l.events in
    let (l', n) = update (has_id ids) (claim_row owner (now + lease_seconds * 1000)) l in
    (l', sort runs_first (filter (has_id ids) l'.events))
