-- ===== src/Inbound.antt =====
-- The inbound ledger, src/database/repositories/inbound-event.repository.ts, with the statuses and
-- types of src/shared/enums/ledger.enum.ts. Statements, times and NULLs are as for the outbound ledger.
mod Tests
pub mod Budget
pub mod Claims
pub mod HandOuts
use wh_api_unified_service.Prelude.{
  ◌&&◌, ◌*◌, ◌+◌, ◌==◌, Bool, List, Option, String, [], any, false, filter, if◌then◌else◌, leb,
  length, ltb, map, none, not, or_else, some, sort, str_eq, take, true, ◌||◌, ℕ, ◌∷◌,
}
use wh_api_unified_service.Outbound.{Platform}
use wh_api_unified_service.Outbound.Settle.{error_text}

pub data InboundEventStatus : Type 0 where
  inbound_pending inbound_leased processing processed inbound_failed : InboundEventStatus
  inbound_dead_letter skipped : InboundEventStatus

pub data InboundEventType : Type 0 where
  comment_received direct_message_received mention_received post_update : InboundEventType
  story_reply permission_change : InboundEventType

pub data SourceKind : Type 0 where
  channel provider_connection system kafka_topic queue : SourceKind

-- A row of `inbound_events`; the payload is the text of its JSON.
pub record InboundEvent : Type 0 where
  pub id : ℕ
  pub enterprise_id : Option ℕ
  pub channel_id : Option ℕ
  pub source_kind : SourceKind
  pub source_id : Option String
  pub platform : Platform
  pub event_type : InboundEventType
  pub platform_event_id : Option String
  pub dedup_key : String
  pub correlation_id : Option String
  pub payload : String
  pub priority : ℕ
  pub status : InboundEventStatus
  pub next_attempt_at : Option ℕ
  pub received_at : Option ℕ
  pub created_at : ℕ
  pub attempt_count : ℕ
  pub max_attempts : ℕ
  pub lease_owner : Option String
  pub lease_expires_at : Option ℕ
  pub processing_started_at : Option ℕ
  pub processed_at : Option ℕ
  pub last_error : Option String
  pub last_error_at : Option ℕ
  pub dead_lettered_at : Option ℕ

pub record InboundEventInput : Type 0 where
  pub enterprise_id : Option ℕ
  pub channel_id : Option ℕ
  pub source_kind : SourceKind
  pub source_id : Option String
  pub platform : Platform
  pub event_type : InboundEventType
  pub platform_event_id : Option String
  pub dedup_key : String
  pub correlation_id : Option String
  pub payload : String
  pub received_at : Option ℕ
  pub priority : Option ℕ

pub record InboundLedger : Type 0 where
  pub events : List InboundEvent
  pub next_id : ℕ

abbrev pub update_events :
    (InboundEvent → Bool) → (InboundEvent → InboundEvent) → List InboundEvent → List InboundEvent
update_events p f [] = []
update_events p f (e ∷ es) = (if p e then f e else e) ∷ update_events p f es

-- `UPDATE … SET f WHERE p`, and the number of rows that it changed.
unfoldable pub update_inbound :
    (InboundEvent → Bool) → (InboundEvent → InboundEvent) → InboundLedger → InboundLedger × ℕ
update_inbound p f l =
    (record l { events = update_events p f l.events }, length (filter p l.events))

-- The default of the column `max_attempts`.
abbrev pub default_max_attempts : ℕ
default_max_attempts = 3

abbrev pub received_event : ℕ → ℕ → InboundEventInput → InboundEvent
received_event now id input = record {
  id = id;
  enterprise_id = input.enterprise_id;
  channel_id = input.channel_id;
  source_kind = input.source_kind;
  source_id = input.source_id;
  platform = input.platform;
  event_type = input.event_type;
  platform_event_id = input.platform_event_id;
  dedup_key = input.dedup_key;
  correlation_id = input.correlation_id;
  payload = input.payload;
  priority = or_else input.priority 30;
  status = inbound_pending;
  next_attempt_at = some now;
  received_at = input.received_at;
  created_at = now;
  attempt_count = 0;
  max_attempts = default_max_attempts;
  lease_owner = none;
  lease_expires_at = none;
  processing_started_at = none;
  processed_at = none;
  last_error = none;
  last_error_at = none;
  dead_lettered_at = none;
}

-- `(COALESCE(enterprise_id, 0), dedup_key)`
abbrev pub same_inbound_key : Option ℕ → String → InboundEvent → Bool
same_inbound_key enterprise key e =
    (or_else e.enterprise_id 0 == or_else enterprise 0) && str_eq e.dedup_key key

pub record Inserted : Type 0 where
  pub id : Option ℕ
  pub duplicate : Bool

unfoldable pub insert_ignoring_duplicate :
    ℕ → InboundEventInput → InboundLedger → InboundLedger × Inserted
insert_ignoring_duplicate now input l =
    if any (same_inbound_key input.enterprise_id input.dedup_key) l.events
    then (l, record { id = none; duplicate = true })
    else (
      record l { events = received_event now l.next_id input ∷ l.events; next_id = l.next_id + 1 },
      record { id = some l.next_id; duplicate = false },
    )

-- `status IN ('pending','failed')`
abbrev pub is_open : InboundEventStatus → Bool
is_open inbound_pending = true
is_open inbound_failed = true
is_open _ = false

abbrev pub inbound_due_at : InboundEvent → ℕ
inbound_due_at e = or_else e.next_attempt_at e.created_at

abbrev pub is_inbound_due : ℕ → InboundEvent → Bool
is_inbound_due now e = is_open e.status && leb (inbound_due_at e) now

-- `ORDER BY priority, COALESCE(next_attempt_at, created_at), id`
abbrev pub inbound_comes_first : InboundEvent → InboundEvent → Bool
inbound_comes_first a b =
    ltb a.priority b.priority
    || ((a.priority == b.priority)
        && (ltb (inbound_due_at a) (inbound_due_at b)
            || ((inbound_due_at a == inbound_due_at b) && leb a.id b.id)))

abbrev pub inbound_runs_first : InboundEvent → InboundEvent → Bool
inbound_runs_first a b = ltb a.priority b.priority || ((a.priority == b.priority) && leb a.id b.id)

abbrev pub in_ids : List ℕ → InboundEvent → Bool
in_ids ids e = any (λ i. i == e.id) ids

abbrev pub taken_row : ℕ → String → ℕ → InboundEvent → InboundEvent
taken_row now owner expires e = record e {
  status = processing;
  lease_owner = some owner;
  lease_expires_at = some expires;
  attempt_count = e.attempt_count + 1;
  processing_started_at = some (or_else e.processing_started_at now);
}

unfoldable pub select_inbound : ℕ → ℕ → List InboundEvent → List ℕ
select_inbound now limit es =
    map InboundEvent.id (take limit (sort inbound_comes_first (filter (is_inbound_due now) es)))

unfoldable pub claim_batch : ℕ → String → ℕ → ℕ → InboundLedger → InboundLedger × List InboundEvent
claim_batch now owner limit lease_seconds l =
    let ids = select_inbound now limit l.events in
    let (l', n) =
      update_inbound (in_ids ids) (taken_row now owner (now + lease_seconds * 1000)) l in
    (l', sort inbound_runs_first (filter (in_ids ids) l'.events))

-- `lease_owner = $3`
abbrev pub inbound_owned_by : String → InboundEvent → Bool
inbound_owned_by owner e = elim e.lease_owner [ none ↦ false | some o ↦ str_eq o owner ]

abbrev pub inbound_held : ℕ → String → InboundEvent → Bool
inbound_held id owner e = (e.id == id) && inbound_owned_by owner e

abbrev pub processed_row : ℕ → InboundEvent → InboundEvent
processed_row now e = record e {
  status = processed;
  processed_at = some now;
  lease_owner = none;
  lease_expires_at = none;
}

unfoldable pub mark_processed : ℕ → ℕ → String → InboundLedger → InboundLedger × Bool
mark_processed now id owner l =
    let (l', affected) = update_inbound (inbound_held id owner) (processed_row now) l in
    (l', affected == 1)

abbrev pub skipped_row : ℕ → String → InboundEvent → InboundEvent
skipped_row now reason e = record e {
  status = skipped;
  processed_at = some now;
  last_error = some reason;
  lease_owner = none;
  lease_expires_at = none;
}

unfoldable pub mark_skipped : ℕ → ℕ → String → String → InboundLedger → InboundLedger × Bool
mark_skipped now id owner reason l =
    let (l', affected) = update_inbound (inbound_held id owner) (skipped_row now reason) l in
    (l', affected == 1)

-- `attempt_count >= max_attempts`
abbrev pub is_exhausted : InboundEvent → Bool
is_exhausted e = leb e.max_attempts e.attempt_count

abbrev pub is_processed : InboundEventStatus → Bool
is_processed processed = true
is_processed _ = false

abbrev pub failed_inbound_row : ℕ → String → ℕ → InboundEvent → InboundEvent
failed_inbound_row now error next_attempt_at e = record e {
  status = if is_exhausted e then inbound_dead_letter else inbound_failed;
  dead_lettered_at = if is_exhausted e then some now else none;
  last_error = some (error_text error);
  last_error_at = some now;
  next_attempt_at = some next_attempt_at;
  lease_owner = none;
  lease_expires_at = none;
}

abbrev pub held_unprocessed : ℕ → String → InboundEvent → Bool
held_unprocessed id owner e = inbound_held id owner e && not (is_processed e.status)

unfoldable pub mark_inbound_failed :
    ℕ → ℕ → String → String → ℕ → InboundLedger → InboundLedger × Bool
mark_inbound_failed now id owner error next_attempt_at l =
    let (l', affected) =
      update_inbound (held_unprocessed id owner) (failed_inbound_row now error next_attempt_at) l in
    (l', affected == 1)

-- `status IN ('leased','processing') AND lease_expires_at < now()`
abbrev pub is_in_work : InboundEventStatus → Bool
is_in_work inbound_leased = true
is_in_work processing = true
is_in_work _ = false

abbrev pub is_lapsed : ℕ → InboundEvent → Bool
is_lapsed now e =
    is_in_work e.status && (elim e.lease_expires_at [ none ↦ false | some at ↦ ltb at now ])

abbrev pub lapsed_text : String
lapsed_text =
    "lease expired repeatedly without settling — the projection may be crashing the worker"

abbrev pub lapsed_row : ℕ → InboundEvent → InboundEvent
lapsed_row now e = record e {
  status = if is_exhausted e then inbound_dead_letter else inbound_pending;
  dead_lettered_at = if is_exhausted e then some now else none;
  last_error = if is_exhausted e then some lapsed_text else e.last_error;
  last_error_at = if is_exhausted e then some now else e.last_error_at;
  lease_owner = none;
  lease_expires_at = none;
}

-- The ids in the order in which the subquery meets them are an argument, as for the outbound ledger.
unfoldable pub reclaim_inbound : ℕ → List ℕ → ℕ → InboundLedger → InboundLedger × ℕ
reclaim_inbound now met limit l =
    update_inbound (λ e. is_lapsed now e && in_ids (take limit met) e) (lapsed_row now) l

-- `SETTLED_INBOUND_STATUSES`
abbrev pub is_settled_inbound : InboundEventStatus → Bool
is_settled_inbound processed = true
is_settled_inbound skipped = true
is_settled_inbound _ = false

abbrev pub is_old_inbound : ℕ → InboundEvent → Bool
is_old_inbound cutoff e = is_settled_inbound e.status && ltb e.created_at cutoff

unfoldable pub delete_settled_inbound : ℕ → ℕ → InboundLedger → InboundLedger × ℕ
delete_settled_inbound cutoff limit l =
    let ids = map InboundEvent.id (
      take limit
        (sort (λ a b. leb a.created_at b.created_at) (filter (is_old_inbound cutoff) l.events))) in
    (
      record l { events = filter (λ e. not (in_ids ids e)) l.events },
      length (filter (in_ids ids) l.events),
    )
