-- ===== src/Outbound/Replay.antt =====
-- Reading ambiguous sends back and replaying dead letters,
-- src/database/repositories/outbound-event.repository.ts.
use mathlib.Core.List.{head?}
use wh_api_unified_service.Prelude.{
  ◌&&◌, ◌+◌, ◌==◌, Bool, List, Option, String, any, false, filter, if◌then◌else◌, is_none, leb, ltb,
  none, not, or_else, some, sort, str_eq, take, true, ℕ,
}
use wh_api_unified_service.Outbound.{
  Ledger, OutboundEvent, OutboundEventType, Platform, ReadBackOutcome, cancelled, comment_delete,
  comment_hide, comment_reply, dead_letter, instagram, landed, mention_reply, pending, sent,
  status_is, update,
}

-- `CommentReply` and `MentionReply`.
abbrev pub is_reply : OutboundEventType → Bool
is_reply comment_reply = true
is_reply mention_reply = true
is_reply _ = false

-- `CommentHide` and `CommentDelete`.
abbrev pub is_moderation : OutboundEventType → Bool
is_moderation comment_hide = true
is_moderation comment_delete = true
is_moderation _ = false

abbrev pub is_instagram : Platform → Bool
is_instagram instagram = true
is_instagram _ = false

-- `last_error_at < now() - settledBeforeMs`
abbrev pub settled_before : ℕ → ℕ → OutboundEvent → Bool
settled_before now settled_before_ms e = elim e.last_error_at [
  | none ↦ false
  | some at ↦ ltb (at + settled_before_ms) now
]

abbrev pub awaits_read_back : ℕ → ℕ → OutboundEvent → Bool
awaits_read_back now settled_before_ms e =
    status_is e.status cancelled
    && is_instagram e.platform
    && is_reply e.event_type
    && e.ambiguous
    && is_none e.read_back
    && not (is_none e.enterprise_id)
    && not (is_none e.channel_id)
    && settled_before now settled_before_ms e

-- `ORDER BY last_error_at`
abbrev pub by_last_error : OutboundEvent → OutboundEvent → Bool
by_last_error a b = leb (or_else a.last_error_at 0) (or_else b.last_error_at 0)

unfoldable pub list_ambiguous_awaiting_read_back : ℕ → ℕ → ℕ → Ledger → List OutboundEvent
list_ambiguous_awaiting_read_back now limit settled_before_ms l =
    take limit (sort by_last_error (filter (awaits_read_back now settled_before_ms) l.events))

abbrev pub is_landed : ReadBackOutcome → Bool
is_landed landed = true
is_landed _ = false

-- `COALESCE($5, platform_event_id)`
abbrev pub coalesce {ℓ} : {A : Type ℓ} → Option A → Option A → Option A
coalesce none old = old
coalesce (some a) old = some a

abbrev pub resolved_row : ReadBackOutcome → Option String → OutboundEvent → OutboundEvent
resolved_row outcome platform_event_id e = record e {
  read_back = some outcome;
  status = if is_landed outcome then sent else e.status;
  platform_event_id = coalesce platform_event_id e.platform_event_id;
}

abbrev pub unresolved : ℕ → OutboundEvent → Bool
unresolved id e = (e.id == id) && is_none e.read_back

unfoldable pub mark_read_back_resolved :
    ℕ → ReadBackOutcome → Option String → Ledger → Ledger × Bool
mark_read_back_resolved id outcome platform_event_id l =
    let (l', affected) = update (unresolved id) (resolved_row outcome platform_event_id) l in
    (l', ltb 0 affected)

abbrev pub is_text : Option String → String → Bool
is_text none s = false
is_text (some t) s = str_eq t s

abbrev pub is_number : Option ℕ → ℕ → Bool
is_number none n = false
is_number (some m) n = m == n

abbrev pub is_dead_moderation : ℕ → String → OutboundEvent → Bool
is_dead_moderation enterprise comment_id e =
    is_number e.enterprise_id enterprise
    && status_is e.status dead_letter
    && is_moderation e.event_type
    && is_text e.payload.comment_id comment_id

-- `ORDER BY id DESC LIMIT 1`
abbrev pub newest_first : OutboundEvent → OutboundEvent → Bool
newest_first a b = leb b.id a.id

unfoldable pub find_dead_moderation_event : ℕ → String → Ledger → Option OutboundEvent
find_dead_moderation_event enterprise comment_id l =
    head? (sort newest_first (filter (is_dead_moderation enterprise comment_id) l.events))

-- Which of these comments have such a row. The source returns a set.
unfoldable pub find_failed_moderation_comment_ids : ℕ → List String → Ledger → List String
find_failed_moderation_comment_ids enterprise comment_ids l =
    filter (λ c. any (is_dead_moderation enterprise c) l.events) comment_ids

abbrev pub requeued_row : ℕ → OutboundEvent → OutboundEvent
requeued_row now e = record e {
  status = pending;
  attempt_count = 0;
  next_attempt_at = some now;
  lease_owner = none;
  lease_expires_at = none;
  replays = e.replays + 1;
}

abbrev pub may_replay : ℕ → ℕ → ℕ → OutboundEvent → Bool
may_replay enterprise id max_replays e =
    (e.id == id)
    && is_number e.enterprise_id enterprise
    && status_is e.status dead_letter
    && ltb e.replays max_replays

unfoldable pub requeue_dead_lettered : ℕ → ℕ → ℕ → ℕ → Ledger → Ledger × Bool
requeue_dead_lettered now enterprise id max_replays l =
    let (l', affected) = update (may_replay enterprise id max_replays) (requeued_row now) l in
    (l', ltb 0 affected)
