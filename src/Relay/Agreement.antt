-- ===== src/Relay/Agreement.antt =====
-- The ledger and the messages tell the same story, src/workers/outbound-relay.worker.ts.
pub mod Delivered
use wh_api_unified_service.Prelude.{
  ◌<◌, ◌==◌, Bool, Bool-cases, In, List, Option, Option-cases, String, [], arith, false, filter,
  inl, inr, length, ltb→lt, none, refl, some, subst, sym, true, ℕ, ◌∙◌, ◌∷◌, ◌≡◌, ◌⊎◌,
}
use wh_api_unified_service.Backoff.{park_for}
use wh_api_unified_service.Channels.{find_send_context}
use wh_api_unified_service.Graph.{GraphApiError, is_ambiguous_failure, map_graph_error}
use wh_api_unified_service.Messages.{
  Message, MessageStatus, message_failed, message_sent, record_delivery,
}
use wh_api_unified_service.Outbound.{
  Ledger, OutboundEvent, cancelled, dead_letter, find_event, sent, update,
}
use wh_api_unified_service.Outbound.Consistency.{kept}
use wh_api_unified_service.Outbound.Holding.{OnlyRow, only_held_unsent}
use wh_api_unified_service.Outbound.Pointwise.{
  AllPairs, KeepsKey, find_event-In, find_event-update_rows, find_event_unique,
}
use wh_api_unified_service.Outbound.Settle.{
  RateLimitOutcome, ambiguous_row, cancel, cancel_ambiguous, cancelled_row, dead_lettered,
  failed_row, first_of_rows, held_unsent, mark_failed, mark_rate_limited, not_applied, parked,
  parked_row,
}
use wh_api_unified_service.Relay.{World}
use wh_api_unified_service.Relay.Settling.{
  fail_event, failure_text, handle_refusal, is_upstream_rate_limited,
  outbound_rate_limit_max_wait_ms, park_event, rate_limit_wait, reject_credential, settle_as_failed,
  settle_message, settle_parked,
}

matched_row :
    (i : ℕ) (p : OutboundEvent → Bool) (es : List OutboundEvent)
    → OnlyRow i p
    → AllPairs es
    → 0 < length (filter p es)
    → (a : OutboundEvent) × (find_event i es ≡ some a) × (p a ≡ true)
matched_row i p [] only keys some_row = absurd (omega (arith, some_row))
matched_row i p (e ∷ es) only keys some_row = elim (Bool-cases (p e)) [
  | inl on ↦ (e, find_event_unique (e ∷ es) e i keys (inl refl) (only e on), on)
  | inr off ↦
      let (a, found, on) = matched_row i p es only keys.1 (rw off at some_row) in
      let (j, at) = find_event-In i es a found in
      (a, find_event_unique (e ∷ es) a i keys (inr j) at, on)
]

-- An UPDATE of one row that changed something changed the row with that id.
pub update_hit :
    (i : ℕ) (p : OutboundEvent → Bool) (f : OutboundEvent → OutboundEvent) (l : Ledger)
    → KeepsKey f
    → OnlyRow i p
    → AllPairs l.events
    → 0 < (update p f l).1
    → (a : OutboundEvent) × (find_event i (update p f l).0.events ≡ some (f a)) × (p a ≡ true)
unfolding update
update_hit i p f l keeps only keys hit =
    let (a, found, on) = matched_row i p l.events only keys hit in
    (a, find_event-update_rows p f keeps i l.events ∙ rw (found, on) refl, on)

-- A message that says so needs a row that says the same.
abbrev pub Fits : MessageStatus → OutboundEvent → Type 0
Fits message_sent r = r.status ≡ sent
Fits message_failed r = (r.status ≡ cancelled) ⊎ (r.status ≡ dead_letter)
Fits _ r = ⊥

-- The messages are as before, or those of this event were given a status that its row fits.
abbrev pub Told : ℕ → List Message → World → Type 0
Told id before m =
    (m.messages ≡ before)
    ⊎ ((now : ℕ) × (enterprise : ℕ) × (pid : Option String) × (status : MessageStatus) × (m.messages
          ≡ record_delivery now enterprise id pid status before)
        × (r : OutboundEvent) × (find_event id m.ledger.events ≡ some r)
        × Fits status r)

pub settle_message-Told :
    (now : ℕ) (enterprise : Option ℕ) (event : ℕ) (l : Ledger) (r : OutboundEvent) (w : World)
    → find_event event l.events ≡ some r
    → Fits message_failed r
    → Told event w.messages (settle_message now enterprise event (record w { ledger = l }))
settle_message-Told now none event l r w found fits = inl refl
settle_message-Told now (some enterprise) event l r w found fits =
    inr (now, enterprise, none, message_failed, refl, r, found, fits)

pub one_is_some : (n : ℕ) → (n == 1) ≡ true → 0 < n
one_is_some n h = ground arith

pub settle_as_failed-Told :
    (now : ℕ) (owner : String) (enterprise : Option ℕ) (event : ℕ) (reason : String)
    (ambiguous : Bool) (w : World)
    → AllPairs w.ledger.events
    → Told event w.messages (settle_as_failed now owner enterprise event reason ambiguous w)
unfolding settle_as_failed cancel cancel_ambiguous
settle_as_failed-Told now owner enterprise event reason true w keys =
    elim (Bool-cases (cancel_ambiguous now event owner reason w.ledger).1) [
      | inr off ↦ rw off (inl refl)
      | inl on ↦
          let (a, found, was) =
            update_hit event (held_unsent event owner) (ambiguous_row now reason) w.ledger
              (kept (λ e. refl) (λ e. refl) (λ e. refl)) (only_held_unsent event owner) keys
              (ltb→lt _ _ on) in
          rw on (settle_message-Told now enterprise event _ _ w found (inl refl))
    ]
settle_as_failed-Told now owner enterprise event reason false w keys =
    elim (Bool-cases (cancel now event owner reason w.ledger).1) [
      | inr off ↦ rw off (inl refl)
      | inl on ↦
          let (a, found, was) =
            update_hit event (held_unsent event owner) (cancelled_row now reason) w.ledger
              (kept (λ e. refl) (λ e. refl) (λ e. refl)) (only_held_unsent event owner) keys
              (one_is_some _ on) in
          rw on (settle_message-Told now enterprise event _ _ w found (inl refl))
    ]

pub fail_event-Told :
    (now : ℕ) (owner : String) (e : OutboundEvent) (error : String) (retry : Option ℕ) (w : World)
    → AllPairs w.ledger.events
    → Told e.id w.messages (fail_event now owner e error retry w)
unfolding fail_event mark_failed
fail_event-Told now owner e error (some at) w keys = ground arith
fail_event-Told now owner e error none w keys =
    elim (Bool-cases (mark_failed now e.id owner error none w.ledger).1) [
      | inr off ↦ rw off (inl refl)
      | inl on ↦
          let (a, found, was) =
            update_hit e.id (held_unsent e.id owner) (failed_row now error none) w.ledger
              (kept (λ x. refl) (λ x. refl) (λ x. refl)) (only_held_unsent e.id owner) keys
              (one_is_some _ on) in
          rw on (settle_message-Told now e.enterprise_id e.id _ _ w found (inr refl))
    ]

first_of_rows-In :
    (p : OutboundEvent → Bool) (es : List OutboundEvent) (a : OutboundEvent)
    → first_of_rows p es ≡ some a
    → In a es × (p a ≡ true)
first_of_rows-In p [] a h = cc
first_of_rows-In p (e ∷ es) a h = elim (Bool-cases (p e)) [
  | inl on ↦ let same : a ≡ e = ground arith in (inl same, subst (λ x. p x ≡ true) (sym same) on)
  | inr off ↦ let (i, on) = first_of_rows-In p es a (ground arith) in (inr i, on)
]

-- When `markRateLimited` says that a row is dead, its row is.
dead_lettered_row :
    (now id retry_at wait : ℕ) (owner error : String) (l : Ledger)
    → AllPairs l.events
    → (mark_rate_limited now id owner retry_at error wait l).1 ≡ dead_lettered
    → (r : OutboundEvent) × (find_event id
          (mark_rate_limited now id owner retry_at error wait l).0.events
        ≡ some r)
      × (r.status ≡ dead_letter)
unfolding mark_rate_limited update
dead_lettered_row now id retry_at wait owner error l keys dead =
    let park = parked_row now retry_at error wait in
    elim (Option-cases (first_of_rows (held_unsent id owner) l.events)) [
      | inl nobody ↦ ground arith
      | inr (a, first) ↦
          let (i, on) = first_of_rows-In (held_unsent id owner) l.events a first in
          let found = find_event_unique l.events a id keys i (only_held_unsent id owner a on) in
          (
            park a,
            find_event-update_rows (held_unsent id owner) park
                  (kept (λ x. refl) (λ x. refl) (λ x. refl)) id l.events
                ∙ rw (found, on) refl,
            ground arith,
          )
    ]

pub settle_parked-Told :
    (now : ℕ) (e : OutboundEvent) (outcome : RateLimitOutcome) (l : Ledger) (w : World)
    → (outcome ≡ dead_lettered
        → (r : OutboundEvent) × (find_event e.id l.events ≡ some r) × (r.status ≡ dead_letter))
    → Told e.id w.messages (settle_parked now e outcome (record w { ledger = l }))
settle_parked-Told now e parked l w dead = inl refl
settle_parked-Told now e not_applied l w dead = inl refl
settle_parked-Told now e dead_lettered l w dead =
    let (r, found, is) = dead refl in
    settle_message-Told now e.enterprise_id e.id l r w found (inr is)

park_event-Told :
    (now draw : ℕ) (owner : String) (e : OutboundEvent) (error : GraphApiError) (w : World)
    → AllPairs w.ledger.events
    → Told e.id w.messages (park_event now draw owner e error w)
unfolding park_event
park_event-Told now draw owner e error w keys = settle_parked-Told now e _ _ w (
    dead_lettered_row now e.id (park_for draw now (rate_limit_wait error))
      outbound_rate_limit_max_wait_ms owner (failure_text error) w.ledger keys)

pub handle_refusal-Told :
    (now draw : ℕ) (owner : String) (e : OutboundEvent) (error : GraphApiError) (w : World)
    → AllPairs w.ledger.events
    → Told e.id w.messages (handle_refusal now draw owner e error w)
unfolding handle_refusal
handle_refusal-Told now draw owner e error w keys = elim (Bool-cases (is_ambiguous_failure error)) [
  | inl unsure ↦ rw unsure (settle_as_failed-Told now owner e.enterprise_id e.id _ true w keys)
  | inr sure ↦ rw sure (elim (Bool-cases (map_graph_error error).retryable) [
    | inr final ↦ rw final (fail_event-Told now owner e (failure_text error) none w keys)
    | inl again ↦
        rw again (elim (Bool-cases (is_upstream_rate_limited (map_graph_error error).code)) [
          | inl limited ↦ rw limited (park_event-Told now draw owner e error w keys)
          | inr free ↦ rw free (fail_event-Told now owner e (failure_text error) _ w keys)
        ])
  ])
]

pub reject_credential-Told :
    (now : ℕ) (owner : String) (enterprise channel : ℕ) (e : OutboundEvent) (w : World)
    → AllPairs w.ledger.events
    → Told e.id w.messages (reject_credential now owner enterprise channel e w)
unfolding reject_credential
reject_credential-Told now owner enterprise channel e w keys =
    elim (Option-cases (find_send_context enterprise channel w.channels)) [
      | inl gone ↦ rw gone (settle_as_failed-Told now owner (some enterprise) e.id _ false w keys)
      | inr (c, found) ↦
          rw found (settle_as_failed-Told now owner (some enterprise) e.id _ false _ keys)
    ]
