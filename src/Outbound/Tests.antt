-- ===== src/Outbound/Tests.antt =====
-- The theorems on the outbound ledger at concrete ledgers.
use wh_api_unified_service.Prelude.{
  All, In, String, [], ap, arith, false, false≢true, inl, inr, insert_sorted, none, refl, some,
  sort, str_eq, subst, sym, true, ℕ, ◌∷◌, ◌≡◌, ◌⊎◌,
}
use wh_api_unified_service.Outbound.{
  Ledger, OutboundEvent, Payload, comment_reply, find_event, instagram, update, update_rows,
}
use wh_api_unified_service.Outbound.Claiming.{claims_are_disjoint}
use wh_api_unified_service.Outbound.Consistency.{IsConsistent, Reach-IsConsistent}
use wh_api_unified_service.Outbound.CrashLoop.{crash_loop_never_ends, crashes, single}
use wh_api_unified_service.Outbound.Fencing.{
  IsDelivered, IsDropped, IsOutOfHand, IsParkedOrDead, IsTriedAgainOrDead, Leaves, holder_settles,
  without_lease_nothing_settles,
}
use wh_api_unified_service.Outbound.Leases.{in_flight_row_is_exclusive}
use wh_api_unified_service.Outbound.Queue.{
  EnqueueOutboundInput, claim_due_batch, claim_row, enqueue, has_id, is_due, new_event, same_key,
  select_due,
}
use wh_api_unified_service.Outbound.Replay.{requeue_dead_lettered}
use wh_api_unified_service.Outbound.Rows.{IsSound, claim_row-IsSound, new_event-IsSound}
use wh_api_unified_service.Outbound.Settle.{
  ambiguous_row, cancel, cancel_ambiguous, mark_failed, mark_rate_limited, mark_sent, not_applied,
  sent_row,
}
use wh_api_unified_service.Outbound.Steps.{
  empty_ledger, enqueued, here, next, replayed, swept, was_cancelled,
}
use wh_api_unified_service.Outbound.Sweep.{delete_settled_before}
use wh_api_unified_service.Outbound.Terminal.{
  GoneOr, IsLeftAlone, ambiguous_never_resent, sent_row_is_final,
}

abbrev pub reply_payload : Payload
reply_payload = record {
  comment_id = some "c1";
  media_id = none;
  message = some "hi";
  hidden = none;
  reply_to_platform_message_id = none;
}

abbrev reply_input : EnqueueOutboundInput
reply_input = record {
  enterprise_id = some 7;
  channel_id = some 3;
  platform = instagram;
  event_type = comment_reply;
  recipient_platform_id = none;
  dedup_key = "k1";
  payload = reply_payload;
  scheduled_at = none;
  priority = none;
}

-- Accepted at 100, and then claimed by w1 at 200 for two minutes.
abbrev due_row : OutboundEvent
due_row = new_event 100 1 reply_input

abbrev flying_row : OutboundEvent
flying_row = claim_row "w1" 120200 due_row

abbrev doubtful_row : OutboundEvent
doubtful_row = ambiguous_row 300 "timeout" flying_row

abbrev delivered_event : OutboundEvent
delivered_event = sent_row 300 (some "p1") flying_row

abbrev with_row : OutboundEvent → Ledger
with_row e = record { events = e ∷ []; next_id = 2 }

with_row-IsConsistent : (e : OutboundEvent) → IsSound e → e.id ≡ 1 → IsConsistent (with_row e)
with_row-IsConsistent e h at = record {
  rows = (h, tt);
  keys = (tt, tt);
  fresh = (omega (arith, at), tt);
}

with_row_found : (e : OutboundEvent) → e.id ≡ 1 → find_event 1 (with_row e).events ≡ some e
unfolding find_event
with_row_found e at = ground arith

due-IsConsistent : IsConsistent (with_row due_row)
due-IsConsistent = with_row-IsConsistent due_row (new_event-IsSound 100 1 reply_input) refl

flying-IsConsistent : IsConsistent (with_row flying_row)
flying-IsConsistent =
    with_row-IsConsistent flying_row
      (claim_row-IsSound 200 120200 "w1" due_row (new_event-IsSound 100 1 reply_input) refl) refl

doubtful-IsConsistent : IsConsistent (with_row doubtful_row)
doubtful-IsConsistent = with_row-IsConsistent doubtful_row (ground arith) refl

delivered-IsConsistent : IsConsistent (with_row delivered_event)
delivered-IsConsistent = with_row-IsConsistent delivered_event (ground arith) refl

ambiguous_never_resent_example :
    GoneOr 1 (requeue_dead_lettered 400 7 1 3 (with_row doubtful_row)).0 (IsLeftAlone 1)
ambiguous_never_resent_example =
    ambiguous_never_resent 1 doubtful_row doubtful-IsConsistent (with_row_found doubtful_row refl)
      refl (next here (replayed 400 7 1 3))

sent_row_is_final_example :
    (find_event 1 (delete_settled_before 50 10 (with_row delivered_event)).0.events ≡ none)
    ⊎ (find_event 1 (delete_settled_before 50 10 (with_row delivered_event)).0.events
        ≡ some delivered_event)
sent_row_is_final_example =
    sent_row_is_final 1 delivered_event delivered-IsConsistent (with_row_found delivered_event refl)
      refl (next here (swept 50 10))

Reach-IsConsistent_example : IsConsistent (enqueue 100 reply_input empty_ledger).0
Reach-IsConsistent_example = Reach-IsConsistent (next here (enqueued 100 reply_input))

in_flight_row_is_exclusive_example :
    (find_event 1 (cancel 300 1 "w2" "mine" (with_row flying_row)).0.events ≡ some flying_row)
    ⊎ (◌≡◌ {A = ℕ} 1 1 × ◌≡◌ {A = String} "w2" "w1")
in_flight_row_is_exclusive_example =
    in_flight_row_is_exclusive 1 120200 "w1" flying_row (was_cancelled 300 1 "w2" "mine")
      flying-IsConsistent (with_row_found flying_row refl) refl refl refl

-- The lease is w1's; w2 had it before.
w2_is_out : All (λ e. (e.id ≡ 1) → IsOutOfHand "w2" e) (with_row flying_row).events
unfolding str_eq
w2_is_out = (
  λ at. inr (λ same. false≢true (ap (λ o. elim o [ none ↦ false | some x ↦ str_eq x "w2" ]) same)),
  tt,
)

without_lease_nothing_settles_example :
    (mark_sent 300 1 "w2" none (with_row flying_row) ≡ (with_row flying_row, false))
    × (mark_failed 300 1 "w2" "x" none (with_row flying_row) ≡ (with_row flying_row, false))
    × (mark_rate_limited 300 1 "w2" 400 "x" 5 (with_row flying_row)
        ≡ (with_row flying_row, not_applied))
    × (cancel 300 1 "w2" "x" (with_row flying_row) ≡ (with_row flying_row, false))
    × (cancel_ambiguous 300 1 "w2" "x" (with_row flying_row) ≡ (with_row flying_row, false))
without_lease_nothing_settles_example =
    without_lease_nothing_settles 300 1 "w2" (with_row flying_row) flying-IsConsistent w2_is_out
      none "x" none 400 5

holder_settles_example :
    (((mark_sent 300 1 "w1" none (with_row flying_row)).1 ≡ true)
      × Leaves 1
          (mark_sent 300 1 "w1" none (with_row flying_row)).0
          (IsDelivered 300 none flying_row))
    × (((mark_failed 300 1 "w1" "x" (some 900) (with_row flying_row)).1 ≡ true)
        × Leaves 1
            (mark_failed 300 1 "w1" "x" (some 900) (with_row flying_row)).0
            (IsTriedAgainOrDead 300 (some 900) flying_row))
    × Leaves 1 (mark_rate_limited 300 1 "w1" 400 "x" 5 (with_row flying_row)).0 (
        IsParkedOrDead 300 400 5
          (mark_rate_limited 300 1 "w1" 400 "x" 5 (with_row flying_row)).1
          flying_row)
    × (((cancel 300 1 "w1" "x" (with_row flying_row)).1 ≡ true)
        × Leaves 1
            (cancel 300 1 "w1" "x" (with_row flying_row)).0
            (IsDropped flying_row.ambiguous flying_row))
    × (((cancel_ambiguous 300 1 "w1" "x" (with_row flying_row)).1 ≡ true)
        × Leaves 1
            (cancel_ambiguous 300 1 "w1" "x" (with_row flying_row)).0
            (IsDropped true flying_row))
holder_settles_example =
    holder_settles 300 1 "w1" (with_row flying_row) flying_row flying-IsConsistent
      (with_row_found flying_row refl) refl none "x" (some 900) 400 5

claim_of_one : (claim_due_batch 200 "w1" 10 120 (with_row due_row)).1 ≡ flying_row ∷ []
unfolding claim_due_batch select_due sort insert_sorted update update_rows
claim_of_one = refl

one_claimed : In flying_row (claim_due_batch 200 "w1" 10 120 (with_row due_row)).1
one_claimed = subst (λ rs. In flying_row rs) (sym claim_of_one) (inl refl)

empty-IsConsistent : IsConsistent empty_ledger
empty-IsConsistent = record { rows = tt; keys = tt; fresh = tt }

picked : has_id (select_due 200 10 (with_row due_row).events) due_row ≡ true
unfolding select_due sort insert_sorted
picked = refl

crash_loop_never_ends_example :
    (e' : OutboundEvent) × (crashes "w1" 200 9 (single due_row 2) ≡ single e' 2)
    × (is_due 1800200 e' ≡ true)
    × (e'.attempt_count ≡ 9)
    × (e'.max_attempts ≡ 5)
    × (e'.dead_lettered_at ≡ none)
crash_loop_never_ends_example = crash_loop_never_ends "w1" 9 200 2 due_row refl

abbrev second_row : OutboundEvent
second_row = new_event 100 2 (record reply_input { dedup_key = "k2" })

abbrev two_rows : Ledger
two_rows = record { events = due_row ∷ second_row ∷ []; next_id = 3 }

other_key : same_key due_row.enterprise_id due_row.dedup_key second_row ≡ false
unfolding str_eq
other_key = refl

two_rows-IsConsistent : IsConsistent two_rows
two_rows-IsConsistent = record {
  rows = (
    new_event-IsSound 100 1 reply_input,
    (new_event-IsSound 100 2 (record reply_input { dedup_key = "k2" }), tt),
  );
  keys = (((omega arith, other_key), tt), (tt, tt));
  fresh = (omega arith, (omega arith, tt));
}

first_claim :
    claim_due_batch 200 "w1" 1 120 two_rows
    ≡ (record { events = flying_row ∷ second_row ∷ []; next_id = 3 }, flying_row ∷ [])
unfolding claim_due_batch select_due sort insert_sorted update update_rows
first_claim = refl

abbrev second_flying : OutboundEvent
second_flying = claim_row "w2" 120200 second_row

second_claim :
    (claim_due_batch 200 "w2" 1 120
      (record { events = flying_row ∷ second_row ∷ []; next_id = 3 })).1
    ≡ second_flying ∷ []
unfolding claim_due_batch select_due sort insert_sorted update update_rows
second_claim = refl

claims_are_disjoint_example : ¬ (◌≡◌ {A = ℕ} 1 2)
claims_are_disjoint_example =
    claims_are_disjoint 200 1 120 200 1 120 "w1" "w2" two_rows flying_row second_flying
      two_rows-IsConsistent (subst (λ x. In flying_row x.1) (sym first_claim) (inl refl))
      (subst (λ x. In second_flying (claim_due_batch 200 "w2" 1 120 x.0).1) (sym first_claim)
        (subst (λ rs. In second_flying rs) (sym second_claim) (inl refl)))
