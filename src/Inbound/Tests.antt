-- ===== src/Inbound/Tests.antt =====
-- The theorem on the inbound ledger at a concrete run.
use wh_api_unified_service.Prelude.{All, [], insert_sorted, none, some, sort, str_eq, ◌∷◌, ◌≡◌, ◌≤◌}
use wh_api_unified_service.Inbound.{
  InboundEventInput, InboundLedger, SourceKind, claim_batch, comment_received,
  insert_ignoring_duplicate, reclaim_inbound, select_inbound, update_inbound,
}
use wh_api_unified_service.Inbound.Budget.{empty_inbound, inserted, lapsed, taken}
use wh_api_unified_service.Inbound.HandOuts.{
  HandOuts, and_then, attempts_are_bounded, handed_out, not_yet,
}
use wh_api_unified_service.Outbound.{instagram}

abbrev arrived : InboundEventInput
arrived = record {
  enterprise_id = some 7;
  channel_id = some 3;
  source_kind = SourceKind.channel;
  source_id = none;
  platform = instagram;
  event_type = comment_received;
  platform_event_id = some "m1";
  dedup_key = "m1";
  correlation_id = none;
  payload = "{}";
  received_at = none;
  priority = none;
}

abbrev claimed_once : InboundLedger
claimed_once =
    (claim_batch 200 "w1" 10 60 (insert_ignoring_duplicate 100 arrived empty_inbound).0).0

-- Its first worker crashed: the lease ran out, and another worker takes it.
abbrev claimed_twice : InboundLedger
claimed_twice = (claim_batch 90000 "w2" 10 60 (reclaim_inbound 80000 (1 ∷ []) 5 claimed_once).0).0

handed_twice : HandOuts 1 2 claimed_twice
unfolding claim_batch select_inbound insert_ignoring_duplicate update_inbound reclaim_inbound
    handed_out sort insert_sorted str_eq
handed_twice =
    and_then
      (and_then (and_then (and_then not_yet (inserted 100 arrived)) (taken 200 10 60 "w1"))
        (lapsed 80000 5 (1 ∷ [])))
      (taken 90000 10 60 "w2")

attempts_are_bounded_example :
    (2 ≤ 3) × All (λ e. e.id ≡ 1 → e.attempt_count ≡ 2) claimed_twice.events
attempts_are_bounded_example = attempts_are_bounded handed_twice
