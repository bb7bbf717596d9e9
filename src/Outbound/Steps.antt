-- ===== src/Outbound/Steps.antt =====
-- The statements that anybody runs on the outbound ledger, as steps in any order: any worker, any
-- arguments, any time. Source: src/database/repositories/outbound-event.repository.ts.
use wh_api_unified_service.Prelude.{In, List, Option, String, [], ℕ, ◌≡◌}
use wh_api_unified_service.Outbound.{Ledger, OutboundEvent, ReadBackOutcome}
use wh_api_unified_service.Outbound.Queue.{EnqueueOutboundInput, claim_due_batch, enqueue}
use wh_api_unified_service.Outbound.Replay.{
  list_ambiguous_awaiting_read_back, mark_read_back_resolved, requeue_dead_lettered,
}
use wh_api_unified_service.Outbound.Settle.{
  cancel, cancel_ambiguous, mark_failed, mark_rate_limited, mark_sent,
}
use wh_api_unified_service.Outbound.Sweep.{delete_settled_before, reclaim_expired_leases}

-- The reconciler resolves only rows that the query for ambiguous sends returned.
abbrev pub WasListed : ℕ → Ledger → Type 0
WasListed id l =
    (now : ℕ) × (limit : ℕ) × (ms : ℕ) × (e : OutboundEvent) × (e.id ≡ id)
    × In e (list_ambiguous_awaiting_read_back now limit ms l)

pub data Step (l : Ledger) : Ledger → Type 0 where
  enqueued : (now : ℕ) (input : EnqueueOutboundInput) → Step l (enqueue now input l).0
  claimed :
      (now limit lease_seconds : ℕ) (owner : String)
      → Step l (claim_due_batch now owner limit lease_seconds l).0
  was_sent :
      (now id : ℕ) (owner : String) (platform_id : Option String)
      → Step l (mark_sent now id owner platform_id l).0
  had_failed :
      (now id : ℕ) (owner error : String) (next : Option ℕ)
      → Step l (mark_failed now id owner error next l).0
  was_limited :
      (now id retry_at wait : ℕ) (owner error : String)
      → Step l (mark_rate_limited now id owner retry_at error wait l).0
  was_cancelled : (now id : ℕ) (owner reason : String) → Step l (cancel now id owner reason l).0
  was_ambiguous :
      (now id : ℕ) (owner reason : String) → Step l (cancel_ambiguous now id owner reason l).0
  was_read_back :
      (id : ℕ) (outcome : ReadBackOutcome) (platform_id : Option String)
      → WasListed id l
      → Step l (mark_read_back_resolved id outcome platform_id l).0
  replayed :
      (now enterprise id max_replays : ℕ)
      → Step l (requeue_dead_lettered now enterprise id max_replays l).0
  reclaimed : (now limit : ℕ) (met : List ℕ) → Step l (reclaim_expired_leases now met limit l).0
  swept : (cutoff limit : ℕ) → Step l (delete_settled_before cutoff limit l).0

pub data Reach (l : Ledger) : Ledger → Type 0 where
  here : Reach l l
  next : {m n : Ledger} → Reach l m → Step m n → Reach l n

abbrev pub empty_ledger : Ledger
empty_ledger = record { events = []; next_id = 1 }
