-- ===== src/Outbound/CrashLoop.antt =====
-- A row whose worker dies every time, src/database/repositories/outbound-event.repository.ts.
use wh_api_unified_service.Prelude.{
  ◌*◌, ◌+◌, ==_refl, String, [], ap, arith, map, refl, sort-single, subst, suc, take, true, zero, ℕ,
  ◌∙◌, ◌∷◌, ◌≡◌,
}
use wh_api_unified_service.Outbound.{Ledger, OutboundEvent, update, update_rows}
use wh_api_unified_service.Outbound.Queue.{
  claim_due_batch, claim_row, comes_first, is_due, select_due,
}
use wh_api_unified_service.Outbound.Sweep.{
  is_reclaimable, reclaim_expired_leases, reclaimed_row, reclaims,
}

-- A worker claims, and dies; the reaper meets all rows and finds the leases lapsed.
abbrev pub crash : String → ℕ → Ledger → Ledger
crash owner now l =
    (reclaim_expired_leases (now + 200000) (map OutboundEvent.id l.events) 100
      (claim_due_batch now owner 1 120 l).0).0

-- One crash after another, two hundred seconds apart.
abbrev pub crashes : String → ℕ → ℕ → Ledger → Ledger
crashes owner now zero l = l
crashes owner now (suc n) l = crashes owner (now + 200000) n (crash owner now l)

abbrev pub single : OutboundEvent → ℕ → Ledger
single e i = record { events = e ∷ []; next_id = i }

abbrev crashed_row : String → ℕ → OutboundEvent → OutboundEvent
crashed_row owner now e = reclaimed_row (claim_row owner (now + 120000) e)

select_single :
    (now : ℕ) (e : OutboundEvent) → is_due now e ≡ true → select_due now 1 (e ∷ []) ≡ e.id ∷ []
unfolding select_due
select_single now e due = rw (due, sort-single comes_first e) refl

claim_single :
    (owner : String) (now i : ℕ) (e : OutboundEvent)
    → is_due now e ≡ true
    → (claim_due_batch now owner 1 120 (single e i)).0 ≡ single (claim_row owner (now + 120000) e) i
unfolding claim_due_batch update update_rows
claim_single owner now i e due = rw (select_single now e due, ==_refl e.id) refl

reclaim_single :
    (now i : ℕ) (r : OutboundEvent)
    → is_reclaimable now r ≡ true
    → (reclaim_expired_leases now (r.id ∷ []) 100 (single r i)).0 ≡ single (reclaimed_row r) i
unfolding reclaim_expired_leases update update_rows
reclaim_single now i r lapsed =
    let hit : reclaims now (take 100 (r.id ∷ [])) r ≡ true = ground (arith, lapsed, ==_refl r.id) in
    rw hit refl

one_crash :
    (owner : String) (now i : ℕ) (e : OutboundEvent)
    → is_due now e ≡ true
    → crash owner now (single e i) ≡ single (crashed_row owner now e) i
unfolding reclaim_expired_leases update
one_crash owner now i e due =
    rw (claim_single owner now i e due)
      (reclaim_single (now + 200000) i (claim_row owner (now + 120000) e) (ground arith))

still_due :
    (owner : String) (now : ℕ) (e : OutboundEvent)
    → is_due now e ≡ true
    → is_due (now + 200000) (crashed_row owner now e) ≡ true
still_due owner now e due = ground arith

-- An outbound row whose worker dies each time is handed out again without end: after any number of
-- crashes the row is still there and due, has had that many more attempts whatever its budget, and was
-- never made a dead letter.
pub crash_loop_never_ends :
    (owner : String) (n now i : ℕ) (e : OutboundEvent)
    → is_due now e ≡ true
    → (e' : OutboundEvent) × (crashes owner now n (single e i) ≡ single e' i)
      × (is_due (now + n * 200000) e' ≡ true)
      × (e'.attempt_count ≡ e.attempt_count + n)
      × (e'.max_attempts ≡ e.max_attempts)
      × (e'.dead_lettered_at ≡ e.dead_lettered_at)
crash_loop_never_ends owner zero now i e due = (e, refl, ground arith, omega arith, refl, refl)
crash_loop_never_ends owner (suc n) now i e due =
    let (e', runs, due', attempts, budget, dead) =
      crash_loop_never_ends owner n (now + 200000) i (crashed_row owner now e)
        (still_due owner now e due) in
    (
      e',
      ap (crashes owner (now + 200000) n) (one_crash owner now i e due) ∙ runs,
      subst (λ t. is_due t e' ≡ true) (omega arith) due',
      omega (arith, attempts),
      budget,
      dead,
    )
