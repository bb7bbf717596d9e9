-- ===== src/Outbound/Holding.antt =====
-- What a settling statement does to a table, src/database/repositories/outbound-event.repository.ts.
use wh_api_unified_service.Prelude.{
  ◌==◌, ==→eq, All, All-In, Bool, Bool-cases, List, Option, String, [], ap, arith, false, filter,
  if◌then◌else◌, inl, inr, length, none, refl, some, str_eq_refl, subst, sym, true, ℕ, ◌∙◌, ◌∷◌,
  ◌≡◌,
}
use wh_api_unified_service.Outbound.{
  Ledger, OutboundEvent, find_event, sending, update, update_rows,
}
use wh_api_unified_service.Outbound.Consistency.{IsConsistent, kept}
use wh_api_unified_service.Outbound.Pointwise.{
  AllPairs, KeepsKey, MayCoexist, find_event-In, find_event-update_rows,
}
use wh_api_unified_service.Outbound.Rows.{IsSound}
use wh_api_unified_service.Outbound.Settle.{
  ambiguous_row, cancel, cancel_ambiguous, cancelled_row, dead_lettered, failed_row, first_of_rows,
  held, held_unsent, mark_failed, mark_rate_limited, mark_sent, may_wait, parked, parked_row,
  sent_row,
}

-- No row matches: nothing changes and the count is 0.
pub update_nothing :
    (p : OutboundEvent → Bool) (f : OutboundEvent → OutboundEvent) (es : List OutboundEvent)
    → All (λ e. p e ≡ false) es
    → (update_rows p f es ≡ es) × (length (filter p es) ≡ 0)
unfolding update_rows
update_nothing p f [] h = (refl, refl)
update_nothing p f (e ∷ es) h =
    let (same, count) = update_nothing p f es h.1 in (rw (h.0, same) refl, rw h.0 count)

pub update_on_nothing :
    (p : OutboundEvent → Bool) (f : OutboundEvent → OutboundEvent) (l : Ledger)
    → All (λ e. p e ≡ false) l.events
    → update p f l ≡ (l, 0)
unfolding update
update_on_nothing p f l h =
    let (same, count) = update_nothing p f l.events h in rw (same, count) refl

pub first_of_none :
    (p : OutboundEvent → Bool) (es : List OutboundEvent)
    → All (λ e. p e ≡ false) es
    → first_of_rows p es ≡ none
first_of_none p [] h = refl
first_of_none p (e ∷ es) h = rw h.0 (first_of_none p es h.1)

-- A test that only rows with this id pass.
abbrev pub OnlyRow : ℕ → (OutboundEvent → Bool) → Type 0
OnlyRow i p = (a : OutboundEvent) → p a ≡ true → a.id ≡ i

others_unmatched :
    (i : ℕ) (p : OutboundEvent → Bool) (e : OutboundEvent) (es : List OutboundEvent)
    → OnlyRow i p
    → e.id ≡ i
    → All (MayCoexist e) es
    → All (λ a. p a ≡ false) es
others_unmatched i p e [] only at h = tt
others_unmatched i p e (a ∷ es) only at h = (
  elim (Bool-cases (p a)) [ inl on ↦ absurd (h.0.0 (at ∙ sym (only a on))) | inr off ↦ off ],
  others_unmatched i p e es only at h.1,
)

one_row :
    (i : ℕ) (p : OutboundEvent → Bool) (e : OutboundEvent) (es : List OutboundEvent)
    → OnlyRow i p
    → AllPairs es
    → find_event i es ≡ some e
    → p e ≡ true
    → (length (filter p es) ≡ 1) × (first_of_rows p es ≡ some e)
unfolding find_event
one_row i p e [] only keys found on = cc
one_row i p e (x ∷ xs) only keys found on = elim (Bool-cases (x.id == i)) [
  | inl at ↦
      let same : x ≡ e = ground arith in
      let hit : p x ≡ true = subst (λ y. p y ≡ true) (sym same) on in
      let count =
        (update_nothing p (λ a. a) xs (others_unmatched i p x xs only (==→eq _ _ at) keys.0)).1 in
      rw hit (rw count refl, ap some same)
  | inr away ↦
      let (count, first) = one_row i p e xs only keys.1 (ground arith) on in
      let miss : p x ≡ false = elim (Bool-cases (p x)) [
        | inl hit ↦ let at = only x hit in ground arith
        | inr off ↦ off
      ] in
      rw miss (count, first)
]

update_one :
    (i : ℕ) (p : OutboundEvent → Bool) (f : OutboundEvent → OutboundEvent) (e : OutboundEvent)
    (l : Ledger)
    → KeepsKey f
    → OnlyRow i p
    → AllPairs l.events
    → find_event i l.events ≡ some e
    → p e ≡ true
    → ((update p f l).1 ≡ 1) × (find_event i (update p f l).0.events ≡ some (f e))
unfolding update
update_one i p f e l keeps only keys found on = (
  (one_row i p e l.events only keys found on).0,
  find_event-update_rows p f keeps i l.events ∙ rw (found, on) refl,
)

pub only_held : (i : ℕ) (owner : String) → OnlyRow i (held i owner)
only_held i owner a h = ground arith

pub only_held_unsent : (i : ℕ) (owner : String) → OnlyRow i (held_unsent i owner)
only_held_unsent i owner a h = ground arith

held_by_owner :
    (i : ℕ) (owner : String) (e : OutboundEvent)
    → e.id ≡ i
    → IsSound e
    → e.lease_owner ≡ some owner
    → (held i owner e ≡ true) × (held_unsent i owner e ≡ true) × (e.status ≡ sending)
held_by_owner i owner e at h mine = ground (arith, str_eq_refl owner)

-- What each of the five statements of the lease's holder makes of its row.
pub holder_settles_row :
    (now i : ℕ) (owner : String) (l : Ledger) (e : OutboundEvent)
    → IsConsistent l
    → find_event i l.events ≡ some e
    → e.lease_owner ≡ some owner
    → (pid : Option String) (error : String) (retry : Option ℕ) (retry_at wait : ℕ)
    → (((mark_sent now i owner pid l).1 ≡ true)
        × (find_event i (mark_sent now i owner pid l).0.events ≡ some (sent_row now pid e)))
      × (((mark_failed now i owner error retry l).1 ≡ true)
          × (find_event i (mark_failed now i owner error retry l).0.events
              ≡ some (failed_row now error retry e)))
      × (((mark_rate_limited now i owner retry_at error wait l).1
            ≡ (if may_wait now wait e then parked else dead_lettered))
          × (find_event i (mark_rate_limited now i owner retry_at error wait l).0.events
              ≡ some (parked_row now retry_at error wait e)))
      × (((cancel now i owner error l).1 ≡ true)
          × (find_event i (cancel now i owner error l).0.events ≡ some (cancelled_row now error e)))
      × (((cancel_ambiguous now i owner error l).1 ≡ true)
          × (find_event i (cancel_ambiguous now i owner error l).0.events
              ≡ some (ambiguous_row now error e)))
unfolding mark_sent mark_failed mark_rate_limited cancel cancel_ambiguous
holder_settles_row now i owner l e h found mine pid error retry retry_at wait =
    let (there, at) = find_event-In i l.events e found in
    let (on, unsent, flying) =
      held_by_owner i owner e at (All-In IsSound l.events e h.rows there) mine in
    let one =
      update_one i (held i owner) (sent_row now pid) e l (kept (λ a. refl) (λ a. refl) (λ a. refl))
        (only_held i owner) h.keys found on in
    let settles = λ (f : OutboundEvent → OutboundEvent) (keeps : KeepsKey f).
      update_one i (held_unsent i owner) f e l keeps (only_held_unsent i owner) h.keys found
        unsent in
    let failing = settles (failed_row now error retry) (kept (λ a. refl) (λ a. refl) (λ a. refl)) in
    let parking =
      settles (parked_row now retry_at error wait) (kept (λ a. refl) (λ a. refl) (λ a. refl)) in
    let dropping = settles (cancelled_row now error) (kept (λ a. refl) (λ a. refl) (λ a. refl)) in
    let doubting = settles (ambiguous_row now error) (kept (λ a. refl) (λ a. refl) (λ a. refl)) in
    let first =
      (one_row i (held_unsent i owner) e l.events (only_held_unsent i owner) h.keys found
        unsent).1 in
    (
      (rw one.0 refl, one.1),
      (rw failing.0 refl, failing.1),
      (rw first (ground arith), parking.1),
      (rw dropping.0 refl, dropping.1),
      (rw doubting.0 refl, doubting.1),
    )
