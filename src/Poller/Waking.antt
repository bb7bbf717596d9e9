-- ===== src/Poller/Waking.antt =====
-- What a notification does to the next poll, src/workers/base-poller.ts.
use wh_api_unified_service.Prelude.{
  ◌*◌, ◌+◌, ◌<◌, Option, [], ap, arith, false, false≢true, inl, inr, subst, suc, sym, true, zero, ℕ,
  ◌∙◌, ◌∷◌, ◌≡◌, ◌⊎◌,
}
use wh_api_unified_service.Poller.{
  BasePoller, Timeout, WorkerConfig, clear_timeout, finish_tick, wake,
}
use wh_api_unified_service.Poller.Loop.{
  Run, Run-Phase, clear_own, none_cleared, own_cleared, polling, schedule-eq, scheduled, stopped,
  timeout_at, waiting, wake-eq_busy, wake-eq_idle,
}

-- After a wake the next poll is set: while none is running, it is the only timeout, due when the
-- debounce is over; while one is running, whatever its result and whenever it ends, the next is due
-- at that very moment. (Of a worker that is not shut down.)
pub wake_is_served :
    {start : ℕ} {p : BasePoller} (now : ℕ)
    → Run start p
    → p.stopping ≡ false
    → ((p.running ≡ false)
        × ((wake now p).timeouts ≡ record { id = p.next_timeout; due = now + 50 } ∷ []))
      ⊎ ((p.running ≡ true)
          × ((c : WorkerConfig) (later : ℕ) (handled : Option ℕ)
              → (finish_tick c later handled (wake now p)).timeouts
                ≡ record { id = p.next_timeout; due = later } ∷ []))
unfolding finish_tick
wake_is_served {start} {p} now r live = elim (Run-Phase r) [
  | waiting t idle live' none_left alone mine ↦ inl (
    idle,
    ap BasePoller.timeouts (
        wake-eq_idle now p live idle
        ∙ schedule-eq now 50 (record p { wake_requested = true }) live
            (own_cleared t p alone mine)),
  )
  | polling busy live' one empty ↦ inr (
    busy,
    λ c later handled.
        ap (λ q. (finish_tick c later handled q).timeouts) (wake-eq_busy now p live busy)
        ∙ ap BasePoller.timeouts (schedule-eq later 0 _ live (none_cleared p empty))
        ∙ ap (λ d. record { id = p.next_timeout; due = d } ∷ []) (omega arith),
  )
  | stopped over empty last ↦ absurd (false≢true (sym live ∙ over))
]

-- Waiting, with no timeout but its own.
record IsIdle (p : BasePoller) : Type 0 where
  live : p.stopping ≡ false
  idle : p.running ≡ false
  none_left : p.polls ≡ 0
  cleared : clear_timeout p.timer p.timeouts ≡ []

woken :
    (now : ℕ) (p : BasePoller)
    → IsIdle p
    → wake now p ≡ scheduled now 50 (record p { wake_requested = true })
woken now p h =
    wake-eq_idle now p h.live h.idle
    ∙ schedule-eq now 50 (record p { wake_requested = true }) h.live h.cleared

wake-IsIdle : (now : ℕ) (p : BasePoller) → IsIdle p → IsIdle (wake now p)
wake-IsIdle now p h = subst IsIdle (sym (woken now p h)) (record {
  live = h.live;
  idle = h.idle;
  none_left = h.none_left;
  cleared = clear_own (timeout_at now 50 p);
})

-- The wakes of a steady stream, one every `gap` milliseconds.
pub wakes : ℕ → ℕ → ℕ → BasePoller → BasePoller
wakes zero gap start p = p
wakes (suc n) gap start p = wake (start + gap * n) (wakes n gap start p)

wakes-IsIdle : (n gap start : ℕ) (p : BasePoller) → IsIdle p → IsIdle (wakes n gap start p)
unfolding wakes
wakes-IsIdle zero gap start p h = h
wakes-IsIdle (suc n) gap start p h =
    wake-IsIdle (start + gap * n) (wakes n gap start p) (wakes-IsIdle n gap start p h)

Run-IsIdle :
    {first : ℕ} {p : BasePoller} → Run first p → p.stopping ≡ false → p.running ≡ false → IsIdle p
Run-IsIdle {first} {p} r live idle = elim (Run-Phase r) [
  | waiting t _ _ none_left alone mine ↦ record {
    live = live;
    idle = idle;
    none_left = none_left;
    cleared = own_cleared t p alone mine;
  }
  | polling busy _ _ _ ↦ absurd (false≢true (sym idle ∙ busy))
  | stopped over _ _ ↦ absurd (false≢true (sym live ∙ over))
]

-- Wakes that come less than the debounce apart put the next poll off for as long as they come: at
-- the time of each further wake no poll has begun and the only timeout is still in the future.
pub steady_wakes_postpone :
    {first : ℕ} {p : BasePoller} (n gap start : ℕ)
    → Run first p
    → p.stopping ≡ false
    → p.running ≡ false
    → gap < 50
    → let q = wakes (suc n) gap start p in
      (q.polls ≡ 0) × ((t : Timeout) × (q.timeouts ≡ t ∷ []) × (start + gap * suc n < t.due))
unfolding wakes
steady_wakes_postpone {first} {p} n gap start r live idle short =
    let before = wakes n gap start p in
    let h = wakes-IsIdle n gap start p (Run-IsIdle r live idle) in
    let e = woken (start + gap * n) before h in
    (
      (wake-IsIdle (start + gap * n) before h).none_left,
      (timeout_at (start + gap * n) 50 before, ap BasePoller.timeouts e, omega (arith, short)),
    )
