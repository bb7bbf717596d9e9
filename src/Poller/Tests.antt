-- ===== src/Poller/Tests.antt =====
-- The theorems on the loop at a concrete worker.
use wh_api_unified_service.Prelude.{
  ◌*◌, ◌+◌, ◌<◌, In, Option, [], arith, false, inl, none, refl, subst, sym, true, ℕ, ◌∷◌, ◌≡◌, ◌⊎◌,
}
use wh_api_unified_service.Poller.{
  BasePoller, Timeout, WorkerConfig, finish_tick, fire, new_poller, on_application_shutdown,
  on_module_init, schedule, tick, wake,
}
use wh_api_unified_service.Poller.Loop.{
  Phase, Run, Run-Phase, and_then, fired, notified, shut_down, started,
}
use wh_api_unified_service.Poller.Waking.{steady_wakes_postpone, wake_is_served, wakes}

abbrev up : BasePoller
up = on_module_init 1000 new_poller

abbrev first_timeout : Timeout
first_timeout = record { id = 1; due = 1000 }

up-timeouts : up.timeouts ≡ first_timeout ∷ []
unfolding on_module_init schedule
up-timeouts = refl

up_first : In first_timeout up.timeouts
up_first = subst (In first_timeout) (sym up-timeouts) (inl refl)

abbrev polling_once : BasePoller
polling_once = wake 1010 (fire first_timeout up)

polled : Run 1000 polling_once
polled = and_then (and_then started (fired first_timeout up_first)) (notified 1010)

polled-stopping : polling_once.stopping ≡ false
unfolding wake fire tick on_module_init schedule
polled-stopping = refl

Run-Phase_example : Phase (on_application_shutdown polling_once)
Run-Phase_example = Run-Phase (and_then polled shut_down)

wake_is_served_example :
    ((polling_once.running ≡ false)
      × ((wake 1020 polling_once).timeouts
          ≡ record { id = polling_once.next_timeout; due = 1020 + 50 } ∷ []))
    ⊎ ((polling_once.running ≡ true)
        × ((c : WorkerConfig) (later : ℕ) (handled : Option ℕ)
            → (finish_tick c later handled (wake 1020 polling_once)).timeouts
              ≡ record { id = polling_once.next_timeout; due = later } ∷ []))
wake_is_served_example = wake_is_served 1020 polled polled-stopping

up-idle : (up.stopping ≡ false) × (up.running ≡ false)
unfolding on_module_init schedule
up-idle = (refl, refl)

steady_wakes_postpone_example :
    let q = wakes 101 40 1000 up in
    (q.polls ≡ 0) × ((t : Timeout) × (q.timeouts ≡ t ∷ []) × (1000 + 40 * 101 < t.due))
steady_wakes_postpone_example =
    steady_wakes_postpone 100 40 1000 started up-idle.0 up-idle.1 (omega arith)

-- A wake during a poll that throws: the next poll follows at once.
woken_in_a_poll :
    (c : WorkerConfig)
    → (finish_tick c 1500 none polling_once).timeouts ≡ record { id = 2; due = 1500 } ∷ []
unfolding finish_tick wake fire tick on_module_init schedule
woken_in_a_poll c = refl
