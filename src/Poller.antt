-- ===== src/Poller.antt =====
-- The loop that every worker shares, src/workers/base-poller.ts, with the event loop's timeouts. What
-- a poll does is an argument: the number of rows it handled, `none` where it threw. A time is a number
-- of milliseconds.
mod Tests
pub mod Loop
pub mod Waking
use wh_api_unified_service.Prelude.{
  ◌+◌, ◌-◌, ◌==◌, Bool, List, Option, [], false, filter, if◌then◌else◌, leb, ltb, none, not,
  or_else, some, true, ◌||◌, ℕ, ◌∷◌,
}

pub record Timeout : Type 0 where
  pub id : ℕ
  pub due : ℕ

-- The fields of the class, the timeouts that are pending, the next handle, and how many calls of
-- `pollOnce` have not returned.
pub record BasePoller : Type 0 where
  pub timer : Option ℕ
  pub running : Bool
  pub stopping : Bool
  pub in_flight : Bool
  pub wake_requested : Bool
  pub timeouts : List Timeout
  pub next_timeout : ℕ
  pub polls : ℕ

pub record WorkerConfig : Type 0 where
  pub poll_interval_ms : ℕ
  pub idle_poll_interval_ms : ℕ
  pub batch_size : ℕ

-- `NOTIFY_DEBOUNCE_MS`.
abbrev pub notify_debounce_ms : ℕ
notify_debounce_ms = 50

abbrev pub new_poller : BasePoller
new_poller = record {
  timer = none;
  running = false;
  stopping = false;
  in_flight = false;
  wake_requested = false;
  timeouts = [];
  next_timeout = 1;
  polls = 0;
}

-- `clearTimeout`: a handle that has fired, or null, clears nothing.
abbrev pub clear_timeout : Option ℕ → List Timeout → List Timeout
clear_timeout none ts = ts
clear_timeout (some id) ts = filter (λ t. not (t.id == id)) ts

unfoldable pub schedule : ℕ → ℕ → BasePoller → BasePoller
schedule now delay_ms p = if p.stopping then p else record p {
  timer = some p.next_timeout;
  timeouts =
      record { id = p.next_timeout; due = now + delay_ms } ∷ clear_timeout p.timer p.timeouts;
  next_timeout = p.next_timeout + 1;
}

unfoldable pub on_module_init : ℕ → BasePoller → BasePoller
on_module_init now p = schedule now 0 p

unfoldable pub wake : ℕ → BasePoller → BasePoller
wake now p =
    if p.stopping
    then p
    else if p.running
    then record p { wake_requested = true }
    else schedule now notify_debounce_ms (record p { wake_requested = true })

-- `tick` up to the await.
unfoldable pub tick : BasePoller → BasePoller
tick p =
    if p.running || p.stopping
    then p
    else record p { running = true; wake_requested = false; in_flight = true; polls = p.polls + 1 }

-- A timeout fires: it is pending no more, and its callback runs.
unfoldable pub fire : Timeout → BasePoller → BasePoller
fire t p = tick (record p { timeouts = clear_timeout (some t.id) p.timeouts })

unfoldable pub next_delay : WorkerConfig → ℕ → ℕ
next_delay c handled =
    if leb c.batch_size handled
    then 0
    else if ltb 0 handled
    then c.poll_interval_ms
    else c.idle_poll_interval_ms

-- `tick` after the await, when the poll has returned or thrown.
unfoldable pub finish_tick : WorkerConfig → ℕ → Option ℕ → BasePoller → BasePoller
finish_tick c now handled p =
    let q = record p { in_flight = false; running = false; polls = p.polls - 1 } in
    if q.wake_requested
    then schedule now 0 (record q { wake_requested = false })
    else schedule now (next_delay c (or_else handled 0)) q

-- `onApplicationShutdown`, up to its wait for the poll in flight.
unfoldable pub on_application_shutdown : BasePoller → BasePoller
on_application_shutdown p = record p {
  stopping = true;
  timeouts = clear_timeout p.timer p.timeouts;
}
