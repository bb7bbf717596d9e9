-- ===== src/Poller/Loop.antt =====
-- What the loop of src/workers/base-poller.ts keeps up whatever happens to it.
use wh_api_unified_service.Prelude.{
  ◌+◌, ◌-◌, ==_refl, Bool, Bool-cases, In, Option, [], ap, arith, false, if◌then◌else◌, inl, inr,
  none, or_else, refl, some, subst, sym, true, ◌||◌, ℕ, ◌∙◌, ◌∷◌, ◌≡◌, ◌≢◌,
}
use wh_api_unified_service.Poller.{
  BasePoller, Timeout, WorkerConfig, clear_timeout, finish_tick, fire, new_poller, next_delay,
  notify_debounce_ms, on_application_shutdown, on_module_init, schedule, tick, wake,
}

-- What can happen to a started worker, in any order.
pub data Event (p : BasePoller) : BasePoller → Type 0 where
  notified : (now : ℕ) → Event p (wake now p)
  fired : (t : Timeout) → In t p.timeouts → Event p (fire t p)
  returned :
      (c : WorkerConfig) (now : ℕ) (handled : Option ℕ)
      → p.polls ≢ 0
      → Event p (finish_tick c now handled p)
  shut_down : Event p (on_application_shutdown p)

pub data Run (now : ℕ) : BasePoller → Type 0 where
  started : Run now (on_module_init now new_poller)
  and_then : {p q : BasePoller} → Run now p → Event p q → Run now q

-- A live loop either waits for one timeout, its own, or is in one poll with none pending; a stopped
-- one waits for nothing, and its poll in flight, if it has one, is the last.
pub data Phase (p : BasePoller) : Type 0 where
  waiting :
      (t : Timeout)
      → p.running ≡ false
      → p.stopping ≡ false
      → p.polls ≡ 0
      → p.timeouts ≡ t ∷ []
      → p.timer ≡ some t.id
      → Phase p
  polling : p.running ≡ true → p.stopping ≡ false → p.polls ≡ 1 → p.timeouts ≡ [] → Phase p
  stopped : p.stopping ≡ true → p.timeouts ≡ [] → p.polls ≡ (if p.running then 1 else 0) → Phase p

clear_none : (timer : Option ℕ) → clear_timeout timer [] ≡ []
clear_none none = refl
clear_none (some id) = refl

pub clear_own : (t : Timeout) → clear_timeout (some t.id) (t ∷ []) ≡ []
clear_own t = rw (==_refl t.id) refl

if_true : {A : Type 0} (b : Bool) (x y : A) → b ≡ true → (if b then x else y) ≡ x
if_true b x y e = rw e refl

if_false : {A : Type 0} (b : Bool) (x y : A) → b ≡ false → (if b then x else y) ≡ y
if_false b x y e = rw e refl

abbrev pub timeout_at : ℕ → ℕ → BasePoller → Timeout
timeout_at now delay p = record { id = p.next_timeout; due = now + delay }

-- What scheduling leaves where it finds no other timeout.
abbrev pub scheduled : ℕ → ℕ → BasePoller → BasePoller
scheduled now delay p = record p {
  timer = some p.next_timeout;
  timeouts = timeout_at now delay p ∷ [];
  next_timeout = p.next_timeout + 1;
}

pub schedule-eq :
    (now delay : ℕ) (p : BasePoller)
    → p.stopping ≡ false
    → clear_timeout p.timer p.timeouts ≡ []
    → schedule now delay p ≡ scheduled now delay p
unfolding schedule
schedule-eq now delay p live cleared =
    if_false p.stopping _ _ live
    ∙ ap
        (λ ts. record p {
          timer = some p.next_timeout;
          timeouts = timeout_at now delay p ∷ ts;
          next_timeout = p.next_timeout + 1;
        })
        cleared

scheduled-Phase :
    (now delay : ℕ) (p : BasePoller)
    → p.running ≡ false
    → p.stopping ≡ false
    → p.polls ≡ 0
    → clear_timeout p.timer p.timeouts ≡ []
    → Phase (schedule now delay p)
scheduled-Phase now delay p idle live none_left cleared =
    subst Phase (sym (schedule-eq now delay p live cleared))
      (waiting (timeout_at now delay p) idle live none_left refl refl)

pub own_cleared :
    (t : Timeout) (p : BasePoller)
    → p.timeouts ≡ t ∷ []
    → p.timer ≡ some t.id
    → clear_timeout p.timer p.timeouts ≡ []
own_cleared t p alone mine = rw (alone, mine) (clear_own t)

pub none_cleared : (p : BasePoller) → p.timeouts ≡ [] → clear_timeout p.timer p.timeouts ≡ []
none_cleared p empty = rw empty (clear_none p.timer)

-- A wake while no poll runs replaces the timeout.
pub wake-eq_idle :
    (now : ℕ) (p : BasePoller)
    → p.stopping ≡ false
    → p.running ≡ false
    → wake now p ≡ schedule now notify_debounce_ms (record p { wake_requested = true })
unfolding wake
wake-eq_idle now p live idle = if_false p.stopping _ _ live ∙ if_false p.running _ _ idle

pub wake-eq_busy :
    (now : ℕ) (p : BasePoller)
    → p.stopping ≡ false
    → p.running ≡ true
    → wake now p ≡ record p { wake_requested = true }
unfolding wake
wake-eq_busy now p live busy = if_false p.stopping _ _ live ∙ if_true p.running _ _ busy

wake-eq_stopped : (now : ℕ) (p : BasePoller) → p.stopping ≡ true → wake now p ≡ p
unfolding wake
wake-eq_stopped now p over = if_true p.stopping _ _ over

wake-Phase : (now : ℕ) (p : BasePoller) → Phase p → Phase (wake now p)
wake-Phase now p (waiting t idle live none_left alone mine) =
    subst Phase (sym (wake-eq_idle now p live idle)) (
      scheduled-Phase now notify_debounce_ms (record p { wake_requested = true }) idle live
        none_left (own_cleared t p alone mine))
wake-Phase now p (polling busy live one empty) =
    subst Phase (sym (wake-eq_busy now p live busy)) (polling busy live one empty)
wake-Phase now p (stopped over empty last) =
    subst Phase (sym (wake-eq_stopped now p over)) (stopped over empty last)

only : (t u : Timeout) → In t (u ∷ []) → t ≡ u
only t u (inl e) = e
only t u (inr i) = absurd i

schedule-eq_stopped :
    (now delay : ℕ) (p : BasePoller) → p.stopping ≡ true → schedule now delay p ≡ p
unfolding schedule
schedule-eq_stopped now delay p over = if_true p.stopping _ _ over

last_poll : (b : Bool) (n : ℕ) → n ≡ (if b then 1 else 0) → n - 1 ≡ 0
last_poll true n h = omega (arith, h)
last_poll false n h = omega (arith, h)

fire-Phase : (t : Timeout) (p : BasePoller) → In t p.timeouts → Phase p → Phase (fire t p)
unfolding fire tick
fire-Phase t p i (waiting u idle live none_left alone mine) =
    subst Phase (sym (if_false (p.running || p.stopping) _ _ (ground arith))) (
      polling refl live (omega (arith, none_left)) (
        ap (clear_timeout (some t.id)) alone
        ∙ ap (λ v. clear_timeout (some t.id) (v ∷ [])) (sym (only t u (subst (In t) alone i)))
        ∙ clear_own t))
fire-Phase t p i (polling busy live one empty) = absurd (subst (In t) empty i)
fire-Phase t p i (stopped over empty last) = absurd (subst (In t) empty i)

finish_tick-Phase :
    (c : WorkerConfig) (now : ℕ) (handled : Option ℕ) (p : BasePoller)
    → p.polls ≢ 0
    → Phase p
    → Phase (finish_tick c now handled p)
unfolding finish_tick
finish_tick-Phase c now handled p some_poll (waiting u idle live none_left alone mine) =
    absurd (some_poll none_left)
finish_tick-Phase c now handled p some_poll (polling busy live one empty) =
    elim (Bool-cases p.wake_requested) [
      | inl woken ↦
          subst Phase (sym (if_true p.wake_requested _ _ woken))
            (scheduled-Phase now 0 _ refl live (omega (arith, one)) (none_cleared p empty))
      | inr calm ↦ subst Phase (sym (if_false p.wake_requested _ _ calm)) (
          scheduled-Phase now (next_delay c (or_else handled 0)) _ refl live (omega (arith, one))
            (none_cleared p empty))
    ]
finish_tick-Phase c now handled p some_poll (stopped over empty last) =
    let done = last_poll p.running p.polls last in
    elim (Bool-cases p.wake_requested) [
      | inl woken ↦
          subst Phase (sym (if_true p.wake_requested _ _ woken ∙ schedule-eq_stopped now 0 _ over))
            (stopped over empty done)
      | inr calm ↦
          subst Phase
            (sym (
              if_false p.wake_requested _ _ calm
              ∙ schedule-eq_stopped now (next_delay c (or_else handled 0)) _ over))
            (stopped over empty done)
    ]

shut_down-Phase : (p : BasePoller) → Phase p → Phase (on_application_shutdown p)
unfolding on_application_shutdown
shut_down-Phase p (waiting t idle live none_left alone mine) =
    stopped refl (own_cleared t p alone mine) (none_left ∙ sym (if_false p.running 1 0 idle))
shut_down-Phase p (polling busy live one empty) =
    stopped refl (none_cleared p empty) (one ∙ sym (if_true p.running 1 0 busy))
shut_down-Phase p (stopped over empty last) = stopped refl (none_cleared p empty) last

-- Whatever happens to a worker, in whatever order, its loop neither doubles nor dies: until it is
-- shut down it waits for exactly one timeout, or runs exactly one poll with no timeout pending;
-- afterwards no timeout is pending, and at most the poll in flight is left.
pub Run-Phase : {now : ℕ} {p : BasePoller} → Run now p → Phase p
unfolding on_module_init
Run-Phase {now} started = scheduled-Phase now 0 new_poller refl refl refl refl
Run-Phase (and_then {p} r (notified now)) = wake-Phase now p (Run-Phase r)
Run-Phase (and_then {p} r (fired t i)) = fire-Phase t p i (Run-Phase r)
Run-Phase (and_then {p} r (returned c now handled some_poll)) =
    finish_tick-Phase c now handled p some_poll (Run-Phase r)
Run-Phase (and_then {p} r shut_down) = shut_down-Phase p (Run-Phase r)
