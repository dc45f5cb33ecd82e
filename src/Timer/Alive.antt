-- ===== src/Timer/Alive.antt =====
-- `is_running` tells whether a thread of `start` is alive; there is at most one.
use c_practice.Base.{
  ℕ, ◌+◌, ◌≤◌, ◌≡◌, refl, ap, ◌∙◌, Bool, true, false, not, some, [], ◌∷◌, arith, get_elem?, set,
  Bool-cases, inl, inr,
}
use c_practice.Base.Counting.{one, count, count-set, count-append}
use c_practice.Timer.{
  Worker, Controller, State, Step, Run, looping, napping, tasking, leaving, delayed, tasking_once,
  ended, free, testing, asleep, new_timer, start, start_once, stop, is_running, leave, finish_stop,
  notify_one, starts, starts_once, stops, blocks, returns, wakes, loops, breaks, naps, tasks,
  leaves, delays, tasks_once, stay, next,
}

-- A thread that `start` made and that has not ended.
abbrev pub is_alive : Worker → Bool
is_alive looping = true
is_alive napping = true
is_alive tasking = true
is_alive leaving = true
is_alive w = false

abbrev pub is_busy : Controller → Bool
is_busy free = false
is_busy c = true

abbrev pub is_asleep : Controller → Bool
is_asleep asleep = true
is_asleep c = false

-- Exactly one of them: a thread is alive, or the timer has expired. The controller stands in the wait
-- of `stop` while `_try_to_expire` is set, and is not blocked once the timer has expired.
pub record Inv (s : State) : Type 0 where
  pub alive : count is_alive s.workers + one s.expired ≡ 1
  pub busy : s.try_to_expire ≡ is_busy s.controller
  pub blocked : one (is_asleep s.controller) + one s.expired ≤ 1

pub new_timer-Inv : Inv new_timer
new_timer-Inv = record { alive = refl; busy = refl; blocked = omega arith }

-- A worker goes from `p` to `q`, which are alive or not alike.
works-Inv :
    (s : State) (t : ℕ) (p q : Worker)
    → get_elem? s.workers t ≡ some p
    → is_alive p ≡ is_alive q
    → Inv s
    → Inv (record s { workers = set s.workers t q })
works-Inv s t p q here alike inv =
    let counts = count-set is_alive s.workers t p q here in
    let same = ap one alike in
    let was = inv.alive in record { alive = omega arith; busy = inv.busy; blocked = inv.blocked }

start-Inv : (s : State) → Inv s → Inv (start s)
unfolding start
start-Inv s inv = elim (Bool-cases s.expired) [
  | inl over ↦
      let counts = count-append is_alive s.workers (looping ∷ []) in
      let was = inv.alive in
      let e = ap one over in
      let b = inv.blocked in
      simp over (record { alive = omega arith; busy = inv.busy; blocked = omega arith })
  | inr runs ↦ simp runs inv
]

stop-Inv : (s : State) → s.controller ≡ free → Inv s → Inv (stop s)
unfolding stop
stop-Inv s at inv = elim (Bool-cases s.expired) [
  | inl over ↦ simp over inv
  | inr runs ↦
      let idle : s.try_to_expire ≡ false = inv.busy ∙ ap is_busy at in
      let e = ap one runs in
      let was = inv.alive in
      simp (runs, idle) (record { alive = omega arith; busy = refl; blocked = omega arith })
]

start_once-Inv : (s : State) → Inv s → Inv (start_once s)
unfolding start_once
start_once-Inv s inv =
    let counts = count-append is_alive s.workers (delayed ∷ []) in
    let was = inv.alive in record { alive = omega arith; busy = inv.busy; blocked = inv.blocked }

finish_stop-Inv : (s : State) → s.expired ≡ true → Inv s → Inv (finish_stop s)
unfolding finish_stop
finish_stop-Inv s over inv = record {
  alive = inv.alive;
  busy = rw over refl;
  blocked = let was = inv.alive in omega arith;
}

notify_one-busy : (c : Controller) → is_busy c ≡ is_busy (notify_one c)
notify_one-busy free = refl
notify_one-busy testing = refl
notify_one-busy asleep = refl

notify_one-awake : (c : Controller) → one (is_asleep (notify_one c)) + 1 ≤ 1
notify_one-awake free = omega arith
notify_one-awake testing = omega arith
notify_one-awake asleep = omega arith

leave-Inv : (s : State) (t : ℕ) → get_elem? s.workers t ≡ some leaving → Inv s → Inv (leave t s)
unfolding leave
leave-Inv s t here inv =
    let counts = count-set is_alive s.workers t leaving ended here in
    let was = inv.alive in
    record {
      alive = omega arith;
      busy = inv.busy ∙ notify_one-busy s.controller;
      blocked = notify_one-awake s.controller;
    }

pub step-Inv : (s s' : State) → Step s s' → Inv s → Inv s'
step-Inv s s' (starts at) inv = start-Inv s inv
step-Inv s s' (starts_once at) inv = start_once-Inv s inv
step-Inv s s' (stops at) inv = stop-Inv s at inv
step-Inv s s' (blocks at runs) inv =
    let e = ap one runs in
    record { alive = inv.alive; busy = inv.busy ∙ ap is_busy at; blocked = omega arith }
step-Inv s s' (returns at over) inv = finish_stop-Inv s over inv
step-Inv s s' (wakes at) inv = record {
  alive = inv.alive;
  busy = inv.busy ∙ ap is_busy at;
  blocked = let was = inv.alive in omega arith;
}
step-Inv s s' (loops t here _) inv = works-Inv s t looping napping here refl inv
step-Inv s s' (breaks t here _) inv = works-Inv s t looping leaving here refl inv
step-Inv s s' (naps t here) inv = works-Inv s t napping tasking here refl inv
step-Inv s s' (tasks t here) inv = works-Inv s t tasking looping here refl inv
step-Inv s s' (leaves t here) inv = leave-Inv s t here inv
step-Inv s s' (delays t here) inv = works-Inv s t delayed tasking_once here refl inv
step-Inv s s' (tasks_once t here) inv = works-Inv s t tasking_once ended here refl inv

pub Run-Inv : (s s' : State) → Run s s' → Inv s → Inv s'
Run-Inv s s' stay inv = inv
Run-Inv s s' (next step more) inv = Run-Inv _ s' more (step-Inv s _ step inv)

one-not : (b : Bool) {n : ℕ} → n + one b ≡ 1 → n ≡ one (not b)
one-not true e = omega arith
one-not false e = omega arith

-- Whatever has happened since the timer was made, as many threads of start are alive as is_running
-- says, which is one or none, and _try_to_expire is set exactly while the controlling thread is
-- inside stop.
pub is_running-alive :
    (s : State)
    → Run new_timer s
    → (count is_alive s.workers ≡ one (is_running s)) × (s.try_to_expire ≡ is_busy s.controller)
unfolding is_running
is_running-alive s run =
    let inv = Run-Inv new_timer s run new_timer-Inv in (one-not s.expired inv.alive, inv.busy)
