-- ===== src/Timer/Stops.antt =====
-- The wait of `stop` can end, whatever the worker is doing; but not that of a copy of a running timer.
use c_practice.Base.{
  ℕ, suc, ◌+◌, ◌≤◌, ◌≡◌, ◌≢◌, refl, sym, ap, ◌∙◌, true, false, some, List, [], ◌∷◌, arith,
  get_elem?, Bool-cases, inl, inr,
}
use c_practice.Base.Counting.{one, count, count-find, get_elem?-set_same}
use c_practice.Timer.{
  Worker, Controller, State, Step, Run, looping, napping, tasking, leaving, delayed, tasking_once,
  ended, free, testing, asleep, new_timer, copy_timer, stop, leave, finish_stop, works, starts,
  starts_once, stops, blocks, returns, wakes, loops, breaks, naps, tasks, leaves, delays,
  tasks_once, stay, next,
}
use c_practice.Timer.Alive.{is_alive, is_busy, is_asleep, Inv, new_timer-Inv, step-Inv, Run-Inv}

-- No thread wakes in these steps without being notified.
abbrev pub NoSpurious : {s s' : State} → Run s s' → Type 0
NoSpurious stay = Unit
NoSpurious (next (wakes at) more) = ⊥
NoSpurious (next step more) = NoSpurious more

-- A run that ends `stop` with no spurious wakeup, with the timer ready to start again.
abbrev pub Ends : State → Type 0
Ends s =
    (s' : State) × (run : Run s s') × NoSpurious run
    × (s'.controller ≡ free)
    × (s'.expired ≡ true)
    × (s'.try_to_expire ≡ false)

abbrev Announced : {s s' : State} → Step s s' → Type 0
Announced (wakes at) = ⊥
Announced step = Unit

later : {s s' : State} (step : Step s s') → Announced step → Ends s' → Ends s
later (starts a) n (s', run, q, f, e, t) = (s', next (starts a) run, q, f, e, t)
later (starts_once a) n (s', run, q, f, e, t) = (s', next (starts_once a) run, q, f, e, t)
later (stops a) n (s', run, q, f, e, t) = (s', next (stops a) run, q, f, e, t)
later (blocks a b) n (s', run, q, f, e, t) = (s', next (blocks a b) run, q, f, e, t)
later (returns a b) n (s', run, q, f, e, t) = (s', next (returns a b) run, q, f, e, t)
later (wakes a) n (s', run, q, f, e, t) = absurd n
later (loops i a b) n (s', run, q, f, e, t) = (s', next (loops i a b) run, q, f, e, t)
later (breaks i a b) n (s', run, q, f, e, t) = (s', next (breaks i a b) run, q, f, e, t)
later (naps i a) n (s', run, q, f, e, t) = (s', next (naps i a) run, q, f, e, t)
later (tasks i a) n (s', run, q, f, e, t) = (s', next (tasks i a) run, q, f, e, t)
later (leaves i a) n (s', run, q, f, e, t) = (s', next (leaves i a) run, q, f, e, t)
later (delays i a) n (s', run, q, f, e, t) = (s', next (delays i a) run, q, f, e, t)
later (tasks_once i a) n (s', run, q, f, e, t) = (s', next (tasks_once i a) run, q, f, e, t)

module _ (t : ℕ) where
  over-Ends : (s : State) → Inv s → is_busy s.controller ≡ true → s.expired ≡ true → Ends s
  unfolding finish_stop
  over-Ends s inv busy over = (
    finish_stop s,
    next (returns (at s.controller busy (ap one over) inv.blocked) over) stay,
    tt,
    refl,
    over,
    rw over refl,
  )
    where
      at :
          (c : Controller)
          → is_busy c ≡ true
          → {e : ℕ} → e ≡ 1
          → one (is_asleep c) + e ≤ 1
          → c ≡ testing
      at free busy one_e le = absurd (cc)
      at testing busy one_e le = refl
      at asleep busy one_e le = absurd (omega arith)

  leaving-Ends :
      (s : State)
      → Inv s
      → is_busy s.controller ≡ true
      → get_elem? s.workers t ≡ some leaving
      → Ends s
  unfolding leave
  leaving-Ends s inv busy here =
      let after = step-Inv s (leave t s) (leaves t here) inv in
      later (leaves t here) tt (over-Ends (leave t s) after (sym after.busy ∙ inv.busy ∙ busy) refl)

  looping-Ends :
      (s : State)
      → Inv s
      → is_busy s.controller ≡ true
      → get_elem? s.workers t ≡ some looping
      → Ends s
  looping-Ends s inv busy here =
      let step = breaks t here (inv.busy ∙ busy) in
      later step tt (
        leaving-Ends (works t leaving s) (step-Inv s _ step inv) busy
          (get_elem?-set_same s.workers t looping leaving here))

  tasking-Ends :
      (s : State)
      → Inv s
      → is_busy s.controller ≡ true
      → get_elem? s.workers t ≡ some tasking
      → Ends s
  tasking-Ends s inv busy here = later (tasks t here) tt (
      looping-Ends (works t looping s) (step-Inv s _ (tasks t here) inv) busy
        (get_elem?-set_same s.workers t tasking looping here))

  napping-Ends :
      (s : State)
      → Inv s
      → is_busy s.controller ≡ true
      → get_elem? s.workers t ≡ some napping
      → Ends s
  napping-Ends s inv busy here = later (naps t here) tt (
      tasking-Ends (works t tasking s) (step-Inv s _ (naps t here) inv) busy
        (get_elem?-set_same s.workers t napping tasking here))

  alive-Ends :
      (p : Worker) (s : State)
      → is_alive p ≡ true
      → Inv s
      → is_busy s.controller ≡ true
      → get_elem? s.workers t ≡ some p
      → Ends s
  alive-Ends looping s live inv busy here = looping-Ends s inv busy here
  alive-Ends napping s live inv busy here = napping-Ends s inv busy here
  alive-Ends tasking s live inv busy here = tasking-Ends s inv busy here
  alive-Ends leaving s live inv busy here = leaving-Ends s inv busy here
  alive-Ends delayed s live inv busy here = absurd (cc)
  alive-Ends tasking_once s live inv busy here = absurd (cc)
  alive-Ends ended s live inv busy here = absurd (cc)

-- Whatever has happened since the timer was made, while the controlling thread is inside stop
-- there is a run, with no spurious wakeup in it, after which stop has returned, the timer has
-- expired and it can be started again.
pub stop-Ends : (s : State) → Run new_timer s → is_busy s.controller ≡ true → Ends s
stop-Ends s run busy =
    let inv = Run-Inv new_timer s run new_timer-Inv in
    elim (Bool-cases s.expired) [
      | inl over ↦ over-Ends 0 s inv busy over
      | inr runs ↦
          let one_alive : count is_alive s.workers ≡ suc 0 =
            let was = inv.alive in let e = ap one runs in omega arith in
          let (t, p, here, live) = count-find is_alive s.workers 0 one_alive in
          alive-Ends t p s live inv busy here
    ]

-- There is no worker that could set `_expired`.
record Stuck (s : State) : Type 0 where
  alone : s.workers ≡ []
  runs : s.expired ≡ false
  waits : is_busy s.controller ≡ true

nobody : {p : Worker} (ws : List Worker) (t : ℕ) → ws ≡ [] → get_elem? ws t ≡ some p → ⊥
nobody [] t e here = absurd (cc)
nobody (w ∷ ws) t e here = absurd (cc)

not_free : (c : Controller) → is_busy c ≡ true → c ≢ free
not_free free busy e = absurd (cc)
not_free testing busy e = absurd (cc)
not_free asleep busy e = absurd (cc)

step-Stuck : (s s' : State) → Step s s' → Stuck s → Stuck s'
step-Stuck s s' (starts at) stuck = absurd (not_free s.controller stuck.waits at)
step-Stuck s s' (starts_once at) stuck = absurd (not_free s.controller stuck.waits at)
step-Stuck s s' (stops at) stuck = absurd (not_free s.controller stuck.waits at)
step-Stuck s s' (blocks at _) stuck = record {
  alone = stuck.alone;
  runs = stuck.runs;
  waits = refl;
}
step-Stuck s s' (returns at over) stuck = absurd (let e = stuck.runs in cc)
step-Stuck s s' (wakes at) stuck = record { alone = stuck.alone; runs = stuck.runs; waits = refl }
step-Stuck s s' (loops t here _) stuck = absurd (nobody s.workers t stuck.alone here)
step-Stuck s s' (breaks t here _) stuck = absurd (nobody s.workers t stuck.alone here)
step-Stuck s s' (naps t here) stuck = absurd (nobody s.workers t stuck.alone here)
step-Stuck s s' (tasks t here) stuck = absurd (nobody s.workers t stuck.alone here)
step-Stuck s s' (leaves t here) stuck = absurd (nobody s.workers t stuck.alone here)
step-Stuck s s' (delays t here) stuck = absurd (nobody s.workers t stuck.alone here)
step-Stuck s s' (tasks_once t here) stuck = absurd (nobody s.workers t stuck.alone here)

Run-Stuck : (s s' : State) → Run s s' → Stuck s → Stuck s'
Run-Stuck s s' stay stuck = stuck
Run-Stuck s s' (next step more) stuck = Run-Stuck _ s' more (step-Stuck s _ step stuck)

-- On a copy of a timer that runs and is not being stopped, stop never returns.
pub stop-copy_timer :
    (s s' : State)
    → s.expired ≡ false
    → s.try_to_expire ≡ false
    → Run (stop (copy_timer s)) s'
    → s'.controller ≢ free
unfolding stop
stop-copy_timer s s' runs calm run =
    let start : Stuck (stop (copy_timer s)) =
      simp (runs, calm) (record { alone = refl; runs = refl; waits = refl }) in
    not_free s'.controller (Run-Stuck _ s' run start).waits
