-- ===== src/Timer.antt =====
-- timer/timer.h, `Timer`: a thread that runs a task again and again until it is stopped.
--
-- One thread, the controller, calls the timer; the threads that `start` and `startOnce` detach are the
-- workers. `_mutex` only covers what is one step here: the exit of a worker, and a test of `_expired` in
-- the wait of `stop` together with falling asleep.
pub mod Alive
pub mod Stops
mod Tests
use c_practice.Base.{
  ℕ, ◌≡◌, Bool, true, false, not, Option, some, List, [], ◌∷◌, ◌++◌, if◌then◌else◌, get_elem?, set,
}

-- A worker of `start` tests `_try_to_expire`, sleeps, runs the task, or has left the loop; one of
-- `startOnce` sleeps and runs the task.
pub data Worker : Type 0 where
  looping : Worker
  napping : Worker
  tasking : Worker
  leaving : Worker
  delayed : Worker
  tasking_once : Worker
  ended : Worker

-- The controller is outside of `stop`, or in its wait: about to test `_expired`, or blocked.
pub data Controller : Type 0 where
  free : Controller
  testing : Controller
  asleep : Controller

pub record State : Type 0 where
  pub expired : Bool
  pub try_to_expire : Bool
  pub controller : Controller
  pub workers : List Worker

abbrev pub new_timer : State
new_timer = record { expired = true; try_to_expire = false; controller = free; workers = [] }

-- A copy has the flags, but none of the threads.
abbrev pub copy_timer : State → State
copy_timer s = record s { controller = free; workers = [] }

unfoldable pub start : State → State
start s =
    if s.expired then record s { expired = false; workers = s.workers ++ (looping ∷ []) } else s

unfoldable pub start_once : State → State
start_once s = record s { workers = s.workers ++ (delayed ∷ []) }

-- `stop`, up to its wait
unfoldable pub stop : State → State
stop s =
    if s.expired
    then s
    else if s.try_to_expire
    then s
    else record s { try_to_expire = true; controller = testing }

unfoldable pub is_running : State → Bool
is_running s = not s.expired

-- What `notify_one` does to the controller.
abbrev pub notify_one : Controller → Controller
notify_one asleep = testing
notify_one c = c

abbrev pub works : ℕ → Worker → State → State
works t w s = record s { workers = set s.workers t w }

-- Out of the loop: `_expired` is set and the controller notified.
unfoldable pub leave : ℕ → State → State
leave t s = record (works t ended s) { expired = true; controller = notify_one s.controller }

-- The end of `stop`, when its wait is over.
unfoldable pub finish_stop : State → State
finish_stop s = record s {
  try_to_expire = if s.expired then false else s.try_to_expire;
  controller = free;
}

pub data Step : State → State → Type 0 where
  starts : {s : State} → s.controller ≡ free → Step s (start s)
  starts_once : {s : State} → s.controller ≡ free → Step s (start_once s)
  stops : {s : State} → s.controller ≡ free → Step s (stop s)
  blocks :
      {s : State}
      → s.controller ≡ testing
      → s.expired ≡ false
      → Step s (record s { controller = asleep })
  returns : {s : State} → s.controller ≡ testing → s.expired ≡ true → Step s (finish_stop s)
  wakes : {s : State} → s.controller ≡ asleep → Step s (record s { controller = testing })
  loops :
      {s : State} (t : ℕ)
      → get_elem? s.workers t ≡ some looping
      → s.try_to_expire ≡ false
      → Step s (works t napping s)
  breaks :
      {s : State} (t : ℕ)
      → get_elem? s.workers t ≡ some looping
      → s.try_to_expire ≡ true
      → Step s (works t leaving s)
  naps : {s : State} (t : ℕ) → get_elem? s.workers t ≡ some napping → Step s (works t tasking s)
  tasks : {s : State} (t : ℕ) → get_elem? s.workers t ≡ some tasking → Step s (works t looping s)
  leaves : {s : State} (t : ℕ) → get_elem? s.workers t ≡ some leaving → Step s (leave t s)
  delays :
      {s : State} (t : ℕ) → get_elem? s.workers t ≡ some delayed → Step s (works t tasking_once s)
  tasks_once :
      {s : State} (t : ℕ) → get_elem? s.workers t ≡ some tasking_once → Step s (works t ended s)

pub data Run : State → State → Type 0 where
  stay : {s : State} → Run s s
  next : {s s' s'' : State} → Step s s' → Run s' s'' → Run s s''
