-- ===== src/IntervalTimer.antt =====
-- timer/main2.cpp, `Timer`: a thread that waits on a condition variable and calls back when the time is
-- over, until it is stopped.
--
-- One thread, the controller, calls the timer; `timer_thread_` is the worker. `mutex_` is held while the
-- callback runs; each other part of a thread under it is one step. `terminated` is the end of the whole
-- program, when a thread that can still be joined is assigned to.
pub mod Stops
mod Tests
use c_practice.Base.{ℕ, suc, ◌≡◌, ◌≢◌, Bool, true, false, if◌then◌else◌}

-- The controller is outside of `stop`, has set `expired_`, or is in `join`; `join` throws if there is
-- no thread.
pub data Controller : Type 0 where
  free notifying joining threw terminated : Controller

-- No thread; about to lock `mutex_` and test `expired_`, at the start or when woken (`on_time`), or when
-- the time is over (`late`); blocked in `wait_for`; in the callback; out of the loop.
pub data Worker : Type 0 where
  absent on_time late waiting calling ended : Worker

pub record State : Type 0 where
  pub expired : Bool
  pub is_recurring : Bool
  pub joinable : Bool
  pub controller : Controller
  pub worker : Worker
  pub calls : ℕ  -- of the callback, since `setTimer`

abbrev pub new_timer : State
new_timer = record {
  expired = true;
  is_recurring = false;
  joinable = false;
  controller = free;
  worker = absent;
  calls = 0;
}

unfoldable pub set_timer : Bool → State → State
set_timer is_recurring s =
    if s.joinable
    then record s { expired = false; is_recurring = is_recurring; controller = terminated }
    else record s {
      expired = false;
      is_recurring = is_recurring;
      joinable = true;
      worker = on_time;
      calls = 0;
    }

-- `stop`, up to the end of the lock.
unfoldable pub expire : State → State
expire s = record s { expired = true; controller = notifying }

-- What `notify_one` does to the worker.
abbrev pub woken : Worker → Worker
woken waiting = on_time
woken w = w

unfoldable pub notify : State → State
notify s = record s { controller = joining; worker = woken s.worker }

unfoldable pub join : State → State
join s =
    if s.joinable
    then record s { joinable = false; controller = free; worker = absent }
    else record s { controller = threw }

-- The predicate of `wait_for`, under the lock.
unfoldable pub check : (in_time : Bool) → State → State
check in_time s = record s {
  worker = if s.expired then ended else if in_time then waiting else calling;
}

-- The end of the callback and of the round.
unfoldable pub call_back : State → State
call_back s = record s { worker = if s.is_recurring then on_time else ended; calls = suc s.calls }

pub data Step : State → State → Type 0 where
  sets : {s : State} (is_recurring : Bool) → s.controller ≡ free → Step s (set_timer is_recurring s)
  expires : {s : State} → s.controller ≡ free → s.worker ≢ calling → Step s (expire s)
  notifies : {s : State} → s.controller ≡ notifying → Step s (notify s)
  joins : {s : State} → s.controller ≡ joining → s.worker ≡ ended → Step s (join s)
  joins_none : {s : State} → s.controller ≡ joining → s.joinable ≡ false → Step s (join s)
  checks : {s : State} → s.worker ≡ on_time → Step s (check true s)
  checks_late : {s : State} → s.worker ≡ late → Step s (check false s)
  wakes : {s : State} → s.worker ≡ waiting → Step s (record s { worker = on_time })
  times_out : {s : State} → s.worker ≡ waiting → Step s (record s { worker = late })
  calls_back : {s : State} → s.worker ≡ calling → Step s (call_back s)

pub data Run : State → State → Type 0 where
  stay : {s : State} → Run s s
  next : {s u v : State} → Run s u → Step u v → Run s v
