-- ===== src/Timer/Tests.antt =====
-- A timer that is started, runs its task once, and is stopped; and a copy of it.
use c_practice.Base.{◌≡◌, refl, true, false, [], ◌∷◌}
use c_practice.Base.Counting.{one, count}
use c_practice.Timer.{
  State, Run, tasking, free, asleep, new_timer, copy_timer, start, stop, is_running, starts, stops,
  blocks, loops, naps, stay, next,
}
use c_practice.Timer.Alive.{is_alive, is_running-alive}
use c_practice.Timer.Stops.{Ends, stop-Ends}

abbrev running_timer : State
running_timer = record {
  expired = false;
  try_to_expire = false;
  controller = free;
  workers = tasking ∷ [];
}

running-Run : Run new_timer running_timer
unfolding start
running-Run = next (starts refl) (next (loops 0 refl refl) (next (naps 0 refl) stay))

is_running-alive_example :
    (count is_alive running_timer.workers ≡ one (is_running running_timer)) × (false ≡ false)
is_running-alive_example = is_running-alive running_timer running-Run

abbrev stopping_timer : State
stopping_timer = record {
  expired = false;
  try_to_expire = true;
  controller = asleep;
  workers = tasking ∷ [];
}

stopping-Run : Run new_timer stopping_timer
unfolding start stop
stopping-Run = next (starts refl) (
    next (loops 0 refl refl)
      (next (naps 0 refl) (next (stops refl) (next (blocks refl refl) stay))))

stop-Ends_example : Ends stopping_timer
stop-Ends_example = stop-Ends stopping_timer stopping-Run refl

abbrev stuck_copy : State
stuck_copy = record { expired = false; try_to_expire = true; controller = asleep; workers = [] }

copy-Run : Run (stop (copy_timer running_timer)) stuck_copy
unfolding stop
copy-Run = next (blocks refl refl) stay
