-- ===== src/IntervalTimer/Tests.antt =====
-- A timer that is set, calls back once and is stopped while it waits.
use c_practice.Base.{◌≤◌, ◌≡◌, ◌≢◌, refl, inl, true, false}
use c_practice.IntervalTimer.{
  State, notifying, terminated, absent, waiting, calling, new_timer, set_timer, expire, check,
  call_back, Step, Run,
}
use c_practice.IntervalTimer.Stops.{stopping, Stopped, Run-Silent, stop-Stopped}

abbrev stopped_waiting : State
stopped_waiting = record {
  expired = true;
  is_recurring = true;
  joinable = true;
  controller = notifying;
  worker = waiting;
  calls = 1;
}

stopped-Run : Run new_timer stopped_waiting
unfolding set_timer expire check call_back
stopped-Run =
    Run.next
      (Run.next
        (Run.next
          (Run.next
            (Run.next (Run.next (Run.next Run.stay (Step.sets true refl)) (Step.checks refl))
              (Step.times_out refl))
            (Step.checks_late refl))
          (Step.calls_back refl))
        (Step.checks refl))
      (Step.expires refl (λ e. absurd (cc)))

Run-Silent_example :
    (stopping notifying ≡ true → waiting ≢ calling)
    × (true ≡ false → waiting ≡ absent)
    × (true ≡ false → notifying ≢ terminated → 1 ≤ 1)
Run-Silent_example = Run-Silent stopped_waiting stopped-Run

stop-Stopped_example : (u : State) × Stopped stopped_waiting u
stop-Stopped_example = stop-Stopped stopped_waiting stopped-Run (inl refl) refl
