-- ===== src/IntervalTimer/Stops.antt =====
-- `stop` can return with neither a spurious wakeup nor the end of the time, and no callback comes
-- after it.
use c_practice.Base.{◌≤◌, ◌≡◌, ◌≢◌, refl, ap, ◌⊎◌, inl, inr, Bool, true, false, arith}
use c_practice.IntervalTimer.{
  State, Controller, free, notifying, joining, terminated, Worker, absent, on_time, late, waiting,
  calling, ended, new_timer, set_timer, expire, woken, notify, join, check, call_back, Step, Run,
}

-- Whether the controller is inside `stop`.
abbrev pub stopping : Controller → Bool
stopping notifying = true
stopping joining = true
stopping c = false

-- Whether the worker may still call back.
abbrev active : Worker → Bool
active absent = false
active ended = false
active w = true

record Valid (s : State) : Type 0 where
  thread : s.joinable ≡ false → s.worker ≡ absent
  present : s.joinable ≡ true → s.worker ≢ absent
  silent : stopping s.controller ≡ true → (s.expired ≡ true) × (s.worker ≢ calling)
  noticed : s.controller ≡ joining → s.worker ≢ waiting
  once :
      s.is_recurring ≡ false
      → s.controller ≢ terminated
      → (s.calls ≤ 1) × (active s.worker ≡ true → s.calls ≡ 0)

Step-Valid : (s u : State) → Step s u → Valid s → Valid u
unfolding set_timer expire notify join check call_back
Step-Valid s u (Step.sets r at) v = record {
  thread = λ h. ground (arith, v.thread);
  present = λ h. ground (arith, v.present);
  silent = λ h. ground (arith, v.silent);
  noticed = λ h. ground (arith, v.noticed, v.silent);
  once = λ h h'. ground (arith, v.once);
}
Step-Valid s u (Step.expires at other) v = record {
  thread = λ h. ground (arith, v.thread);
  present = λ h. ground (arith, v.present);
  silent = λ h. ground (arith, v.silent);
  noticed = λ h. ground (arith, v.noticed, v.silent);
  once = λ h h'. ground (arith, v.once);
}
Step-Valid s u (Step.notifies at) v = record {
  thread = λ h. ground (arith, v.thread);
  present = λ h. ground (arith, v.present);
  silent = λ h. ground (arith, v.silent);
  noticed = λ h. ground (arith, v.noticed, v.silent);
  once = λ h h'. ground (arith, v.once);
}
Step-Valid s u (Step.joins at out) v = record {
  thread = λ h. ground (arith, v.thread);
  present = λ h. ground (arith, v.present);
  silent = λ h. ground (arith, v.silent);
  noticed = λ h. ground (arith, v.noticed, v.silent);
  once = λ h h'. ground (arith, v.once);
}
Step-Valid s u (Step.joins_none at none) v = record {
  thread = λ h. ground (arith, v.thread);
  present = λ h. ground (arith, v.present);
  silent = λ h. ground (arith, v.silent);
  noticed = λ h. ground (arith, v.noticed, v.silent);
  once = λ h h'. ground (arith, v.once);
}
Step-Valid s u (Step.checks at) v = record {
  thread = λ h. ground (arith, v.thread);
  present = λ h. ground (arith, v.present);
  silent = λ h. ground (arith, v.silent);
  noticed = λ h. ground (arith, v.noticed, v.silent);
  once = λ h h'. ground (arith, v.once);
}
Step-Valid s u (Step.checks_late at) v = record {
  thread = λ h. ground (arith, v.thread);
  present = λ h. ground (arith, v.present);
  silent = λ h. ground (arith, v.silent);
  noticed = λ h. ground (arith, v.noticed, v.silent);
  once = λ h h'. ground (arith, v.once);
}
Step-Valid s u (Step.wakes at) v = record {
  thread = λ h. ground (arith, v.thread);
  present = λ h. ground (arith, v.present);
  silent = λ h. ground (arith, v.silent);
  noticed = λ h. ground (arith, v.noticed, v.silent);
  once = λ h h'. ground (arith, v.once);
}
Step-Valid s u (Step.times_out at) v = record {
  thread = λ h. ground (arith, v.thread);
  present = λ h. ground (arith, v.present);
  silent = λ h. ground (arith, v.silent);
  noticed = λ h. ground (arith, v.noticed, v.silent);
  once = λ h h'. ground (arith, v.once);
}
Step-Valid s u (Step.calls_back at) v = record {
  thread = λ h. ground (arith, v.thread);
  present = λ h. ground (arith, v.present);
  silent = λ h. ground (arith, v.silent);
  noticed = λ h. ground (arith, v.noticed, v.silent);
  once = λ h h'. ground (arith, v.once);
}

new_timer-Valid : Valid new_timer
new_timer-Valid = record {
  thread = λ h. refl;
  present = λ h. absurd (cc);
  silent = λ h. absurd (cc);
  noticed = λ h. absurd (cc);
  once = λ h h'. (omega arith, λ q. refl);
}

Run-Valid : (s u : State) → Run s u → Valid s → Valid u
Run-Valid s u Run.stay v = v
Run-Valid s u (Run.next run step) v = Step-Valid _ u step (Run-Valid s _ run v)

-- Whatever has happened since the timer was made: from the moment that stop has set expired_ until
-- it has joined the thread no callback runs; where there is no thread to join, as after stop,
-- there is none; and a timer that is not recurring has called back at most once since it was set,
-- unless the program was terminated.
pub Run-Silent :
    (s : State)
    → Run new_timer s
    → (stopping s.controller ≡ true → s.worker ≢ calling)
      × (s.joinable ≡ false → s.worker ≡ absent)
      × (s.is_recurring ≡ false → s.controller ≢ terminated → s.calls ≤ 1)
Run-Silent s run =
    let v = Run-Valid new_timer s run new_timer-Valid in
    ((λ h. (v.silent h).1), v.thread, λ h h'. (v.once h h').0)

-- In these steps the worker is woken by a notification only.
abbrev pub Announced : {s u : State} → Run s u → Type 0
Announced Run.stay = Unit
Announced (Run.next run (Step.wakes at)) = ⊥
Announced (Run.next run (Step.times_out at)) = ⊥
Announced (Run.next run step) = Announced run

-- The controller is out of `stop`, the thread is gone, and nothing was called back; the worker was
-- woken by a notification only.
pub record Stopped (s u : State) : Type 0 where
  pub out : u.controller ≡ free
  pub gone : u.worker ≡ absent
  pub quiet : u.calls ≡ s.calls
  pub run : Run s u
  pub announced : Announced run

join-Stopped :
    (s : State) (w : Worker)
    → s.worker ≡ w
    → Valid s
    → s.controller ≡ joining
    → s.joinable ≡ true
    → (u : State) × Stopped s u
unfolding join check
join-Stopped s absent is v at on = absurd (v.present on is)
join-Stopped s waiting is v at on = absurd (v.noticed at is)
join-Stopped s calling is v at on = absurd ((v.silent (ap stopping at)).1 is)
join-Stopped s ended is v at on = (
  join s,
  record {
    out = ground arith;
    gone = ground arith;
    quiet = ground arith;
    run = Run.next Run.stay (Step.joins at is);
    announced = tt;
  },
)
join-Stopped s on_time is v at on =
    let over = (v.silent (ap stopping at)).0 in
    (
      join (check true s),
      record {
        out = ground arith;
        gone = ground arith;
        quiet = ground arith;
        run = Run.next (Run.next Run.stay (Step.checks is)) (Step.joins at (ground arith));
        announced = tt;
      },
    )
join-Stopped s late is v at on =
    let over = (v.silent (ap stopping at)).0 in
    (
      join (check false s),
      record {
        out = ground arith;
        gone = ground arith;
        quiet = ground arith;
        run = Run.next (Run.next Run.stay (Step.checks_late is)) (Step.joins at (ground arith));
        announced = tt;
      },
    )

Run-Run : (s u v : State) → Run s u → Run u v → Run s v
Run-Run s u v run Run.stay = run
Run-Run s u v run (Run.next more step) = Run.next (Run-Run s u _ run more) step

Run-Run-Announced :
    (s u v : State) (run : Run s u) (more : Run u v)
    → Announced run
    → Announced more
    → Announced (Run-Run s u v run more)
unfolding Run-Run
Run-Run-Announced s u v run Run.stay n m = n
Run-Run-Announced s u v run (Run.next more (Step.sets r a)) n m =
    Run-Run-Announced s u _ run more n m
Run-Run-Announced s u v run (Run.next more (Step.expires a b)) n m =
    Run-Run-Announced s u _ run more n m
Run-Run-Announced s u v run (Run.next more (Step.notifies a)) n m =
    Run-Run-Announced s u _ run more n m
Run-Run-Announced s u v run (Run.next more (Step.joins a b)) n m =
    Run-Run-Announced s u _ run more n m
Run-Run-Announced s u v run (Run.next more (Step.joins_none a b)) n m =
    Run-Run-Announced s u _ run more n m
Run-Run-Announced s u v run (Run.next more (Step.checks a)) n m =
    Run-Run-Announced s u _ run more n m
Run-Run-Announced s u v run (Run.next more (Step.checks_late a)) n m =
    Run-Run-Announced s u _ run more n m
Run-Run-Announced s u v run (Run.next more (Step.wakes a)) n m = absurd m
Run-Run-Announced s u v run (Run.next more (Step.times_out a)) n m = absurd m
Run-Run-Announced s u v run (Run.next more (Step.calls_back a)) n m =
    Run-Run-Announced s u _ run more n m

-- From the end of the lock in `stop` on.
notify-Stopped :
    (s : State) → Valid s → s.controller ≡ notifying → s.joinable ≡ true → (u : State) × Stopped s u
unfolding notify
notify-Stopped s v at on =
    let (u, stopped) =
      join-Stopped (notify s) (woken s.worker) refl (Step-Valid s (notify s) (Step.notifies at) v)
        refl on in
    (
      u,
      record {
        out = stopped.out;
        gone = stopped.gone;
        quiet = stopped.quiet;
        run = Run-Run s (notify s) u (Run.next Run.stay (Step.notifies at)) stopped.run;
        announced =
            Run-Run-Announced s (notify s) u (Run.next Run.stay (Step.notifies at)) stopped.run tt
              stopped.announced;
      },
    )

-- Whatever has happened since the timer was made: if stop has set expired_ or is in join, on a
-- timer that was set, then there is a run in which stop returns, the thread is gone, and the
-- callback is not made again, with no spurious wakeup and no end of the time in it.
pub stop-Stopped :
    (s : State)
    → Run new_timer s
    → (s.controller ≡ notifying) ⊎ (s.controller ≡ joining)
    → s.joinable ≡ true
    → (u : State) × Stopped s u
stop-Stopped s run (inl at) on = notify-Stopped s (Run-Valid new_timer s run new_timer-Valid) at on
stop-Stopped s run (inr at) on =
    join-Stopped s s.worker refl (Run-Valid new_timer s run new_timer-Valid) at on
