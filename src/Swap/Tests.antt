-- ===== src/Swap/Tests.antt =====
-- Two threads that swap the objects 1 and 2 ten times, as in the program.
use c_practice.Base.{arith, List, map, true, false}
use c_practice.Swap.{Thread, outside, left, Run, Step}
use c_practice.Swap.Finishes.{finished, run-finished}
use c_practice.Swap.Deadlock.{two, run-Deadlocked}

run-finished_example : Run true (two 1 2 9 9 left) (map finished (two 1 2 9 9 left))
run-finished_example = run-finished (two 1 2 9 9 left)

run-Deadlocked_example :
    (s : List Thread) × Run false (two 1 2 9 9 outside) s × ((s' : List Thread) → ¬ Step false s s')
run-Deadlocked_example = run-Deadlocked 1 2 9 9 (λ e. absurd (omega arith))
