-- ===== src/ThreadPool/Tests.antt =====
-- A pool with one thread, which is given two tasks and destroyed while the first one runs.
use c_practice.Base.{
  ℕ, ◌+◌, ◌≡◌, Bool, refl, true, false, none, some, List, get_elem?, [], ◌∷◌, ◌++◌,
}
use c_practice.Base.Counting.{count}
use c_practice.ThreadPool.{
  Pool, Event, Step, Run, holding, running, ended, destroyed, new_pool, submit, destroy, pop,
  submitted, taken, started, start_task, starts, submits, destroys, joins, leaves, looks, pops,
  runs, stay, next,
}
use c_practice.ThreadPool.Tasks.{submitted_in, taken_in, started_in, Run-queue}
use c_practice.ThreadPool.Joins.{destroy-Step}

abbrev events : List (Event ℕ)
events = submitted 8 ∷ submitted 9 ∷ taken 8 ∷ started 8 ∷ []

abbrev end_pool : Pool ℕ
end_pool = record { done = true; work_queue = 9 ∷ []; threads = ended ∷ []; owner = destroyed }

pool-Run : Run (new_pool 1 false) events end_pool
unfolding submit destroy pop start_task
pool-Run = next (submits 8 refl) (
    next (submits 9 refl) (
      next (looks 0 refl) (
        next (pops 0 refl) (
          next (starts 0 8 refl) (
            next (destroys refl) (
              next (runs 0 8 refl) (
                next (looks 0 refl)
                  (next (joins 0 refl refl) (next (leaves 1 refl refl) stay)))))))))

Run-queue_example :
    ([] ++ submitted_in events ≡ taken_in events ++ end_pool.work_queue)
    × ((test : ℕ → Bool) → 0 + count test (taken_in events) ≡ count test (started_in events) + 0)
    × ((t task : ℕ)
        → get_elem? end_pool.threads t ≡ some (holding task)
        → (s'' : Pool ℕ) × Step end_pool (some (started task)) s''
          × (get_elem? s''.threads t ≡ some (running task)))
Run-queue_example = Run-queue (new_pool 1 false) end_pool events pool-Run

destroy-Step_example : ¬ Step end_pool none end_pool
destroy-Step_example = destroy-Step 1 false end_pool end_pool events none pool-Run refl
