-- ===== src/ThreadPool.antt =====
-- C++11/Cpp-Concurrency-in-Action/chap9/9_1.cpp, `thread_pool`: workers that take tasks from a queue
-- until the pool is destroyed.
--
-- The queue is `thread_safe_queue`, whose calls are one step each here (Monitor.Queues shows why they
-- may be). The owner submits tasks and destroys the pool; a task that runs may submit more.
pub mod Tasks
pub mod Joins
mod Tests
use c_practice.Base.{
  ℕ, suc, ◌≡◌, Bool, true, false, Option, none, some, List, [], ◌∷◌, ◌++◌, get_elem?, set, length,
  replicate,
}

-- A worker tests `done`, tries to pop, has popped a task, runs a task, or has returned.
pub data Worker (Task : Type 0) : Type 0 where
  looking : Worker Task
  popping : Worker Task
  holding : Task → Worker Task
  running : Task → Worker Task
  ended : Worker Task

-- The owner uses the pool, joins worker `k` in the destructor, or has left it.
pub data Owner : Type 0 where
  owning : Owner
  joining : ℕ → Owner
  destroyed : Owner

pub record Pool (Task : Type 0) : Type 0 where
  pub done : Bool
  pub work_queue : List Task
  pub threads : List (Worker Task)
  pub owner : Owner

pub data Event (Task : Type 0) : Type 0 where
  submitted : Task → Event Task
  taken : Task → Event Task
  started : Task → Event Task

module _ {Task : Type 0} where
  -- The pool after its constructor, which made `thread_count` threads, or fewer and then failed.
  abbrev pub new_pool : (thread_count : ℕ) → (fails : Bool) → Pool Task
  new_pool thread_count fails = record {
    done = fails;
    work_queue = [];
    threads = replicate thread_count looking;
    owner = owning;
  }

  unfoldable pub submit : Task → Pool Task → Pool Task
  submit f s = record s { work_queue = s.work_queue ++ (f ∷ []) }

  -- The destructor, up to its first `join`
  unfoldable pub destroy : Pool Task → Pool Task
  destroy s = record s { done = true; owner = joining 0 }

  abbrev pub works : ℕ → Worker Task → Pool Task → Pool Task
  works t w s = record s { threads = set s.threads t w }

  -- `while(!done)`
  abbrev pub look : Bool → Worker Task
  look true = ended
  look false = popping

  -- `if(work_queue.try_pop(task))`
  unfoldable pub pop : ℕ → List Task → Pool Task → Pool Task
  pop t [] s = works t looking s
  pop t (task ∷ q) s = record (works t (holding task) s) { work_queue = q }

  abbrev pub popped : List Task → Option (Event Task)
  popped [] = none
  popped (task ∷ q) = some (taken task)

  -- `task()`
  unfoldable pub start_task : ℕ → Task → Pool Task → Pool Task
  start_task t task s = works t (running task) s

  pub data Step : Pool Task → Option (Event Task) → Pool Task → Type 0 where
    submits :
        {s : Pool Task} (f : Task) → s.owner ≡ owning → Step s (some (submitted f)) (submit f s)
    task_submits :
        {s : Pool Task} (t : ℕ) (f task : Task)
        → get_elem? s.threads t ≡ some (running task)
        → Step s (some (submitted f)) (submit f s)
    destroys : {s : Pool Task} → s.owner ≡ owning → Step s none (destroy s)
    joins :
        {s : Pool Task} (k : ℕ)
        → s.owner ≡ joining k
        → get_elem? s.threads k ≡ some ended
        → Step s none (record s { owner = joining (suc k) })
    leaves :
        {s : Pool Task} (k : ℕ)
        → s.owner ≡ joining k
        → get_elem? s.threads k ≡ none
        → Step s none (record s { owner = destroyed })
    looks :
        {s : Pool Task} (t : ℕ)
        → get_elem? s.threads t ≡ some looking
        → Step s none (works t (look s.done) s)
    pops :
        {s : Pool Task} (t : ℕ)
        → get_elem? s.threads t ≡ some popping
        → Step s (popped s.work_queue) (pop t s.work_queue s)
    starts :
        {s : Pool Task} (t : ℕ) (task : Task)
        → get_elem? s.threads t ≡ some (holding task)
        → Step s (some (started task)) (start_task t task s)
    runs :
        {s : Pool Task} (t : ℕ) (task : Task)
        → get_elem? s.threads t ≡ some (running task)
        → Step s none (works t looking s)

  abbrev pub note : Option (Event Task) → List (Event Task) → List (Event Task)
  note none es = es
  note (some e) es = e ∷ es

  pub data Run : Pool Task → List (Event Task) → Pool Task → Type 0 where
    stay : {s : Pool Task} → Run s [] s
    next :
        {s s' s'' : Pool Task} {e : _} {es : _}
        → Step s e s'
        → Run s' es s''
        → Run s (note e es) s''
