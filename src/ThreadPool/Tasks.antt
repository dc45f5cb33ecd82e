-- ===== src/ThreadPool/Tasks.antt =====
-- Tasks are taken in the order in which they were submitted, and what is taken is started once.
use c_practice.Base.{
  ℕ, ◌+◌, ◌≡◌, refl, sym, ap, ◌∙◌, Bool, true, false, some, List, [], ◌∷◌, ◌++◌, append_nil, arith,
  get_elem?, set,
}
use c_practice.Base.Counting.{get_elem?-set_same, one, count, count-set}
use c_practice.Base.Buffer.{append_assoc}
use c_practice.ThreadPool.{
  Worker, Pool, Event, Step, Run, looking, popping, holding, running, submitted, taken, started,
  submit, destroy, pop, popped, start_task, look, note, submits, starts, task_submits, destroys,
  joins, leaves, looks, pops, runs, stay, next,
}

module _ {Task : Type 0} where
  abbrev pub submitted_in : List (Event Task) → List Task
  submitted_in [] = []
  submitted_in (submitted f ∷ es) = f ∷ submitted_in es
  submitted_in (taken f ∷ es) = submitted_in es
  submitted_in (started f ∷ es) = submitted_in es

  abbrev pub taken_in : List (Event Task) → List Task
  taken_in [] = []
  taken_in (submitted f ∷ es) = taken_in es
  taken_in (taken f ∷ es) = f ∷ taken_in es
  taken_in (started f ∷ es) = taken_in es

  abbrev pub started_in : List (Event Task) → List Task
  started_in [] = []
  started_in (submitted f ∷ es) = started_in es
  started_in (taken f ∷ es) = started_in es
  started_in (started f ∷ es) = f ∷ started_in es

  -- The queue `q` before `es` and the queue `q'` after them.
  Kept : List Task → List (Event Task) → List Task → Type 0
  Kept q es q' = q ++ submitted_in es ≡ taken_in es ++ q'

  Kept-submitted :
      (q q' : List Task) (f : Task) (es : List (Event Task))
      → Kept (q ++ (f ∷ [])) es q'
      → Kept q (submitted f ∷ es) q'
  unfolding Kept
  Kept-submitted q q' f es more = sym (append_assoc q (f ∷ []) (submitted_in es)) ∙ more

  Kept-pop :
      (t : _) (s : Pool Task) (q q' : List Task) (es : List (Event Task))
      → s.work_queue ≡ q
      → Kept (pop t q s).work_queue es q'
      → Kept q (note (popped q) es) q'
  unfolding Kept pop
  Kept-pop t s [] q' es same more = ap (λ r. r ++ submitted_in es) (sym same) ∙ more
  Kept-pop t s (f ∷ q) q' es same more = ap (◌∷◌ f) more

  step-Kept :
      (s s' : Pool Task) (e : _) (es : _) (q : List Task)
      → Step s e s'
      → Kept s'.work_queue es q
      → Kept s.work_queue (note e es) q
  unfolding submit destroy start_task Kept
  step-Kept s s' e es q (submits f _) more = Kept-submitted s.work_queue q f es more
  step-Kept s s' e es q (task_submits t f task _) more = Kept-submitted s.work_queue q f es more
  step-Kept s s' e es q (destroys _) more = more
  step-Kept s s' e es q (joins k _ _) more = more
  step-Kept s s' e es q (leaves k _ _) more = more
  step-Kept s s' e es q (looks t _) more = more
  step-Kept s s' e es q (pops t _) more = Kept-pop t s s.work_queue q es refl more
  step-Kept s s' e es q (starts t task _) more = more
  step-Kept s s' e es q (runs t task _) more = more

  -- Whether a worker has taken a task that passes the test, and has yet to start it.
  abbrev pub has_yet : (Task → Bool) → Worker Task → Bool
  has_yet test (holding f) = test f
  has_yet test w = false

  abbrev pub holders : (Task → Bool) → Pool Task → ℕ
  holders test s = count (has_yet test) s.threads

  Counted : (Task → Bool) → ℕ → List (Event Task) → ℕ → Type 0
  Counted test h es h' = h + count test (taken_in es) ≡ count test (started_in es) + h'

  -- A worker that holds no task before and none after.
  idle-Counted :
      (test : Task → Bool) (s : Pool Task) (t : ℕ) (p w : Worker Task) (es : _) (h : ℕ)
      → get_elem? s.threads t ≡ some p
      → has_yet test p ≡ false
      → has_yet test w ≡ false
      → Counted test (count (has_yet test) (set s.threads t w)) es h
      → Counted test (holders test s) es h
  unfolding Counted
  idle-Counted test s t p w es h here was is more =
      let l = count-set (has_yet test) s.threads t p w here in
      let a = ap one was in let b = ap one is in omega arith

  pop-Counted :
      (test : Task → Bool) (t : ℕ) (s : Pool Task) (q : List Task) (es : _) (h : ℕ)
      → get_elem? s.threads t ≡ some popping
      → Counted test (holders test (pop t q s)) es h
      → Counted test (holders test s) (note (popped q) es) h
  unfolding Counted pop
  pop-Counted test t s [] es h here more =
      let l = count-set (has_yet test) s.threads t popping looking here in omega arith
  pop-Counted test t s (f ∷ q) es h here more =
      let l = count-set (has_yet test) s.threads t popping (holding f) here in omega arith

  look-idle : (test : Task → Bool) (over : Bool) → has_yet test (look over) ≡ false
  look-idle test true = refl
  look-idle test false = refl

  step-Counted :
      (test : Task → Bool) (s s' : Pool Task) (e : _) (es : _) (h : ℕ)
      → Step s e s'
      → Counted test (holders test s') es h
      → Counted test (holders test s) (note e es) h
  unfolding submit destroy start_task Counted
  step-Counted test s s' e es h (submits f _) more = more
  step-Counted test s s' e es h (task_submits t f task _) more = more
  step-Counted test s s' e es h (destroys _) more = more
  step-Counted test s s' e es h (joins k _ _) more = more
  step-Counted test s s' e es h (leaves k _ _) more = more
  step-Counted test s s' e es h (looks t here) more =
      idle-Counted test s t looking (look s.done) es h here refl (look-idle test s.done) more
  step-Counted test s s' e es h (pops t here) more =
      pop-Counted test t s s.work_queue es h here more
  step-Counted test s s' e es h (starts t f here) more =
      let l = count-set (has_yet test) s.threads t (holding f) (running f) here in omega arith
  step-Counted test s s' e es h (runs t f here) more =
      idle-Counted test s t (running f) looking es h here refl refl more

  Run-Counted :
      (test : Task → Bool) (s s' : Pool Task) (es : _)
      → Run s es s'
      → Counted test (holders test s) es (holders test s')
  unfolding Counted
  Run-Counted test s s' es stay = omega arith
  Run-Counted test s s' es (next step more) =
      step-Counted test s _ _ _ (holders test s') step (Run-Counted test _ s' _ more)

  Run-Kept : (s s' : Pool Task) (es : _) → Run s es s' → Kept s.work_queue es s'.work_queue
  unfolding Kept
  Run-Kept s s' es stay = append_nil s.work_queue
  Run-Kept s s' es (next step more) = step-Kept s _ _ _ s'.work_queue step (Run-Kept _ s' _ more)

  -- However the owner, the workers and the tasks of a thread_pool interleave: what was in the
  -- queue and then submitted is what the workers took, once each and in that order, followed by
  -- what is in the queue; and of any kind, the tasks that workers held and then took are as many
  -- as those whose call was started and those that workers still hold; and each of these can be
  -- started next, by the worker that holds it.
  pub Run-queue :
      (s s' : Pool Task) (es : _)
      → Run s es s'
      → (s.work_queue ++ submitted_in es ≡ taken_in es ++ s'.work_queue)
        × ((test : Task → Bool)
            → holders test s + count test (taken_in es)
              ≡ count test (started_in es) + holders test s')
        × ((t : ℕ) (task : Task)
            → get_elem? s'.threads t ≡ some (holding task)
            → (s'' : Pool Task) × Step s' (some (started task)) s''
              × (get_elem? s''.threads t ≡ some (running task)))
  unfolding Kept Counted start_task
  Run-queue s s' es run = (
    Run-Kept s s' es run,
    λ test. Run-Counted test s s' es run,
    λ t task here. (
      start_task t task s',
      starts t task here,
      get_elem?-set_same s'.threads t (holding task) (running task) here,
    ),
  )
