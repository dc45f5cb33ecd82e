-- ===== src/ThreadPool/Joins.antt =====
-- Once the destructor is over, no thread of the pool is left to do anything.
use mathlib.Core.Path.{subst}
use c_practice.Base.{
  ℕ, zero, suc, ◌<◌, ◌≡◌, ◌≢◌, refl, sym, ap, ◌∙◌, Option, none, some, List, [], ◌∷◌, arith,
  get_elem?, set, get_elem?-set_ne, Bool, true, false, Bool-cases, inl, inr, ◌==◌,
}
use c_practice.ThreadPool.{
  Worker, Owner, Pool, Step, Run, looking, popping, holding, running, ended, owning, joining,
  destroyed, new_pool, submit, destroy, pop, start_task, look, submits, task_submits, destroys,
  joins, leaves, looks, pops, starts, runs, stay, next,
}

module _ {Task : Type 0} where
  -- The workers that the owner has joined have returned.
  abbrev pub Joined : Owner → List (Worker Task) → Type 0
  Joined owning ws = Unit
  Joined (joining k) ws = (i : ℕ) → i < k → get_elem? ws i ≡ some ended
  Joined destroyed ws = (i : ℕ) (w : Worker Task) → get_elem? ws i ≡ some w → w ≡ ended

  is_ended : Option (Worker Task) → Bool
  is_ended (some ended) = true
  is_ended w = false

  before_none :
      (ws : List (Worker Task)) (i k : ℕ) (w : Worker Task)
      → get_elem? ws k ≡ none
      → get_elem? ws i ≡ some w
      → i < k
  before_none [] i k w out there = absurd (cc)
  before_none (v ∷ ws) i zero w out there = absurd (cc)
  before_none (v ∷ ws) zero (suc k) w out there = omega arith
  before_none (v ∷ ws) (suc i) (suc k) w out there =
      let lt = before_none ws i k w out there in omega arith

  -- A worker that has not returned goes on.
  works-Joined :
      (owner : Owner) (ws : List (Worker Task)) (t : ℕ) (p q : Worker Task)
      → get_elem? ws t ≡ some p
      → is_ended (some p) ≡ false
      → Joined owner ws
      → Joined owner (set ws t q)
  unfolding is_ended
  works-Joined owning ws t p q here going all = tt
  works-Joined (joining k) ws t p q here going all = λ i lt.
      let other : t ≢ i = λ same.
        let e : some p ≡ some ended = sym here ∙ ap (get_elem? ws) same ∙ all i lt in
        let f : false ≡ true = sym going ∙ ap is_ended e in absurd (cc) in
      get_elem?-set_ne ws q other ∙ all i lt
  works-Joined destroyed ws t p q here going all =
      let f : false ≡ true = sym going ∙ ap (λ w. is_ended (some w)) (all t p here) in absurd (cc)

  pop-Joined :
      (s : Pool Task) (t : ℕ) (q : List Task)
      → get_elem? s.threads t ≡ some popping
      → Joined s.owner s.threads
      → Joined (pop t q s).owner (pop t q s).threads
  unfolding pop is_ended
  pop-Joined s t [] here all = works-Joined s.owner s.threads t popping looking here refl all
  pop-Joined s t (f ∷ q) here all =
      works-Joined s.owner s.threads t popping (holding f) here refl all

  step-Joined :
      (s s' : Pool Task) (e : _)
      → Step s e s'
      → Joined s.owner s.threads
      → Joined s'.owner s'.threads
  unfolding submit destroy start_task is_ended
  step-Joined s s' e (submits f _) all = all
  step-Joined s s' e (task_submits t f task _) all = all
  step-Joined s s' e (destroys _) all = λ i lt. elim lt [ ]
  step-Joined s s' e (joins k at here) all =
      let joined = subst (λ o. Joined o s.threads) at all in
      λ i lt. elim (Bool-cases (i == k)) [
        | inl same ↦ let e : i ≡ k = ground arith in ap (get_elem? s.threads) e ∙ here
        | inr other ↦ joined i (ground arith)
      ]
  step-Joined s s' e (leaves k at out) all =
      let joined = subst (λ o. Joined o s.threads) at all in
      λ i w there.
        let e : some w ≡ some ended =
          sym there ∙ joined i (before_none s.threads i k w out there) in
        cc
  step-Joined s s' e (looks t here) all =
      works-Joined s.owner s.threads t looking (look s.done) here refl all
  step-Joined s s' e (pops t here) all = pop-Joined s t s.work_queue here all
  step-Joined s s' e (starts t task here) all =
      works-Joined s.owner s.threads t (holding task) (running task) here refl all
  step-Joined s s' e (runs t task here) all =
      works-Joined s.owner s.threads t (running task) looking here refl all

  Run-Joined :
      (s s' : Pool Task) (es : _)
      → Run s es s'
      → Joined s.owner s.threads
      → Joined s'.owner s'.threads
  Run-Joined s s' es stay all = all
  Run-Joined s s' es (next step more) all = Run-Joined _ s' _ more (step-Joined s _ _ step all)

  nothing_left :
      (s s' : Pool Task) (e : _) → s.owner ≡ destroyed → Joined destroyed s.threads → ¬ Step s e s'
  nothing_left s s' e over all (submits f at) =
      absurd (let x : destroyed ≡ owning = sym over ∙ at in cc)
  nothing_left s s' e over all (task_submits t f task here) =
      absurd (let x = all t (running task) here in cc)
  nothing_left s s' e over all (destroys at) =
      absurd (let x : destroyed ≡ owning = sym over ∙ at in cc)
  nothing_left s s' e over all (joins k at _) =
      absurd (let x : destroyed ≡ joining k = sym over ∙ at in cc)
  nothing_left s s' e over all (leaves k at _) =
      absurd (let x : destroyed ≡ joining k = sym over ∙ at in cc)
  nothing_left s s' e over all (looks t here) = absurd (let x = all t looking here in cc)
  nothing_left s s' e over all (pops t here) = absurd (let x = all t popping here in cc)
  nothing_left s s' e over all (starts t task here) =
      absurd (let x = all t (holding task) here in cc)
  nothing_left s s' e over all (runs t task here) = absurd (let x = all t (running task) here in cc)

  -- Once the destructor of a thread_pool is over, whether or not its constructor failed, no thread
  -- of the pool and no task can do anything.
  pub destroy-Step :
      (thread_count : ℕ) (fails : Bool) (s s' : Pool Task) (es : _) (e : _)
      → Run (new_pool thread_count fails) es s
      → s.owner ≡ destroyed
      → ¬ Step s e s'
  destroy-Step thread_count fails s s' es e run over =
      let all = Run-Joined (new_pool thread_count fails) s es run tt in
      nothing_left s s' e over (subst (λ o. Joined o s.threads) over all)
