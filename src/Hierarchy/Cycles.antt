-- ===== src/Hierarchy/Cycles.antt =====
-- Threads that lock hierarchical mutexes by guards never wait for one another in a circle.
use c_practice.Base.{
  update, ℕ, ◌<◌, ◌≡◌, ◌≢◌, refl, none, some, List, [], ◌∷◌, arith, leb, Bool-cases, inl, inr,
}
use c_practice.Hierarchy.{
  State, Result, locked, violated, blocked, busy, ulong_max, new_mutex, lock, try_lock, unlock,
}
use c_practice.Hierarchy.Stacks.{Stack-le, Ordered, lock-Ordered, unlock-Ordered, try_lock-lock}

-- A thread locks a mutex by a guard, or tries to, or its latest guard ends.
pub data Guard : Type 0 where
  begins tries : (t m : ℕ) → Guard
  ends : ℕ → Guard

abbrev pub Stacks : Type 0
Stacks = ℕ → List ℕ

-- A lock that throws or blocks leaves everything as it is.
abbrev after_lock : Result → (t m : ℕ) → State × Stacks → State × Stacks
after_lock (locked s') t m (s, stacks) = (s', update stacks t (m ∷ stacks t))
after_lock violated t m now = now
after_lock blocked t m now = now
after_lock busy t m now = now

abbrev pop_stack : List ℕ → ℕ → State × Stacks → State × Stacks
pop_stack [] t now = now
pop_stack (m ∷ ms) t (s, stacks) = (unlock t m s, update stacks t ms)

abbrev guard_step : Guard → State × Stacks → State × Stacks
guard_step (begins t m) (s, stacks) = after_lock (lock t m s) t m (s, stacks)
guard_step (tries t m) (s, stacks) = after_lock (try_lock t m s) t m (s, stacks)
guard_step (ends t) (s, stacks) = pop_stack (stacks t) t (s, stacks)

unfoldable pub run_guards : List Guard → State × Stacks → State × Stacks
run_guards [] now = now
run_guards (g ∷ gs) now = run_guards gs (guard_step g now)

-- The program starts with mutexes of these values and nothing locked.
abbrev pub start : (ℕ → ℕ) → State × Stacks
start values =
    (record { mutex = λ m. new_mutex (values m); thread_value = λ t. ulong_max }, λ t. [])

after_lock-Ordered :
    (t m : ℕ) (s : State) (stacks : Stacks) (r : Result)
    → Ordered s stacks
    → lock t m s ≡ r
    → Ordered (after_lock r t m (s, stacks)).0 (after_lock r t m (s, stacks)).1
after_lock-Ordered t m s stacks (locked s') o e = lock-Ordered s s' stacks t m o e
after_lock-Ordered t m s stacks violated o e = o
after_lock-Ordered t m s stacks blocked o e = o
after_lock-Ordered t m s stacks busy o e = o

after_try-Ordered :
    (t m : ℕ) (s : State) (stacks : Stacks) (r : Result)
    → Ordered s stacks
    → try_lock t m s ≡ r
    → Ordered (after_lock r t m (s, stacks)).0 (after_lock r t m (s, stacks)).1
after_try-Ordered t m s stacks (locked s') o e =
    lock-Ordered s s' stacks t m o (try_lock-lock s s' t m e)
after_try-Ordered t m s stacks violated o e = o
after_try-Ordered t m s stacks blocked o e = o
after_try-Ordered t m s stacks busy o e = o

pop_stack-Ordered :
    (t : ℕ) (s : State) (stacks : Stacks) (ms : List ℕ)
    → Ordered s stacks
    → stacks t ≡ ms
    → Ordered (pop_stack ms t (s, stacks)).0 (pop_stack ms t (s, stacks)).1
pop_stack-Ordered t s stacks [] o e = o
pop_stack-Ordered t s stacks (m ∷ ms) o e = unlock-Ordered s stacks t m ms o e

run_guards-Ordered :
    (gs : List Guard) (s : State) (stacks : Stacks)
    → Ordered s stacks
    → Ordered (run_guards gs (s, stacks)).0 (run_guards gs (s, stacks)).1
unfolding run_guards
run_guards-Ordered [] s stacks o = o
run_guards-Ordered (begins t m ∷ gs) s stacks o =
    let r = lock t m s in
    run_guards-Ordered gs (after_lock r t m (s, stacks)).0 (after_lock r t m (s, stacks)).1
      (after_lock-Ordered t m s stacks r o refl)
run_guards-Ordered (tries t m ∷ gs) s stacks o =
    let r = try_lock t m s in
    run_guards-Ordered gs (after_lock r t m (s, stacks)).0 (after_lock r t m (s, stacks)).1
      (after_try-Ordered t m s stacks r o refl)
run_guards-Ordered (ends t ∷ gs) s stacks o =
    run_guards-Ordered gs (pop_stack (stacks t) t (s, stacks)).0
      (pop_stack (stacks t) t (s, stacks)).1 (pop_stack-Ordered t s stacks (stacks t) o refl)

start-Ordered : (values : ℕ → ℕ) → Ordered (start values).0 (start values).1
start-Ordered values = record {
  stack = λ t. refl;
  owned = λ m t e. absurd (let q : none ≡ some t = e in cc);
}

-- The owner of the first mutex can lock another one or waits for it in `lock`, the owner of that one
-- likewise, and so on to the last.
pub data Chain (s : State) : ℕ → ℕ → Type 0 where
  waits : {m t n : ℕ} → (s.mutex m).owner ≡ some t → lock t n s ≢ violated → Chain s m n
  further :
      {m t n k : ℕ} → (s.mutex m).owner ≡ some t → lock t n s ≢ violated → Chain s n k → Chain s m k

passed-lt :
    (s : State) (t n : ℕ) → lock t n s ≢ violated → (s.mutex n).hierarchy_value < s.thread_value t
unfolding lock
passed-lt s t n passed = elim (Bool-cases (leb (s.thread_value t) (s.mutex n).hierarchy_value)) [
  | inl bad ↦ absurd (passed (rw bad refl))
  | inr good ↦ ground arith
]

Chain-lt :
    {s : State} {stacks : Stacks} {m k : ℕ}
    → Ordered s stacks
    → Chain s m k
    → (s.mutex k).hierarchy_value < (s.mutex m).hierarchy_value
Chain-lt {s} {stacks} o (waits {m} {t} {n} own lt) = omega (
  arith,
  passed-lt s t n lt,
  Stack-le s.mutex t (s.thread_value t) m (stacks t) (o.stack t) (o.owned m t own),
)
Chain-lt {s} {stacks} o (further {m} {t} {n} {k} own lt chain) = omega (
  arith,
  passed-lt s t n lt,
  Chain-lt o chain,
  Stack-le s.mutex t (s.thread_value t) m (stacks t) (o.stack t) (o.owned m t own),
)

-- However threads lock, try to lock and unlock hierarchical mutexes by guards from the start, no
-- mutex leads back to itself along a chain in which lock, called by the owner of each for the
-- next, does not throw: the threads never wait in a circle.
pub run_guards-Chain :
    (values : ℕ → ℕ) (gs : List Guard) (m : ℕ) → ¬ Chain (run_guards gs (start values)).0 m m
run_guards-Chain values gs m chain = absurd (
    omega (
      arith,
      Chain-lt (run_guards-Ordered gs (start values).0 (start values).1 (start-Ordered values))
          chain,
    ))
