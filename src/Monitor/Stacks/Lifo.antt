-- ===== src/Monitor/Stacks/Lifo.antt =====
-- The two stacks answer as a stack with one user would.
use mathlib.Core.Path.{subst}
use c_practice.Base.{
  ◌++◌, ◌+◌, ap, arith, ℕ, ◌≡◌, refl, Bool, true, false, Option, none, some, List, [], ◌∷◌,
}
use c_practice.Base.Counting.{count, count-append}
use c_practice.Monitor.{State, Event}
use c_practice.Monitor.Locking.{is_inside, LockedTrace}
use c_practice.Monitor.Locking.Atomic.{trace-Trace, nobody-Guarded}
use c_practice.Monitor.Replay.{Implements, Replay, Trace-Replay}
use c_practice.Monitor.Stacks.{
  StackCall, StackAnswer, popped, push, pop, pop_value, empty, copy, threadsafe_stack,
  threadsafe_stack_body, printing_stack, printing_stack_body, lifo, lifo_now,
}

module _ {T : Type 0} where
  Says : {V : Type 0} → StackCall V T → List T → Option (StackAnswer T × List T × Bool) → Type 0
  Says c l none = Unit
  Says c l (some (a, l', n)) = lifo_now c l ≡ (a, l')

  threadsafe_stack-Says :
      (c : StackCall Unit T) (ok : Bool) (l : List T) → Says c l (threadsafe_stack_body c ok l)
  unfolding Says lifo_now threadsafe_stack_body
  threadsafe_stack-Says (push x) true l = refl
  threadsafe_stack-Says (push x) false l = tt
  threadsafe_stack-Says pop ok [] = refl
  threadsafe_stack-Says pop true (x ∷ l) = refl
  threadsafe_stack-Says pop false (x ∷ l) = tt
  threadsafe_stack-Says pop_value ok [] = refl
  threadsafe_stack-Says pop_value ok (x ∷ l) = refl
  threadsafe_stack-Says empty ok [] = refl
  threadsafe_stack-Says empty ok (x ∷ l) = refl
  threadsafe_stack-Says (copy u) true l = refl
  threadsafe_stack-Says (copy u) false l = tt

  printing_stack-Says :
      (c : StackCall ⊥ T) (ok : Bool) (l : List T) → Says c l (printing_stack_body c ok l)
  unfolding Says lifo_now printing_stack_body
  printing_stack-Says (push x) true l = refl
  printing_stack-Says (push x) false l = tt
  printing_stack-Says pop ok [] = refl
  printing_stack-Says pop true (x ∷ l) = refl
  printing_stack-Says pop false (x ∷ l) = tt
  printing_stack-Says pop_value ok [] = refl
  printing_stack-Says pop_value ok (x ∷ l) = refl
  printing_stack-Says empty ok [] = refl
  printing_stack-Says empty ok (x ∷ l) = refl
  printing_stack-Says (copy impossible) ok l = elim impossible [ ]

  -- The values that a history puts in, and those that it hands out.
  abbrev pub pushed_by : {V : Type 0} → StackCall V T → List T
  pushed_by (push x) = x ∷ []
  pushed_by c = []

  abbrev pub popped_in : StackAnswer T → List T
  popped_in (popped x) = x ∷ []
  popped_in a = []

  abbrev pub values_pushed : {V : Type 0} → List (Event (StackCall V T) ⊥ (StackAnswer T)) → List T
  values_pushed [] = []
  values_pushed (Event.called c a ∷ es) = pushed_by c ++ values_pushed es
  values_pushed (Event.waited w a ∷ es) = values_pushed es

  abbrev pub values_popped : {V : Type 0} → List (Event (StackCall V T) ⊥ (StackAnswer T)) → List T
  values_popped [] = []
  values_popped (Event.called c a ∷ es) = popped_in a ++ values_popped es
  values_popped (Event.waited w a ∷ es) = popped_in a ++ values_popped es

  answered : (T → Bool) → StackAnswer T × List T → ℕ
  answered test (a, l) = count test (popped_in a) + count test l

  lifo_now-kept :
      {V : Type 0} (test : T → Bool) (c : StackCall V T) (l l' : List T) (a : StackAnswer T)
      → lifo_now c l ≡ (a, l')
      → count test l + count test (pushed_by c) ≡ count test (popped_in a) + count test l'
  unfolding lifo_now answered
  lifo_now-kept test (push x) l l' a e = let k = ap (answered test) e in omega arith
  lifo_now-kept test pop [] l' a e = let k = ap (answered test) e in omega arith
  lifo_now-kept test pop (x ∷ l) l' a e = let k = ap (answered test) e in omega arith
  lifo_now-kept test pop_value [] l' a e = let k = ap (answered test) e in omega arith
  lifo_now-kept test pop_value (x ∷ l) l' a e = let k = ap (answered test) e in omega arith
  lifo_now-kept test empty [] l' a e = let k = ap (answered test) e in omega arith
  lifo_now-kept test empty (x ∷ l) l' a e = let k = ap (answered test) e in omega arith
  lifo_now-kept test (copy u) l l' a e = let k = ap (answered test) e in omega arith

  lifo_kept :
      {V : Type 0} (test : T → Bool) (es : List (Event (StackCall V T) ⊥ (StackAnswer T)))
      (l l' : List T)
      → Replay lifo es l l'
      → count test l + count test (values_pushed es) ≡ count test (values_popped es) + count test l'
  lifo_kept test [] l l' same = let k = ap (count test) same in omega arith
  lifo_kept test (Event.called c a ∷ es) l l' (z, e, more) =
      let first = lifo_now-kept test c l z a e in
      let rest = lifo_kept test es z l' more in
      let p = count-append test (pushed_by c) (values_pushed es) in
      let q = count-append test (popped_in a) (values_popped es) in omega arith
  lifo_kept test (Event.waited w a ∷ es) l l' (z, e, more) = elim w [ ]

  threadsafe_stack-Implements : Implements (threadsafe_stack {T = T}) lifo
  unfolding Says
  threadsafe_stack-Implements = record {
    body_ok = λ c ok n a x y e. subst (Says c x) e (threadsafe_stack-Says c ok x);
    rest_ok = λ w. elim w [ ];
  }

  printing_stack-Implements : Implements (printing_stack {T = T}) lifo
  unfolding Says
  printing_stack-Implements = record {
    body_ok = λ c ok n a x y e. subst (Says c x) e (printing_stack-Says c ok x);
    rest_ok = λ w. elim w [ ];
  }

  -- However the calls of any number of threads on a threadsafe_stack interleave, also between what
  -- a call reads when it takes the mutex and what it writes when it leaves it, from a state in
  -- which no thread is between the two, copies included and with failing allocations: one user who
  -- made the calls that returned, in the order in which they left the mutex, would get the same
  -- answers from a last in, first out stack, the exception on an empty one included, and end with
  -- the same contents; and what was pushed is what was handed out and what is in the stack, each
  -- once.
  pub threadsafe_stack-Replay :
      (s s' : State (List T) (StackCall Unit T) ⊥ (StackAnswer T)) (seen seen' : ℕ → List T)
      (es : _)
      → count is_inside s.threads ≡ 0
      → LockedTrace threadsafe_stack s seen es s' seen'
      → Replay lifo es s.contents s'.contents
        × ((test : T → Bool)
            → count test s.contents + count test (values_pushed es)
              ≡ count test (values_popped es) + count test s'.contents)
  threadsafe_stack-Replay s s' seen seen' es outside trace =
      let (steps, guarded) =
        trace-Trace threadsafe_stack s s' seen seen' es trace (nobody-Guarded s seen outside) in
      let replay = Trace-Replay threadsafe_stack lifo threadsafe_stack-Implements s s' es steps in
      (replay, λ test. lifo_kept test es s.contents s'.contents replay)

  printing_stack-Replay :
      (s s' : State (List T) (StackCall ⊥ T) ⊥ (StackAnswer T)) (seen seen' : ℕ → List T) (es : _)
      → count is_inside s.threads ≡ 0
      → LockedTrace printing_stack s seen es s' seen'
      → Replay lifo es s.contents s'.contents
  printing_stack-Replay s s' seen seen' es outside trace =
      Trace-Replay printing_stack lifo printing_stack-Implements s s' es
        (trace-Trace printing_stack s s' seen seen' es trace (nobody-Guarded s seen outside)).0
