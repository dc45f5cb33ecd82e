-- ===== src/Monitor/Defined.antt =====
-- Threads of Monitor that never come to undefined behaviour: where `ready` holds, the rest of a waiting
-- call has a meaning.
use c_practice.Base.{ℕ, ◌≡◌, ◌≢◌, refl, Bool, true, false, some, List, arith, get_elem?, set}
use c_practice.Base.Counting.{count, count-set, one}
use c_practice.Monitor.{undefined, Class, Point, State, Step, Trace, is_broken}

module _ {Call Wait Answer : Type 0} where
  -- A thread moves to `q`, which is no undefined behaviour.
  moves :
      (ps : List (Point Call Wait Answer)) (t : ℕ) (p q : Point Call Wait Answer)
      → get_elem? ps t ≡ some p
      → is_broken q ≡ false
      → count is_broken ps ≡ 0
      → count is_broken (set ps t q) ≡ 0
  moves ps t p q here fine none_broken =
      let n = count-set is_broken ps t p q here in
      let z : one (is_broken q) ≡ 0 = rw fine refl in omega arith

module _ {S Call Wait Answer : Type 0} where
  abbrev pub Defined : Class S Call Wait Answer → Type 0
  Defined class =
      (w : Wait) (ok : Bool) (x : S) → class.ready x ≡ true → class.rest w ok x ≢ undefined

  module _ (class : Class S Call Wait Answer) (defined : Defined class) where
    step-unbroken :
        (s s' : State S Call Wait Answer) (e : _)
        → Step class s e s'
        → count is_broken s.threads ≡ 0
        → count is_broken s'.threads ≡ 0
    step-unbroken s s' e (Step.calls t p c here rest) h = moves _ t p _ here refl h
    step-unbroken s s' e (Step.calls_wait t p w here rest) h = moves _ t p _ here refl h
    step-unbroken s s' e (Step.locks t c here _) h = moves _ t _ _ here refl h
    step-unbroken s s' e (Step.enters t w here _) h = moves _ t _ _ here refl h
    step-unbroken s s' e (Step.relocks t w here _) h = moves _ t _ _ here refl h
    step-unbroken s s' e (Step.returns t c ok a x here b) h = moves _ t _ _ here refl h
    step-unbroken s s' e (Step.notifies_none t c ok a x here b _) h = moves _ t _ _ here refl h
    step-unbroken s s' e (Step.notifies t u c w ok a x here b there) h =
        moves _ u _ _ there refl (moves _ t _ _ here refl h)
    step-unbroken s s' e (Step.throws t c ok here _) h = moves _ t _ _ here refl h
    step-unbroken s s' e (Step.sleeps t slept w here out) h = moves _ t _ _ here refl h
    step-unbroken s s' e (Step.passes t slept w ok a x here _ r) h = moves _ t _ _ here refl h
    step-unbroken s s' e (Step.throws_after t slept w ok here ready r) h = moves _ t _ _ here refl h
    step-unbroken s s' e (Step.breaks t slept w ok here ready r) h =
        absurd (defined w ok s.contents ready r)
    step-unbroken s s' e (Step.wakes t w here) h = moves _ t _ _ here refl h

    pub Trace-unbroken :
        (s s' : State S Call Wait Answer) (es : _)
        → Trace class s es s'
        → count is_broken s.threads ≡ 0
        → count is_broken s'.threads ≡ 0
    Trace-unbroken s s' es Trace.stop h = h
    Trace-unbroken s s' es (Trace.go step more) h =
        Trace-unbroken _ s' _ more (step-unbroken s _ _ step h)
