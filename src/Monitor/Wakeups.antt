-- ===== src/Monitor/Wakeups.antt =====
-- No thread sleeps while there is something for it to take and no woken thread is still to look: a class that notifies once for
-- every element that it adds, and whose waiting calls take one each.
use c_practice.Base.{
  ℕ, ◌+◌, ◌≤◌, ◌≡◌, ◌≢◌, refl, Bool, true, false, ◌⊎◌, inl, inr, some, List, arith, get_elem?, set,
}
use c_practice.Base.Counting.{one, count, count-set}
use c_practice.Monitor.{
  gives, raises, Class, Point, State, Step, Trace, is_resting, is_sleeping, is_awake,
}
use c_practice.Monitor.Defined.{Defined}

module _ {S Call Wait Answer : Type 0} where
  pub record Notifying (class : Class S Call Wait Answer) : Type 0 where
    pub size : S → ℕ
    pub waits_at_none : (x : S) → class.ready x ≡ false → size x ≡ 0
    pub body_grows :
        (c : Call) (ok n : Bool) (a : Answer) (x y : S)
        → class.body c ok x ≡ some (a, y, n)
        → size y ≤ size x + one n
    pub rest_takes :
        (w : Wait) (ok : Bool) (a : Answer) (x y : S)
        → class.rest w ok x ≡ gives a y
        → size y + 1 ≤ size x
    pub rest_returns :
        (w : Wait) (ok : Bool) (x : S) → class.ready x ≡ true → class.rest w ok x ≢ raises
    pub rest_defined : Defined class

  module _ {class : Class S Call Wait Answer} (laws : Notifying class) where
    -- Nobody sleeps, or for each element somebody was woken who has not looked yet.
    abbrev pub NoneLost : State S Call Wait Answer → Type 0
    NoneLost s =
        (count is_sleeping s.threads ≡ 0) ⊎ (laws.size s.contents ≤ count is_awake s.threads)

    resting :
        (p : Point Call Wait Answer)
        → is_resting p ≡ true
        → (one (is_sleeping p) ≡ 0) × (one (is_awake p) ≡ 0)
    resting Point.idle e = (refl, refl)
    resting (Point.returned a) e = (refl, refl)
    resting Point.threw e = (refl, refl)
    resting Point.broken e = absurd (cc)
    resting (Point.locking c) e = absurd (cc)
    resting (Point.running c) e = absurd (cc)
    resting (Point.entering c) e = absurd (cc)
    resting (Point.checking b c) e = absurd (cc)
    resting (Point.sleeping c) e = absurd (cc)
    resting (Point.woken c) e = absurd (cc)

    -- A thread moves from `p` to `q`.
    moves :
        (ps : List (Point Call Wait Answer)) (t : ℕ) (p q : Point Call Wait Answer)
        → get_elem? ps t ≡ some p
        → (count is_sleeping (set ps t q) + one (is_sleeping p)
            ≡ count is_sleeping ps + one (is_sleeping q))
          × (count is_awake (set ps t q) + one (is_awake p) ≡ count is_awake ps + one (is_awake q))
    moves ps t p q here = (count-set is_sleeping ps t p q here, count-set is_awake ps t p q here)

    step-NoneLost :
        (s s' : State S Call Wait Answer) (e : _) → Step class s e s' → NoneLost s → NoneLost s'
    step-NoneLost s s' e (Step.calls t p c here rest) inv =
        let m = moves s.threads t p (Point.locking c) here in let r = resting p rest in ground arith
    step-NoneLost s s' e (Step.calls_wait t p w here rest) inv =
        let m = moves s.threads t p (Point.entering w) here in
        let r = resting p rest in ground arith
    step-NoneLost s s' e (Step.locks t c here _) inv =
        let m = moves s.threads t (Point.locking c) (Point.running c) here in ground arith
    step-NoneLost s s' e (Step.enters t w here _) inv =
        let m = moves s.threads t (Point.entering w) (Point.checking false w) here in ground arith
    step-NoneLost s s' e (Step.relocks t w here _) inv =
        let m = moves s.threads t (Point.woken w) (Point.checking true w) here in ground arith
    step-NoneLost s s' e (Step.returns t c ok a x here b) inv =
        let m = moves s.threads t (Point.running c) (Point.returned a) here in
        let g = laws.body_grows c ok false a s.contents x b in ground arith
    step-NoneLost s s' e (Step.notifies_none t c ok a x here b nobody) inv =
        let m = moves s.threads t (Point.running c) (Point.returned a) here in inl (omega arith)
    step-NoneLost s s' e (Step.notifies t u c w ok a x here b there) inv =
        let m = moves s.threads t (Point.running c) (Point.returned a) here in
        let n =
          moves (set s.threads t (Point.returned a)) u (Point.sleeping w) (Point.woken w) there in
        let g = laws.body_grows c ok true a s.contents x b in ground arith
    step-NoneLost s s' e (Step.throws t c ok here _) inv =
        let m = moves s.threads t (Point.running c) Point.threw here in ground arith
    step-NoneLost s s' e (Step.sleeps t slept w here out) inv =
        let none_left = laws.waits_at_none s.contents out in inr (omega arith)
    step-NoneLost s s' e (Step.passes t true w ok a x here _ r) inv =
        let m = moves s.threads t (Point.checking true w) (Point.returned a) here in
        let g = laws.rest_takes w ok a s.contents x r in ground arith
    step-NoneLost s s' e (Step.passes t false w ok a x here _ r) inv =
        let m = moves s.threads t (Point.checking false w) (Point.returned a) here in
        let g = laws.rest_takes w ok a s.contents x r in ground arith
    step-NoneLost s s' e (Step.throws_after t slept w ok here ready r) inv =
        absurd (laws.rest_returns w ok s.contents ready r)
    step-NoneLost s s' e (Step.breaks t slept w ok here ready r) inv =
        absurd (laws.rest_defined w ok s.contents ready r)
    step-NoneLost s s' e (Step.wakes t w here) inv =
        let m = moves s.threads t (Point.sleeping w) (Point.woken w) here in ground arith

    pub Trace-NoneLost :
        (s s' : State S Call Wait Answer) (es : _) → Trace class s es s' → NoneLost s → NoneLost s'
    Trace-NoneLost s s' es Trace.stop inv = inv
    Trace-NoneLost s s' es (Trace.go step more) inv =
        Trace-NoneLost _ s' _ more (step-NoneLost s _ _ step inv)
