-- ===== src/Monitor/Replay.antt =====
-- What many threads did, replayed by one: the calls that returned, in the order of their effects.
use c_practice.Base.{◌≡◌, refl, Bool, true, false, Option, some, List, [], ◌∷◌}
use c_practice.Monitor.{gives, Class, State, Event, Step, Trace, note}

pub record Sequential (S Call Wait Answer : Type 0) : Type 0 where
  pub now : Call → S → Answer × S
  pub after : Wait → S → Option (Answer × S)

module _ {S Call Wait Answer : Type 0} where
  pub record Implements (class : Class S Call Wait Answer) (spec : Sequential S Call Wait Answer)
      : Type 0 where
    pub body_ok :
        (c : Call) (ok notifies : Bool) (a : Answer) (x y : S)
        → class.body c ok x ≡ some (a, y, notifies)
        → spec.now c x ≡ (a, y)
    pub rest_ok :
        (w : Wait) (ok : Bool) (a : Answer) (x y : S)
        → class.rest w ok x ≡ gives a y
        → spec.after w x ≡ some (a, y)

  -- One user who makes the calls in this order gets the same answers, and ends with `y`.
  abbrev pub Replay : Sequential S Call Wait Answer → List (Event Call Wait Answer) → S → S → Type 0
  Replay spec [] x y = x ≡ y
  Replay spec (Event.called c a ∷ es) x y = (z : S) × (spec.now c x ≡ (a, z)) × Replay spec es z y
  Replay spec (Event.waited w a ∷ es) x y =
      (z : S) × (spec.after w x ≡ some (a, z)) × Replay spec es z y

  module _ (class : Class S Call Wait Answer) (spec : Sequential S Call Wait Answer)
      (right : Implements class spec) where
    step-Replay :
        (s s' : State S Call Wait Answer) (e : _) (es : _) (y : S)
        → Step class s e s'
        → Replay spec es s'.contents y
        → Replay spec (note e es) s.contents y
    step-Replay s s' e es y (Step.calls t p c _ _) rest = rest
    step-Replay s s' e es y (Step.calls_wait t p w _ _) rest = rest
    step-Replay s s' e es y (Step.locks t c _ _) rest = rest
    step-Replay s s' e es y (Step.enters t w _ _) rest = rest
    step-Replay s s' e es y (Step.relocks t w _ _) rest = rest
    step-Replay s s' e es y (Step.returns t c ok a x at b) rest =
        (x, right.body_ok c ok false a s.contents x b, rest)
    step-Replay s s' e es y (Step.notifies_none t c ok a x at b _) rest =
        (x, right.body_ok c ok true a s.contents x b, rest)
    step-Replay s s' e es y (Step.notifies t u c w ok a x at b _) rest =
        (x, right.body_ok c ok true a s.contents x b, rest)
    step-Replay s s' e es y (Step.throws t c ok _ _) rest = rest
    step-Replay s s' e es y (Step.sleeps t slept w _ _) rest = rest
    step-Replay s s' e es y (Step.passes t slept w ok a x at _ r) rest =
        (x, right.rest_ok w ok a s.contents x r, rest)
    step-Replay s s' e es y (Step.throws_after t slept w ok _ _ _) rest = rest
    step-Replay s s' e es y (Step.breaks t slept w ok _ _ _) rest = rest
    step-Replay s s' e es y (Step.wakes t w _) rest = rest

    pub Trace-Replay :
        (s s' : State S Call Wait Answer) (es : _)
        → Trace class s es s'
        → Replay spec es s.contents s'.contents
    Trace-Replay s s' es Trace.stop = refl
    Trace-Replay s s' es (Trace.go step more) =
        step-Replay s _ _ _ s'.contents step (Trace-Replay _ s' _ more)
