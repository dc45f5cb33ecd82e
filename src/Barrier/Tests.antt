-- ===== src/Barrier/Tests.antt =====
-- Two threads meet once, and the second comes back before the first has looked.
use c_practice.Base.{refl, true, false, List, [], ◌∷◌, arith}
use c_practice.Barrier.{blocked, State, Event, entered, left, quiet, enter, Step, Trace}
use c_practice.Barrier.Openings.{closed, Balanced, Trace-Balanced}

abbrev met : List Event
met = left ∷ entered true ∷ entered false ∷ []

met-Trace : Trace 2 (closed 2) met (closed 2)
unfolding enter
met-Trace =
    Trace.go (Trace.go (Trace.go Trace.stop (Step.enters 0 refl)) (Step.enters 1 refl))
      (Step.leaves 0 refl refl)

-- Both threads are inside again, and only one of them was counted.
abbrev held : State
held = record { count = 1; places = blocked ∷ blocked ∷ [] }

held-Trace : Trace 2 (closed 2) (quiet ∷ entered false ∷ entered true ∷ entered false ∷ []) held
unfolding enter
held-Trace =
    Trace.go
      (Trace.go (Trace.go (Trace.go Trace.stop (Step.enters 0 refl)) (Step.enters 1 refl))
        (Step.enters 1 refl))
      (Step.blocks 0 refl (λ e. cc))

Trace-Balanced_example : Balanced 2 met (closed 2)
Trace-Balanced_example = Trace-Balanced 2 2 met (closed 2) (omega arith) met-Trace refl
