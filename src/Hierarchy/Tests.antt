-- ===== src/Hierarchy/Tests.antt =====
-- Hierarchical mutexes at concrete values.
use c_practice.Base.{ℕ, zero, suc, ◌≡◌, refl, List, [], ◌∷◌}
use c_practice.Hierarchy.{lock, take_mutex, violated, blocked}
use c_practice.Hierarchy.Cycles.{
  Guard, begins, tries, ends, Chain, start, run_guards, run_guards-Chain,
}

-- The two mutexes of `main`: 42 and 2000.
abbrev values : ℕ → ℕ
values zero = 42
values (suc n) = 2000

-- `main` takes the lower one first, and the second guard throws.
lock-main : lock 0 1 (run_guards (begins 0 0 ∷ []) (start values)).0 ≡ violated
unfolding lock run_guards take_mutex
lock-main = refl

lock-other : lock 1 0 (run_guards (begins 0 1 ∷ begins 0 0 ∷ []) (start values)).0 ≡ blocked
unfolding lock run_guards take_mutex
lock-other = refl

abbrev guards : List Guard
guards = begins 0 1 ∷ tries 0 0 ∷ begins 1 0 ∷ ends 0 ∷ begins 1 0 ∷ []

run_guards-Chain_example : ¬ Chain (run_guards guards (start values)).0 0 0
run_guards-Chain_example = run_guards-Chain values guards 0
