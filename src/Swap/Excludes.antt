-- ===== src/Swap/Excludes.antt =====
-- No mutex is ever held by two threads.
use c_practice.Base.{
  ℕ, ◌+◌, ◌≤◌, ◌≡◌, ap, ◌∙◌, ◌⊎◌, inl, inr, Bool, true, false, List, ◌∷◌, ◌++◌, arith, Bool-cases,
  ◌==◌, ==_iff,
}
use c_practice.Base.Counting.{one, count, count-append}
use c_practice.Swap.{Thread, holds_at, holds, Move, Step, Run}

free_of :
    (m a : ℕ) (s : List Thread) → (m == a) ≡ true → count (holds a) s ≡ 0 → count (holds m) s ≡ 0
free_of m a s same free =
    let e : m ≡ a = (==_iff m a).0 same in ap (λ n. count (holds n) s) e ∙ free

-- What a move takes was free.
Move-holds :
    (s : List Thread) (b : Bool) (t u : Thread) (m : ℕ)
    → Move s b t u
    → (one (holds m u) ≤ one (holds m t)) ⊎ (count (holds m) s ≡ 0)
unfolding holds_at
Move-holds s b t u m (Move.same_object n at more same) = inl (omega arith)
Move-holds s b t u m (Move.locks_left n at more other free) = elim (Bool-cases (m == t.lhs)) [
  | inl same ↦ inr (free_of m t.lhs s same free)
  | inr differs ↦ inl (ground arith)
]
Move-holds s b t u m (Move.locks_right n at more other free) = elim (Bool-cases (m == t.rhs)) [
  | inl same ↦ inr (free_of m t.rhs s same free)
  | inr differs ↦ inl (ground arith)
]
Move-holds s b t u m (Move.then_right at free) = elim (Bool-cases (m == t.rhs)) [
  | inl same ↦ inr (free_of m t.rhs s same free)
  | inr differs ↦ inl (ground arith)
]
Move-holds s b t u m (Move.then_left at free) = elim (Bool-cases (m == t.lhs)) [
  | inl same ↦ inr (free_of m t.lhs s same free)
  | inr differs ↦ inl (ground arith)
]
Move-holds s b t u m (Move.gives_up_left at taken) = inl (ground arith)
Move-holds s b t u m (Move.gives_up_right at taken) = inl (ground arith)
Move-holds s b t u m (Move.unlocks_right at) = inl (ground arith)
Move-holds s b t u m (Move.unlocks_left at) = inl (ground arith)

-- How many threads hold a mutex before and after a step.
changed :
    (m : ℕ) (before after : List Thread) (t u : Thread)
    → count (holds m) (before ++ (u ∷ after)) + one (holds m t)
      ≡ count (holds m) (before ++ (t ∷ after)) + one (holds m u)
changed m before after t u =
    let l = count-append (holds m) before (t ∷ after) in
    let r = count-append (holds m) before (u ∷ after) in omega arith

one_bound : (b : Bool) → one b ≤ 1
one_bound true = omega arith
one_bound false = omega arith

step-Excludes :
    (b : Bool) (m : ℕ) (s s' : List Thread)
    → Step b s s'
    → count (holds m) s ≤ 1
    → count (holds m) s' ≤ 1
step-Excludes b m s s' (Step.moves before after t u e move e') single =
    let c = changed m before after t u in
    let l = ap (count (holds m)) e in
    let r = ap (count (holds m)) e' in
    let bound = one_bound (holds m u) in
    elim (Move-holds s b t u m move) [ inl fewer ↦ omega arith | inr free ↦ omega arith ]

-- From threads of which no two hold the same mutex: however they go on, with std::lock or without, no
-- two threads hold the same mutex.
pub run-Excludes :
    (b : Bool) (m : ℕ) (s s' : List Thread)
    → Run b s s'
    → count (holds m) s ≤ 1
    → count (holds m) s' ≤ 1
run-Excludes b m s s' Run.stop single = single
run-Excludes b m s s' (Run.go run step) single =
    step-Excludes b m _ s' step (run-Excludes b m s _ run single)
