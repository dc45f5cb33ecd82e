-- ===== src/Swap/Deadlock.antt =====
-- Without `std::lock` two threads that swap in opposite order block one another.
use mathlib.Core.Path.{subst}
use c_practice.Base.{
  ℕ, suc, ◌≡◌, ◌≢◌, refl, sym, ap, ◌∙◌, false, List, [], ◌∷◌, length, length-append, ◌++◌, arith,
}
use c_practice.Base.Counting.{count}
use c_practice.Swap.{
  Place, outside, left, both, unlocking, Thread, holds_at, holds, Move, Step, Run,
}

-- `mswap(x1, x2, count, …)` or `mswap(x2, x1, count, …)`, with at least one call to come
abbrev pub swapper : (lhs rhs more : ℕ) → Place → Thread
swapper lhs rhs more place = record { lhs = lhs; rhs = rhs; rounds = suc more; place = place }

abbrev pub two : (a b i j : ℕ) → Place → List Thread
two a b i j place = swapper a b i place ∷ swapper b a j place ∷ []

stuck :
    (s : List Thread) (t u : Thread)
    → t.place ≡ left
    → count (holds t.rhs) s ≢ 0
    → Move s false t u
    → ⊥
stuck s t u at taken (Move.same_object n out more same) =
    absurd (let e : left ≡ outside = sym at ∙ out in cc)
stuck s t u at taken (Move.locks_left n out more other free) =
    absurd (let e : left ≡ outside = sym at ∙ out in cc)
stuck s t u at taken (Move.then_right at' free) = taken free
stuck s t u at taken (Move.unlocks_right out) = absurd (let e : left ≡ both = sym at ∙ out in cc)
stuck s t u at taken (Move.unlocks_left out) =
    absurd (let e : left ≡ unlocking = sym at ∙ out in cc)

module _ (a b i j : ℕ) (other : a ≢ b) where
  taken_left : count (holds a) (two a b i j left) ≢ 0
  unfolding holds_at
  taken_left = ground arith

  taken_right : count (holds b) (two a b i j left) ≢ 0
  unfolding holds_at
  taken_right = ground arith

  never_moves :
      (before after : List Thread) (t u : Thread)
      → two a b i j left ≡ before ++ (t ∷ after)
      → Move (two a b i j left) false t u
      → ⊥
  never_moves [] after t u e move =
      let same : swapper a b i left ≡ t = cc in
      subst (λ (v : Thread). Move (two a b i j left) false v u → ⊥) same
        (stuck (two a b i j left) (swapper a b i left) u refl taken_right) move
  never_moves (x ∷ []) after t u e move =
      let same : swapper b a j left ≡ t = cc in
      subst (λ (v : Thread). Move (two a b i j left) false v u → ⊥) same
        (stuck (two a b i j left) (swapper b a j left) u refl taken_left) move
  never_moves (x ∷ y ∷ before) after t u e move =
      let n = ap length e in let l = length-append before (t ∷ after) in absurd (omega arith)

  never : (s' : List Thread) → Step false (two a b i j left) s' → ⊥
  never s' (Step.moves before after t u e move e') = never_moves before after t u e move

  free_then : count (holds b) (swapper a b i left ∷ swapper b a j outside ∷ []) ≡ 0
  unfolding holds_at
  free_then = ground arith

  reaches_both_left : Run false (two a b i j outside) (two a b i j left)
  unfolding holds_at
  reaches_both_left =
      Run.go
        (Run.go Run.stop (
          Step.moves [] (swapper b a j outside ∷ []) (swapper a b i outside) (swapper a b i left)
            refl (Move.locks_left i refl refl other refl) refl))
        (Step.moves (swapper a b i left ∷ []) [] (swapper b a j outside) (swapper b a j left) refl
          (Move.locks_left j refl refl (λ e. other (sym e)) free_then) refl)

  -- Without std::lock, two threads that have calls to make on two objects, in opposite order, can
  -- come to a state in which no thread can ever do anything.
  pub run-Deadlocked :
      (s : List Thread) × Run false (two a b i j outside) s
      × ((s' : List Thread) → ¬ Step false s s')
  run-Deadlocked = (two a b i j left, reaches_both_left, λ s' step. never s' step)
