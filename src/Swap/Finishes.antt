-- ===== src/Swap/Finishes.antt =====
-- With `std::lock` every state can still come to its end.
use mathlib.Core.Path.{subst}
use c_practice.Base.{
  ℕ, zero, suc, ◌-◌, ◌≡◌, ◌≢◌, refl, ap, ◌∙◌, inl, inr, Bool, true, false, List, [], ◌∷◌, map, ◌++◌,
  arith, Bool-cases, ◌==◌, ==_iff,
}
use c_practice.Base.Buffer.{append_assoc}
use c_practice.Base.Counting.{one, count, count-append}
use c_practice.Swap.{
  Place, outside, left, right, both, unlocking, Thread, holds_at, holds, goes, Move, Step, Run,
}

-- No thread is in `swap`.
abbrev AllOutside : List Thread → Type 0
AllOutside [] = Unit
AllOutside (t ∷ s) = (t.place ≡ outside) × AllOutside s

-- The thread has made all its calls.
abbrev pub finished : Thread → Thread
finished t = record t { rounds = 0; place = outside }

AllOutside-append : (s r : List Thread) → AllOutside s → AllOutside r → AllOutside (s ++ r)
AllOutside-append [] r os or = or
AllOutside-append (t ∷ s) r os or = (os.0, AllOutside-append s r os.1 or)

AllOutside-Free : (m : ℕ) (s : List Thread) → AllOutside s → count (holds m) s ≡ 0
unfolding holds_at
AllOutside-Free m [] os = refl
AllOutside-Free m (t ∷ s) os = let l = AllOutside-Free m s os.1 in rw (os.0, holds_at) (omega arith)

module _ {b : Bool} where
  run-run : (s u v : List Thread) → Run b s u → Run b u v → Run b s v
  run-run s u v r Run.stop = r
  run-run s u v r (Run.go q step) = Run.go (run-run s u _ r q) step

  -- One move of one thread.
  extend :
      (s before after : List Thread) (t u : Thread)
      → Run b s (before ++ (t ∷ after))
      → Move (before ++ (t ∷ after)) b t u
      → Run b s (before ++ (u ∷ after))
  extend s before after t u run move = Run.go run (Step.moves before after t u refl move refl)

  -- From the place with both mutexes on.
  unlocks :
      (s before after : List Thread) (t : Thread)
      → t.place ≡ both
      → Run b s (before ++ (t ∷ after))
      → Run b s (before ++ (record t { rounds = t.rounds - 1; place = outside } ∷ after))
  unlocks s before after t at run =
      extend s before after (goes t unlocking) _
        (extend s before after t (goes t unlocking) run (Move.unlocks_right at))
        (Move.unlocks_left refl)

-- What a thread came to by itself, outside of `swap`.
record Settled (before after : List Thread) (t : Thread) : Type 0 where
  later : Thread
  out : later.place ≡ outside
  same : finished later ≡ finished t
  run : Run true (before ++ (t ∷ after)) (before ++ (later ∷ after))

settled_both :
    (before after : List Thread) (t u : Thread)
    → u.place ≡ both
    → finished u ≡ finished t
    → Run true (before ++ (t ∷ after)) (before ++ (u ∷ after))
    → Settled before after t
settled_both before after t u at same run = record {
  later = record u { rounds = u.rounds - 1; place = outside };
  out = refl;
  same = same;
  run = unlocks (before ++ (t ∷ after)) before after u at run;
}

-- It takes the mutex that it still wants, or gives up.
settle :
    (before after : List Thread) (t : Thread) (p : Place) → t.place ≡ p → Settled before after t
settle before after t outside at = record { later = t; out = at; same = refl; run = Run.stop }
settle before after t left at =
    let s = before ++ (t ∷ after) in
    elim (Bool-cases (count (holds t.rhs) s == 0)) [
      | inl free ↦
          settled_both before after t (goes t both) refl refl
            (extend s before after t _ Run.stop (Move.then_right at ((==_iff _ 0).0 free)))
      | inr taken ↦ record {
        later = goes t outside;
        out = refl;
        same = refl;
        run = extend s before after t _ Run.stop (Move.gives_up_left at (ground arith));
      }
    ]
settle before after t right at =
    let s = before ++ (t ∷ after) in
    elim (Bool-cases (count (holds t.lhs) s == 0)) [
      | inl free ↦
          settled_both before after t (goes t both) refl refl
            (extend s before after t _ Run.stop (Move.then_left at ((==_iff _ 0).0 free)))
      | inr taken ↦ record {
        later = goes t outside;
        out = refl;
        same = refl;
        run = extend s before after t _ Run.stop (Move.gives_up_right at (ground arith));
      }
    ]
settle before after t both at = settled_both before after t t at refl Run.stop
settle before after t unlocking at = record {
  later = record t { rounds = t.rounds - 1; place = outside };
  out = refl;
  same = refl;
  run = extend (before ++ (t ∷ after)) before after t _ Run.stop (Move.unlocks_left at);
}

-- One thread after the other.
settle_all :
    (before s : List Thread)
    → (s' : List Thread) × AllOutside s'
      × (map finished s' ≡ map finished s)
      × Run true (before ++ s) (before ++ s')
settle_all before [] = ([], tt, refl, Run.stop)
settle_all before (t ∷ s) =
    let one_out = settle before s t t.place refl in
    let (s', os, same, run) = settle_all (before ++ (one_out.later ∷ [])) s in
    (
      one_out.later ∷ s',
      (one_out.out, os),
      ap (λ r. finished one_out.later ∷ r) same ∙ ap (λ u. u ∷ map finished s) one_out.same,
      run-run _ _ _ one_out.run (
          rw
            (
              append_assoc before (one_out.later ∷ []) s,
              append_assoc before (one_out.later ∷ []) s',
            )
            at run),
    )

module _ (before after : List Thread) (quiet : AllOutside before) (quiet' : AllOutside after) where
  Free-others :
      (m : ℕ) (t : Thread) → holds m t ≡ false → count (holds m) (before ++ (t ∷ after)) ≡ 0
  Free-others m t none_here =
      let l = count-append (holds m) before (t ∷ after) in
      let a = AllOutside-Free m before quiet in
      let b = AllOutside-Free m after quiet' in let c = ap one none_here in omega arith

  -- With all others outside, a thread makes its calls.
  finish :
      (n : ℕ) (t : Thread)
      → t.place ≡ outside
      → t.rounds ≡ n
      → Run true (before ++ (t ∷ after)) (before ++ (finished t ∷ after))
  unfolding holds_at
  finish zero t at none_left =
      let e : t ≡ finished t = ground arith in
      subst (λ (u : Thread). Run true (before ++ (t ∷ after)) (before ++ (u ∷ after))) e Run.stop
  finish (suc n) t at more = elim (Bool-cases (t.lhs == t.rhs)) [
    | inl same ↦
        run-run (before ++ (t ∷ after)) _ _
          (extend _ before after t (record t { rounds = n }) Run.stop
            (Move.same_object n at more ((==_iff _ _).0 same)))
          (finish n (record t { rounds = n }) at refl)
    | inr other ↦
        let differs : t.lhs ≢ t.rhs = ground arith in
        let free = Free-others t.lhs t (rw (at, holds_at) refl) in
        let free' = Free-others t.rhs (goes t left) (ground arith) in
        run-run (before ++ (t ∷ after)) _ _
          (unlocks _ before after (goes t both) refl (
            extend _ before after (goes t left) (goes t both)
              (extend _ before after t (goes t left) Run.stop
                (Move.locks_left n at more differs free))
              (Move.then_right refl free')))
          (finish n (record t { rounds = t.rounds - 1; place = outside }) refl (omega arith))
  ]

finish_all :
    (before s : List Thread)
    → AllOutside before
    → AllOutside s
    → Run true (before ++ s) (before ++ map finished s)
finish_all before [] quiet quiet' = Run.stop
finish_all before (t ∷ s) quiet quiet' =
    let rest =
      finish_all (before ++ (finished t ∷ [])) s
        (AllOutside-append before (finished t ∷ []) quiet (refl, tt)) quiet'.1 in
    run-run _ _ _ (finish before s quiet quiet'.1 t.rounds t quiet'.0 refl) (
      rw
        (
          append_assoc before (finished t ∷ []) s,
          append_assoc before (finished t ∷ []) (map finished s),
        )
        at rest)

-- With std::lock, wherever any number of threads are in their calls of swap, on any objects, they
-- can go on so that each of them makes all its calls and holds no mutex.
pub run-finished : (s : List Thread) → Run true s (map finished s)
run-finished s =
    let (s', os, same, run) = settle_all [] s in
    rw (← same) (run-run s s' (map finished s') run (finish_all [] s' tt os))
