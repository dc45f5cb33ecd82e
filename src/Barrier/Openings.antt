-- ===== src/Barrier/Openings.antt =====
-- How often the barrier is_opening, and how many calls of `wait` return.
use native.Mathlib.Nat.{add-mul, one-mul, zero-mul}
use c_practice.Base.{
  ==_iff, ℕ, zero, suc, some, ◌+◌, ◌*◌, ◌≤◌, ◌<◌, ◌≡◌, ◌≢◌, refl, ap, Bool, true, false, List, [],
  ◌∷◌, arith, replicate, Bool-cases, inl, inr, get_elem?, set,
}
use c_practice.Base.Counting.{one, count, count-set}
use c_practice.Barrier.{
  Place, outside, blocked, woken, State, Event, entered, left, timed_out, quiet, notify_all,
  is_last, enter, Step, Trace,
}

abbrev pub is_call : Event → Bool
is_call (entered last) = true
is_call e = false

abbrev pub is_opening : Event → Bool
is_opening (entered last) = last
is_opening e = false

-- The last thread to come, and one that was blocked and leaves.
abbrev pub is_pass : Event → Bool
is_pass (entered last) = last
is_pass left = true
is_pass e = false

abbrev pub is_timeout : Event → Bool
is_timeout timed_out = true
is_timeout e = false

abbrev inside : Place → Bool
inside outside = false
inside p = true

abbrev pub closed : ℕ → State
closed m = record { count = 0; places = replicate m outside }

count-notify_all : (ps : List Place) → count inside (notify_all ps) ≡ count inside ps
count-notify_all [] = refl
count-notify_all (outside ∷ ps) = let l = count-notify_all ps in omega arith
count-notify_all (blocked ∷ ps) = let l = count-notify_all ps in omega arith
count-notify_all (woken ∷ ps) = let l = count-notify_all ps in omega arith

count-closed : (m : ℕ) → count inside (replicate m outside) ≡ 0
count-closed zero = refl
count-closed (suc m) = let l = count-closed m in omega arith

module _ (num_threads : ℕ) where
  pub record Balanced (es : List Event) (s : State) : Type 0 where
    pub below : s.count < num_threads
    pub arrivals : count is_call es ≡ count is_opening es * num_threads + s.count
    pub passed : count is_pass es + count inside s.places ≡ count is_call es
    pub few : count is_pass es ≤ count is_opening es * num_threads

  opened_once : (n : ℕ) → (1 + n) * num_threads ≡ n * num_threads + num_threads
  opened_once n =
      let l = add-mul 1 n num_threads in let one_time = one-mul num_threads in omega arith

  nothing_more : (n : ℕ) → (0 + n) * num_threads ≡ n * num_threads
  nothing_more n = let e : 0 + n ≡ n = omega arith in ap (λ i. i * num_threads) e

  enter-Balanced :
      (t : ℕ) (es : List Event) (s : State)
      → get_elem? s.places t ≡ some outside
      → Balanced es s
      → Balanced (entered (is_last num_threads s) ∷ es) (enter num_threads t s)
  unfolding enter
  enter-Balanced t es s at b = elim (Bool-cases (is_last num_threads s)) [
    | inl last ↦
        let full = (==_iff (suc s.count) num_threads).0 last in
        let more = opened_once (count is_opening es) in
        let still = count-notify_all s.places in
        rw last (record {
          below = ground arith;
          arrivals = omega arith;
          passed = omega arith;
          few = omega arith;
        })
    | inr early ↦
        let differ : suc s.count ≢ num_threads = ground arith in
        let added = count-set inside s.places t outside blocked at in
        let same = nothing_more (count is_opening es) in
        rw early (record {
          below = ground arith;
          arrivals = omega arith;
          passed = omega arith;
          few = omega arith;
        })
  ]

  leave-Balanced :
      (t : ℕ) (es : List Event) (s : State)
      → get_elem? s.places t ≡ some woken
      → s.count ≡ 0
      → Balanced es s
      → Balanced (left ∷ es) (record s { places = set s.places t outside })
  leave-Balanced t es s at closed_now b =
      let removed = count-set inside s.places t woken outside at in
      let same = nothing_more (count is_opening es) in
      record { below = b.below; arrivals = omega arith; passed = omega arith; few = omega arith }

  quiet-Balanced :
      (t : ℕ) (p q : Place) (es : List Event) (s : State)
      → get_elem? s.places t ≡ some p
      → inside p ≡ inside q
      → Balanced es s
      → Balanced (quiet ∷ es) (record s { places = set s.places t q })
  quiet-Balanced t p q es s at same b =
      let moved = count-set inside s.places t p q at in
      let same_one = ap one same in
      let no_opening = nothing_more (count is_opening es) in
      record { below = b.below; arrivals = omega arith; passed = omega arith; few = omega arith }

  from-Balanced :
      {u v : State} {e : Event} {es : List Event}
      → Step num_threads u e v
      → count is_timeout (e ∷ es) ≡ 0
      → Balanced es u
      → Balanced (e ∷ es) v
  from-Balanced (Step.enters t at) punctual b = enter-Balanced t _ _ at b
  from-Balanced (Step.wakes t at) punctual b = quiet-Balanced t blocked woken _ _ at refl b
  from-Balanced (Step.leaves t at now) punctual b = leave-Balanced t _ _ at now b
  from-Balanced (Step.blocks t at still) punctual b = quiet-Balanced t woken blocked _ _ at refl b
  from-Balanced (Step.times_out t at still) punctual b = absurd (omega arith)

  run-Balanced :
      (s v : State) (es : List Event)
      → Balanced [] s
      → Trace num_threads s es v
      → count is_timeout es ≡ 0
      → Balanced es v
  run-Balanced s v es b Trace.stop punctual = b
  run-Balanced s v es b (Trace.go trace step) punctual =
      from-Balanced step punctual (run-Balanced s _ _ b trace (omega arith))

  -- However the calls of wait interleave from a closed barrier for one thread or more, with
  -- spurious wakeups and as long as no call runs out of time: the counter is below num_threads,
  -- and tells the calls since the last opening, each of which took num_threads calls; each call
  -- has returned or is inside; and no more calls have returned than the openings so far let
  -- through.
  pub Trace-Balanced :
      (m : ℕ) (es : List Event) (s : State)
      → 0 < num_threads
      → Trace num_threads (closed m) es s
      → count is_timeout es ≡ 0
      → Balanced es s
  Trace-Balanced m es s some_threads trace punctual =
      let nobody = count-closed m in
      let none_yet = zero-mul num_threads in
      run-Balanced (closed m) s es
        (record {
          below = some_threads;
          arrivals = omega arith;
          passed = omega arith;
          few = omega arith;
        })
        trace punctual
