-- ===== src/Barrier.antt =====
-- barrier_cpp11/main.cpp, `Barrier`: a counter, a mutex and a condition variable.
--
-- The calls of `wait` by any number of threads. `mutex_` is held from the call of `wait` to its end, or
-- to the wait of `cv_`, and again from a wakeup on, so each of these is one step. The counter is
-- below the number of threads, an `int`, so it has no overflow.
pub mod Openings
mod Tests
use c_practice.Base.{
  ℕ, suc, ◌≡◌, ◌≢◌, Bool, true, false, some, List, [], ◌∷◌, map, ◌==◌, if◌then◌else◌, get_elem?,
  set,
}

-- A thread is outside of `wait`, is blocked on `cv_`, or is woken and about to test the counter.
pub data Place : Type 0 where
  outside blocked woken : Place

pub record State : Type 0 where
  pub count : ℕ
  pub places : List Place

-- A call of `wait`, and whether it is the one that all wait for; a blocked thread that returns, because
-- the counter is 0 or because its time is over.
pub data Event : Type 0 where
  entered : Bool → Event
  left : Event
  timed_out : Event
  quiet : Event

abbrev pub wake : Place → Place
wake blocked = woken
wake p = p

-- `notify_all`
abbrev pub notify_all : List Place → List Place
notify_all places = map wake places

module _ (num_threads : ℕ) where
  abbrev pub is_last : State → Bool
  is_last s = suc s.count == num_threads

  -- From the call of `wait` to its end, or to the wait of `cv_`.
  unfoldable pub enter : ℕ → State → State
  enter t s =
      if is_last s
      then record { count = 0; places = notify_all s.places }
      else record { count = suc s.count; places = set s.places t blocked }

  -- `leaves`, `blocks` and `times_out` are the end of a round of `wait_for`; `wakes` also stands for a
  -- spurious wakeup and for the end of the 5 seconds.
  pub data Step : State → Event → State → Type 0 where
    enters :
        {s : State} (t : ℕ)
        → get_elem? s.places t ≡ some outside
        → Step s (entered (is_last s)) (enter t s)
    wakes :
        {s : State} (t : ℕ)
        → get_elem? s.places t ≡ some blocked
        → Step s quiet (record s { places = set s.places t woken })
    leaves :
        {s : State} (t : ℕ)
        → get_elem? s.places t ≡ some woken
        → s.count ≡ 0
        → Step s left (record s { places = set s.places t outside })
    blocks :
        {s : State} (t : ℕ)
        → get_elem? s.places t ≡ some woken
        → s.count ≢ 0
        → Step s quiet (record s { places = set s.places t blocked })
    times_out :
        {s : State} (t : ℕ)
        → get_elem? s.places t ≡ some woken
        → s.count ≢ 0
        → Step s timed_out (record { count = 0; places = set s.places t outside })

  -- The latest event stands first.
  pub data Trace : State → List Event → State → Type 0 where
    stop : {s : State} → Trace s [] s
    go :
        {s u v : State} {e : Event} {es : List Event}
        → Trace s es u
        → Step u e v
        → Trace s (e ∷ es) v
