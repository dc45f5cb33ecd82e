-- ===== src/Monitor.antt =====
-- C++11/Cpp-Concurrency-in-Action: the classes that guard a container with a `std::mutex` and wait on
-- a `std::condition_variable` (chap4/4_5.cpp, chap6 and chap3/3_5.cpp), used by any number of threads.
--
-- A class is what its calls do while they hold the mutex. `Step` is what the standard library makes of
-- it: a thread takes the mutex before its call, `wait(lk, ready)` releases it to sleep until a
-- notification (or no reason at all) and then tests again, and `notify_one` wakes one sleeper, if there
-- is one. What a call does between taking and leaving the mutex is one step here; Monitor.Locking has
-- what it reads and what it writes apart, and Monitor.Locking.Atomic compares the two.
pub mod Replay
pub mod Defined
pub mod Queues
pub mod Stacks
pub mod Wakeups
pub mod Locking
mod Tests
use c_practice.Base.Counting.{count}
use c_practice.Base.{
  ℕ, zero, suc, ◌+◌, ◌≡◌, Bool, true, false, Option, none, some, List, [], ◌∷◌, if◌then◌else◌,
  get_elem?, set,
}

-- What a call that has waited does: it answers, throws, or is undefined. For the last there is no step.
pub data Rest (Answer S : Type 0) : Type 0 where
  gives : Answer → S → Rest Answer S
  raises : Rest Answer S
  undefined : Rest Answer S

-- `S` is what is guarded. `Call` are the calls that go ahead, `Wait` those that first wait for
-- `ready`; `none` is an exception, which leaves the contents alone. The flag says whether an allocation
-- succeeds. A call also says whether it notifies.
pub record Class (S Call Wait Answer : Type 0) : Type 0 where
  pub body : Call → Bool → S → Option (Answer × S × Bool)
  pub ready : S → Bool
  pub rest : Wait → Bool → S → Rest Answer S

-- Where a thread is. A thread that is `checking` holds the mutex and has yet to test `ready`; it says
-- whether it has slept.
pub data Point (Call Wait Answer : Type 0) : Type 0 where
  idle : Point Call Wait Answer
  locking : Call → Point Call Wait Answer
  running : Call → Point Call Wait Answer
  entering : Wait → Point Call Wait Answer
  checking : Bool → Wait → Point Call Wait Answer
  sleeping : Wait → Point Call Wait Answer
  woken : Wait → Point Call Wait Answer
  returned : Answer → Point Call Wait Answer
  threw : Point Call Wait Answer
  broken : Point Call Wait Answer  -- after undefined behaviour

pub record State (S Call Wait Answer : Type 0) : Type 0 where
  pub contents : S
  pub mutex : Option ℕ
  pub threads : List (Point Call Wait Answer)

-- What a call that has returned did.
pub data Event (Call Wait Answer : Type 0) : Type 0 where
  called : Call → Answer → Event Call Wait Answer
  waited : Wait → Answer → Event Call Wait Answer

module _ {Call Wait Answer : Type 0} where
  abbrev pub is_resting : Point Call Wait Answer → Bool
  is_resting idle = true
  is_resting (returned a) = true
  is_resting threw = true
  is_resting p = false

  abbrev pub is_sleeping : Point Call Wait Answer → Bool
  is_sleeping (sleeping w) = true
  is_sleeping p = false

  abbrev pub is_broken : Point Call Wait Answer → Bool
  is_broken broken = true
  is_broken p = false

  -- A thread that was woken and has not tested `ready` since.
  abbrev pub is_awake : Point Call Wait Answer → Bool
  is_awake (woken w) = true
  is_awake (checking true w) = true
  is_awake p = false

  abbrev pub note :
      Option (Event Call Wait Answer)
      → List (Event Call Wait Answer)
      → List (Event Call Wait Answer)
  note none es = es
  note (some e) es = e ∷ es

module _ {S Call Wait Answer : Type 0} where
  -- Thread `t` goes on to `p`, and the mutex to `m`.
  abbrev pub goes :
      ℕ → Point Call Wait Answer → Option ℕ → State S Call Wait Answer → State S Call Wait Answer
  goes t p m s = record s { mutex = m; threads = set s.threads t p }

  abbrev pub at : State S Call Wait Answer → ℕ → Option (Point Call Wait Answer)
  at s t = get_elem? s.threads t

  pub data Step (class : Class S Call Wait Answer)
      : State S Call Wait Answer
        → Option (Event Call Wait Answer)
        → State S Call Wait Answer
        → Type 0 where
    calls :
        {s : _} (t : ℕ) (p : _) (c : Call)
        → at s t ≡ some p
        → is_resting p ≡ true
        → Step class s none (goes t (locking c) s.mutex s)
    calls_wait :
        {s : _} (t : ℕ) (p : _) (w : Wait)
        → at s t ≡ some p
        → is_resting p ≡ true
        → Step class s none (goes t (entering w) s.mutex s)
    locks :
        {s : _} (t : ℕ) (c : Call)
        → at s t ≡ some (locking c)
        → s.mutex ≡ none
        → Step class s none (goes t (running c) (some t) s)
    enters :
        {s : _} (t : ℕ) (w : Wait)
        → at s t ≡ some (entering w)
        → s.mutex ≡ none
        → Step class s none (goes t (checking false w) (some t) s)
    relocks :
        {s : _} (t : ℕ) (w : Wait)
        → at s t ≡ some (woken w)
        → s.mutex ≡ none
        → Step class s none (goes t (checking true w) (some t) s)
    returns :
        {s : _} (t : ℕ) (c : Call) (ok : Bool) (a : Answer) (x : S)
        → at s t ≡ some (running c)
        → class.body c ok s.contents ≡ some (a, x, false)
        → Step class s (some (called c a)) (goes t (returned a) none (record s { contents = x }))
    notifies_none :
        {s : _} (t : ℕ) (c : Call) (ok : Bool) (a : Answer) (x : S)
        → at s t ≡ some (running c)
        → class.body c ok s.contents ≡ some (a, x, true)
        → count is_sleeping s.threads ≡ 0
        → Step class s (some (called c a)) (goes t (returned a) none (record s { contents = x }))
    notifies :
        {s : _} (t u : ℕ) (c : Call) (w : Wait) (ok : Bool) (a : Answer) (x : S)
        → at s t ≡ some (running c)
        → class.body c ok s.contents ≡ some (a, x, true)
        → at (goes t (returned a) none (record s { contents = x })) u ≡ some (sleeping w)
        → Step class s
            (some (called c a))
            (goes u (woken w) none (goes t (returned a) none (record s { contents = x })))
    throws :
        {s : _} (t : ℕ) (c : Call) (ok : Bool)
        → at s t ≡ some (running c)
        → class.body c ok s.contents ≡ none
        → Step class s none (goes t threw none s)
    sleeps :
        {s : _} (t : ℕ) (slept : Bool) (w : Wait)
        → at s t ≡ some (checking slept w)
        → class.ready s.contents ≡ false
        → Step class s none (goes t (sleeping w) none s)
    passes :
        {s : _} (t : ℕ) (slept : Bool) (w : Wait) (ok : Bool) (a : Answer) (x : S)
        → at s t ≡ some (checking slept w)
        → class.ready s.contents ≡ true
        → class.rest w ok s.contents ≡ gives a x
        → Step class s (some (waited w a)) (goes t (returned a) none (record s { contents = x }))
    throws_after :
        {s : _} (t : ℕ) (slept : Bool) (w : Wait) (ok : Bool)
        → at s t ≡ some (checking slept w)
        → class.ready s.contents ≡ true
        → class.rest w ok s.contents ≡ raises
        → Step class s none (goes t threw none s)
    breaks :
        {s : _} (t : ℕ) (slept : Bool) (w : Wait) (ok : Bool)
        → at s t ≡ some (checking slept w)
        → class.ready s.contents ≡ true
        → class.rest w ok s.contents ≡ undefined
        → Step class s none (goes t broken none s)
    wakes :
        {s : _} (t : ℕ) (w : Wait)
        → at s t ≡ some (sleeping w)
        → Step class s none (goes t (woken w) s.mutex s)

  -- Steps one after another, with what the calls that returned did, in the order of their effects.
  pub data Trace (class : Class S Call Wait Answer)
      : State S Call Wait Answer
        → List (Event Call Wait Answer)
        → State S Call Wait Answer
        → Type 0 where
    stop : {s : _} → Trace class s [] s
    go :
        {s s' s'' : _} {e : _} {es : _}
        → Step class s e s'
        → Trace class s' es s''
        → Trace class s (note e es) s''

  -- The class where no allocation fails.
  abbrev pub reliable : Class S Call Wait Answer → Class S Call Wait Answer
  reliable class = record {
    body = λ c ok x. class.body c true x;
    ready = class.ready;
    rest = λ w ok x. class.rest w true x;
  }
