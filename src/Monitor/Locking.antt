-- ===== src/Monitor/Locking.antt =====
-- The threads of Monitor step by step: what a thread does while it holds the mutex is not one step,
-- but begins with what it reads of the contents when it takes the mutex, and ends with what it writes.
--
-- `seen t` is what thread `t` read when it last took the mutex. A thread that took the mutex while
-- another one was inside would write over what that one wrote. Monitor.Locking.Atomic compares these
-- steps with those of Monitor.
pub mod Atomic
use c_practice.Base.{ℕ, suc, ◌≡◌, Bool, true, false, Option, none, some, List, [], ◌∷◌, update}
use c_practice.Base.Counting.{count}
use c_practice.Monitor.{
  gives, raises, undefined, Class, Point, State, Event, is_resting, is_sleeping, goes, at, note,
}

-- Between taking and leaving the mutex.
abbrev pub is_inside : {Call Wait Answer : Type 0} → Point Call Wait Answer → Bool
is_inside (Point.running c) = true
is_inside (Point.checking slept w) = true
is_inside p = false

module _ {S Call Wait Answer : Type 0} where
  pub data Locked (class : Class S Call Wait Answer)
      : State S Call Wait Answer
        → (ℕ → S)
        → Option (Event Call Wait Answer)
        → State S Call Wait Answer
        → (ℕ → S)
        → Type 0 where
    calls :
        {s : _} {seen : ℕ → S} (t : ℕ) (p : _) (c : Call)
        → at s t ≡ some p
        → is_resting p ≡ true
        → Locked class s seen none (goes t (Point.locking c) s.mutex s) seen
    calls_wait :
        {s : _} {seen : ℕ → S} (t : ℕ) (p : _) (w : Wait)
        → at s t ≡ some p
        → is_resting p ≡ true
        → Locked class s seen none (goes t (Point.entering w) s.mutex s) seen
    locks :
        {s : _} {seen : ℕ → S} (t : ℕ) (c : Call)
        → at s t ≡ some (Point.locking c)
        → s.mutex ≡ none
        → Locked class s seen none (goes t (Point.running c) (some t) s) (update seen t s.contents)
    enters :
        {s : _} {seen : ℕ → S} (t : ℕ) (w : Wait)
        → at s t ≡ some (Point.entering w)
        → s.mutex ≡ none
        → Locked class s seen none
            (goes t (Point.checking false w) (some t) s)
            (update seen t s.contents)
    relocks :
        {s : _} {seen : ℕ → S} (t : ℕ) (w : Wait)
        → at s t ≡ some (Point.woken w)
        → s.mutex ≡ none
        → Locked class s seen none
            (goes t (Point.checking true w) (some t) s)
            (update seen t s.contents)
    returns :
        {s : _} {seen : ℕ → S} (t : ℕ) (c : Call) (ok : Bool) (a : Answer) (x : S)
        → at s t ≡ some (Point.running c)
        → class.body c ok (seen t) ≡ some (a, x, false)
        → Locked class s seen
            (some (Event.called c a))
            (goes t (Point.returned a) none (record s { contents = x }))
            seen
    notifies_none :
        {s : _} {seen : ℕ → S} (t : ℕ) (c : Call) (ok : Bool) (a : Answer) (x : S)
        → at s t ≡ some (Point.running c)
        → class.body c ok (seen t) ≡ some (a, x, true)
        → count is_sleeping s.threads ≡ 0
        → Locked class s seen
            (some (Event.called c a))
            (goes t (Point.returned a) none (record s { contents = x }))
            seen
    notifies :
        {s : _} {seen : ℕ → S} (t u : ℕ) (c : Call) (w : Wait) (ok : Bool) (a : Answer) (x : S)
        → at s t ≡ some (Point.running c)
        → class.body c ok (seen t) ≡ some (a, x, true)
        → at (goes t (Point.returned a) none (record s { contents = x })) u
          ≡ some (Point.sleeping w)
        → Locked class s seen
            (some (Event.called c a))
            (goes u
              (Point.woken w)
              none
              (goes t (Point.returned a) none (record s { contents = x })))
            seen
    throws :
        {s : _} {seen : ℕ → S} (t : ℕ) (c : Call) (ok : Bool)
        → at s t ≡ some (Point.running c)
        → class.body c ok (seen t) ≡ none
        → Locked class s seen none (goes t Point.threw none s) seen
    sleeps :
        {s : _} {seen : ℕ → S} (t : ℕ) (slept : Bool) (w : Wait)
        → at s t ≡ some (Point.checking slept w)
        → class.ready (seen t) ≡ false
        → Locked class s seen none (goes t (Point.sleeping w) none s) seen
    passes :
        {s : _} {seen : ℕ → S} (t : ℕ) (slept : Bool) (w : Wait) (ok : Bool) (a : Answer) (x : S)
        → at s t ≡ some (Point.checking slept w)
        → class.ready (seen t) ≡ true
        → class.rest w ok (seen t) ≡ gives a x
        → Locked class s seen
            (some (Event.waited w a))
            (goes t (Point.returned a) none (record s { contents = x }))
            seen
    throws_after :
        {s : _} {seen : ℕ → S} (t : ℕ) (slept : Bool) (w : Wait) (ok : Bool)
        → at s t ≡ some (Point.checking slept w)
        → class.ready (seen t) ≡ true
        → class.rest w ok (seen t) ≡ raises
        → Locked class s seen none (goes t Point.threw none s) seen
    breaks :
        {s : _} {seen : ℕ → S} (t : ℕ) (slept : Bool) (w : Wait) (ok : Bool)
        → at s t ≡ some (Point.checking slept w)
        → class.ready (seen t) ≡ true
        → class.rest w ok (seen t) ≡ undefined
        → Locked class s seen none (goes t Point.broken none s) seen
    wakes :
        {s : _} {seen : ℕ → S} (t : ℕ) (w : Wait)
        → at s t ≡ some (Point.sleeping w)
        → Locked class s seen none (goes t (Point.woken w) s.mutex s) seen

  -- Steps one after another, with what the calls that returned did, in the order of their returns
  -- from the mutex.
  pub data LockedTrace (class : Class S Call Wait Answer)
      : State S Call Wait Answer
        → (ℕ → S)
        → List (Event Call Wait Answer)
        → State S Call Wait Answer
        → (ℕ → S)
        → Type 0 where
    stop : {s : _} {seen : ℕ → S} → LockedTrace class s seen [] s seen
    go :
        {s s' s'' : _} {seen seen' seen'' : ℕ → S} {e : _} {es : _}
        → Locked class s seen e s' seen'
        → LockedTrace class s' seen' es s'' seen''
        → LockedTrace class s seen (note e es) s'' seen''
