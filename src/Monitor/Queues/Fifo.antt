-- ===== src/Monitor/Queues/Fifo.antt =====
-- The three queues hand out what was put in, first in first out.
use mathlib.Core.Path.{subst}
use c_practice.Base.{
  ℕ, ◌≡◌, refl, sym, ap, ◌∙◌, Bool, true, false, Option, none, some, List, [], ◌∷◌, ◌++◌,
  append_nil,
}
use c_practice.Base.Buffer.{append_assoc}
use c_practice.Base.Counting.{count}
use c_practice.Monitor.{Class, Rest, gives, raises, undefined, State, Event, is_broken}
use c_practice.Monitor.Defined.{Defined, Trace-unbroken}
use c_practice.Monitor.Locking.{is_inside, LockedTrace}
use c_practice.Monitor.Locking.Atomic.{trace-Trace, nobody-Guarded}
use c_practice.Monitor.Replay.{Implements, Replay, Trace-Replay}
use c_practice.Monitor.Queues.{
  QueueCall, QueueWait, QueueAnswer, push, try_pop, try_pop_value, empty, wait_and_pop,
  wait_and_pop_value, popped, threadsafe_queue, thread_safe_queue, chunk_queue,
  threadsafe_queue_body, thread_safe_queue_body, chunk_queue_body, threadsafe_queue_rest,
  thread_safe_queue_rest, chunk_queue_rest, fifo, fifo_now, fifo_after,
}

-- The three classes, and who may call `bool try_pop(T&)`.
pub data Variant : Type 0 where
  threadsafe : Variant
  thread_safe : Variant
  chunk : Variant

abbrev pub ByValue : Variant → Type 0
ByValue threadsafe = ⊥
ByValue thread_safe = Unit
ByValue chunk = Unit

module _ {T : Type 0} where
  abbrev pub queue_class :
      (v : Variant) → Class (List T) (QueueCall (ByValue v) T) QueueWait (QueueAnswer T)
  queue_class threadsafe = threadsafe_queue
  queue_class thread_safe = thread_safe_queue
  queue_class chunk = chunk_queue

  -- `push` notifies, and nothing else does.
  abbrev pub notified : {V : Type 0} → QueueCall V T → Bool
  notified (push x) = true
  notified c = false

  Says : {V : Type 0} → QueueCall V T → List T → Option (QueueAnswer T × List T × Bool) → Type 0
  Says c q none = Unit
  Says c q (some (a, q', n)) = (fifo_now c q ≡ (a, q')) × (n ≡ notified c)

  body-Says :
      (v : Variant) (c : QueueCall (ByValue v) T) (ok : Bool) (q : List T)
      → Says c q ((queue_class v).body c ok q)
  unfolding Says fifo_now threadsafe_queue_body thread_safe_queue_body chunk_queue_body
  body-Says threadsafe (push x) true q = (refl, refl)
  body-Says threadsafe (push x) false q = tt
  body-Says threadsafe try_pop ok [] = (refl, refl)
  body-Says threadsafe try_pop true (x ∷ q) = (refl, refl)
  body-Says threadsafe try_pop false (x ∷ q) = tt
  body-Says threadsafe (try_pop_value impossible) ok q = elim impossible [ ]
  body-Says threadsafe empty ok [] = (refl, refl)
  body-Says threadsafe empty ok (x ∷ q) = (refl, refl)
  body-Says thread_safe (push x) true q = (refl, refl)
  body-Says thread_safe (push x) false q = tt
  body-Says thread_safe try_pop ok [] = (refl, refl)
  body-Says thread_safe try_pop ok (x ∷ q) = (refl, refl)
  body-Says thread_safe (try_pop_value u) ok [] = (refl, refl)
  body-Says thread_safe (try_pop_value u) ok (x ∷ q) = (refl, refl)
  body-Says thread_safe empty ok [] = (refl, refl)
  body-Says thread_safe empty ok (x ∷ q) = (refl, refl)
  body-Says chunk (push x) true q = (refl, refl)
  body-Says chunk (push x) false q = tt
  body-Says chunk try_pop ok [] = (refl, refl)
  body-Says chunk try_pop true (x ∷ q) = (refl, refl)
  body-Says chunk try_pop false (x ∷ q) = tt
  body-Says chunk (try_pop_value u) ok [] = (refl, refl)
  body-Says chunk (try_pop_value u) ok (x ∷ q) = (refl, refl)
  body-Says chunk empty ok [] = (refl, refl)
  body-Says chunk empty ok (x ∷ q) = (refl, refl)

  SaysAfter : QueueWait → List T → Rest (QueueAnswer T) (List T) → Type 0
  SaysAfter w q raises = Unit
  SaysAfter w q undefined = Unit
  SaysAfter w q (gives a q') = fifo_after w q ≡ some (a, q')

  rest-SaysAfter :
      (v : Variant) (w : QueueWait) (ok : Bool) (q : List T)
      → SaysAfter w q ((queue_class v).rest w ok q)
  unfolding SaysAfter fifo_after threadsafe_queue_rest thread_safe_queue_rest chunk_queue_rest
  rest-SaysAfter threadsafe w ok [] = tt
  rest-SaysAfter threadsafe wait_and_pop_value ok (x ∷ q) = refl
  rest-SaysAfter threadsafe wait_and_pop true (x ∷ q) = refl
  rest-SaysAfter threadsafe wait_and_pop false (x ∷ q) = tt
  rest-SaysAfter thread_safe w ok [] = tt
  rest-SaysAfter thread_safe wait_and_pop_value ok (x ∷ q) = refl
  rest-SaysAfter thread_safe wait_and_pop ok (x ∷ q) = refl
  rest-SaysAfter chunk w ok [] = tt
  rest-SaysAfter chunk wait_and_pop_value ok (x ∷ q) = refl
  rest-SaysAfter chunk wait_and_pop true (x ∷ q) = refl
  rest-SaysAfter chunk wait_and_pop false (x ∷ q) = tt

  pub body-notified :
      (v : Variant) (c : QueueCall (ByValue v) T) (ok n : Bool) (a : QueueAnswer T) (q q' : List T)
      → (queue_class v).body c ok q ≡ some (a, q', n)
      → n ≡ notified c
  unfolding Says
  body-notified v c ok n a q q' e = (subst (Says c q) e (body-Says v c ok q)).1

  pub queue_class-Implements : (v : Variant) → Implements (queue_class v) fifo
  unfolding Says SaysAfter
  queue_class-Implements v = record {
    body_ok = λ c ok n a x y e. (subst (Says c x) e (body-Says v c ok x)).0;
    rest_ok = λ w ok a x y e. subst (SaysAfter w x) e (rest-SaysAfter v w ok x);
  }

  -- The values that a call puts in, that an answer hands out, and both for a whole history.
  abbrev pub put_by : {V : Type 0} → QueueCall V T → List T
  put_by (push x) = x ∷ []
  put_by c = []

  abbrev pub taken_in : QueueAnswer T → List T
  taken_in (popped x) = x ∷ []
  taken_in a = []

  abbrev pub values_put :
      {V : Type 0} → List (Event (QueueCall V T) QueueWait (QueueAnswer T)) → List T
  values_put [] = []
  values_put (Event.called c a ∷ es) = put_by c ++ values_put es
  values_put (Event.waited w a ∷ es) = values_put es

  abbrev pub values_taken :
      {V : Type 0} → List (Event (QueueCall V T) QueueWait (QueueAnswer T)) → List T
  values_taken [] = []
  values_taken (Event.called c a ∷ es) = taken_in a ++ values_taken es
  values_taken (Event.waited w a ∷ es) = taken_in a ++ values_taken es

  pub fifo_now-kept :
      {V : Type 0} (c : QueueCall V T) (q z : List T) (a : QueueAnswer T)
      → fifo_now c q ≡ (a, z)
      → q ++ put_by c ≡ taken_in a ++ z
  unfolding fifo_now
  fifo_now-kept (push x) q z a e = ap (λ r. taken_in r.0 ++ r.1) e
  fifo_now-kept try_pop [] z a e = ap (λ r. taken_in r.0 ++ r.1) e
  fifo_now-kept try_pop (x ∷ q) z a e = append_nil (x ∷ q) ∙ ap (λ r. taken_in r.0 ++ r.1) e
  fifo_now-kept (try_pop_value u) [] z a e = ap (λ r. taken_in r.0 ++ r.1) e
  fifo_now-kept (try_pop_value u) (x ∷ q) z a e =
      append_nil (x ∷ q) ∙ ap (λ r. taken_in r.0 ++ r.1) e
  fifo_now-kept empty [] z a e = ap (λ r. taken_in r.0 ++ r.1) e
  fifo_now-kept empty (x ∷ q) z a e = append_nil (x ∷ q) ∙ ap (λ r. taken_in r.0 ++ r.1) e

  handed : Option (QueueAnswer T × List T) → List T
  handed none = []
  handed (some (a, z)) = taken_in a ++ z

  fifo_after-kept :
      (w : QueueWait) (q z : List T) (a : QueueAnswer T)
      → fifo_after w q ≡ some (a, z)
      → q ≡ taken_in a ++ z
  unfolding fifo_after handed
  fifo_after-kept w [] z a e = absurd (cc)
  fifo_after-kept w (x ∷ q) z a e = ap handed e

  kept :
      {V : Type 0} (es : List (Event (QueueCall V T) QueueWait (QueueAnswer T))) (q q' : List T)
      → Replay fifo es q q'
      → q ++ values_put es ≡ values_taken es ++ q'
  kept [] q q' same = append_nil q ∙ same
  kept (Event.called c a ∷ es) q q' (z, e, more) =
      sym (append_assoc q (put_by c) (values_put es))
      ∙ ap (λ t. t ++ values_put es) (fifo_now-kept c q z a e)
      ∙ append_assoc (taken_in a) z (values_put es)
      ∙ ap (◌++◌ (taken_in a)) (kept es z q' more)
      ∙ sym (append_assoc (taken_in a) (values_taken es) q')
  kept (Event.waited w a ∷ es) q q' (z, e, more) =
      ap (λ t. t ++ values_put es) (fifo_after-kept w q z a e)
      ∙ append_assoc (taken_in a) z (values_put es)
      ∙ ap (◌++◌ (taken_in a)) (kept es z q' more)
      ∙ sym (append_assoc (taken_in a) (values_taken es) q')

  pub queue_class-Defined : (v : Variant) → Defined (queue_class v)
  unfolding threadsafe_queue_rest thread_safe_queue_rest chunk_queue_rest
  queue_class-Defined threadsafe w ok [] ready e = absurd (cc)
  queue_class-Defined threadsafe wait_and_pop_value ok (x ∷ q) ready e = absurd (cc)
  queue_class-Defined threadsafe wait_and_pop true (x ∷ q) ready e = absurd (cc)
  queue_class-Defined threadsafe wait_and_pop false (x ∷ q) ready e = absurd (cc)
  queue_class-Defined thread_safe w ok [] ready e = absurd (cc)
  queue_class-Defined thread_safe wait_and_pop_value ok (x ∷ q) ready e = absurd (cc)
  queue_class-Defined thread_safe wait_and_pop ok (x ∷ q) ready e = absurd (cc)
  queue_class-Defined chunk w ok [] ready e = absurd (cc)
  queue_class-Defined chunk wait_and_pop_value ok (x ∷ q) ready e = absurd (cc)
  queue_class-Defined chunk wait_and_pop true (x ∷ q) ready e = absurd (cc)
  queue_class-Defined chunk wait_and_pop false (x ∷ q) ready e = absurd (cc)

  -- However the calls of any number of threads on one of the three queues interleave, also between
  -- what a call reads when it takes the mutex and what it writes when it leaves it, from a state
  -- in which no thread is between the two or past undefined behaviour, with spurious wakeups and
  -- failing allocations: one user who made the calls that returned, in the order in which they
  -- left the mutex, would get the same answers from a first in, first out queue and end with the
  -- same contents; what was in the queue and then pushed is what was handed out, in that order,
  -- followed by what is in the queue; and no thread that is done waiting takes the front of an
  -- empty queue.
  pub Trace-Fifo :
      (v : Variant) (s s' : State (List T) (QueueCall (ByValue v) T) QueueWait (QueueAnswer T))
      (seen seen' : ℕ → List T) (es : _)
      → count is_inside s.threads ≡ 0
      → count is_broken s.threads ≡ 0
      → LockedTrace (queue_class v) s seen es s' seen'
      → Replay fifo es s.contents s'.contents
        × (s.contents ++ values_put es ≡ values_taken es ++ s'.contents)
        × (count is_broken s'.threads ≡ 0)
  Trace-Fifo v s s' seen seen' es outside unbroken trace =
      let (steps, guarded) =
        trace-Trace (queue_class v) s s' seen seen' es trace (nobody-Guarded s seen outside) in
      let replay = Trace-Replay (queue_class v) fifo (queue_class-Implements v) s s' es steps in
      (
        replay,
        kept es s.contents s'.contents replay,
        Trace-unbroken (queue_class v) (queue_class-Defined v) s s' es steps unbroken,
      )
