-- ===== src/Monitor/Queues.antt =====
-- The queues of chap6/threadsafe_queue.h, chap6/thread_safe_queue.h and chap4/4_5.cpp, and what a queue
-- is that only one thread uses.
--
-- The second keeps `shared_ptr`s, made before its push takes the mutex; nobody else has them while they
-- are in the queue, so here they are the values. Values are moved and copied without exceptions. `front()` of an
-- empty queue is undefined.
pub mod Fifo
pub mod Sleepers
use c_practice.Base.{
  ℕ, ◌≡◌, Bool, true, false, Option, none, some, List, [], ◌∷◌, ◌++◌, if◌then◌else◌,
}
use c_practice.Monitor.{Class, Rest, gives, raises, undefined}
use c_practice.Monitor.Replay.{Sequential}

-- `by_value` is the type of the permissions to call `bool try_pop(T&)`, which one class lacks.
pub data QueueCall (by_value T : Type 0) : Type 0 where
  push : T → QueueCall by_value T
  try_pop : QueueCall by_value T
  try_pop_value : by_value → QueueCall by_value T
  empty : QueueCall by_value T

pub data QueueWait : Type 0 where
  wait_and_pop_value : QueueWait
  wait_and_pop : QueueWait

-- `nothing` is a null pointer or `false`.
pub data QueueAnswer (T : Type 0) : Type 0 where
  pushed : QueueAnswer T
  popped : T → QueueAnswer T
  nothing : QueueAnswer T
  is_empty : Bool → QueueAnswer T

-- A value that is pushed may need an allocation, and so does a `shared_ptr` that is made of it.
abbrev pub allocates : {A : Type 0} → Bool → A → Option A
allocates ok a = if ok then some a else none

module _ {T : Type 0} where
  abbrev pub null : List T → Bool
  null [] = true
  null (x ∷ q) = false

  -- `[this]{return !m_queue.empty();}`
  abbrev pub not_empty : List T → Bool
  not_empty [] = false
  not_empty (x ∷ q) = true

  unfoldable pub threadsafe_queue_body :
      QueueCall ⊥ T → Bool → List T → Option (QueueAnswer T × List T × Bool)
  threadsafe_queue_body (push new_value) ok q = allocates ok (pushed, q ++ (new_value ∷ []), true)
  threadsafe_queue_body try_pop ok [] = some (nothing, [], false)
  threadsafe_queue_body try_pop ok (front ∷ q) = allocates ok (popped front, q, false)
  threadsafe_queue_body (try_pop_value impossible) ok q = elim impossible [ ]
  threadsafe_queue_body empty ok q = some (is_empty (null q), q, false)

  unfoldable pub threadsafe_queue_rest : QueueWait → Bool → List T → Rest (QueueAnswer T) (List T)
  threadsafe_queue_rest w ok [] = undefined
  threadsafe_queue_rest wait_and_pop_value ok (front ∷ q) = gives (popped front) q
  threadsafe_queue_rest wait_and_pop ok (front ∷ q) = if ok then gives (popped front) q else raises

  abbrev pub threadsafe_queue : Class (List T) (QueueCall ⊥ T) QueueWait (QueueAnswer T)
  threadsafe_queue = record {
    body = threadsafe_queue_body;
    ready = not_empty;
    rest = threadsafe_queue_rest;
  }

  unfoldable pub thread_safe_queue_body :
      QueueCall Unit T → Bool → List T → Option (QueueAnswer T × List T × Bool)
  thread_safe_queue_body (push new_value) ok q = allocates ok (pushed, q ++ (new_value ∷ []), true)
  thread_safe_queue_body try_pop ok [] = some (nothing, [], false)
  thread_safe_queue_body try_pop ok (front ∷ q) = some (popped front, q, false)
  thread_safe_queue_body (try_pop_value _) ok [] = some (nothing, [], false)
  thread_safe_queue_body (try_pop_value _) ok (front ∷ q) = some (popped front, q, false)
  thread_safe_queue_body empty ok q = some (is_empty (null q), q, false)

  unfoldable pub thread_safe_queue_rest : QueueWait → Bool → List T → Rest (QueueAnswer T) (List T)
  thread_safe_queue_rest w ok [] = undefined
  thread_safe_queue_rest wait_and_pop_value ok (front ∷ q) = gives (popped front) q
  thread_safe_queue_rest wait_and_pop ok (front ∷ q) = gives (popped front) q

  abbrev pub thread_safe_queue : Class (List T) (QueueCall Unit T) QueueWait (QueueAnswer T)
  thread_safe_queue = record {
    body = thread_safe_queue_body;
    ready = not_empty;
    rest = thread_safe_queue_rest;
  }

  -- `threadsafe_queue` of chap4/4_5.cpp
  unfoldable pub chunk_queue_body :
      QueueCall Unit T → Bool → List T → Option (QueueAnswer T × List T × Bool)
  chunk_queue_body (push new_value) ok q = allocates ok (pushed, q ++ (new_value ∷ []), true)
  chunk_queue_body (try_pop_value _) ok [] = some (nothing, [], false)
  chunk_queue_body (try_pop_value _) ok (front ∷ q) = some (popped front, q, false)
  chunk_queue_body try_pop ok [] = some (nothing, [], false)
  chunk_queue_body try_pop ok (front ∷ q) = allocates ok (popped front, q, false)
  chunk_queue_body empty ok q = some (is_empty (null q), q, false)

  unfoldable pub chunk_queue_rest : QueueWait → Bool → List T → Rest (QueueAnswer T) (List T)
  chunk_queue_rest w ok [] = undefined
  chunk_queue_rest wait_and_pop_value ok (front ∷ q) = gives (popped front) q
  chunk_queue_rest wait_and_pop ok (front ∷ q) = if ok then gives (popped front) q else raises

  abbrev pub chunk_queue : Class (List T) (QueueCall Unit T) QueueWait (QueueAnswer T)
  chunk_queue = record { body = chunk_queue_body; ready = not_empty; rest = chunk_queue_rest }

  -- A queue with one user: first in, first out.
  unfoldable pub fifo_now : {V : Type 0} → QueueCall V T → List T → QueueAnswer T × List T
  fifo_now (push x) q = (pushed, q ++ (x ∷ []))
  fifo_now try_pop [] = (nothing, [])
  fifo_now try_pop (x ∷ q) = (popped x, q)
  fifo_now (try_pop_value _) [] = (nothing, [])
  fifo_now (try_pop_value _) (x ∷ q) = (popped x, q)
  fifo_now empty [] = (is_empty true, [])
  fifo_now empty (x ∷ q) = (is_empty false, x ∷ q)

  unfoldable pub fifo_after : QueueWait → List T → Option (QueueAnswer T × List T)
  fifo_after w [] = none
  fifo_after w (x ∷ q) = some (popped x, q)

  abbrev pub fifo : {V : Type 0} → Sequential (List T) (QueueCall V T) QueueWait (QueueAnswer T)
  fifo = record { now = fifo_now; after = fifo_after }
