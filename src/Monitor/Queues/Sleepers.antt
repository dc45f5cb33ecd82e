-- ===== src/Monitor/Queues/Sleepers.antt =====
-- No thread sleeps in `wait_and_pop` while the queue holds a value and no woken thread is still to look.
use c_practice.Base.{
  ℕ, ◌+◌, ◌≤◌, ◌<◌, ◌≡◌, ◌≢◌, refl, ap, Bool, true, false, inl, ◌⊎◌, Option, none, some, List, [],
  ◌∷◌, arith, length, length-append,
}
use c_practice.Base.Counting.{one, count}
use c_practice.Monitor.{raises, State, Trace, reliable, is_sleeping, is_awake}
use c_practice.Monitor.Wakeups.{Notifying, Trace-NoneLost}
use c_practice.Monitor.Queues.{
  QueueCall, QueueWait, QueueAnswer, push, try_pop, try_pop_value, empty, wait_and_pop,
  wait_and_pop_value, thread_safe_queue, thread_safe_queue_rest, threadsafe_queue_rest,
  chunk_queue_rest, not_empty, fifo_after,
}
use c_practice.Monitor.Queues.Fifo.{
  Variant, threadsafe, thread_safe, chunk, ByValue, put_by, taken_in, fifo_now-kept, body-notified,
  notified, queue_class, queue_class-Implements, queue_class-Defined,
}

none_waits :
    (n awake sleepers : ℕ) → (sleepers ≡ 0) ⊎ (n ≤ awake) → awake ≡ 0 → 0 < sleepers → n ≡ 0
none_waits n awake sleepers inv all some_sleeps = ground arith

module _ {T : Type 0} where
  not_empty-length : (q : List T) → not_empty q ≡ false → length q ≡ 0
  not_empty-length [] e = refl
  not_empty-length (x ∷ q) e = absurd (cc)

  empty_of-length : (q : List T) → length q ≡ 0 → q ≡ []
  empty_of-length [] e = refl
  empty_of-length (x ∷ q) e = absurd (omega arith)

  put_by-length : {V : Type 0} (c : QueueCall V T) → length (put_by c) ≡ one (notified c)
  put_by-length (push x) = refl
  put_by-length try_pop = refl
  put_by-length (try_pop_value u) = refl
  put_by-length empty = refl

  body-grows :
      (v : Variant) (c : QueueCall (ByValue v) T) (ok n : Bool) (a : QueueAnswer T) (q q' : List T)
      → (queue_class v).body c ok q ≡ some (a, q', n)
      → length q' ≤ length q + one n
  body-grows v c ok n a q q' e =
      let kept =
        ap length (fifo_now-kept c q q' a ((queue_class-Implements v).body_ok c ok n a q q' e)) in
      let before = length-append q (put_by c) in
      let after = length-append (taken_in a) q' in
      let added = put_by-length c in
      let says = ap one (body-notified v c ok n a q q' e) in omega arith

  size_after : Option (QueueAnswer T × List T) → ℕ
  size_after none = 0
  size_after (some (a, q)) = length q

  fifo_after-takes :
      (w : QueueWait) (q q' : List T) (a : QueueAnswer T)
      → fifo_after w q ≡ some (a, q')
      → length q' + 1 ≤ length q
  unfolding fifo_after size_after
  fifo_after-takes w [] q' a e = absurd (cc)
  fifo_after-takes w (x ∷ q) q' a e = let same = ap size_after e in omega arith

  thread_safe-returns :
      (w : QueueWait) (ok : Bool) (q : List T)
      → not_empty q ≡ true
      → thread_safe_queue_rest w ok q ≢ raises
  unfolding thread_safe_queue_rest
  thread_safe-returns w ok [] ready e = absurd (cc)
  thread_safe-returns wait_and_pop_value ok (x ∷ q) ready e = absurd (cc)
  thread_safe-returns wait_and_pop ok (x ∷ q) ready e = absurd (cc)

  reliable-returns :
      (v : Variant) (w : QueueWait) (q : List T)
      → (queue_class v).ready q ≡ true
      → (queue_class v).rest w true q ≢ raises
  unfolding threadsafe_queue_rest chunk_queue_rest
  reliable-returns thread_safe w q ready e = thread_safe-returns w true q ready e
  reliable-returns threadsafe w [] ready e = absurd (cc)
  reliable-returns threadsafe wait_and_pop_value (x ∷ q) ready e = absurd (cc)
  reliable-returns threadsafe wait_and_pop (x ∷ q) ready e = absurd (cc)
  reliable-returns chunk w [] ready e = absurd (cc)
  reliable-returns chunk wait_and_pop_value (x ∷ q) ready e = absurd (cc)
  reliable-returns chunk wait_and_pop (x ∷ q) ready e = absurd (cc)

  ready-length : (v : Variant) (q : List T) → (queue_class v).ready q ≡ false → length q ≡ 0
  ready-length threadsafe q e = not_empty-length q e
  ready-length thread_safe q e = not_empty-length q e
  ready-length chunk q e = not_empty-length q e

  thread_safe-Notifying : Notifying (thread_safe_queue {T = T})
  thread_safe-Notifying = record {
    size = length;
    waits_at_none = not_empty-length;
    body_grows = λ c ok n a x y. body-grows thread_safe c ok n a x y;
    rest_takes = λ w ok a x y e.
        fifo_after-takes w x y a ((queue_class-Implements thread_safe).rest_ok w ok a x y e);
    rest_returns = thread_safe-returns;
    rest_defined = queue_class-Defined thread_safe;
  }

  reliable-Notifying : (v : Variant) → Notifying (reliable (queue_class {T = T} v))
  reliable-Notifying v = record {
    size = length;
    waits_at_none = ready-length v;
    body_grows = λ c ok n a x y. body-grows v c true n a x y;
    rest_takes = λ w ok a x y e.
        fifo_after-takes w x y a ((queue_class-Implements v).rest_ok w true a x y e);
    rest_returns = λ w ok x. reliable-returns v w x;
    rest_defined = λ w ok x. queue_class-Defined v w true x;
  }

  -- From a state in which no thread sleeps in wait_and_pop of thread_safe_queue, the threads never
  -- come to a state in which some thread sleeps, no woken thread is still to look at the queue,
  -- and the queue is not empty; allocations may fail.
  pub thread_safe_queue-NoneLost :
      (s s' : State (List T) (QueueCall Unit T) QueueWait (QueueAnswer T)) (es : _)
      → count is_sleeping s.threads ≡ 0
      → Trace thread_safe_queue s es s'
      → count is_awake s'.threads ≡ 0
      → 0 < count is_sleeping s'.threads
      → s'.contents ≡ []
  unfolding thread_safe-Notifying
  thread_safe_queue-NoneLost s s' es start trace looked sleeps = empty_of-length s'.contents (
      none_waits _ _ _ (Trace-NoneLost thread_safe-Notifying s s' es trace (inl start)) looked
        sleeps)

  -- If no allocation fails, then from a state in which no thread sleeps in wait_and_pop of one of
  -- the three queues, the threads never come to a state in which some thread sleeps, no woken
  -- thread is still to look at the queue, and the queue is not empty.
  reliable-NoneLost :
      (v : Variant) (s s' : State (List T) (QueueCall (ByValue v) T) QueueWait (QueueAnswer T))
      (es : _)
      → count is_sleeping s.threads ≡ 0
      → Trace (reliable (queue_class v)) s es s'
      → count is_awake s'.threads ≡ 0
      → 0 < count is_sleeping s'.threads
      → s'.contents ≡ []
  unfolding reliable-Notifying
  reliable-NoneLost v s s' es start trace looked sleeps = empty_of-length s'.contents (
      none_waits _ _ _ (Trace-NoneLost (reliable-Notifying v) s s' es trace (inl start)) looked
        sleeps)
