-- ===== src/Monitor/Tests.antt =====
-- Two threads with a queue, and one with a stack.
use c_practice.Base.{ℕ, ◌+◌, ◌≡◌, refl, Bool, update, true, false, none, List, [], ◌∷◌, ◌++◌, arith}
use c_practice.Base.Counting.{count}
use c_practice.Monitor.Locking.{Locked, LockedTrace}
use c_practice.Monitor.{
  is_broken, State, Event, Step, Trace, Point, called, waited, stop, go, reliable,
}
use c_practice.Monitor.Replay.{Replay}
use c_practice.Monitor.Queues.{
  QueueCall, QueueWait, QueueAnswer, push, try_pop, wait_and_pop, pushed, popped, thread_safe_queue,
  thread_safe_queue_body, thread_safe_queue_rest, fifo,
}
use c_practice.Monitor.Queues.Fifo.{
  thread_safe, threadsafe, queue_class, Trace-Fifo, values_put, values_taken,
}
use c_practice.Monitor.Queues.Sleepers.{thread_safe_queue-NoneLost}
use c_practice.Monitor.Stacks.{
  StackCall, StackAnswer, threadsafe_stack, threadsafe_stack_body, lifo,
}
use c_practice.Monitor.Stacks.Lifo.{values_pushed, values_popped, threadsafe_stack-Replay}

abbrev QueueState : Type 0
QueueState = State (List ℕ) (QueueCall Unit ℕ) QueueWait (QueueAnswer ℕ)

abbrev queue_start : QueueState
queue_start = record { contents = []; mutex = none; threads = Point.idle ∷ Point.idle ∷ [] }

-- The first thread sleeps, the second pushes 7 and wakes it, and it takes the 7.
abbrev queue_end : QueueState
queue_end = record {
  contents = [];
  mutex = none;
  threads = Point.returned (popped 7) ∷ Point.returned pushed ∷ [];
}

abbrev queue_events : List (Event (QueueCall Unit ℕ) QueueWait (QueueAnswer ℕ))
queue_events = called (push 7) pushed ∷ waited wait_and_pop (popped 7) ∷ []

abbrev nothing_seen : ℕ → List ℕ
nothing_seen t = []

-- Each of the three times that the mutex was taken.
abbrev queue_seen : ℕ → List ℕ
queue_seen = update (update (update nothing_seen 0 []) 1 []) 0 (7 ∷ [])

queue-Trace :
    LockedTrace (queue_class thread_safe) queue_start nothing_seen queue_events queue_end queue_seen
unfolding thread_safe_queue_body thread_safe_queue_rest
queue-Trace = LockedTrace.go (Locked.calls_wait 0 Point.idle wait_and_pop refl refl) (
    LockedTrace.go (Locked.enters 0 wait_and_pop refl refl) (
      LockedTrace.go (Locked.sleeps 0 false wait_and_pop refl refl) (
        LockedTrace.go (Locked.calls 1 Point.idle (push 7) refl refl) (
          LockedTrace.go (Locked.locks 1 (push 7) refl refl) (
            LockedTrace.go
              (Locked.notifies 1 0 (push 7) wait_and_pop true pushed (7 ∷ []) refl refl refl)
              (LockedTrace.go (Locked.relocks 0 wait_and_pop refl refl) (
                LockedTrace.go (Locked.passes 0 true wait_and_pop true (popped 7) [] refl refl refl)
                  LockedTrace.stop)))))))

Trace-Fifo_example :
    Replay fifo queue_events [] []
    × ([] ++ values_put queue_events ≡ values_taken queue_events ++ [])
    × (count is_broken queue_end.threads ≡ 0)
Trace-Fifo_example =
    Trace-Fifo thread_safe queue_start queue_end nothing_seen queue_seen queue_events refl refl
      queue-Trace

-- The second thread takes the 7 back before the first one runs, which goes to sleep again.
abbrev asleep_end : QueueState
asleep_end = record {
  contents = [];
  mutex = none;
  threads = Point.sleeping wait_and_pop ∷ Point.returned (popped 7) ∷ [];
}

abbrev asleep_events : List (Event (QueueCall Unit ℕ) QueueWait (QueueAnswer ℕ))
asleep_events = called (push 7) pushed ∷ called try_pop (popped 7) ∷ []

asleep-Trace : Trace thread_safe_queue queue_start asleep_events asleep_end
unfolding thread_safe_queue_body thread_safe_queue_rest
asleep-Trace = go (Step.calls_wait 0 Point.idle wait_and_pop refl refl) (
    go (Step.enters 0 wait_and_pop refl refl) (
      go (Step.sleeps 0 false wait_and_pop refl refl) (
        go (Step.calls 1 Point.idle (push 7) refl refl) (
          go (Step.locks 1 (push 7) refl refl) (
            go (Step.notifies 1 0 (push 7) wait_and_pop true pushed (7 ∷ []) refl refl refl) (
              go (Step.calls 1 (Point.returned pushed) try_pop refl refl) (
                go (Step.locks 1 try_pop refl refl) (
                  go (Step.returns 1 try_pop true (popped 7) [] refl refl) (
                    go (Step.relocks 0 wait_and_pop refl refl)
                      (go (Step.sleeps 0 true wait_and_pop refl refl) stop))))))))))

thread_safe_queue-NoneLost_example : asleep_end.contents ≡ []
thread_safe_queue-NoneLost_example =
    thread_safe_queue-NoneLost queue_start asleep_end asleep_events refl asleep-Trace refl
      (omega arith)

abbrev WaitingState : Type 0
WaitingState = State (List ℕ) (QueueCall ⊥ ℕ) QueueWait (QueueAnswer ℕ)

abbrev waiting_start : WaitingState
waiting_start = record { contents = []; mutex = none; threads = Point.idle ∷ [] }

abbrev waiting_end : WaitingState
waiting_end = record { contents = []; mutex = none; threads = Point.sleeping wait_and_pop ∷ [] }

waiting-Trace : Trace (reliable (queue_class threadsafe)) waiting_start [] waiting_end
waiting-Trace = go (Step.calls_wait 0 Point.idle wait_and_pop refl refl) (
    go (Step.enters 0 wait_and_pop refl refl) (
      go (Step.sleeps 0 false wait_and_pop refl refl) (
        go (Step.wakes 0 wait_and_pop refl) (
          go (Step.relocks 0 wait_and_pop refl refl)
            (go (Step.sleeps 0 true wait_and_pop refl refl) stop)))))

abbrev StackState : Type 0
StackState = State (List ℕ) (StackCall Unit ℕ) ⊥ (StackAnswer ℕ)

abbrev stack_start : StackState
stack_start = record { contents = 4 ∷ []; mutex = none; threads = Point.idle ∷ [] }

abbrev stack_end : StackState
stack_end = record {
  contents = [];
  mutex = none;
  threads = Point.returned StackAnswer.empty_stack ∷ [];
}

abbrev stack_events : List (Event (StackCall Unit ℕ) ⊥ (StackAnswer ℕ))
stack_events =
    called StackCall.pop (StackAnswer.popped 4)
    ∷ called StackCall.pop_value StackAnswer.empty_stack
    ∷ []

abbrev stack_seen : ℕ → List ℕ
stack_seen = update (update (update nothing_seen 0 (4 ∷ [])) 0 (4 ∷ [])) 0 []

stack-Trace :
    LockedTrace threadsafe_stack stack_start nothing_seen stack_events stack_end stack_seen
unfolding threadsafe_stack_body
stack-Trace = LockedTrace.go (Locked.calls 0 Point.idle StackCall.pop refl refl) (
    LockedTrace.go (Locked.locks 0 StackCall.pop refl refl) (
      LockedTrace.go (Locked.throws 0 StackCall.pop false refl refl) (
        LockedTrace.go (Locked.calls 0 Point.threw StackCall.pop refl refl) (
          LockedTrace.go (Locked.locks 0 StackCall.pop refl refl) (
            LockedTrace.go (Locked.returns 0 StackCall.pop true (StackAnswer.popped 4) [] refl refl)
              (LockedTrace.go
                (Locked.calls 0 (Point.returned (StackAnswer.popped 4)) StackCall.pop_value refl
                  refl)
                (LockedTrace.go (Locked.locks 0 StackCall.pop_value refl refl) (
                  LockedTrace.go
                    (Locked.returns 0 StackCall.pop_value true StackAnswer.empty_stack [] refl refl)
                    LockedTrace.stop))))))))

threadsafe_stack-Replay_example :
    Replay lifo stack_events (4 ∷ []) []
    × ((test : ℕ → Bool)
        → count test (4 ∷ []) + count test (values_pushed stack_events)
          ≡ count test (values_popped stack_events) + count test [])
threadsafe_stack-Replay_example =
    threadsafe_stack-Replay stack_start stack_end nothing_seen stack_seen stack_events refl
      stack-Trace
