-- ===== src/Queue/Tests.antt =====
-- The queue at concrete inputs.
use c_practice.Base.{
  ℕ, ◌*◌, ◌≡◌, refl, Option, none, some, List, [], ◌∷◌, arith, ◌==◌, if◌then◌else◌,
}
use c_practice.Queue.{
  Ptr, Heap, Queue, Outcome, ok, queue_node, enqueue, dequeue, clear, map_queue, clear_loop,
  new_queue_node, put_cell, read, set_next, delete,
}
use c_practice.Queue.Shape.{Returns, elements, IsQueue, final}
use c_practice.Queue.MapQueue.{map_queue-map}
use c_practice.Queue.Fifo.{
  Call, enqueues, dequeues, clears, run, run_list, call, Agrees, run-Agrees,
}

-- 10 at address 1, then 20 at address 2.
abbrev two_nodes : List (Ptr × ℕ)
two_nodes = (1, 10) ∷ (2, 20) ∷ []

abbrev two_heap : Heap ℕ
two_heap = record {
  cell = λ a.
      if a == 1 then some (queue_node 10 2) else if a == 2 then some (queue_node 20 0) else none;
  limit = 3;
}

abbrev two_queue : Queue
two_queue = record { head = 1; last = 2; size = 2 }

abbrev calls : List (Call ℕ)
calls = enqueues 30 ∷ dequeues ∷ dequeues ∷ enqueues 40 ∷ dequeues ∷ clears ∷ dequeues ∷ []

abbrev answers : Outcome ℕ (List (Option ℕ) × Queue) → Option (List (Option ℕ))
answers (ok r h) = some r.0
answers _ = none

two-IsQueue : IsQueue two_heap two_queue two_nodes
unfolding final
two-IsQueue = record {
  head = refl;
  last = refl;
  size = refl;
  linked = (refl, omega arith, omega arith, refl, (refl, omega arith, omega arith, refl, tt));
  allocates = omega arith;
}

run-calls :
    answers (run calls two_queue two_heap)
    ≡ some (none ∷ some 10 ∷ some 20 ∷ none ∷ some 30 ∷ none ∷ none ∷ [])
unfolding run call enqueue dequeue clear clear_loop new_queue_node put_cell read set_next delete
run-calls = refl

run-Agrees_example : Returns (Agrees (run_list calls (10 ∷ 20 ∷ []))) (run calls two_queue two_heap)
run-Agrees_example = run-Agrees calls two_heap two_queue two_nodes two-IsQueue

map_queue-map_example :
    Returns
      (λ q' g.
        (zs : List (Ptr × ℕ)) × IsQueue g q' zs
        × (elements zs ≡ 20 ∷ 40 ∷ [])
        × IsQueue g two_queue two_nodes)
      (map_queue (λ n. n * 2) two_queue two_heap)
map_queue-map_example = map_queue-map (λ n. n * 2) two_heap two_queue two_nodes two-IsQueue
