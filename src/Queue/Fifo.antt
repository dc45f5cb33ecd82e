-- ===== src/Queue/Fifo.antt =====
-- The queue against a plain list of its elements: any history of calls on one queue.
use c_practice.Base.{◌≡◌, refl, Option, none, some, List, [], ◌∷◌, ◌++◌}
use c_practice.Queue.{Ptr, Heap, Queue, Cmd, return, ◌>>=◌, enqueue, dequeue, clear}
use c_practice.Queue.Shape.{Returns, returns, bind, weaken, elements, IsQueue, elements-append}
use c_practice.Queue.Enqueue.{enqueue-Grown}
use c_practice.Queue.Dequeue.{dequeue-Taken, dequeue-empty, clear-Without}

-- A call, and what the caller gets back: `none` is `NULL`, or nothing.
pub data Call (E : Type 0) : Type 0 where
  enqueues : E → Call E
  dequeues : Call E
  clears : Call E

module _ {E : Type 0} where
  unfoldable pub call : Call E → Queue → Cmd E (Option E × Queue)
  call (enqueues e) q = do grown ← enqueue q e; return (none, grown)
  call dequeues q = dequeue q
  call clears q = do emptied ← clear q; return (none, emptied)

  unfoldable pub run : List (Call E) → Queue → Cmd E (List (Option E) × Queue)
  run [] q = return ([], q)
  run (c ∷ cs) q = do (out, after) ← call c q; (outs, end) ← run cs after; return (out ∷ outs, end)

  -- The same on a list.
  abbrev pub call_list : Call E → List E → Option E × List E
  call_list (enqueues e) l = (none, l ++ e ∷ [])
  call_list dequeues [] = (none, [])
  call_list dequeues (e ∷ l) = (some e, l)
  call_list clears l = (none, [])

  abbrev pub run_list : List (Call E) → List E → List (Option E) × List E
  run_list [] l = ([], l)
  run_list (c ∷ cs) l =
      ((call_list c l).0 ∷ (run_list cs (call_list c l).1).0, (run_list cs (call_list c l).1).1)

  -- The outputs are those of the list, and the heap holds a queue of what the list holds.
  abbrev pub Agrees : {A : Type 0} → A × List E → A × Queue → Heap E → Type 0
  Agrees (out, l) (out', q) g =
      (out' ≡ out) × (xs : List (Ptr × E)) × IsQueue g q xs × (elements xs ≡ l)

  call-Agrees :
      (c : Call E) (h : Heap E) (q : Queue) (xs : List (Ptr × E))
      → IsQueue h q xs
      → Returns (Agrees (call_list c (elements xs))) (call c q h)
  unfolding call
  call-Agrees (enqueues e) h q xs is = bind (enqueue-Grown h q xs e is) (λ q' g grown.
      returns (refl, xs ++ (h.limit, e) ∷ [], grown.0, elements-append xs ((h.limit, e) ∷ [])))
  call-Agrees dequeues h q [] is = rw (dequeue-empty h q is) (returns (refl, [], is, refl))
  call-Agrees dequeues h q ((p, e) ∷ xs) is =
      weaken (dequeue-Taken h q p e xs is) (λ r g taken. (taken.0, xs, taken.2, refl))
  call-Agrees clears h q xs is =
      bind (clear-Without h q xs is) (λ q' g gone. returns (refl, [], gone.0, refl))

  -- Any history of Enqueue, Dequeue and Clear on a queue ends with no fault and within its fuel,
  -- gives the caller the answers that a plain list gives, first in, first out, and leaves a queue
  -- of the elements that the list then holds.
  pub run-Agrees :
      (cs : List (Call E)) (h : Heap E) (q : Queue) (xs : List (Ptr × E))
      → IsQueue h q xs
      → Returns (Agrees (run_list cs (elements xs))) (run cs q h)
  unfolding run
  run-Agrees [] h q xs is = returns (refl, xs, is, refl)
  run-Agrees (c ∷ cs) h q xs is = bind (call-Agrees c h q xs is) (λ r g (eq, ys, is', els).
      bind (run-Agrees cs g r.1 ys is') (λ r' g' (eq', zs, is'', els'). returns (cc, zs, is'', cc)))
