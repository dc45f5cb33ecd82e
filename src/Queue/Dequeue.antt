-- ===== src/Queue/Dequeue.antt =====
-- `Queue<E>::Dequeue` and `Queue<E>::Clear`: nodes leave the heap.
use c_practice.Base.{
  ℕ, zero, suc, ◌-◌, ◌<◌, ◌≡◌, refl, ◌==◌, true, false, none, some, Option, List, [], ◌∷◌, sym,
  arith, length, if◌then◌else◌,
}
use c_practice.Queue.{Ptr, null, Heap, Queue, ok, queue_node, put_cell, dequeue, clear_loop, clear}
use c_practice.Queue.Shape.{
  Returns, returns, bind, weaken, first, final, has, Linked, IsQueue, ne_of_has, put_cell_ne, frame,
  read-ok, delete-ok,
}

module _ {E : Type 0} where
  -- The rest of a chain stays in place when its first node is deleted.
  Linked-delete :
      (h : Heap E) (p : Ptr) (xs : List (Ptr × E))
      → has p xs ≡ false
      → Linked h xs
      → Linked (put_cell h p none) xs
  unfolding put_cell
  Linked-delete h p xs out l =
      frame xs l (omega arith) (λ a m. put_cell_ne h p none a (λ e. ne_of_has p a xs out m (sym e)))

  final-tail :
      (n : ℕ) (p : Ptr) (e : E) (xs : List (Ptr × E))
      → n ≡ suc (length xs)
      → (if n - 1 == 0 then null else final ((p, e) ∷ xs)) ≡ final xs
  unfolding final
  final-tail n p e [] size = ground arith
  final-tail n p e ((r, f) ∷ ys) size = ground arith

  abbrev pub Taken : Heap E → Ptr → E → List (Ptr × E) → Option E × Queue → Heap E → Type 0
  Taken h p e xs (out, q) g = (out ≡ some e) × (g ≡ put_cell h p none) × IsQueue g q xs

  -- Dequeue of a queue that is not empty returns the first element, deletes exactly its node, and
  -- leaves a queue of the rest in order.
  pub dequeue-Taken :
      (h : Heap E) (q : Queue) (p : Ptr) (e : E) (xs : List (Ptr × E))
      → IsQueue h q ((p, e) ∷ xs)
      → Returns (Taken h p e xs) (dequeue q h)
  unfolding dequeue put_cell
  dequeue-Taken h q p e xs is =
      let full : (q.size == 0) ≡ false = ground arith in
      rw full (
        rw is.head (
          rw (read-ok h p (queue_node e (first xs)) is.linked.1 is.linked.0) (
            rw (read-ok h p (queue_node e (first xs)) is.linked.1 is.linked.0) (
              rw (delete-ok h p (queue_node e (first xs)) is.linked.1 is.linked.0) (
                returns (
                  refl,
                  refl,
                  record {
                    head = refl;
                    last = rw is.last (final-tail q.size p e xs is.size);
                    size = omega (arith, is.size);
                    linked = Linked-delete h p xs is.linked.3 is.linked.4;
                    allocates = is.allocates;
                  },
                ))))))

  pub dequeue-empty : (h : Heap E) (q : Queue) → IsQueue h q [] → dequeue q h ≡ ok (none, q) h
  unfolding dequeue
  dequeue-empty h q is = let none_left : (q.size == 0) ≡ true = ground arith in rw none_left

  -- `g` is `h` less the nodes of `xs`.
  abbrev pub Without : List (Ptr × E) → Heap E → Heap E → Type 0
  Without xs h g = (a : Ptr) → g.cell a ≡ (if has a xs then none else h.cell a)

  Without-cons :
      (h g : Heap E) (p : Ptr) (e : E) (xs : List (Ptr × E))
      → Without xs (put_cell h p none) g
      → Without ((p, e) ∷ xs) h g
  unfolding put_cell
  Without-cons h g p e xs gone a = ground (arith, gone a)

  clear_loop-Without :
      (k : ℕ) (h : Heap E) (p : Ptr) (e : E) (xs : List (Ptr × E))
      → Linked h ((p, e) ∷ xs)
      → length xs < k
      → Returns
          (λ _ g. Without ((p, e) ∷ xs) h g × (g.limit ≡ h.limit))
          (clear_loop k p (first xs) h)
  unfolding clear_loop put_cell
  clear_loop-Without zero h p e xs l fuel = absurd (omega arith)
  clear_loop-Without (suc k) h p e [] l fuel =
      rw (delete-ok h p _ l.1 l.0) (returns (λ a. ground arith, refl))
  clear_loop-Without (suc k) h p e ((r, f) ∷ ys) l fuel =
      let more : (r == null) ≡ false = ground arith in
      let rest = Linked-delete h p ((r, f) ∷ ys) l.3 l.4 in
      rw (delete-ok h p _ l.1 l.0) (
        rw more (
          rw (read-ok (put_cell h p none) r _ rest.1 rest.0) (
            weaken (clear_loop-Without k (put_cell h p none) r f ys rest (omega arith))
              (λ _ g gone. (Without-cons h g p e ((r, f) ∷ ys) gone.0, gone.1)))))

  -- Clear deletes exactly the nodes of the queue, each once, and leaves an empty queue.
  pub clear-Without :
      (h : Heap E) (q : Queue) (xs : List (Ptr × E))
      → IsQueue h q xs
      → Returns (λ q' g. IsQueue g q' [] × Without xs h g) (clear q h)
  unfolding clear final
  clear-Without h q [] is =
      let none_left : (q.size == 0) ≡ true = ground arith in
      rw none_left (
        returns (
          record {
            head = is.head;
            last = is.last;
            size = is.size;
            linked = tt;
            allocates = is.allocates;
          },
          λ a. refl,
        ))
  clear-Without h q ((p, e) ∷ xs) is =
      let full : (q.size == 0) ≡ false = ground arith in
      rw full (
        rw is.head (
          rw (read-ok h p (queue_node e (first xs)) is.linked.1 is.linked.0) (
            bind (clear_loop-Without q.size h p e xs is.linked (omega (arith, is.size)))
              (λ _ g gone. returns (
                record {
                  head = refl;
                  last = refl;
                  size = refl;
                  linked = tt;
                  allocates = rw gone.1 is.allocates;
                },
                gone.0,
              )))))
