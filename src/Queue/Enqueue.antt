-- ===== src/Queue/Enqueue.antt =====
-- `Queue<E>::Enqueue`: a new node behind the last one.
use c_practice.Base.{
  ◌+◌, ◌<◌, ◌≡◌, refl, ◌≢◌, ◌==◌, true, false, some, List, [], ◌∷◌, ◌∙◌, ◌++◌, arith, length-append,
  sym,
}
use c_practice.Queue.{Ptr, null, Heap, Queue, queue_node, put_cell, new_queue_node, enqueue}
use c_practice.Queue.Shape.{
  Returns, returns, final, has, Linked, IsQueue, has-append, ne_of_has, put_cell_ne, not-has_limit,
  set_next-ok,
}

module _ {E : Type 0} where
  has-final :
      (p : Ptr) (e : E) (xs : List (Ptr × E)) → has (final ((p, e) ∷ xs)) ((p, e) ∷ xs) ≡ true
  unfolding final
  has-final p e [] = ground arith
  has-final p e ((r, f) ∷ ys) = ground (arith, has-final r f ys)

  final-append : (n : Ptr) (v : E) (xs : List (Ptr × E)) → final (xs ++ (n, v) ∷ []) ≡ n
  unfolding final
  final-append n v [] = refl
  final-append n v ((p, e) ∷ []) = refl
  final-append n v ((p, e) ∷ (r, f) ∷ ys) = final-append n v ((r, f) ∷ ys)

  -- The last node of a chain, with what `enqueue` has to know of it.
  Linked-final :
      (h : Heap E) (p : Ptr) (e : E) (xs : List (Ptr × E))
      → Linked h ((p, e) ∷ xs)
      → (v : E) × (h.cell (final ((p, e) ∷ xs)) ≡ some (queue_node v null))
        × (final ((p, e) ∷ xs) ≢ null)
  unfolding final
  Linked-final h p e [] l = (e, l.0, l.1)
  Linked-final h p e ((r, f) ∷ ys) l = Linked-final h r f ys l.4

  -- `g` is `h` with a node at `h.limit`, to which the last node of the chain now points.
  Linked-append :
      (h g : Heap E) (p : Ptr) (e : E) (xs : List (Ptr × E)) (v : E)
      → Linked h ((p, e) ∷ xs)
      → null < h.limit
      → g.limit ≡ h.limit + 1
      → g.cell h.limit ≡ some (queue_node v null)
      → ((a : Ptr) → has a ((p, e) ∷ xs) ≡ true → a ≢ final ((p, e) ∷ xs) → g.cell a ≡ h.cell a)
      → ((w : E)
          → h.cell (final ((p, e) ∷ xs)) ≡ some (queue_node w null)
          → g.cell (final ((p, e) ∷ xs)) ≡ some (queue_node w h.limit))
      → Linked g ((p, e) ∷ xs ++ (h.limit, v) ∷ [])
  unfolding final
  Linked-append h g p e [] v l pos grown there same linked =
      (linked e l.0, l.1, omega arith, ground arith, (there, omega arith, omega arith, refl, tt))
  Linked-append h g p e ((r, f) ∷ ys) v l pos grown there same linked = (
    same p (ground arith) (ne_of_has p (final ((r, f) ∷ ys)) ((r, f) ∷ ys) l.3 (has-final r f ys))
        ∙ l.0,
    l.1,
    omega arith,
    ground (arith, has-append p ys ((h.limit, v) ∷ [])),
    Linked-append h g r f ys v l.4 pos grown there (λ a m. same a (ground arith)) linked,
  )

  abbrev pub Grown : Heap E → List (Ptr × E) → E → Queue → Heap E → Type 0
  Grown h xs v q g =
      IsQueue g q (xs ++ (h.limit, v) ∷ [])
      × (g.limit ≡ h.limit + 1)
      × ((a : Ptr) → has a xs ≡ false → a ≢ h.limit → g.cell a ≡ h.cell a)

  -- The heap after `new`, and the chain in it.
  abbrev Allocated : Heap E → E → Heap E
  Allocated h v = record (put_cell h h.limit (some (queue_node v null))) { limit = h.limit + 1 }

  enqueue-cons :
      (h : Heap E) (q : Queue) (p : Ptr) (e : E) (xs : List (Ptr × E)) (v : E)
      → IsQueue h q ((p, e) ∷ xs)
      → Returns (Grown h ((p, e) ∷ xs) v) (enqueue q v h)
  unfolding enqueue new_queue_node put_cell
  enqueue-cons h q p e xs v is =
      let (w, held, ne) = Linked-final h p e xs is.linked in
      let old : final ((p, e) ∷ xs) ≢ h.limit =
        ground (arith, has-final p e xs, not-has_limit h h.limit ((p, e) ∷ xs) is.linked) in
      let some_node : (q.size == 0) ≡ false = ground arith in
      rw some_node (
        rw is.last (
          rw
            (set_next-ok (Allocated h v) (final ((p, e) ∷ xs)) h.limit (queue_node w null) ne
              (ground arith))
            (returns (
              record {
                head = is.head;
                last = sym (final-append h.limit v ((p, e) ∷ xs));
                size = omega (arith, is.size, length-append xs ((h.limit, v) ∷ []));
                linked =
                    Linked-append h _ p e xs v is.linked is.allocates refl (ground arith)
                      (λ a m far.
                        put_cell_ne (Allocated h v) (final ((p, e) ∷ xs)) _ a far
                        ∙ put_cell_ne h h.limit _ a (λ eq.
                          ne_of_has h.limit a ((p, e) ∷ xs)
                            (not-has_limit h h.limit ((p, e) ∷ xs) is.linked (omega arith)) m
                            (sym eq)))
                      (λ u k. ground arith);
                allocates = omega arith;
              },
              refl,
              λ a out far.
                  ground
                    (arith, ne_of_has a (final ((p, e) ∷ xs)) ((p, e) ∷ xs) out (has-final p e xs)),
            ))))

  -- Enqueue leaves a queue with the new node at its end, and beside that node writes only the last
  -- one.
  pub enqueue-Grown :
      (h : Heap E) (q : Queue) (xs : List (Ptr × E)) (v : E)
      → IsQueue h q xs
      → Returns (Grown h xs v) (enqueue q v h)
  unfolding enqueue new_queue_node put_cell final
  enqueue-Grown h q [] v is =
      let none_yet : (q.size == 0) ≡ true = ground arith in
      rw none_yet (
        returns (
          record {
            head = refl;
            last = refl;
            size = refl;
            linked = (ground arith, omega arith, omega arith, refl, tt);
            allocates = omega arith;
          },
          refl,
          ground arith,
        ))
  enqueue-Grown h q ((p, e) ∷ xs) v is = enqueue-cons h q p e xs v is
