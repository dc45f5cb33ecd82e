-- ===== src/Queue/MapQueue.antt =====
-- `Queue<E>::Map`: a new queue beside the old one, in the same heap.
use mathlib.Core.List.{append_assoc, append-nil}
use mathlib.Core.Path.{subst}
use c_practice.Base.{
  ℕ, zero, suc, ◌+◌, ◌<◌, ◌≤◌, ◌≡◌, refl, ◌==◌, true, false, List, [], ◌∷◌, ◌++◌, ◌∙◌, map, arith,
  length,
}
use c_practice.Queue.{Ptr, null, Heap, Queue, empty_queue, queue_node, map_loop, map_queue}
use c_practice.Queue.Shape.{
  Returns, returns, bind, weaken, first, final, has, elements, Linked, IsQueue, has-append, frame,
  read-ok,
}
use c_practice.Queue.Enqueue.{Grown, enqueue-Grown}

module _ {E : Type 0} where
  abbrev pub Apart : List (Ptr × E) → List (Ptr × E) → Type 0
  Apart xs ys = (a : Ptr) → has a xs ≡ true → has a ys ≡ false

  -- `g` keeps what `h` holds below its limit, but for the nodes of `ys`.
  abbrev Spares : List (Ptr × E) → Heap E → Heap E → Type 0
  Spares ys h g =
      (h.limit ≤ g.limit) × ((a : Ptr) → a < h.limit → has a ys ≡ false → g.cell a ≡ h.cell a)

  abbrev Mapped : (E → E) → List (Ptr × E) → List (Ptr × E) → Heap E → Queue → Heap E → Type 0
  Mapped f xs ys h q g =
      (zs : List (Ptr × E)) × IsQueue g q (ys ++ zs)
      × (elements zs ≡ map f (elements xs))
      × Spares ys h g

  -- The addresses of a chain lie below the limit.
  lt-limit_of_has :
      (h : Heap E) (a : Ptr) (xs : List (Ptr × E)) → Linked h xs → has a xs ≡ true → a < h.limit
  lt-limit_of_has h a [] l m = absurd (cc)
  lt-limit_of_has h a ((p, e) ∷ xs) l m = ground (arith, lt-limit_of_has h a xs l.4)

  module _ (h g : Heap E) (q : Queue) (v : E) (ys : List (Ptr × E)) (grown : Grown h ys v q g) where
    Linked-grown : (xs : List (Ptr × E)) → Linked h xs → Apart xs ys → Linked g xs
    Linked-grown xs l apart =
        frame xs l (omega (arith, grown.1))
          (λ a m. grown.2 a (apart a m) (λ e. omega (arith, lt-limit_of_has h a xs l m)))

    Apart-grown :
        (xs : List (Ptr × E)) → Linked h xs → Apart xs ys → Apart xs (ys ++ (h.limit, v) ∷ [])
    Apart-grown xs l apart a m =
        ground (arith, has-append a ys ((h.limit, v) ∷ []), apart a, lt-limit_of_has h a xs l m)

    Mapped-grown :
        (f : E → E) (e : E) (xs : List (Ptr × E)) (q' : Queue) (g' : Heap E)
        → f e ≡ v
        → Mapped f xs (ys ++ (h.limit, v) ∷ []) g q' g'
        → (p : Ptr) → Mapped f ((p, e) ∷ xs) ys h q' g'
    Mapped-grown f e xs q' g' eq (zs, is, same, (le, spared)) p = (
      (h.limit, v) ∷ zs,
      subst (λ t. IsQueue g' q' t) (append_assoc ys ((h.limit, v) ∷ []) zs) is,
      cc,
      (
        omega (arith, grown.1),
        λ a lt out.
            spared a (omega (arith, grown.1)) (ground (arith, has-append a ys ((h.limit, v) ∷ [])))
            ∙ grown.2 a out (λ e'. omega arith),
      ),
    )

  map_loop-Mapped :
      (k : ℕ) (f : E → E) (h : Heap E) (q : Queue) (xs ys : List (Ptr × E))
      → Linked h xs
      → IsQueue h q ys
      → Apart xs ys
      → length xs < k
      → Returns (Mapped f xs ys h) (map_loop k f q (first xs) h)
  unfolding map_loop
  map_loop-Mapped zero f h q xs ys l is apart fuel = absurd (omega arith)
  map_loop-Mapped (suc k) f h q [] ys l is apart fuel =
      returns ([], rw append-nil is, refl, (omega arith, λ a lt out. refl))
  map_loop-Mapped (suc k) f h q ((p, e) ∷ xs) ys l is apart fuel =
      let more : (p == null) ≡ false = ground arith in
      let behind : Apart xs ys = λ a m. apart a (ground arith) in
      rw more (
        rw (read-ok h p (queue_node e (first xs)) l.1 l.0) (
          bind (enqueue-Grown h q ys (f e) is) (λ q' g grown.
            weaken
              (map_loop-Mapped k f g q' xs (ys ++ (h.limit, f e) ∷ [])
                (Linked-grown h g q' (f e) ys grown xs l.4 behind) grown.0
                (Apart-grown h g q' (f e) ys grown xs l.4 behind) (omega arith))
              (λ q'' g' done. Mapped-grown h g q' (f e) ys grown f e xs q'' g' refl done p))))

  -- Map returns a queue of the images in order, and the queue it was called on is still there as
  -- it was.
  pub map_queue-map :
      (f : E → E) (h : Heap E) (q : Queue) (xs : List (Ptr × E))
      → IsQueue h q xs
      → Returns
          (λ q' g.
            (zs : List (Ptr × E)) × IsQueue g q' zs
            × (elements zs ≡ map f (elements xs))
            × IsQueue g q xs)
          (map_queue f q h)
  unfolding map_queue final
  map_queue-map f h q xs is = rw is.head (
      weaken
        (map_loop-Mapped (q.size + 1) f h empty_queue xs [] is.linked
          (record { head = refl; last = refl; size = refl; linked = tt; allocates = is.allocates })
          (λ a m. refl) (omega (arith, is.size)))
        (λ q' g (zs, is', same, (le, spared)). (
          zs,
          is',
          same,
          record {
            head = refl;
            last = is.last;
            size = is.size;
            linked =
                frame xs is.linked le (λ a m. spared a (lt-limit_of_has h a xs is.linked m) refl);
            allocates = omega (arith, is.allocates);
          },
        )))
