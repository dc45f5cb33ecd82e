-- ===== src/Queue/Shape.antt =====
-- What a queue in the heap stands for: the list of its nodes, address and element, in order.
use mathlib.Core.Bool.{or_assoc}
use c_practice.Base.{
  ◌<◌, ◌≤◌, ◌≡◌, refl, ◌≢◌, Bool, true, false, ◌||◌, Option, none, some, List, [], ◌∷◌, ◌++◌, arith,
  ◌==◌, length,
}
use c_practice.Queue.{
  Ptr, null, QueueNode, Heap, Queue, Outcome, ok, Cmd, continue, queue_node, put_cell, read,
  set_next, delete,
}

-- Total correctness of a run: it ends with no fault, within its fuel, and with `P`.
pub data Returns {E A : Type 0} (P : A → Heap E → Type 0) : Outcome E A → Type 0 where
  returns : {a : A} {h : Heap E} → P a h → Returns P (ok a h)

module _ {E A : Type 0} {P : A → Heap E → Type 0} where
  pub bind :
      {B : Type 0} {Q : B → Heap E → Type 0} {r : Outcome E A} {k : A → Cmd E B}
      → Returns P r
      → ((a : A) (h : Heap E) → P a h → Returns Q (k a h))
      → Returns Q (continue r k)
  bind (returns {a} {h} p) next = next a h p

  pub weaken :
      {Q : A → Heap E → Type 0} {r : Outcome E A}
      → Returns P r
      → ((a : A) (h : Heap E) → P a h → Q a h)
      → Returns Q r
  weaken (returns {a} {h} p) f = returns (f a h p)

module _ {E : Type 0} where
  abbrev pub first : List (Ptr × E) → Ptr
  first [] = null
  first ((p, _) ∷ _) = p

  unfoldable pub final : List (Ptr × E) → Ptr
  final [] = null
  final ((p, _) ∷ []) = p
  final (_ ∷ x ∷ xs) = final (x ∷ xs)

  abbrev pub has : Ptr → List (Ptr × E) → Bool
  has a [] = false
  has a ((p, _) ∷ xs) = a == p || has a xs

  abbrev pub elements : List (Ptr × E) → List E
  elements [] = []
  elements ((_, e) ∷ xs) = e ∷ elements xs

  -- Each node holds its element and points to the next; the addresses are distinct.
  abbrev pub Linked : Heap E → List (Ptr × E) → Type 0
  Linked h [] = Unit
  Linked h ((p, e) ∷ xs) =
      (h.cell p ≡ some (queue_node e (first xs)))
      × (p ≢ null)
      × (p < h.limit)
      × (has p xs ≡ false)
      × Linked h xs

  pub record IsQueue (h : Heap E) (q : Queue) (xs : List (Ptr × E)) : Type 0 where
    pub head : q.head ≡ first xs
    pub last : q.last ≡ final xs
    pub size : q.size ≡ length xs
    pub linked : Linked h xs
    pub allocates : null < h.limit

  pub has-append : (a : Ptr) (xs ys : List (Ptr × E)) → has a (xs ++ ys) ≡ (has a xs || has a ys)
  has-append a [] ys = refl
  has-append a ((p, e) ∷ xs) ys = rw (has-append a xs ys, or_assoc)

  pub ne_of_has : (a b : Ptr) (xs : List (Ptr × E)) → has a xs ≡ false → has b xs ≡ true → a ≢ b
  ne_of_has a b xs out here e = cc

  pub elements-append : (xs ys : List (Ptr × E)) → elements (xs ++ ys) ≡ elements xs ++ elements ys
  elements-append [] ys = refl
  elements-append ((p, e) ∷ xs) ys = rw (elements-append xs ys)

  pub put_cell_ne :
      (h : Heap E) (p : Ptr) (c : Option (QueueNode E)) (a : Ptr)
      → a ≢ p
      → (put_cell h p c).cell a ≡ h.cell a
  unfolding put_cell
  put_cell_ne h p c a ne = ground arith

  put_cell_self : (h : Heap E) (p : Ptr) (c : Option (QueueNode E)) → (put_cell h p c).cell p ≡ c
  unfolding put_cell
  put_cell_self h p c = ground arith

  -- Nodes keep their places in a heap that agrees on their addresses.
  pub frame :
      {h g : Heap E} (xs : List (Ptr × E))
      → Linked h xs
      → h.limit ≤ g.limit
      → ((a : Ptr) → has a xs ≡ true → g.cell a ≡ h.cell a)
      → Linked g xs
  frame [] l le same = tt
  frame ((p, e) ∷ xs) l le same = (
    ground (arith, same p),
    l.1,
    omega arith,
    l.3,
    frame xs l.4 le (λ a m. same a (ground arith)),
  )

  -- An address from `limit` on is that of no node.
  pub not-has_limit :
      (h : Heap E) (a : Ptr) (xs : List (Ptr × E)) → Linked h xs → h.limit ≤ a → has a xs ≡ false
  not-has_limit h a [] l le = refl
  not-has_limit h a ((p, e) ∷ xs) l le = ground (arith, not-has_limit h a xs l.4 le)

  pub read-ok :
      (h : Heap E) (p : Ptr) (n : QueueNode E) → p ≢ null → h.cell p ≡ some n → read p h ≡ ok n h
  unfolding read
  read-ok h p n ne e = ground arith

  pub set_next-ok :
      (h : Heap E) (p q : Ptr) (n : QueueNode E)
      → p ≢ null
      → h.cell p ≡ some n
      → set_next p q h ≡ ok tt (put_cell h p (some (queue_node n.element q)))
  unfolding set_next
  set_next-ok h p q n ne e = rw (read-ok h p n ne e)

  pub delete-ok :
      (h : Heap E) (p : Ptr) (n : QueueNode E)
      → p ≢ null
      → h.cell p ≡ some n
      → delete p h ≡ ok tt (put_cell h p none)
  unfolding delete
  delete-ok h p n ne e = rw (read-ok h p n ne e)
