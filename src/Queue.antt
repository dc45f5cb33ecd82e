-- ===== src/Queue.antt =====
-- googletest/gtest/sample3-inl.h: the singly linked queue `Queue<E>` with head and last pointers,
-- over an explicit heap of `QueueNode<E>`.
--
-- A pointer is a number and `NULL` is 0. `new` hands out addresses from `limit` upward, and never
-- fails or reuses one; a read, a write or a `delete` through `NULL` or through an address that holds
-- no node is a fault. Loops run on fuel and say so when it ends. `size_` counts live nodes, so it
-- does not wrap.
pub mod Shape
pub mod Enqueue
pub mod Dequeue
pub mod MapQueue
pub mod Fifo
mod Tests
use c_practice.Base.{ℕ, zero, suc, ◌+◌, ◌-◌, Option, none, some, ◌==◌, if◌then◌else◌}

abbrev pub Ptr : Type 0
Ptr = ℕ

abbrev pub null : Ptr
null = 0

pub record QueueNode (E : Type 0) : Type 0 where
  pub element : E
  pub next : Ptr

pub record Heap (E : Type 0) : Type 0 where
  pub cell : Ptr → Option (QueueNode E)
  pub limit : Ptr

pub record Queue : Type 0 where
  pub head : Ptr
  pub last : Ptr
  pub size : ℕ

pub data Outcome (E A : Type 0) : Type 0 where
  ok : A → Heap E → Outcome E A
  fault : Outcome E A
  out_of_fuel : Outcome E A

abbrev pub Cmd : Type 0 → Type 0 → Type 0
Cmd E A = Heap E → Outcome E A

abbrev pub queue_node : {E : Type 0} → E → Ptr → QueueNode E
queue_node e q = record { element = e; next = q }

-- `Queue()`
abbrev pub empty_queue : Queue
empty_queue = record { head = null; last = null; size = 0 }

module _ {E A B : Type 0} where
  abbrev pub continue : Outcome E A → (A → Cmd E B) → Outcome E B
  continue (ok a h) k = k a h
  continue fault k = fault
  continue out_of_fuel k = out_of_fuel

  infixl 5 ◌>>=◌ ◌>>◌
  abbrev pub ◌>>=◌ : Cmd E A → (A → Cmd E B) → Cmd E B
  ◌>>=◌ m k h = continue (m h) k

  abbrev pub ◌>>◌ : Cmd E A → Cmd E B → Cmd E B
  ◌>>◌ m n h = continue (m h) (λ _. n)

module _ {E : Type 0} where
  pub put_cell : Heap E → Ptr → Option (QueueNode E) → Heap E
  put_cell h p c = record h { cell = λ a. if a == p then c else h.cell a }

  abbrev pub return : {A : Type 0} → A → Cmd E A
  return a h = ok a h

  -- `new QueueNode<E>(element)`
  pub new_queue_node : E → Cmd E Ptr
  new_queue_node e h =
      ok h.limit (record (put_cell h h.limit (some (queue_node e null))) { limit = h.limit + 1 })

  -- `*p`
  pub read : Ptr → Cmd E (QueueNode E)
  read p h = if p == null then fault else elim (h.cell p) [ none ↦ fault | some n ↦ ok n h ]

  -- `p->next_ = q`
  pub set_next : Ptr → Ptr → Cmd E (Unit {0})
  set_next p q h = continue (read p h) (λ n g. ok tt (put_cell g p (some (record n { next = q }))))

  -- `delete p`
  pub delete : Ptr → Cmd E (Unit {0})
  delete p h = continue (read p h) (λ n g. ok tt (put_cell g p none))

  pub enqueue : Queue → E → Cmd E Queue
  enqueue q element = do
    new_node ← new_queue_node element
    if q.size == 0
        then return (record { head = new_node; last = new_node; size = 1 })
        else do set_next q.last new_node; return (record q { last = new_node; size = q.size + 1 })

  -- The returned `E*` is a copy: `none` stands for `NULL`.
  pub dequeue : Queue → Cmd E (Option E × Queue)
  dequeue q = if q.size == 0 then return (none, q) else do
    old_head ← read q.head
    element ← read q.head
    delete q.head
    return (
      some element.element,
      record {
        head = old_head.next;
        last = if q.size - 1 == 0 then null else q.last;
        size = q.size - 1;
      },
    )

  -- The `for (; ;)` of `Clear`.
  pub clear_loop : ℕ → (node next : Ptr) → Cmd E (Unit {0})
  clear_loop zero node next = λ _. out_of_fuel
  clear_loop (suc k) node next = do
    delete node
    if next == null then return tt else do after ← read next; clear_loop k next after.next

  pub clear : Queue → Cmd E Queue
  clear q =
      if q.size == 0
      then return q
      else do node ← read q.head; clear_loop q.size q.head node.next; return empty_queue

  -- The `for` of `Map`, over the nodes from `node`.
  pub map_loop : ℕ → (E → E) → Queue → Ptr → Cmd E Queue
  map_loop zero function new_queue node = λ _. out_of_fuel
  map_loop (suc k) function new_queue node = if node == null then return new_queue else do
    n ← read node
    grown ← enqueue new_queue (function n.element)
    map_loop k function grown n.next

  -- The queue itself is left as it is; its `size` bounds the rounds.
  pub map_queue : (E → E) → Queue → Cmd E Queue
  map_queue function q = map_loop (q.size + 1) function empty_queue q.head
