-- ===== src/Monitor/Stacks.antt =====
-- The stacks of chap6/threadsafe_stack.h and chap3/3_5.cpp, and what a stack is that only one thread
-- uses.
--
-- Values are moved and copied without exceptions. The copy constructor of the second class takes the
-- mutex of the new stack instead of the one it copies; it is not one of the calls here.
pub mod Lifo
use c_practice.Base.{ℕ, ◌≡◌, Bool, true, false, Option, none, some, List, [], ◌∷◌}
use c_practice.Monitor.{Class}
use c_practice.Monitor.Queues.{null, allocates}
use c_practice.Monitor.Replay.{Sequential}

-- `copies` is the type of the permissions to be copied. The top comes first.
pub data StackCall (copies T : Type 0) : Type 0 where
  push : T → StackCall copies T
  pop : StackCall copies T
  pop_value : StackCall copies T
  empty : StackCall copies T
  copy : copies → StackCall copies T

-- `empty_stack` is the exception.
pub data StackAnswer (T : Type 0) : Type 0 where
  pushed : StackAnswer T
  popped : T → StackAnswer T
  empty_stack : StackAnswer T
  is_empty : Bool → StackAnswer T
  copied : List T → StackAnswer T

module _ {T : Type 0} where
  unfoldable pub threadsafe_stack_body :
      StackCall Unit T → Bool → List T → Option (StackAnswer T × List T × Bool)
  threadsafe_stack_body (push new_value) ok l = allocates ok (pushed, new_value ∷ l, false)
  threadsafe_stack_body pop ok [] = some (empty_stack, [], false)
  threadsafe_stack_body pop ok (top ∷ l) = allocates ok (popped top, l, false)
  threadsafe_stack_body pop_value ok [] = some (empty_stack, [], false)
  threadsafe_stack_body pop_value ok (top ∷ l) = some (popped top, l, false)
  threadsafe_stack_body empty ok l = some (is_empty (null l), l, false)
  threadsafe_stack_body (copy _) ok l = allocates ok (copied l, l, false)

  abbrev pub threadsafe_stack : Class (List T) (StackCall Unit T) ⊥ (StackAnswer T)
  threadsafe_stack = record {
    body = threadsafe_stack_body;
    ready = λ l. true;
    rest = λ w. elim w [ ];
  }

  -- `threadsafe_stack` of chap3/3_5.cpp
  unfoldable pub printing_stack_body :
      StackCall ⊥ T → Bool → List T → Option (StackAnswer T × List T × Bool)
  printing_stack_body (push new_value) ok l = allocates ok (pushed, new_value ∷ l, false)
  printing_stack_body pop ok [] = some (empty_stack, [], false)
  printing_stack_body pop ok (top ∷ l) = allocates ok (popped top, l, false)
  printing_stack_body pop_value ok [] = some (empty_stack, [], false)
  printing_stack_body pop_value ok (top ∷ l) = some (popped top, l, false)
  printing_stack_body empty ok l = some (is_empty (null l), l, false)
  printing_stack_body (copy impossible) ok l = elim impossible [ ]

  abbrev pub printing_stack : Class (List T) (StackCall ⊥ T) ⊥ (StackAnswer T)
  printing_stack = record { body = printing_stack_body; ready = λ l. true; rest = λ w. elim w [ ] }

  -- A stack with one user: last in, first out.
  unfoldable pub lifo_now : {V : Type 0} → StackCall V T → List T → StackAnswer T × List T
  lifo_now (push x) l = (pushed, x ∷ l)
  lifo_now pop [] = (empty_stack, [])
  lifo_now pop (x ∷ l) = (popped x, l)
  lifo_now pop_value [] = (empty_stack, [])
  lifo_now pop_value (x ∷ l) = (popped x, l)
  lifo_now empty [] = (is_empty true, [])
  lifo_now empty (x ∷ l) = (is_empty false, x ∷ l)
  lifo_now (copy _) l = (copied l, l)

  abbrev pub lifo : {V : Type 0} → Sequential (List T) (StackCall V T) ⊥ (StackAnswer T)
  lifo = record { now = lifo_now; after = λ w l. none }
