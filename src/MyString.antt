-- ===== src/MyString.antt =====
-- googletest/gtest/sample2.h and sample2.cc: `MyString`, which owns a copy of a C string.
--
-- The heap holds the arrays that `new char[]` hands out, at addresses from `limit` upward, none of
-- them twice. A read or a `delete[]` of an array that is not there, a `delete[]` of an array of the
-- caller's and a `strlen` that finds no 0 are undefined. Each call says whether `new` succeeds in it.
-- A program has any number of objects, by number.
pub mod Reads
pub mod Owned
pub mod Removals
pub mod Values
pub mod Arguments
pub mod Histories
mod Tests
use mathlib.Core.Option
use c_practice.Base.{
  ℕ, zero, suc, ◌+◌, Bool, true, false, Option, none, some, List, [], ◌∷◌, ◌++◌, take, update,
}
use c_practice.Base.Text.{Text}
use c_practice.Base.Zero.{find_zero}

-- `NULL`, an array of the caller's, or one from `new char[]`.
pub data Pointer : Type 0 where
  null : Pointer
  array : Text → Pointer
  block : ℕ → Pointer

pub record Heap : Type 0 where
  pub cell : ℕ → Option Text
  pub limit : ℕ

-- `none` is undefined behaviour.
pub data Outcome (A : Type 0) : Type 0 where
  done : A → Heap → Outcome A
  bad_alloc : Heap → Outcome A
  undefined : Outcome A

abbrev pub M : Type 0 → Type 0
M A = Heap → Outcome A

infixl 5 ◌>>=◌ ◌>>◌
abbrev pub after : {A B : Type 0} → Outcome A → (A → M B) → Outcome B
after (done a h) f = f a h
after (bad_alloc h) f = bad_alloc h
after undefined f = undefined

abbrev pub ◌>>=◌ : {A B : Type 0} → M A → (A → M B) → M B
◌>>=◌ m f h = after (m h) f

abbrev pub ◌>>◌ : {A B : Type 0} → M A → M B → M B
◌>>◌ m n h = after (m h) (λ _. n)

abbrev pub defined : {A : Type 0} → Option A → M A
defined none h = undefined
defined (some a) h = done a h

-- The array behind a pointer.
abbrev pub bytes_at : Pointer → Heap → Option Text
bytes_at null h = none
bytes_at (array t) h = some t
bytes_at (block a) h = h.cell a

abbrev pub measured : Option Text → Option ℕ
measured none = none
measured (some t) = find_zero t

unfoldable pub strlen : Pointer → M ℕ
strlen p h = defined (measured (bytes_at p h)) h

-- `new char[n]`, and the `memcpy` that fills all of it from `p`.
unfoldable pub new_copy : Bool → Pointer → ℕ → M Pointer
new_copy false p n h = bad_alloc h
new_copy true p n h = elim (bytes_at p h) [
  | none ↦ undefined
  | some t ↦
      done (block h.limit)
        (record { cell = update h.cell h.limit (some (take n t)); limit = suc h.limit })
]

unfoldable pub clone_c_string : Bool → Pointer → M Pointer
clone_c_string memory null = done null
clone_c_string memory p = do len ← strlen p; new_copy memory p (len + 1)

unfoldable pub delete_array : Pointer → M (Unit {0})
delete_array null h = done tt h
delete_array (array t) h = undefined
delete_array (block a) h = elim (h.cell a) [
  | none ↦ undefined
  | some t ↦ done tt (record h { cell = update h.cell a none })
]

-- `Set` on an object whose `c_string_` is `old`: the new `c_string_`.
unfoldable pub set_string : Bool → Pointer → (old : Pointer) → M Pointer
set_string memory a_c_string old = do
  temp ← clone_c_string memory a_c_string
  delete_array old
  λ h. done temp h

-- `Length`
unfoldable pub length_of : Pointer → M ℕ
length_of null h = done 0 h
length_of p h = strlen p h

-- The argument of a call: `NULL`, an array of the caller's with a 0 at its end, or the `c_string()` of
-- an object.
pub data Argument : Type 0 where
  null_pointer : Argument
  text : Text → Argument
  c_string_of : ℕ → Argument

-- `MyString()`, `MyString(a_c_string)`, the copy constructor, `Set`, the destructor and `Length`
pub data Call : Type 0 where
  make : ℕ → Call
  make_from : ℕ → (memory : Bool) → Argument → Call
  copy : ℕ → (memory : Bool) → ℕ → Call
  assign : ℕ → (memory : Bool) → Argument → Call
  destroy : ℕ → Call
  get_length : ℕ → Call

pub data Answer : Type 0 where
  finished thrown : Answer
  number : ℕ → Answer

-- The `c_string_` of each object that exists, and the heap.
pub record Program : Type 0 where
  pub strings : ℕ → Option Pointer
  pub heap : Heap

unfoldable pub pointer_of : Argument → Program → Option Pointer
pointer_of null_pointer p = some null
pointer_of (text t) p = some (array (t ++ (0 ∷ [])))
pointer_of (c_string_of j) p = p.strings j

abbrev pub stores : ℕ → Program → Outcome Pointer → Option (Answer × Program)
stores i p (done q h) = some (finished, record { strings = update p.strings i (some q); heap = h })
stores i p (bad_alloc h) = some (thrown, record p { heap = h })
stores i p undefined = none

-- `Set` of an argument on the object `i`.
unfoldable pub put :
    ℕ → Bool → Option Pointer → (old : Pointer) → Program → Option (Answer × Program)
put i memory none old p = none
put i memory (some q) old p = stores i p (set_string memory q old p.heap)

abbrev pub destroyed : ℕ → Program → Outcome (Unit {0}) → Option (Answer × Program)
destroyed i p (done u h) = some (finished, record { strings = update p.strings i none; heap = h })
destroyed i p _ = none

abbrev pub answered : Program → Outcome ℕ → Option (Answer × Program)
answered p (done n h) = some (number n, record p { heap = h })
answered p _ = none

-- `none`: the call is undefined, names an object that does not exist, or makes one that does.
unfoldable pub step : Call → Program → Option (Answer × Program)
step (make i) p = elim (p.strings i) [
  | some q ↦ none
  | none ↦ some (finished, record p { strings = update p.strings i (some null) })
]
step (make_from i memory a) p = elim (p.strings i) [
  | some q ↦ none
  | none ↦ put i memory (pointer_of a p) null p
]
step (copy i memory j) p = elim (p.strings i) [
  | some q ↦ none
  | none ↦ put i memory (p.strings j) null p
]
step (assign i memory a) p = elim (p.strings i) [
  | none ↦ none
  | some old ↦ put i memory (pointer_of a p) old p
]
step (destroy i) p = elim (p.strings i) [
  | none ↦ none
  | some old ↦ destroyed i p (delete_array old p.heap)
]
step (get_length i) p = elim (p.strings i) [
  | none ↦ none
  | some q ↦ answered p (length_of q p.heap)
]

abbrev pub then_answers : Answer → Option (List Answer × Program) → Option (List Answer × Program)
then_answers a none = none
then_answers a (some (as', p)) = some (a ∷ as', p)

unfoldable pub run : List Call → Program → Option (List Answer × Program)
run [] p = some ([], p)
run (c ∷ cs) p = elim (step c p) [ none ↦ none | some (a, q) ↦ then_answers a (run cs q) ]

abbrev pub no_strings : Program
no_strings = record { strings = λ i. none; heap = record { cell = λ a. none; limit = 0 } }
