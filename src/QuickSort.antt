-- ===== src/QuickSort.antt =====
-- C++11/Cpp-Concurrency-in-Action/chap4/4_12.cpp: `sequential_quick_sort` on a list.
--
-- `std::partition` may order the two groups as it likes: it is a parameter, and QuickSort.Sorted
-- states what is relied on. The recursion runs on fuel; `none` is the end of it.
pub mod Sorted
pub mod Parallel
mod Tests
use c_practice.Base.{ℕ, zero, suc, Bool, Option, none, some, List, [], ◌∷◌, ◌++◌}

-- The group for which the test holds, then the other.
abbrev pub Partition : Type 0 → Type 0
Partition T = (T → Bool) → List T → List T × List T

-- The two sorted parts are spliced around the pivot.
abbrev pub splice : {T : Type 0} → Option (List T) → T → Option (List T) → Option (List T)
splice (some new_lower) pivot (some new_higher) = some (new_lower ++ (pivot ∷ new_higher))
splice _ pivot _ = none

module _ {T : Type 0} (less : T → T → Bool) (partition : Partition T) where
  unfoldable pub sequential_quick_sort : ℕ → List T → Option (List T)
  sequential_quick_sort fuel [] = some []
  sequential_quick_sort zero (pivot ∷ input) = none
  sequential_quick_sort (suc fuel) (pivot ∷ input) =
      splice (sequential_quick_sort fuel (partition (λ t. less t pivot) input).0) pivot
        (sequential_quick_sort fuel (partition (λ t. less t pivot) input).1)
