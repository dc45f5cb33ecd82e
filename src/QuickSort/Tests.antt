-- ===== src/QuickSort/Tests.antt =====
-- Sorting numbers, with a partition that keeps the order within the groups.
use c_practice.Base.{ℕ, ◌+◌, ◌≡◌, refl, Bool, not, some, List, [], ◌∷◌, arith, ltb, if◌then◌else◌}
use c_practice.QuickSort.{Partition, sequential_quick_sort}
use c_practice.QuickSort.Sorted.{
  count, PartitionLaws, StrictOrder, Sorted, sequential_quick_sort-Sorted,
}
use c_practice.QuickSort.Parallel.{Call, started, parted, returned, Step, Run}
use c_practice.QuickSort.Parallel.Schedules.{Run-sequential_quick_sort}

module _ {T : Type 0} where
  abbrev filter : (T → Bool) → List T → List T
  filter p [] = []
  filter p (x ∷ xs) = if p x then x ∷ filter p xs else filter p xs

  abbrev stable : Partition T
  stable p xs = (filter p xs, filter (λ t. not (p t)) xs)

  filter-lower : (p : T → Bool) (xs : List T) → count (λ t. not (p t)) (filter p xs) ≡ 0
  filter-lower p [] = refl
  filter-lower p (x ∷ xs) = ground (arith, filter-lower p xs)

  filter-higher : (p : T → Bool) (xs : List T) → count p (filter (λ t. not (p t)) xs) ≡ 0
  filter-higher p [] = refl
  filter-higher p (x ∷ xs) = ground (arith, filter-higher p xs)

  filter-elements :
      (p q : T → Bool) (xs : List T)
      → count q (filter p xs) + count q (filter (λ t. not (p t)) xs) ≡ count q xs
  filter-elements p q [] = refl
  filter-elements p q (x ∷ xs) = ground (arith, filter-elements p q xs)

  stable-PartitionLaws : PartitionLaws {T = T} stable
  stable-PartitionLaws = record {
    lower = filter-lower;
    higher = filter-higher;
    elements = filter-elements;
  }

ltb-StrictOrder : StrictOrder ltb
ltb-StrictOrder = record {
  asymmetric = λ a b h. ground arith;
  transitive = λ a b c h h'. ground arith;
}

abbrev numbers : List ℕ
numbers = 1 ∷ 123 ∷ 232 ∷ 23 ∷ 2 ∷ 4 ∷ 5 ∷ 16 ∷ 2 ∷ 77 ∷ 29 ∷ []

sort-numbers :
    sequential_quick_sort ltb stable 11 numbers
    ≡ some (1 ∷ 2 ∷ 2 ∷ 4 ∷ 5 ∷ 16 ∷ 23 ∷ 29 ∷ 77 ∷ 123 ∷ 232 ∷ [])
unfolding sequential_quick_sort
sort-numbers = refl

sequential_quick_sort-Sorted_example :
    (output : List ℕ) × (sequential_quick_sort ltb stable 11 numbers ≡ some output)
    × Sorted ltb output
    × ((q : ℕ → Bool) → count q output ≡ count q numbers)
sequential_quick_sort-Sorted_example =
    sequential_quick_sort-Sorted ltb ltb-StrictOrder stable-PartitionLaws 11 numbers (omega arith)

-- The higher part of `3, 1, 7` is sorted first, and the lower one only begun.
abbrev begun : Call ℕ
begun = parted (parted (started []) 1 (started [])) 3 (returned (7 ∷ []))

first_steps : Run ltb stable 6 (started (3 ∷ 1 ∷ 7 ∷ [])) begun
first_steps = Run.go (Step.parts 3 (1 ∷ 7 ∷ [])) (
    Run.go (Step.higher_goes (started (1 ∷ [])) 3 (Step.parts 7 [])) (
      Run.go
        (Step.higher_goes (started (1 ∷ [])) 3 (Step.lower_goes 7 (started []) Step.returns_input))
        (Run.go
          (Step.higher_goes (started (1 ∷ [])) 3
            (Step.higher_goes (returned []) 7 Step.returns_input))
          (Run.go (Step.higher_goes (started (1 ∷ [])) 3 (Step.splices [] 7 []))
            (Run.go (Step.lower_goes 3 (returned (7 ∷ [])) (Step.parts 1 [])) Run.stop)))))

Run-sequential_quick_sort_example :
    (output : List ℕ) × (sequential_quick_sort ltb stable 3 (3 ∷ 1 ∷ 7 ∷ []) ≡ some output)
    × ((rest : ℕ) × (6 + rest ≡ 10) × Run ltb stable rest begun (returned output))
    × ((early : List ℕ) → begun ≡ returned early → early ≡ output)
Run-sequential_quick_sort_example =
    Run-sequential_quick_sort ltb stable-PartitionLaws (3 ∷ 1 ∷ 7 ∷ []) 6 begun first_steps
