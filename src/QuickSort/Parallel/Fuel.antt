-- ===== src/QuickSort/Parallel/Fuel.antt =====
-- What `sequential_quick_sort` returns does not depend on how much fuel there is, if it is enough.
use c_practice.Base.{ℕ, zero, suc, ◌≤◌, ◌≡◌, refl, ap, ◌∙◌, Bool, List, [], ◌∷◌, arith, length}
use c_practice.QuickSort.{Partition, sequential_quick_sort, splice}
use c_practice.QuickSort.Sorted.{PartitionLaws, lengths}

module _ {T : Type 0} (less : T → T → Bool) {partition : Partition T}
    (laws : PartitionLaws partition) where
  pub sequential_quick_sort_enough :
      (fuel fuel' : ℕ) (input : List T)
      → length input ≤ fuel
      → length input ≤ fuel'
      → sequential_quick_sort less partition fuel input
        ≡ sequential_quick_sort less partition fuel' input
  unfolding sequential_quick_sort
  sequential_quick_sort_enough zero zero [] le le' = refl
  sequential_quick_sort_enough zero (suc g) [] le le' = refl
  sequential_quick_sort_enough (suc f) zero [] le le' = refl
  sequential_quick_sort_enough (suc f) (suc g) [] le le' = refl
  sequential_quick_sort_enough zero fuel' (x ∷ xs) le le' = absurd (omega arith)
  sequential_quick_sort_enough (suc f) zero (x ∷ xs) le le' = absurd (omega arith)
  sequential_quick_sort_enough (suc f) (suc g) (x ∷ xs) le le' =
      let lo = (partition (λ t. less t x) xs).0 in
      let hi = (partition (λ t. less t x) xs).1 in
      let total = lengths laws (λ t. less t x) xs in
      ap (λ l. splice l x (sequential_quick_sort less partition f hi))
        (sequential_quick_sort_enough f g lo (omega arith) (omega arith))
      ∙ ap (λ h. splice (sequential_quick_sort less partition g lo) x h)
          (sequential_quick_sort_enough f g hi (omega arith) (omega arith))
