-- ===== src/QuickSort/Parallel.antt =====
-- C++11/Cpp-Concurrency-in-Action/chap4/4_13.cpp: `parallel_quick_sort`, which sorts the lower part in
-- a task of `std::async`, as steps that the calls take in any order.
--
-- A task that is deferred until `get` is one of these orders: its steps come after those of the higher
-- part. The partition is the parameter of QuickSort. That no thread can be started is not modelled.
pub mod Fuel
pub mod Schedules
use c_practice.Base.{ℕ, zero, suc, Bool, List, [], ◌∷◌, ◌++◌}
use c_practice.QuickSort.{Partition}

-- A call: with its input; with its lower part in a task, its pivot and its higher part in a call of
-- its own; and with the list that it returned.
pub data Call (T : Type 0) : Type 0 where
  started : List T → Call T
  parted : (new_lower : Call T) (pivot : T) (new_higher : Call T) → Call T
  returned : List T → Call T

module _ {T : Type 0} (less : T → T → Bool) (partition : Partition T) where
  pub data Step : Call T → Call T → Type 0 where
    returns_input : Step (started []) (returned [])
    parts :
        (pivot : T) (input : List T)
        → Step (started (pivot ∷ input)) (
            parted
              (started (partition (λ t. less t pivot) input).0)
              pivot
              (started (partition (λ t. less t pivot) input).1))
    lower_goes :
        {new_lower new_lower' : Call T} (pivot : T) (new_higher : Call T)
        → Step new_lower new_lower'
        → Step (parted new_lower pivot new_higher) (parted new_lower' pivot new_higher)
    higher_goes :
        {new_higher new_higher' : Call T} (new_lower : Call T) (pivot : T)
        → Step new_higher new_higher'
        → Step (parted new_lower pivot new_higher) (parted new_lower pivot new_higher')
    splices :
        (lower : List T) (pivot : T) (higher : List T)
        → Step
            (parted (returned lower) pivot (returned higher))
            (returned (lower ++ (pivot ∷ higher)))

  -- With the number of its steps.
  pub data Run : ℕ → Call T → Call T → Type 0 where
    stop : {c : Call T} → Run zero c c
    go : {n : ℕ} {c d e : Call T} → Step c d → Run n d e → Run (suc n) c e
