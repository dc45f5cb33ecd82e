-- ===== src/QuickSort/Parallel/Schedules.antt =====
-- Every order of the steps of `parallel_quick_sort` comes to what `sequential_quick_sort` returns.
use mathlib.Core.Path.{subst}
use c_practice.Base.{
  ℕ, zero, suc, ◌+◌, ◌*◌, ◌≡◌, refl, sym, ap, ◌∙◌, Bool, Option, some, List, [], ◌∷◌, arith, length,
}
use c_practice.QuickSort.{Partition, sequential_quick_sort, splice}
use c_practice.QuickSort.Sorted.{PartitionLaws, lengths}
use c_practice.QuickSort.Parallel.{Call, started, parted, returned, Step, Run}
use c_practice.QuickSort.Parallel.Fuel.{sequential_quick_sort_enough}

-- How many steps a call still takes.
abbrev remaining : {T : Type 0} → Call T → ℕ
remaining (started input) = 3 * length input + 1
remaining (parted new_lower pivot new_higher) = remaining new_lower + remaining new_higher + 1
remaining (returned output) = 0

module _ {T : Type 0} (less : T → T → Bool) {partition : Partition T}
    (laws : PartitionLaws partition) where
  -- What the steps of a call come to.
  abbrev outcome : Call T → Option (List T)
  outcome (started input) = sequential_quick_sort less partition (length input) input
  outcome (parted new_lower pivot new_higher) =
      splice (outcome new_lower) pivot (outcome new_higher)
  outcome (returned output) = some output

  outcome-Step : (c d : Call T) → Step less partition c d → outcome d ≡ outcome c
  unfolding sequential_quick_sort
  outcome-Step _ _ Step.returns_input = refl
  outcome-Step _ _ (Step.parts pivot input) =
      let lo = (partition (λ t. less t pivot) input).0 in
      let hi = (partition (λ t. less t pivot) input).1 in
      let total = lengths laws (λ t. less t pivot) input in
      let n = length input in
      ap (λ l. splice l pivot (outcome (started hi)))
        (sequential_quick_sort_enough less laws (length lo) n lo (omega arith) (omega arith))
      ∙ ap (splice (sequential_quick_sort less partition n lo) pivot)
          (sequential_quick_sort_enough less laws (length hi) n hi (omega arith) (omega arith))
  outcome-Step _ _ (Step.lower_goes {new_lower = c} {new_lower' = d} pivot h s) =
      ap (λ l. splice l pivot (outcome h)) (outcome-Step c d s)
  outcome-Step _ _ (Step.higher_goes {new_higher = c} {new_higher' = d} l pivot s) =
      ap (splice (outcome l) pivot) (outcome-Step c d s)
  outcome-Step _ _ (Step.splices l pivot h) = refl

  remaining-Step : (c d : Call T) → Step less partition c d → remaining c ≡ suc (remaining d)
  remaining-Step _ _ Step.returns_input = refl
  remaining-Step _ _ (Step.parts pivot input) =
      let total = lengths laws (λ t. less t pivot) input in omega arith
  remaining-Step _ _ (Step.lower_goes {new_lower = c} {new_lower' = d} pivot h s) =
      let less_by_one = remaining-Step c d s in omega arith
  remaining-Step _ _ (Step.higher_goes {new_higher = c} {new_higher' = d} l pivot s) =
      let less_by_one = remaining-Step c d s in omega arith
  remaining-Step _ _ (Step.splices l pivot h) = refl

  -- A call has returned, or a step of it can be taken.
  data Progress (c : Call T) : Type 0 where
    has : (output : List T) → c ≡ returned output → Progress c
    can : (d : Call T) → Step less partition c d → Progress c

  progress : (c : Call T) → Progress c
  progress (started []) = Progress.can (returned []) Step.returns_input
  progress (started (pivot ∷ input)) = Progress.can _ (Step.parts pivot input)
  progress (parted l pivot h) = elim (progress l) [
    | can d s ↦ Progress.can _ (Step.lower_goes pivot h s)
    | has lower at ↦ elim (progress h) [
      | can d s ↦ Progress.can _ (Step.higher_goes l pivot s)
      | has higher at' ↦ rw (at, at') (Progress.can _ (Step.splices lower pivot higher))
    ]
  ]
  progress (returned output) = Progress.has output refl

  finishes :
      (n : ℕ) (c : Call T)
      → remaining c ≡ n
      → (output : List T) × Run less partition n c (returned output)
  finishes zero c left = elim (progress c) [
    | has output at ↦
        (output, subst (λ (d : Call T). Run less partition 0 d (returned output)) (sym at) Run.stop)
    | can d step ↦ absurd (let more = remaining-Step c d step in omega arith)
  ]
  finishes (suc n) c left = elim (progress c) [
    | has output at ↦ absurd (let none_left = ap remaining at in omega arith)
    | can d step ↦
        let more = remaining-Step c d step in
        let (output, run) = finishes n d (omega arith) in (output, Run.go step run)
  ]

  run_keeps :
      (n : ℕ) (c d : Call T)
      → Run less partition n c d
      → (n + remaining d ≡ remaining c) × (outcome d ≡ outcome c)
  run_keeps _ c _ Run.stop = (omega arith, refl)
  run_keeps _ c e (Run.go {d = d} step run) =
      let (count, same) = run_keeps _ d e run in
      let less_by_one = remaining-Step c d step in (omega arith, same ∙ outcome-Step c d step)

  -- For a partition that parts the elements of a list by a test: whatever the order in which
  -- parallel_quick_sort and the calls in its tasks take n steps, they can go on, and after 3 *
  -- length input + 1 steps in all the call returns the list that sequential_quick_sort returns;
  -- and if it has returned already, it has returned that list.
  pub Run-sequential_quick_sort :
      (input : List T) (n : ℕ) (c : Call T)
      → Run less partition n (started input) c
      → (output : List T) × (sequential_quick_sort less partition (length input) input
          ≡ some output)
        × ((rest : ℕ) × (n + rest ≡ 3 * length input + 1)
            × Run less partition rest c (returned output))
        × ((early : List T) → c ≡ returned early → early ≡ output)
  Run-sequential_quick_sort input n c run =
      let (count, same) = run_keeps n (started input) c run in
      let (output, last) = finishes (remaining c) c refl in
      let (count', same') = run_keeps (remaining c) c (returned output) last in
      (
        output,
        sym (same' ∙ same),
        (remaining c, count, last),
        λ early at. let both : some output ≡ some early = same' ∙ ap outcome at in cc,
      )
