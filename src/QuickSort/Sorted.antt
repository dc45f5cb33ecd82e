-- ===== src/QuickSort/Sorted.antt =====
-- `sequential_quick_sort` sorts: the result is in order and has the same elements.
use c_practice.Base.{
  ℕ, zero, suc, ◌+◌, ◌≤◌, ◌≡◌, refl, ap, ◌∙◌, Bool, true, false, not, some, List, [], ◌∷◌, ◌++◌,
  arith, if◌then◌else◌, length, Bool-cases, inl, inr,
}
use c_practice.QuickSort.{Partition, sequential_quick_sort}

module _ {T : Type 0} where
  -- How many elements a test holds for.
  abbrev pub count : (T → Bool) → List T → ℕ
  count p [] = 0
  count p (x ∷ xs) = if p x then suc (count p xs) else count p xs

  pub count-append : (p : T → Bool) (xs ys : List T) → count p (xs ++ ys) ≡ count p xs + count p ys
  count-append p [] ys = omega arith
  count-append p (x ∷ xs) ys = ground (arith, count-append p xs ys)

  count-all : (xs : List T) → count (λ _. true) xs ≡ length xs
  count-all [] = refl
  count-all (x ∷ xs) = ap suc (count-all xs)

-- The groups have the elements of the list, parted by the test.
pub record PartitionLaws {T : Type 0} (partition : Partition T) : Type 0 where
  pub lower : (p : T → Bool) (xs : List T) → count (λ t. not (p t)) (partition p xs).0 ≡ 0
  pub higher : (p : T → Bool) (xs : List T) → count p (partition p xs).1 ≡ 0
  pub elements :
      (p q : T → Bool) (xs : List T)
      → count q (partition p xs).0 + count q (partition p xs).1 ≡ count q xs

module _ {T : Type 0} {partition : Partition T} (laws : PartitionLaws partition) where
  pub lengths :
      (p : T → Bool) (xs : List T)
      → length (partition p xs).0 + length (partition p xs).1 ≡ length xs
  lengths p xs = omega (
    arith,
    laws.elements p (λ _. true) xs,
    count-all (partition p xs).0,
    count-all (partition p xs).1,
    count-all xs,
  )

pub record StrictOrder {T : Type 0} (less : T → T → Bool) : Type 0 where
  pub asymmetric : (a b : T) → less a b ≡ true → less b a ≡ false
  pub transitive : (a b c : T) → less a b ≡ true → less b c ≡ true → less a c ≡ true

module _ {T : Type 0} (less : T → T → Bool) where
  -- No element is less than one in front of it.
  abbrev pub Sorted : List T → Type 0
  Sorted [] = Unit
  Sorted (x ∷ xs) = (count (λ y. less y x) xs ≡ 0) × Sorted xs

  module _ (order : StrictOrder less) where
    count-below :
        (a x : T) (h : List T)
        → less a x ≡ true
        → count (λ y. less y x) h ≡ 0
        → count (λ y. less y a) h ≡ 0
    count-below a x [] lt e = refl
    count-below a x (b ∷ h) lt e = elim (Bool-cases (less b a)) [
      | inl below ↦
          absurd (let q : less b x ≡ true = order.transitive b a x below lt in ground arith)
      | inr above ↦ rw above (count-below a x h lt (ground arith))
    ]

    Sorted-append :
        (l : List T) (x : T) (h : List T)
        → Sorted l
        → count (λ t. not (less t x)) l ≡ 0
        → Sorted (x ∷ h)
        → Sorted (l ++ (x ∷ h))
    Sorted-append [] x h sl low sh = sh
    Sorted-append (a ∷ l) x h (first, sl) low sh =
        let lt : less a x ≡ true = ground arith in
        let after : less x a ≡ false = order.asymmetric a x lt in
        let rest : count (λ t. not (less t x)) l ≡ 0 = ground arith in
        (
          count-append (λ y. less y a) l (x ∷ h)
              ∙ rw first (rw after (omega (arith, count-below a x h lt sh.0))),
          Sorted-append l x h sl rest sh,
        )

    module _ {partition : Partition T} (laws : PartitionLaws partition) where
      -- For a strict order and a partition that parts the elements of a list by a test, with fuel
      -- for the length of the list, sequential_quick_sort returns a list in which no element is
      -- less than one in front of it, and in which every test holds for as many elements as in the
      -- input.
      pub sequential_quick_sort-Sorted :
          (fuel : ℕ) (input : List T)
          → length input ≤ fuel
          → (output : List T) × (sequential_quick_sort less partition fuel input ≡ some output)
            × Sorted output
            × ((q : T → Bool) → count q output ≡ count q input)
      unfolding sequential_quick_sort
      sequential_quick_sort-Sorted fuel [] enough = ([], refl, tt, λ q. refl)
      sequential_quick_sort-Sorted zero (x ∷ xs) enough = absurd (omega arith)
      sequential_quick_sort-Sorted (suc fuel) (x ∷ xs) enough =
          let lo = (partition (λ t. less t x) xs).0 in
          let hi = (partition (λ t. less t x) xs).1 in
          let (l, ran, sl, cl) =
            sequential_quick_sort-Sorted fuel lo (omega (arith, lengths laws (λ t. less t x) xs)) in
          let (h, ran', sh, ch) =
            sequential_quick_sort-Sorted fuel hi (omega (arith, lengths laws (λ t. less t x) xs)) in
          (
            l ++ (x ∷ h),
            rw ran (rw ran' refl),
            Sorted-append l x h sl (cl (λ t. not (less t x)) ∙ laws.lower (λ t. less t x) xs)
                (ch (λ t. less t x) ∙ laws.higher (λ t. less t x) xs, sh),
            λ q.
                ground
                  (arith, count-append q l (x ∷ h), cl q, ch q, laws.elements (λ t. less t x) q xs),
          )
