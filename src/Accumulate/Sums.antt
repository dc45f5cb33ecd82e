-- ===== src/Accumulate/Sums.antt =====
-- The blocks add up to what one thread would get.
use native.Mathlib.Nat.{div-mul-le_self}
use c_practice.Base.{
  ℕ, zero, suc, ◌*◌, ◌/◌, ◌≤◌, ◌<◌, ◌≡◌, refl, sym, ap, ◌∙◌, true, false, some, List, [], ◌∷◌, ◌++◌,
  leb, ◌==◌, if◌then◌else◌, arith, length, take, drop, length-drop, take-append-drop, Bool-cases,
  inl, inr,
}
use c_practice.Accumulate.{
  Summable, max_threads, num_threads, accumulate, accumulate_blocks, parallel_accumulate,
}

positive : (n : ℕ) → 0 < n → (k : ℕ) × (n ≡ suc k)
positive zero lt = absurd (omega arith)
positive (suc n) lt = (n, refl)

num_threads-positive :
    (hardware_threads n : ℕ)
    → 0 < n
    → n < 18446744073709551592
    → (threads : ℕ) × (num_threads hardware_threads n ≡ suc threads)
num_threads-positive hardware_threads n some_in small =
    let enough : 0 < max_threads n = omega arith in
    let given : 0 < (if hardware_threads == 0 then 2 else hardware_threads) = ground arith in
    positive (num_threads hardware_threads n) (omega arith)

-- `+` is associative and `T()` is neutral on its right.
pub record SummableLaws {T : Type 0} (add : Summable T) : Type 0 where
  pub assoc : (a b c : T) → add.plus (add.plus a b) c ≡ add.plus a (add.plus b c)
  pub neutral : (a : T) → add.plus a add.initial ≡ a

module _ {T : Type 0} (add : Summable T) (laws : SummableLaws add) where
  accumulate-plus :
      (xs : List T) (a b : T) → accumulate add xs (add.plus a b) ≡ add.plus a (accumulate add xs b)
  unfolding accumulate
  accumulate-plus [] a b = refl
  accumulate-plus (x ∷ xs) a b =
      ap (accumulate add xs) (laws.assoc a b x) ∙ accumulate-plus xs a (add.plus b x)

  accumulate-initial :
      (xs : List T) (a : T) → add.plus a (accumulate add xs add.initial) ≡ accumulate add xs a
  accumulate-initial xs a =
      sym (accumulate-plus xs a add.initial) ∙ ap (accumulate add xs) (laws.neutral a)

  accumulate-append :
      (xs ys : List T) (a : T)
      → accumulate add (xs ++ ys) a ≡ accumulate add ys (accumulate add xs a)
  unfolding accumulate
  accumulate-append [] ys a = refl
  accumulate-append (x ∷ xs) ys a = accumulate-append xs ys (add.plus a x)

  blocks-step :
      (threads size : ℕ) (xs results : List T)
      → size ≤ length xs
      → accumulate_blocks add threads size (drop size xs) ≡ some results
      → accumulate_blocks add (suc threads) size xs
        ≡ some (accumulate add (take size xs) add.initial ∷ results)
  unfolding accumulate_blocks
  blocks-step threads size xs results le e =
      let fits : leb size (length xs) ≡ true = ground arith in
      rw (fits, accumulate_blocks) (rw e refl)

  blocks-sum :
      (threads size : ℕ) (xs : List T)
      → threads * size ≤ length xs
      → (results : List T) × (accumulate_blocks add threads size xs ≡ some results)
        × ((init : T) → accumulate add results init ≡ accumulate add xs init)
  unfolding accumulate_blocks accumulate
  blocks-sum zero size xs le =
      (accumulate add xs add.initial ∷ [], refl, λ init. accumulate-initial xs init)
  blocks-sum (suc threads) size xs le =
      let shorter = length-drop size xs in
      let (results, e, sums) = blocks-sum threads size (drop size xs) (omega arith) in
      let block = take size xs in
      (
        accumulate add block add.initial ∷ results,
        blocks-step threads size xs results (omega arith) e,
        λ init.
            ap (accumulate add results) (accumulate-initial block init)
            ∙ sums (accumulate add block init)
            ∙ sym (accumulate-append block (drop size xs) init)
            ∙ ap (λ t. accumulate add t init) (take-append-drop size xs),
      )

  accumulate-empty : (xs : List T) (init : T) → length xs ≡ 0 → init ≡ accumulate add xs init
  unfolding accumulate
  accumulate-empty [] init e = refl
  accumulate-empty (x ∷ xs) init e = absurd (omega arith)

  parallel-threads :
      (hardware_threads threads : ℕ) (xs : List T) (init : T)
      → 0 < length xs
      → num_threads hardware_threads (length xs) ≡ suc threads
      → parallel_accumulate add hardware_threads xs init ≡ some (accumulate add xs init)
  unfolding parallel_accumulate
  parallel-threads hardware_threads threads xs init some_in e =
      let size = length xs / suc threads in
      let whole : size * suc threads ≤ length xs = div-mul-le_self (length xs) (suc threads) in
      let filled = blocks-sum threads size xs (omega arith) in
      let not_none : (length xs == 0) ≡ false = ground arith in
      rw not_none (rw e (rw filled.1 (ap some (filled.2 init))))

  -- For an associative sum with T() neutral on the right and fewer than 2^64 - 24 elements,
  -- parallel_accumlate divides by no 0, stays inside the range and returns what std::accumulate
  -- returns, whatever the number of processors.
  pub parallel_accumulate-accumulate :
      (hardware_threads : ℕ) (xs : List T) (init : T)
      → length xs < 18446744073709551592
      → parallel_accumulate add hardware_threads xs init ≡ some (accumulate add xs init)
  unfolding parallel_accumulate
  parallel_accumulate-accumulate hardware_threads xs init small =
      elim (Bool-cases (length xs == 0)) [
        | inl none_in ↦ rw none_in (ap some (accumulate-empty xs init (ground arith)))
        | inr some_in ↦
            let more : 0 < length xs = ground arith in
            let threads = num_threads-positive hardware_threads (length xs) more small in
            parallel-threads hardware_threads threads.0 xs init more threads.1
      ]
