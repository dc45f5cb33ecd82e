-- ===== src/Accumulate.antt =====
-- C++11/Cpp-Concurrency-in-Action/chap2/2_8.cpp, `parallel_accumlate`: the elements are added up in
-- blocks, one thread for each.
--
-- Each thread writes its own place of `results` and they are joined before the results are read, so the
-- order in which they run does not show. `none` is undefined behaviour: a division by 0, or a block
-- that reaches past the end. Overflow of an `unsigned long` is written out.
pub mod Sums
mod Tests
use Prim.Native.Nat.{min}
use c_practice.Base.{
  ℕ, zero, suc, ◌+◌, ◌-◌, ◌*◌, ◌/◌, ◌%◌, true, false, Option, none, some, List, [], ◌∷◌, leb, ◌==◌,
  if◌then◌else◌, length, take, drop,
}

-- `T` with its `+` and the value `T()`.
pub record Summable (T : Type 0) : Type 0 where
  pub plus : T → T → T
  pub initial : T

abbrev pub min_per_thread : ℕ
min_per_thread = 25

abbrev pub max_threads : ℕ → ℕ
max_threads length = (length + min_per_thread - 1) % 18446744073709551616 / min_per_thread

abbrev pub num_threads : (hardware_threads length : ℕ) → ℕ
num_threads hardware_threads length =
    min (if hardware_threads == 0 then 2 else hardware_threads) (max_threads length)

module _ {T : Type 0} (add : Summable T) where
  -- `std::accumulate`
  unfoldable pub accumulate : List T → T → T
  accumulate [] result = result
  accumulate (x ∷ xs) result = accumulate xs (add.plus result x)

  -- The blocks of the threads and the last one: what they leave in `results`.
  unfoldable pub accumulate_blocks : (threads block_size : ℕ) → List T → Option (List T)
  accumulate_blocks zero block_size block = some (accumulate block add.initial ∷ [])
  accumulate_blocks (suc threads) block_size block = elim (leb block_size (length block)) [
    | false ↦ none
    | true ↦ elim (accumulate_blocks threads block_size (drop block_size block)) [
      | none ↦ none
      | some results ↦ some (accumulate (take block_size block) add.initial ∷ results)
    ]
  ]

  unfoldable pub parallel_accumulate : (hardware_threads : ℕ) → List T → T → Option T
  parallel_accumulate hardware_threads xs init =
      if length xs == 0 then some init else elim (num_threads hardware_threads (length xs)) [
        | zero ↦ none
        | suc threads ↦ elim (accumulate_blocks threads (length xs / suc threads) xs) [
          | none ↦ none
          | some results ↦ some (accumulate results init)
        ]
      ]
