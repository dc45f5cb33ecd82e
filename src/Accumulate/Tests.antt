-- ===== src/Accumulate/Tests.antt =====
-- Sums of numbers on a machine with four processors.
use c_practice.Base.{ℕ, ◌+◌, ◌≡◌, refl, some, List, replicate, arith}
use c_practice.Accumulate.{Summable, accumulate, accumulate_blocks, parallel_accumulate}
use c_practice.Accumulate.Sums.{SummableLaws, parallel_accumulate-accumulate}

abbrev numbers : Summable ℕ
numbers = record { plus = λ a b. a + b; initial = 0 }

numbers-SummableLaws : SummableLaws numbers
numbers-SummableLaws = record { assoc = λ a b c. omega arith; neutral = λ a. omega arith }

-- The list that `main` adds up, and one for three threads.
abbrev main_list : List ℕ
main_list = replicate 10 10

abbrev long_list : List ℕ
long_list = replicate 60 1

main_sum : parallel_accumulate numbers 4 main_list 5 ≡ some 105
unfolding parallel_accumulate accumulate_blocks accumulate
main_sum = refl

parallel_accumulate-accumulate_example : parallel_accumulate numbers 4 long_list 7 ≡ some 67
unfolding accumulate
parallel_accumulate-accumulate_example =
    parallel_accumulate-accumulate numbers numbers-SummableLaws 4 long_list 7 (omega arith)
