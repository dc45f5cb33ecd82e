-- ===== src/Primes.antt =====
-- googletest/gtest/sample1.cc (`Factorial`, `IsPrime`) and googletest/gtest/prime_tables.h
-- (`OnTheFlyPrimeTable`, `PreCalculatedPrimeTable`).
--
-- An `int` is a 32-bit two's complement number. A result above `int_max` and an array access out of
-- bounds are undefined behaviour, and make the outcome `undefined`. A loop runs on fuel; each call
-- gives it more than it can use, and the theorems say so.
pub mod Divides
pub mod Trial
pub mod Factorial
pub mod OnTheFly
pub mod PreCalculated
mod Tests
use c_practice.Base.{
  ℕ, zero, suc, ◌+◌, ◌-◌, ◌*◌, ◌/◌, ◌%◌, ◌≡◌, Bool, true, false, ltb, leb, ◌==◌, if◌then◌else◌,
}
use c_practice.Base.Int.{ℤ, pos, negsuc}

abbrev pub int_max : ℕ
int_max = 2147483647

pub data Outcome (A : Type 0) : Type 0 where
  returns : A → Outcome A
  undefined : Outcome A
  out_of_fuel : Outcome A

infixl 5 ◌>>=◌
abbrev pub ◌>>=◌ : {A B : Type 0} → Outcome A → (A → Outcome B) → Outcome B
returns a >>= k = k a
undefined >>= k = undefined
out_of_fuel >>= k = out_of_fuel

-- A value of type `int`, if it fits.
abbrev pub int : ℕ → Outcome ℕ
int n = if ltb int_max n then undefined else returns n

-- `for (int i = 1; i <= n; i++) result *= i;` with `k` rounds left
pub factorial_loop : ℕ → (i result : ℕ) → Outcome ℕ
factorial_loop zero i result = returns result
factorial_loop (suc k) i result = do product ← int (result * i); factorial_loop k (i + 1) product

pub factorial : ℤ → Outcome ℕ
factorial (pos n) = factorial_loop n 1 1
factorial (negsuc n) = returns 1

-- `for (int i = 3; ; i += 2)` of `IsPrime`
pub trial_loop : ℕ → (n i : ℕ) → Outcome Bool
trial_loop zero n i = out_of_fuel
trial_loop (suc k) n i =
    let rest = trial_loop k n (i + 2) in
    if ltb (n / i) i then returns true else if n % i == 0 then returns false else rest

pub is_prime : ℤ → Outcome Bool
is_prime (negsuc n) = returns false
is_prime (pos n) =
    if leb n 1 then returns false else if n % 2 == 0 then returns (n == 2) else trial_loop n n 3
