-- ===== src/Primes/OnTheFly.antt =====
-- googletest/gtest/prime_tables.h: `OnTheFlyPrimeTable`, which divides by 2, 3, 4, …
pub mod Decides
pub mod NextPrime
use c_practice.Base.{
  ℕ, zero, suc, ◌+◌, ◌-◌, ◌*◌, ◌/◌, ◌%◌, ◌≡◌, Bool, true, false, List, [], ◌∷◌, ltb, leb, ◌==◌,
  if◌then◌else◌, length, set, get_or, replicate,
}
use c_practice.Base.Int.{ℤ, pos, negsuc}
use c_practice.Primes.{Outcome, returns, undefined, out_of_fuel, ◌>>=◌, int, int_max}

-- `for (int i = 2; i*i <= n; i++)`
pub is_prime_loop : ℕ → (n i : ℕ) → Outcome Bool
is_prime_loop zero n i = out_of_fuel
is_prime_loop (suc k) n i =
    let rest = is_prime_loop k n (i + 1) in
    do
      square ← int (i * i)
      if ltb n square then returns true else if n % i == 0 then returns false else rest

pub is_prime : ℤ → Outcome Bool
is_prime (negsuc n) = returns false
is_prime (pos n) = if leb n 1 then returns false else is_prime_loop n n 2

-- `for (int n = p + 1; n > 0; n++)`
pub next_prime_loop : ℕ → ℕ → Outcome ℤ
next_prime_loop zero n = out_of_fuel
next_prime_loop (suc k) n =
    let rest = (do next ← int (n + 1); next_prime_loop k next) in
    do found ← is_prime (pos n); if found then returns (pos n) else rest

-- For a negative `p` the test `n > 0` fails at once; -1 is `negsuc 0`.
pub get_next_prime : ℤ → Outcome ℤ
get_next_prime (negsuc p) = returns (negsuc 0)
get_next_prime (pos p) = do n ← int (p + 1); next_prime_loop int_max n
