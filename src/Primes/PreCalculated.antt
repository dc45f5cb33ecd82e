-- ===== src/Primes/PreCalculated.antt =====
-- googletest/gtest/prime_tables.h: `PreCalculatedPrimeTable`, a sieve in an array of `max + 1`
-- places, for a `max` that is not negative.
pub mod Marks
pub mod Sieve
pub mod Tables
use c_practice.Base.{
  ℕ, zero, suc, ◌+◌, ◌-◌, ◌*◌, ◌/◌, ◌%◌, ◌≡◌, Bool, true, false, List, [], ◌∷◌, ltb, leb, ◌==◌,
  if◌then◌else◌, length, set, get_or, replicate,
}
use c_practice.Base.Int.{ℤ, pos, negsuc}
use c_practice.Primes.{Outcome, returns, undefined, out_of_fuel, ◌>>=◌, int}

-- `is_prime_[i] = b`
pub put : List Bool → ℕ → Bool → Outcome (List Bool)
put table i b = if ltb i (length table) then returns (set table i b) else undefined

-- `is_prime_[i]`
abbrev pub get : List Bool → ℕ → Outcome Bool
get table i = if ltb i (length table) then returns (get_or table i false) else undefined

-- `for (int j = 2*i; j <= max; j += i) is_prime_[j] = false;`
pub mark_loop : ℕ → (max i j : ℕ) → List Bool → Outcome (List Bool)
mark_loop zero max i j table = out_of_fuel
mark_loop (suc k) max i j table =
    let rest = do marked ← put table j false; next ← int (j + i); mark_loop k max i next marked
    in if ltb max j then returns table else rest

-- `for (int i = 2; i <= max; i++)`, with `k` rounds left
pub sieve_loop : ℕ → (max i : ℕ) → List Bool → Outcome (List Bool)
sieve_loop zero max i table = returns table
sieve_loop (suc k) max i table = do
  found ← get table i
  marked ←
      if found
      then (do double ← int (2 * i); mark_loop (max + 1) max i double table)
      else returns table
  sieve_loop k max (i + 1) marked

-- The constructor, for `max` not negative: the table has `max + 1` places.
pub calculate_primes_up_to : ℕ → Outcome (List Bool)
calculate_primes_up_to max = do
  without_zero ← put (replicate (max + 1) true) 0 false
  without_one ← put without_zero 1 false
  sieve_loop (max - 1) max 2 without_one

pub is_prime : List Bool → ℤ → Bool
is_prime table (negsuc n) = false
is_prime table (pos n) = if ltb n (length table) then get_or table n false else false

-- `for (int n = p + 1; n < is_prime_size_; n++)`, with `k` rounds left; -1 is `negsuc 0`
pub next_prime_loop : ℕ → ℕ → List Bool → ℤ
next_prime_loop zero n table = negsuc 0
next_prime_loop (suc k) n table =
    let rest = next_prime_loop k (n + 1) table in if get_or table n false then pos n else rest

-- From `p` below -1 the loop reads before the start of the table.
pub get_next_prime : List Bool → ℤ → Outcome ℤ
get_next_prime table (pos p) = returns (next_prime_loop (length table - (p + 1)) (p + 1) table)
get_next_prime table (negsuc zero) = returns (next_prime_loop (length table) 0 table)
get_next_prime table (negsuc (suc p)) = if length table == 0 then returns (negsuc 0) else undefined
