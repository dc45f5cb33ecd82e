-- ===== src/Primes/Tests.antt =====
-- The prime programs at concrete inputs.
use c_practice.Base.{ℕ, ◌≡◌, refl, inl, inr, Bool, true, List, arith}
use c_practice.Base.Int.{pos, negsuc}
use c_practice.Primes.{returns, undefined, factorial, factorial_loop, trial_loop, is_prime}
use c_practice.Primes.OnTheFly
use c_practice.Primes.PreCalculated
use c_practice.Primes.Divides.{Prime, Decides}
use c_practice.Primes.Trial.{is_prime-Decides}
use c_practice.Primes.OnTheFly.NextPrime.{LeastPrime, get_next_prime-LeastPrime}
use c_practice.Primes.PreCalculated.Sieve.{PrimeTable, calculate-PrimeTable}

-- The evaluated outcome settles which case holds.
is_prime-Prime : (n : ℕ) → is_prime (pos n) ≡ returns true → Prime n
is_prime-Prime n e = elim (is_prime-Decides n) [ inl (e', p) ↦ p | inr (e', np) ↦ absurd (cc) ]

seven-Prime : Prime 7
unfolding is_prime trial_loop
seven-Prime = is_prime-Prime 7 refl

factorials : (factorial (pos 12) ≡ returns 479001600) × (factorial (pos 13) ≡ undefined)
unfolding factorial factorial_loop
factorials = (refl, refl)

is_prime-Decides_example : Decides (Prime 91) (is_prime (pos 91))
is_prime-Decides_example = is_prime-Decides 91

get_next_prime-LeastPrime_example :
    ((q : ℕ) × (OnTheFly.get_next_prime (pos 5) ≡ returns (pos q)) × LeastPrime 6 q)
    × ((m : ℕ) → OnTheFly.get_next_prime (negsuc m) ≡ returns (negsuc 0))
get_next_prime-LeastPrime_example =
    get_next_prime-LeastPrime 5 7 seven-Prime (omega arith) (omega arith)

calculate-PrimeTable_example :
    (t : List Bool) × (PreCalculated.calculate_primes_up_to 20 ≡ returns t) × PrimeTable 20 t
calculate-PrimeTable_example = calculate-PrimeTable 20 (omega arith) (omega arith)

abbrev twenty : List Bool
twenty = calculate-PrimeTable_example.0
