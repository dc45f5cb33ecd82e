-- ===== src/Primes/Trial.antt =====
-- `IsPrime` of googletest/gtest/sample1.cc.
use native.Mathlib.Nat.{div-lt_iff_lt-mul, le-div_iff_mul-le}
use c_practice.Base.{
  ℕ, zero, suc, ◌+◌, ◌/◌, ◌%◌, ◌≤◌, ◌<◌, ◌≡◌, refl, ◌≢◌, inl, inr, false, arith, ltb, leb, ◌==◌,
  ltb→lt, Bool-cases,
}
use c_practice.Base.Int.{pos, negsuc}
use c_practice.Primes.{returns, trial_loop, is_prime}
use c_practice.Primes.Divides.{
  NoDivisor, Prime, Decides, lt_of_sq-le, NoDivisor-sqrt, NoDivisor-odd,
}

not-Prime_of_divisor : (n d : ℕ) → 2 ≤ d → d < n → n % d ≡ 0 → ¬ Prime n
not-Prime_of_divisor n d two lt e p = p.1 d two lt lt e

trial_loop-Decides :
    (k n i : ℕ)
    → 3 ≤ n
    → n % 2 ≢ 0
    → 3 ≤ i
    → i % 2 ≢ 0
    → i ≤ n + 2
    → n + 2 < i + k
    → NoDivisor n i
    → Decides (Prime n) (trial_loop k n i)
unfolding trial_loop
trial_loop-Decides zero n i three odd three' odd' le fuel none = absurd (omega arith)
trial_loop-Decides (suc k) n i three odd three' odd' le fuel none =
    elim (Bool-cases (ltb (n / i) i)) [
      | inl past ↦ rw past (
          inl (
            refl,
            (
              omega arith,
              NoDivisor-sqrt n i ((div-lt_iff_lt-mul (omega arith)).0 (ltb→lt _ _ past)) none,
            ),
          ))
      | inr more ↦
          let lt : i < n =
            lt_of_sq-le n i (omega arith) ((le-div_iff_mul-le (omega arith)).0 (ground arith)) in
          rw more (elim (Bool-cases (n % i == 0)) [
            | inl hit ↦
                rw hit (inr (refl, not-Prime_of_divisor n i (omega arith) lt (ground arith)))
            | inr miss ↦ rw miss (
                trial_loop-Decides k n (i + 2) three odd (omega arith) (omega arith) (omega arith)
                  (omega arith) (NoDivisor-odd n i odd odd' none (ground arith)))
          ])
    ]

-- IsPrime of sample1.cc returns for every number from 0, with true exactly at the primes.
pub is_prime-Decides : (n : ℕ) → Decides (Prime n) (is_prime (pos n))
unfolding is_prime
is_prime-Decides n = elim (Bool-cases (leb n 1)) [
  | inl small ↦ rw small (inr (refl, λ p. ground arith))
  | inr big ↦ rw big (elim (Bool-cases (n % 2 == 0)) [
    | inl even ↦ rw even (elim (Bool-cases (n == 2)) [
      | inl two ↦ rw two (inl (refl, (ground arith, λ d lo hi hi' e. ground arith)))
      | inr more ↦
          rw more (inr (refl, not-Prime_of_divisor n 2 (omega arith) (ground arith) (ground arith)))
    ])
    | inr odd ↦ rw odd (
        trial_loop-Decides n n 3 (ground arith) (ground arith) (omega arith) (omega arith)
          (ground arith) (omega arith) (λ d lo hi hi' e. ground arith))
  ])
]

not-prime_negative : (n : ℕ) → is_prime (negsuc n) ≡ returns false
unfolding is_prime
not-prime_negative n = refl
