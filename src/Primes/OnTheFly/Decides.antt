-- ===== src/Primes/OnTheFly/Decides.antt =====
-- Where `OnTheFlyPrimeTable::IsPrime` is right, and where its product `i*i` overflows.
use native.Mathlib.Nat.{mul-le-mul}
use c_practice.Base.{
  ℕ, zero, suc, ◌+◌, ◌*◌, ◌%◌, ◌≤◌, ◌<◌, ◌≡◌, refl, inl, inr, true, false, arith, ltb, leb, ◌==◌,
  ltb→lt, Bool-cases,
}
use c_practice.Base.Int.{pos, negsuc}
use c_practice.Primes.{returns, undefined, int_max}
use c_practice.Primes.OnTheFly.{is_prime_loop, is_prime}
use c_practice.Primes.Divides.{
  NoDivisor, Prime, Decides, lt_of_sq-le, lt_of_sq-lt, NoDivisor-sqrt, NoDivisor-step,
}

-- The largest number whose square is an `int`.
abbrev pub root_max : ℕ
root_max = 46340

-- The square of any number up to `root_max` is an `int`.
square_fits : (i : ℕ) → i ≤ root_max → ltb int_max (i * i) ≡ false
square_fits i le = ground (arith, mul-le-mul le le)

is_prime_loop-Decides :
    (k n i : ℕ)
    → n < root_max * root_max
    → 2 ≤ i
    → 2 ≤ n
    → i ≤ root_max
    → i ≤ n
    → n < i + k
    → NoDivisor n i
    → Decides (Prime n) (is_prime_loop k n i)
unfolding is_prime_loop
is_prime_loop-Decides zero n i small two two' le le' fuel none = absurd (omega arith)
is_prime_loop-Decides (suc k) n i small two two' le le' fuel none =
    rw (square_fits i le) (elim (Bool-cases (ltb n (i * i))) [
      | inl past ↦ rw past (inl (refl, (two', NoDivisor-sqrt n i (ltb→lt _ _ past) none)))
      | inr more ↦
          let lt : i < n = lt_of_sq-le n i two (ground arith) in
          rw more (elim (Bool-cases (n % i == 0)) [
            | inl hit ↦ rw hit (inr (refl, λ p. p.1 i two lt lt (ground arith)))
            | inr miss ↦ rw miss (
                is_prime_loop-Decides k n (i + 1) small (omega arith) two'
                  (omega (arith, lt_of_sq-lt i root_max (ground arith))) (omega arith) (omega arith)
                  (NoDivisor-step n i none (ground arith)))
          ])
    ])

-- Below the square of 46340, IsPrime of OnTheFlyPrimeTable returns true exactly at the primes.
pub is_prime-Decides_small :
    (n : ℕ) → n < root_max * root_max → Decides (Prime n) (is_prime (pos n))
unfolding is_prime
is_prime-Decides_small n small = elim (Bool-cases (leb n 1)) [
  | inl one ↦ rw one (inr (refl, λ p. ground arith))
  | inr big ↦ rw big (
      is_prime_loop-Decides n n 2 small (omega arith) (ground arith) (omega arith) (ground arith)
        (omega arith) (λ d lo hi hi' e. ground arith))
]

is_prime_loop-undefined :
    (k n i : ℕ)
    → root_max * root_max ≤ n
    → Prime n
    → 2 ≤ i
    → i ≤ root_max + 1
    → root_max + 1 < i + k
    → is_prime_loop k n i ≡ undefined
unfolding is_prime_loop
is_prime_loop-undefined zero n i large prime two le fuel = absurd (omega arith)
is_prime_loop-undefined (suc k) n i large prime two le fuel = elim (Bool-cases (ltb root_max i)) [
  | inl end ↦
      let over : ltb int_max (i * i) ≡ true = ground (
        arith,
        mul-le-mul {n₁ = root_max + 1} {m₁ = root_max + 1} {n₂ = i} {m₂ = i} (ground arith)
            (ground arith),
      ) in
      rw over refl
  | inr before ↦
      let small : i ≤ root_max = ground arith in
      let more : ltb n (i * i) ≡ false = ground (arith, mul-le-mul small small) in
      let miss : (n % i == 0) ≡ false = ground (arith, prime.1 i two (omega arith) (omega arith)) in
      rw (square_fits i small) (
        rw more (
          rw miss (
            is_prime_loop-undefined k n (i + 1) large prime (omega arith) (omega arith)
              (omega arith))))
]

-- At every prime from the square of 46340 up, IsPrime of OnTheFlyPrimeTable is undefined: the
-- square of its divisor overflows.
is_prime_overflows : (n : ℕ) → root_max * root_max ≤ n → Prime n → is_prime (pos n) ≡ undefined
unfolding is_prime
is_prime_overflows n large prime =
    let big : leb n 1 ≡ false = ground arith in
    rw big (is_prime_loop-undefined n n 2 large prime (omega arith) (omega arith) (omega arith))

pub is_prime_negative : (n : ℕ) → is_prime (negsuc n) ≡ returns false
unfolding is_prime
is_prime_negative n = refl
