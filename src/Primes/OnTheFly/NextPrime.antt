-- ===== src/Primes/OnTheFly/NextPrime.antt =====
-- `OnTheFlyPrimeTable::GetNextPrime`.
use c_practice.Base.{
  ℕ, zero, suc, ◌+◌, ◌*◌, ◌≤◌, ◌<◌, ◌≡◌, refl, inl, inr, arith, ltb, ℕ_discrete, false,
}
use c_practice.Base.Int.{pos, negsuc}
use c_practice.Primes.{returns, int_max}
use c_practice.Primes.Divides.{Prime, not-Prime_between}
use c_practice.Primes.OnTheFly.{next_prime_loop, get_next_prime}
use c_practice.Primes.OnTheFly.Decides.{root_max, is_prime-Decides_small}

-- `q` is the least prime from `n` on.
abbrev pub LeastPrime : ℕ → ℕ → Type 0
LeastPrime n q = (n ≤ q) × Prime q × ((m : ℕ) → n ≤ m → m < q → ¬ Prime m)

next_prime_loop-LeastPrime :
    (k n b : ℕ)
    → Prime b
    → n ≤ b
    → b < root_max * root_max
    → b < n + k
    → (q : ℕ) × (next_prime_loop k n ≡ returns (pos q)) × LeastPrime n q
unfolding next_prime_loop
next_prime_loop-LeastPrime zero n b prime le small fuel = absurd (omega arith)
next_prime_loop-LeastPrime (suc k) n b prime le small fuel =
    elim (is_prime-Decides_small n (omega arith)) [
      | inl (e, p) ↦ (n, rw e refl, (omega arith, p, λ m lo hi q. omega arith))
      | inr (e, np) ↦
          let fits : ltb int_max (n + 1) ≡ false = ground arith in
          let apart : n < b = elim (ℕ_discrete n b) [
            | yes same ↦ absurd (np (rw same prime))
            | no other ↦ omega arith
          ] in
          let (q, ran, (lo, p, none)) =
            next_prime_loop-LeastPrime k (n + 1) b prime (omega arith) small (omega arith) in
          (
            q,
            rw e (rw fits ran),
            (omega arith, p, λ m le' lt. not-Prime_between n m q np (none m) le' lt),
          )
    ]

-- If p is not negative and some prime above it lies below the square of 46340, GetNextPrime of
-- OnTheFlyPrimeTable returns the least prime above p; for every negative number it returns -1.
pub get_next_prime-LeastPrime :
    (p b : ℕ)
    → Prime b
    → p < b
    → b < root_max * root_max
    → ((q : ℕ) × (get_next_prime (pos p) ≡ returns (pos q)) × LeastPrime (p + 1) q)
      × ((m : ℕ) → get_next_prime (negsuc m) ≡ returns (negsuc 0))
unfolding get_next_prime
get_next_prime-LeastPrime p b prime lt small =
    let fits : ltb int_max (p + 1) ≡ false = ground arith in
    let (q, ran, least) =
      next_prime_loop-LeastPrime int_max (p + 1) b prime (omega arith) small (omega arith) in
    ((q, rw fits ran, least), λ m. refl)
