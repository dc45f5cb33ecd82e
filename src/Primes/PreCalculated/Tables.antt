-- ===== src/Primes/PreCalculated/Tables.antt =====
-- `PreCalculatedPrimeTable::IsPrime` and `GetNextPrime` on the table that the sieve leaves.
use c_practice.Base.{
  ℕ, zero, suc, ◌+◌, ◌-◌, ◌≤◌, ◌<◌, ◌≡◌, refl, ◌⊎◌, inl, inr, Bool, false, List, arith, ◌==◌,
  length, dec_lt,
}
use c_practice.Base.Int.{ℤ, pos, negsuc}
use c_practice.Primes.{returns, undefined}
use c_practice.Primes.OnTheFly
use c_practice.Primes.PreCalculated.{next_prime_loop, get_next_prime}
use c_practice.Primes.Divides.{Prime, Decides, not-Prime_between}
use c_practice.Primes.PreCalculated.Sieve.{PrimeTable}

-- What `GetNextPrime` has to answer when its loop starts at `n`.
abbrev pub NextPrime : ℕ → ℕ → ℤ → Type 0
NextPrime max n r =
    ((q : ℕ) × (r ≡ pos q) × (n ≤ q) × (q ≤ max) × Prime q × ((m : ℕ) → n ≤ m → m < q → ¬ Prime m))
    ⊎ ((r ≡ negsuc 0) × ((m : ℕ) → n ≤ m → m ≤ max → ¬ Prime m))

-- Integers up to `max`, and above it.
abbrev pub UpTo : ℕ → ℤ → Type 0
UpTo max (negsuc n) = Unit
UpTo max (pos n) = n ≤ max

abbrev pub Above : ℕ → ℤ → Type 0
Above max (negsuc n) = ⊥
Above max (pos n) = max < n

module _ (max : ℕ) (t : List Bool) (table : PrimeTable max t) where
  next_prime_loop-NextPrime : (k n : ℕ) → n + k ≡ max + 1 → NextPrime max n (next_prime_loop k n t)
  unfolding next_prime_loop
  next_prime_loop-NextPrime zero n e = inr (refl, λ m lo hi p. omega arith)
  next_prime_loop-NextPrime (suc k) n e = elim (table.1 n (omega arith)) [
    | inl (up, p) ↦ rw up (inl (n, refl, omega arith, omega arith, p, λ m lo hi q. omega arith))
    | inr (down, np) ↦ rw down (elim (next_prime_loop-NextPrime k (n + 1) (omega arith)) [
      | inl (q, e', lo, hi, p, none) ↦
          inl (q, e', omega arith, hi, p, λ m le lt. not-Prime_between n m q np (none m) le lt)
      | inr (e', none) ↦ inr (
        e',
        λ m le lt.
            not-Prime_between n m (max + 1) np (λ lo lt'. none m lo (omega arith)) le (omega arith),
      )
    ])
  ]

  next_prime_loop_end : (n : ℕ) → max < n → NextPrime max n (next_prime_loop 0 n t)
  unfolding next_prime_loop
  next_prime_loop_end n lt = inr (refl, λ m lo hi p. omega arith)

  -- From a p that is not negative, GetNextPrime of a table that tells the primes returns the least
  -- prime above p up to max, or -1 if there is none.
  pub get_next_prime-NextPrime :
      (p : ℕ) → (r : ℤ) × (get_next_prime t (pos p) ≡ returns r) × NextPrime max (p + 1) r
  unfolding get_next_prime
  get_next_prime-NextPrime p = (
    next_prime_loop (length t - (p + 1)) (p + 1) t,
    refl,
    elim (dec_lt max p) [
      | yes above ↦
          let done : length t - (p + 1) ≡ 0 = omega (arith, table.0) in
          rw done (next_prime_loop_end (p + 1) (omega arith))
      | no below ↦ next_prime_loop-NextPrime (length t - (p + 1)) (p + 1) (omega (arith, table.0))
    ],
  )

  -- Below -1 it reads before the start of the table.
  get_next_prime_undefined : (p : ℕ) → get_next_prime t (negsuc (suc p)) ≡ undefined
  unfolding get_next_prime
  get_next_prime_undefined p =
      let full : (length t == 0) ≡ false = ground (arith, table.0) in rw full refl
