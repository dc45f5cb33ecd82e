-- ===== src/Primes/Divides.antt =====
-- Divisors and primes, as the loops see them: by remainders.
use native.Mathlib.Nat.{div-add-mod, mul-mod_right, mul-le-mul, mul_assoc, mul_comm, le_refl}
use mathlib.Core.Path.{subst}
use c_practice.Base.{
  ℕ, zero, suc, ◌+◌, ◌*◌, ◌/◌, ◌%◌, ◌≤◌, ◌<◌, ◌≡◌, ap, ◌∙◌, ◌≢◌, ◌⊎◌, Bool, true, false, arith,
  dec_lt, ℕ_discrete,
}
use c_practice.Primes.{Outcome, returns}

-- No number from 2 up to `b` and below `n` divides `n`.
abbrev pub NoDivisor : ℕ → ℕ → Type 0
NoDivisor n b = (d : ℕ) → 2 ≤ d → d < b → d < n → n % d ≢ 0

abbrev pub Prime : ℕ → Type 0
Prime n = (2 ≤ n) × NoDivisor n n

-- The outcome says whether `P` holds.
abbrev pub Decides : Type 0 → Outcome Bool → Type 0
Decides P r = ((r ≡ returns true) × P) ⊎ ((r ≡ returns false) × (¬ P))

pub factor : (n d : ℕ) → n % d ≡ 0 → n ≡ d * (n / d)
factor n d e = omega (arith, div-add-mod n d)

-- A divisor of a divisor divides.
pub mod_trans : (n d e : ℕ) → n % d ≡ 0 → d % e ≡ 0 → n % e ≡ 0
mod_trans n d e p q =
    ap (λ t. t % e)
      (factor n d p ∙ ap (λ t. t * (n / d)) (factor d e q) ∙ mul_assoc e (d / e) (n / d))
    ∙ mul-mod_right e (d / e * (n / d))

-- The quotient by a divisor divides too.
quotient_divides : (n d : ℕ) → n % d ≡ 0 → n % (n / d) ≡ 0
quotient_divides n d e =
    ap (λ t. t % (n / d)) (factor n d e ∙ mul_comm d (n / d)) ∙ mul-mod_right (n / d) d

cofactor_bounds : (n d q : ℕ) → n ≡ d * q → 2 ≤ d → d < n → (2 ≤ q) × (q < n)
cofactor_bounds n d zero e two lt = absurd (omega arith)
cofactor_bounds n d (suc zero) e two lt = absurd (omega arith)
cofactor_bounds n d (suc (suc q)) e two lt =
    (omega arith, omega (arith, mul-le-mul two (le_refl (suc (suc q)))))

pub lt_of_sq-le : (n b : ℕ) → 2 ≤ b → b * b ≤ n → b < n
lt_of_sq-le n b two le = omega (arith, mul-le-mul two (le_refl b))

pub lt_of_sq-lt : (b r : ℕ) → b * b < r * r → b < r
lt_of_sq-lt b r h = elim (dec_lt b r) [
  | yes lt ↦ lt
  | no ge ↦
      absurd
        (omega (arith, mul-le-mul {n₁ = r} {m₁ = r} {n₂ = b} {m₂ = b} (omega arith) (omega arith)))
]

-- Past the square root there is nothing left to try.
pub NoDivisor-sqrt : (n b : ℕ) → n < b * b → NoDivisor n b → NoDivisor n n
NoDivisor-sqrt n b small none d two lt lt' e = elim (dec_lt d b) [
  | yes below ↦ none d two below lt e
  | no above ↦
      let (two', lt'') = cofactor_bounds n d (n / d) (factor n d e) two lt in
      elim (dec_lt (n / d) b) [
        | yes below ↦ none (n / d) two' below lt'' (quotient_divides n d e)
        | no far ↦ omega (
          arith,
          factor n d e,
          mul-le-mul {n₁ = b} {m₁ = b} {n₂ = d} {m₂ = n / d} (omega arith) (omega arith),
        )
      ]
]

pub NoDivisor-step : (n b : ℕ) → NoDivisor n b → n % b ≢ 0 → NoDivisor n (b + 1)
NoDivisor-step n b none ne d two lt lt' e = elim (dec_lt d b) [
  | yes below ↦ none d two below lt' e
  | no above ↦ ne (ap (λ t. n % t) (omega arith) ∙ e)
]

-- For an odd number the even divisors need no trial.
pub NoDivisor-odd :
    (n b : ℕ) → n % 2 ≢ 0 → b % 2 ≢ 0 → NoDivisor n b → n % b ≢ 0 → NoDivisor n (b + 2)
NoDivisor-odd n b odd odd' none ne = subst (NoDivisor n) (omega arith) (
    NoDivisor-step n (b + 1) (NoDivisor-step n b none ne)
      (λ e. odd (mod_trans n (b + 1) 2 e (omega arith))))

pub not-Prime_between :
    (n : ℕ) (m b : ℕ) → ¬ Prime n → (n + 1 ≤ m → m < b → ¬ Prime m) → n ≤ m → m < b → ¬ Prime m
not-Prime_between n m b here later le lt p = elim (ℕ_discrete n m) [
  | yes same ↦ here (rw same p)
  | no other ↦ later (omega arith) lt p
]
