-- ===== src/Primes/Factorial.antt =====
-- `Factorial` of googletest/gtest/sample1.cc.
use native.Mathlib.Nat.{mul-le-mul, le_refl}
use c_practice.Base.{
  ℕ, zero, suc, ◌+◌, ◌-◌, ◌*◌, ◌≤◌, ◌≡◌, refl, ap, ◌∙◌, false, arith, ltb, leb, inl, inr,
  Bool-cases, if◌then◌else◌,
}
use c_practice.Base.Int.{pos}
use c_practice.Primes.{returns, undefined, int_max, factorial_loop, factorial}

-- The product 1 * 2 * … * n.
pub product_up_to : ℕ → ℕ
product_up_to zero = 1
product_up_to (suc n) = product_up_to n * (n + 1)

product_up_to-le : (n d : ℕ) → product_up_to n ≤ product_up_to (d + n)
unfolding product_up_to
product_up_to-le n zero = omega (arith, ap product_up_to (let e : 0 + n ≡ n = omega arith in e))
product_up_to-le n (suc d) =
    let e : suc d + n ≡ suc (d + n) = omega arith in
    rw e (
      omega (
        arith,
        product_up_to-le n d,
        mul-le-mul {n₁ = product_up_to (d + n)} {m₁ = 1} {n₂ = product_up_to (d + n)}
            {m₂ = d + n + 1} (le_refl (product_up_to (d + n))) (omega arith),
      ))

product_up_to_12 : product_up_to 12 ≡ 479001600
unfolding product_up_to
product_up_to_12 = refl

product_up_to-fits : (n : ℕ) → n ≤ 12 → product_up_to n ≤ int_max
product_up_to-fits n le = omega (
  arith,
  product_up_to_12,
  ap product_up_to (let e : 12 - n + n ≡ 12 = omega arith in e),
  product_up_to-le n (12 - n),
)

product_step : (n i : ℕ) → i ≡ n + 1 → product_up_to n * i ≡ product_up_to (n + 1)
unfolding product_up_to
product_step n i e =
    ap (λ t. product_up_to n * t) e ∙ ap product_up_to (let q : suc n ≡ n + 1 = omega arith in q)

factorial_loop_lem :
    (k i n : ℕ)
    → i ≡ n + 1
    → n ≤ 12
    → factorial_loop k i (product_up_to n)
      ≡ (if leb (n + k) 12 then returns (product_up_to (n + k)) else undefined)
unfolding factorial_loop product_up_to
factorial_loop_lem zero i n e le =
    ground (arith, ap product_up_to (let q : n + 0 ≡ n = omega arith in q))
factorial_loop_lem (suc k) i n e le = elim (Bool-cases (leb (n + 1) 12)) [
  | inl fits ↦
      let next : product_up_to n * i ≡ product_up_to (n + 1) = product_step n i e in
      let small : ltb int_max (product_up_to (n + 1)) ≡ false =
        ground (arith, product_up_to-fits (n + 1)) in
      rw next (
        rw small (
          factorial_loop_lem k (i + 1) (n + 1) (omega arith) (ground arith)
          ∙ ap (λ t. if leb t 12 then returns (product_up_to t) else undefined) (omega arith)))
  | inr over ↦
      let top : n ≡ 12 = ground arith in
      let next : product_up_to n * i ≡ product_up_to 13 =
        product_step n i e ∙ ap (λ t. product_up_to (t + 1)) top in
      let late : leb (n + suc k) 12 ≡ false = ground arith in rw next (rw late refl)
]

-- Factorial returns the factorial of a number up to 12, and overflows above.
factorial_lem :
    (n : ℕ) → factorial (pos n) ≡ (if leb n 12 then returns (product_up_to n) else undefined)
unfolding factorial product_up_to
factorial_lem n =
    factorial_loop_lem n 1 0 refl (omega arith)
    ∙ ap (λ t. if leb t 12 then returns (product_up_to t) else undefined) (omega arith)
