-- ===== src/Primes/PreCalculated/Marks.antt =====
-- The inner loop of the sieve: it clears the multiples of `i` from `j` on, and nothing else.
use native.Mathlib.Nat.{mul-le-mul, le_refl, mul-one, add-mul-mod_self_left}
use c_practice.Base.{
  ℕ, zero, suc, ◌+◌, ◌/◌, ◌%◌, ◌≤◌, ◌<◌, ◌≡◌, refl, sym, ap, ◌∙◌, ◌≢◌, inl, inr, Bool, true, false,
  List, [], ◌∷◌, arith, ltb, leb, ◌==◌, Bool-cases, if◌then◌else◌, length, set, get_or, length-set,
  dec_lt, ℕ_discrete,
}
use c_practice.Primes.{Outcome, returns, int_max}
use c_practice.Primes.PreCalculated.{put, mark_loop}
use c_practice.Primes.Divides.{factor}

pub get_or-set :
    (t : List Bool) (i k : ℕ) (b : Bool)
    → i < length t
    → get_or (set t i b) k false ≡ (if i == k then b else get_or t k false)
get_or-set [] i k b lt = elim lt [ ]
get_or-set (x ∷ t) zero zero b lt = refl
get_or-set (x ∷ t) zero (suc k) b lt = ground arith
get_or-set (x ∷ t) (suc i) zero b lt = ground arith
get_or-set (x ∷ t) (suc i) (suc k) b lt = ground (arith, get_or-set t i k b (omega arith))

-- Between two consecutive multiples of `i` there is none.
pub no_multiple_between : (i j k : ℕ) → j % i ≡ 0 → j < k → k < j + i → k % i ≢ 0
no_multiple_between i j k ej lt lt' ek =
    let a = k / i in
    let b = j / i in
    elim (dec_lt b a) [
      | yes above ↦ omega (
        arith,
        factor j i ej,
        factor k i ek,
        mul-le-mul {n₁ = i} {m₁ = b + 1} {n₂ = i} {m₂ = a} (le_refl i) (omega arith),
      )
      | no below ↦ omega (
        arith,
        factor j i ej,
        factor k i ek,
        mul-le-mul {n₁ = i} {m₁ = a} {n₂ = i} {m₂ = b} (le_refl i) (omega arith),
      )
    ]

-- What the table says of `k` after the loop from `j`.
abbrev pub marked : ℕ → ℕ → List Bool → ℕ → Bool
marked i j t k =
    if leb j k then (if k % i == 0 then false else get_or t k false) else get_or t k false

add-multiple : (i j : ℕ) → j % i ≡ 0 → (j + i) % i ≡ 0
add-multiple i j e = ap (λ t. (j + t) % i) (sym (mul-one i)) ∙ add-mul-mod_self_left j i 1 ∙ e

mark_again :
    (i j k : ℕ) (t : List Bool)
    → 2 ≤ i
    → j % i ≡ 0
    → j < length t
    → marked i (j + i) (set t j false) k ≡ marked i j t k
mark_again i j k t two e lt = elim (ℕ_discrete j k) [
  | yes same ↦ rw (get_or-set t j k false lt) (ground (arith, ap (λ n. n % i) same))
  | no apart ↦ rw (get_or-set t j k false lt) (ground (arith, no_multiple_between i j k e))
]

abbrev pub MarkedTable : ℕ → ℕ → ℕ → List Bool → Outcome (List Bool) → Type 0
MarkedTable max i j t r =
    (u : List Bool) × (r ≡ returns u)
    × (length u ≡ length t)
    × ((k : ℕ) → k ≤ max → get_or u k false ≡ marked i j t k)

pub mark_loop-MarkedTable :
    (f max i j : ℕ) (t : List Bool)
    → length t ≡ max + 1
    → 2 ≤ i
    → i ≤ max
    → j % i ≡ 0
    → max + max ≤ int_max
    → max + 2 ≤ j + f
    → 0 < f
    → MarkedTable max i j t (mark_loop f max i j t)
unfolding mark_loop put
mark_loop-MarkedTable zero max i j t len two le e small fuel pos = absurd (omega arith)
mark_loop-MarkedTable (suc f) max i j t len two le e small fuel pos =
    elim (Bool-cases (ltb max j)) [
      | inl past ↦ rw past (t, refl, refl, λ k le'. ground arith)
      | inr more ↦
          let inside : ltb j (length t) ≡ true = ground arith in
          let fits : ltb int_max (j + i) ≡ false = ground arith in
          let lt : j < length t = ground arith in
          let (u, ran, same, marks) =
            mark_loop-MarkedTable f max i (j + i) (set t j false) (length-set t j false ∙ len) two
              le (add-multiple i j e) small (ground arith) (ground arith) in
          (
            u,
            rw more (rw inside (rw fits ran)),
            same ∙ length-set t j false,
            λ k le'. marks k le' ∙ mark_again i j k t two e lt,
          )
    ]
