-- ===== src/Primes/PreCalculated/Sieve.antt =====
-- The outer loop of the sieve, and the table that the constructor leaves.
use native.Mathlib.Nat.{mul-mod_left}
use c_practice.Base.{
  ℕ, zero, suc, ◌+◌, ◌-◌, ◌*◌, ◌%◌, ◌≤◌, ◌<◌, ◌≡◌, refl, sym, ap, ◌∙◌, ◌≢◌, ◌⊎◌, inl, inr, Bool,
  true, false, List, arith, ltb, leb, ◌==◌, Bool-cases, length, set, get_or, replicate, length-set,
  length-replicate, dec_lt, ℕ_discrete,
}
use c_practice.Primes.{returns, undefined, int_max}
use c_practice.Primes.PreCalculated.{put, sieve_loop, calculate_primes_up_to}
use c_practice.Primes.Divides.{NoDivisor, Prime, mod_trans}
use c_practice.Primes.PreCalculated.Marks.{
  get_or-set, no_multiple_between, marked, mark_loop-MarkedTable,
}

-- The flag says whether `P` holds.
abbrev pub Tells : Type 0 → Bool → Type 0
Tells P b = ((b ≡ true) × P) ⊎ ((b ≡ false) × (¬ P))

Tells-iff : {P Q : Type 0} (b : Bool) → (P → Q) → (Q → P) → Tells P b → Tells Q b
Tells-iff b f g (inl (e, p)) = inl (e, f p)
Tells-iff b f g (inr (e, n)) = inr (e, λ q. n (g q))

-- What the rounds below `i` leave standing.
abbrev Survives : ℕ → ℕ → Type 0
Survives i k = (2 ≤ k) × NoDivisor k i

abbrev Sieved : ℕ → ℕ → List Bool → Type 0
Sieved max i t =
    (length t ≡ max + 1) × ((k : ℕ) → k ≤ max → Tells (Survives i k) (get_or t k false))

Survives-down : (i k : ℕ) → Survives (i + 1) k → Survives i k
Survives-down i k s = (s.0, λ d two lt lt' e. s.1 d two (omega arith) lt' e)

Survives-up : (i k : ℕ) → (i < k → k % i ≢ 0) → Survives i k → Survives (i + 1) k
Survives-up i k ne s = (
  s.0,
  λ d two lt lt' e. elim (ℕ_discrete d i) [
    | yes same ↦ ne (omega arith) (ap (λ n. k % n) (sym same) ∙ e)
    | no other ↦ s.1 d two (omega arith) lt' e
  ],
)

-- A multiple of a number that was crossed out has been crossed out.
Survives-composite : (i k : ℕ) → 2 ≤ i → ¬ Survives i i → Survives i k → i < k → k % i ≢ 0
Survives-composite i k two not s lt e =
    not (two, λ d two' lt' lt'' e'. s.1 d two' lt' (omega arith) (mod_trans k i d e e'))

self_mod : (i : ℕ) → i % i ≡ 0
self_mod i = ap (λ t. t % i) (let e : i ≡ 1 * i = omega arith in e) ∙ mul-mod_left 1 i

marked-Tells :
    (i k : ℕ) (t : List Bool)
    → 2 ≤ i
    → Tells (Survives i k) (get_or t k false)
    → Tells (Survives (i + 1) k) (marked i (2 * i) t k)
marked-Tells i k t two tells = elim (Bool-cases (leb (2 * i) k)) [
  | inl far ↦ rw far (elim (Bool-cases (k % i == 0)) [
    | inl hit ↦ rw hit (inr (refl, λ s. s.1 i two (omega arith) (ground arith) (ground arith)))
    | inr miss ↦
        rw miss (Tells-iff _ (Survives-up i k (λ lt. ground arith)) (Survives-down i k) tells)
  ])
  | inr near ↦ rw near (
      Tells-iff _ (Survives-up i k (λ lt. no_multiple_between i i k (self_mod i) lt (ground arith)))
        (Survives-down i k) tells)
]

sieve_loop-Sieved :
    (r max i : ℕ) (t : List Bool)
    → 2 ≤ i
    → i + r ≡ max + 1
    → max + max ≤ int_max
    → Sieved max i t
    → (u : List Bool) × (sieve_loop r max i t ≡ returns u) × Sieved max (max + 1) u
unfolding sieve_loop
sieve_loop-Sieved zero max i t two e small s =
    (t, refl, let q : i ≡ max + 1 = omega arith in rw q at s)
sieve_loop-Sieved (suc r) max i t two e small s = elim (s.1 i (omega arith)) [
  | inl (up, p) ↦
      let inside : ltb i (length t) ≡ true = ground (arith, s.0) in
      let (u, ran, same, marks) =
        mark_loop-MarkedTable (max + 1) max i (2 * i) t s.0 two (omega arith) (mul-mod_left 2 i)
          small (omega arith) (omega arith) in
      let fits : ltb int_max (2 * i) ≡ false = ground arith in
      let (v, ran', done) =
        sieve_loop-Sieved r max (i + 1) u (omega arith) (omega arith) small
          (same ∙ s.0, λ k le. rw (marks k le) (marked-Tells i k t two (s.1 k le))) in
      (v, rw inside (rw up (rw fits (rw ran ran'))), done)
  | inr (down, np) ↦
      let inside : ltb i (length t) ≡ true = ground (arith, s.0) in
      let (v, ran', done) = sieve_loop-Sieved r max (i + 1) t (omega arith) (omega arith) small (
        s.0,
        λ k le.
            Tells-iff _ (λ q. Survives-up i k (Survives-composite i k two np q) q)
              (Survives-down i k) (s.1 k le),
      ) in
      (v, rw inside (rw down ran'), done)
]

get_or-replicate : (n k : ℕ) → k < n → get_or (replicate n true) k false ≡ true
get_or-replicate zero k lt = elim lt [ ]
get_or-replicate (suc n) zero lt = refl
get_or-replicate (suc n) (suc k) lt = get_or-replicate n k (omega arith)

abbrev cleared : ℕ → List Bool
cleared max = set (set (replicate (max + 1) true) 0 false) 1 false

length-cleared : (max : ℕ) → length (cleared max) ≡ max + 1
length-cleared max =
    length-set (set (replicate (max + 1) true) 0 false) 1 false
    ∙ length-set (replicate (max + 1) true) 0 false
    ∙ length-replicate (max + 1) true

cleared-Tells :
    (max k : ℕ) → 1 ≤ max → k ≤ max → Tells (Survives 2 k) (get_or (cleared max) k false)
cleared-Tells max k one le =
    let all = replicate (max + 1) true in
    let whole : length all ≡ max + 1 = length-replicate (max + 1) true in
    let there : get_or all k false ≡ true = get_or-replicate (max + 1) k (omega arith) in
    rw (get_or-set (set all 0 false) 1 k false (omega (arith, length-set all 0 false))) (
      rw (get_or-set all 0 k false (omega arith)) (
        rw there (elim (dec_lt k 2) [
          | yes small ↦ inr (ground arith, λ s. omega arith)
          | no large ↦ inl (ground arith, (omega arith, λ d lo hi lt e. omega arith))
        ])))

abbrev pub PrimeTable : ℕ → List Bool → Type 0
PrimeTable max t = (length t ≡ max + 1) × ((k : ℕ) → k ≤ max → Tells (Prime k) (get_or t k false))

-- The constructor of PreCalculatedPrimeTable ends, with no overflow and no access out of bounds,
-- when max is positive and twice max is an int; its table then tells the primes up to max.
pub calculate-PrimeTable :
    (max : ℕ)
    → 1 ≤ max
    → max + max ≤ int_max
    → (t : List Bool) × (calculate_primes_up_to max ≡ returns t) × PrimeTable max t
unfolding calculate_primes_up_to put
calculate-PrimeTable max one small =
    let all = replicate (max + 1) true in
    let zero_in : ltb 0 (length all) ≡ true = ground (arith, length-replicate (max + 1) true) in
    let one_in : ltb 1 (length (set all 0 false)) ≡ true =
      ground (arith, length-replicate (max + 1) true, length-set all 0 false) in
    let (t, ran, s) =
      sieve_loop-Sieved (max - 1) max 2 (cleared max) (omega arith) (omega arith) small
        (length-cleared max, λ k le. cleared-Tells max k one le) in
    (
      t,
      rw zero_in (rw one_in ran),
      (
        s.0,
        λ k le.
            Tells-iff _ (λ p. (p.0, λ d two lt lt' e. p.1 d two (omega arith) lt' e))
              (λ p. (p.0, λ d two lt lt' e. p.1 d two lt' lt' e)) (s.1 k le),
      ),
    )

-- For `max = 0` the constructor writes past the end of its one-place table.
calculate_zero : calculate_primes_up_to 0 ≡ undefined
unfolding calculate_primes_up_to put
calculate_zero = refl
