-- ===== src/Base/Counting.antt =====
-- How many members of a list pass a test, and what changing one member does to that.
use c_practice.Base.{
  ℕ, zero, suc, ◌+◌, ◌≡◌, refl, ap, Bool, true, Option, none, some, List, [], ◌∷◌, ◌++◌, arith,
  if◌then◌else◌, Bool-cases, inl, inr, get_elem?, set,
}

abbrev pub one : Bool → ℕ
one b = if b then 1 else 0

module _ {A : Type 0} where
  abbrev pub count : (A → Bool) → List A → ℕ
  count test [] = 0
  count test (p ∷ ps) = one (test p) + count test ps

  tested : (A → Bool) → Option A → ℕ
  tested test none = 0
  tested test (some p) = one (test p)

  pub count-set :
      (test : A → Bool) (ps : List A) (t : ℕ) (p q : A)
      → get_elem? ps t ≡ some p
      → count test (set ps t q) + one (test p) ≡ count test ps + one (test q)
  unfolding tested
  count-set test [] t p q e = absurd (cc)
  count-set test (r ∷ ps) zero p q e =
      let b : one (test r) ≡ one (test p) = ap (tested test) e in omega arith
  count-set test (r ∷ ps) (suc t) p q e = let rest = count-set test ps t p q e in omega arith

  pub count-append :
      (test : A → Bool) (ps qs : List A) → count test (ps ++ qs) ≡ count test ps + count test qs
  count-append test [] qs = omega arith
  count-append test (p ∷ ps) qs = let rest = count-append test ps qs in omega arith

  -- A member that passes, where there is one.
  pub count-find :
      (test : A → Bool) (ps : List A) (n : ℕ)
      → count test ps ≡ suc n
      → (t : ℕ) × (p : A) × (get_elem? ps t ≡ some p) × (test p ≡ true)
  count-find test [] n e = absurd (omega arith)
  count-find test (p ∷ ps) n e = elim (Bool-cases (test p)) [
    | inl yes_it ↦ (0, p, refl, yes_it)
    | inr other ↦
        let out : one (test p) ≡ 0 = ap one other in
        let found = count-find test ps n (omega arith) in (suc found.0, found.1, found.2, found.3)
  ]

  pub get_elem?-set_same :
      (ps : List A) (t : ℕ) (p q : A) → get_elem? ps t ≡ some p → get_elem? (set ps t q) t ≡ some q
  get_elem?-set_same [] t p q e = absurd (cc)
  get_elem?-set_same (r ∷ ps) zero p q e = refl
  get_elem?-set_same (r ∷ ps) (suc t) p q e = get_elem?-set_same ps t p q e
