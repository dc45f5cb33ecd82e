-- ===== src/Base/Updates.antt =====
-- Functions that are changed at one number.
use mathlib.Core.Path.{fun_ext}
use c_practice.Base.{
  ℕ, ◌≡◌, ◌≢◌, refl, sym, ap, ◌∙◌, ◌⊎◌, inl, inr, false, arith, ◌==◌, ==_iff, Bool-cases, update,
}

pub ne_of_test : (i j : ℕ) → (j == i) ≡ false → j ≢ i
ne_of_test i j h = ground arith

module _ {ℓ} {A : Type ℓ} where
  pub update_self : (f : ℕ → A) (i : ℕ) (v : A) → update f i v i ≡ v
  update_self f i v = rw ((==_iff i i).1 refl) refl

  pub update_ne : (f : ℕ → A) (i j : ℕ) (v : A) → j ≢ i → update f i v j ≡ f j
  update_ne f i j v ne = elim (Bool-cases (j == i)) [
    | inl same ↦ absurd (ne ((==_iff j i).0 same))
    | inr other ↦ rw other refl
  ]

  pub update-cases :
      (f : ℕ → A) (i j : ℕ) (v x : A)
      → update f i v j ≡ x
      → ((j ≡ i) × (v ≡ x)) ⊎ ((j ≢ i) × (f j ≡ x))
  update-cases f i j v x e = elim (Bool-cases (j == i)) [
    | inl same ↦ inl ((==_iff j i).0 same, rw same at e)
    | inr other ↦ inr (ne_of_test i j other, rw other at e)
  ]

  pub update-update : (f : ℕ → A) (i : ℕ) (v w : A) → update (update f i v) i w ≡ update f i w
  update-update f i v w =
      fun_ext
        λ j. elim (Bool-cases (j == i)) [ inl same ↦ rw same refl | inr other ↦ rw other refl ]

  pub update_comm :
      (f : ℕ → A) (i j : ℕ) (v w : A)
      → i ≢ j
      → update (update f i v) j w ≡ update (update f j w) i v
  update_comm f i j v w ne = fun_ext λ k. elim (Bool-cases (k == i)) [
    | inr other ↦ rw other refl
    | inl first ↦ elim (Bool-cases (k == j)) [
      | inl second ↦ absurd (ne (sym ((==_iff k i).0 first) ∙ (==_iff k j).0 second))
      | inr other ↦ rw (first, other) refl
    ]
  ]

  pub update-unchanged : (f : ℕ → A) (i : ℕ) (v : A) → f i ≡ v → update f i v ≡ f
  update-unchanged f i v e = fun_ext λ j. elim (Bool-cases (j == i)) [
    | inl same ↦ rw same (sym e ∙ ap f (sym ((==_iff j i).0 same)))
    | inr other ↦ rw other refl
  ]
