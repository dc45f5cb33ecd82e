-- ===== src/Base/Buffer.antt =====
-- Buffers as lists: reading and writing a run of places, and what that does to a buffer known in
-- pieces.
use c_practice.Base.{
  sym, ◌∙◌, ℕ, zero, suc, ◌+◌, ◌≤◌, ◌≡◌, refl, ap, true, Option, none, some, List, [], ◌∷◌, ◌++◌,
  arith, leb, if◌then◌else◌, length, take, drop, replicate, length-append,
}

module _ {A : Type 0} where
  -- The `n` places from `off`; `none` if they are not all there.
  unfoldable pub slice : List A → (off n : ℕ) → Option (List A)
  slice buf off n = if leb (off + n) (length buf) then some (take n (drop off buf)) else none

  -- The places from `off` overwritten by `src`.
  unfoldable pub overwrite : List A → ℕ → List A → Option (List A)
  overwrite buf off src =
      if leb (off + length src) (length buf)
      then some (take off buf ++ (src ++ drop (off + length src) buf))
      else none

  pub take-append : (xs ys : List A) → take (length xs) (xs ++ ys) ≡ xs
  take-append [] ys = refl
  take-append (x ∷ xs) ys = ap (◌∷◌ x) (take-append xs ys)

  pub drop-append : (xs ys : List A) → drop (length xs) (xs ++ ys) ≡ ys
  drop-append [] ys = refl
  drop-append (x ∷ xs) ys = drop-append xs ys

  pub take_all : (xs : List A) → take (length xs) xs ≡ xs
  take_all [] = refl
  take_all (x ∷ xs) = ap (◌∷◌ x) (take_all xs)

  pub drop_all : (xs : List A) → drop (length xs) xs ≡ []
  drop_all [] = refl
  drop_all (x ∷ xs) = drop_all xs

  pub append_assoc : (xs ys zs : List A) → (xs ++ ys) ++ zs ≡ xs ++ (ys ++ zs)
  append_assoc [] ys zs = refl
  append_assoc (x ∷ xs) ys zs = ap (◌∷◌ x) (append_assoc xs ys zs)

  pub replicate-add : (m n : ℕ) (a : A) → replicate (m + n) a ≡ replicate m a ++ replicate n a
  replicate-add zero n a = ap (λ k. replicate k a) (omega arith)
  replicate-add (suc m) n a =
      let e : suc m + n ≡ suc (m + n) = omega arith in rw e (ap (◌∷◌ a) (replicate-add m n a))

  pub drop-nil : (n : ℕ) → drop {A = A} n [] ≡ []
  drop-nil zero = refl
  drop-nil (suc n) = refl

  pub drop-drop : (xs : List A) (k u : ℕ) → drop u (drop k xs) ≡ drop (k + u) xs
  drop-drop xs zero u = ap (λ n. drop n xs) (omega arith)
  drop-drop [] (suc k) u = drop-nil u ∙ sym (drop-nil (suc k + u))
  drop-drop (x ∷ xs) (suc k) u =
      let e : suc k + u ≡ suc (k + u) = omega arith in
      drop-drop xs k u ∙ ap (λ n. drop n (x ∷ xs)) (sym e)

  pub slice_lem :
      (buf : List A) (off n : ℕ)
      → off + n ≤ length buf
      → slice buf off n ≡ some (take n (drop off buf))
  unfolding slice
  slice_lem buf off n le =
      let fits : leb (off + n) (length buf) ≡ true = ground arith in rw fits refl

  -- A read behind `a`.
  pub slice-append :
      (a b : List A) (off n : ℕ)
      → off ≡ length a
      → n ≤ length b
      → slice (a ++ b) off n ≡ some (take n b)
  unfolding slice
  slice-append a b off n at le =
      let fits : leb (length a + n) (length (a ++ b)) ≡ true = ground (arith, length-append a b) in
      rw at (rw fits (rw (drop-append a b) refl))

  -- A write behind `a`, over the first places of `b`.
  pub overwrite-append :
      (a b src : List A) (off : ℕ)
      → off ≡ length a
      → length src ≤ length b
      → overwrite (a ++ b) off src ≡ some (a ++ (src ++ drop (length src) b))
  unfolding overwrite
  overwrite-append a b src off at le =
      let fits : leb (length a + length src) (length (a ++ b)) ≡ true =
        ground (arith, length-append a b) in
      rw at (rw fits (rw (take-append a b) (rw (drop-add a b (length src)) refl)))
    where
      drop-add : (a b : List A) (n : ℕ) → drop (length a + n) (a ++ b) ≡ drop n b
      drop-add [] b n = ap (λ k. drop k b) (omega arith)
      drop-add (x ∷ a) b n =
          let e : suc (length a) + n ≡ suc (length a + n) = omega arith in rw e (drop-add a b n)
