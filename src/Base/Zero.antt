-- ===== src/Base/Zero.antt =====
-- `strlen`: the place of the first 0 of an array.
use mathlib.Core.Option
use c_practice.Base.{
  ℕ, zero, suc, ◌≡◌, refl, ap, true, false, Option, none, some, [], ◌∷◌, ◌++◌, arith, length,
}
use c_practice.Base.Text.{Text, has_byte}

-- `none` if no byte of the array is 0.
abbrev pub find_zero : Text → Option ℕ
find_zero [] = none
find_zero (zero ∷ t) = some 0
find_zero (suc c ∷ t) = Option.map suc (find_zero t)

pub find_zero-first :
    (t r : Text) → has_byte 0 t ≡ false → find_zero (t ++ (0 ∷ r)) ≡ some (length t)
find_zero-first [] r clear = refl
find_zero-first (zero ∷ t) r clear = ground arith
find_zero-first (suc c ∷ t) r clear = ap (Option.map suc) (find_zero-first t r (ground arith))

pub find_zero_found : (t : Text) → has_byte 0 t ≡ true → (n : ℕ) × (find_zero t ≡ some n)
find_zero_found [] has = absurd (cc)
find_zero_found (zero ∷ t) has = (0, refl)
find_zero_found (suc c ∷ t) has =
    let (n, at) = find_zero_found t (ground arith) in (suc n, ap (Option.map suc) at)

pub find_zero_missing : (t : Text) → has_byte 0 t ≡ false → find_zero t ≡ none
find_zero_missing [] clear = refl
find_zero_missing (zero ∷ t) clear = ground arith
find_zero_missing (suc c ∷ t) clear = ap (Option.map suc) (find_zero_missing t (ground arith))
