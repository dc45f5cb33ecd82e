-- ===== src/Base/Text.antt =====
-- C strings as lists of bytes, without the terminating 0: comparison, decimal numbers, joining.
use mathlib.Core.Bool.{or_assoc}
use Prim.Native.Char.{code}
use Prim.Native.String.{String}
use c_practice.Base.{
  ℕ, zero, suc, ◌+◌, ◌-◌, ◌*◌, ◌/◌, ◌%◌, ◌≤◌, ◌<◌, ◌≡◌, refl, sym, ap, ◌≢◌, ◌∙◌, Bool, true, false,
  ◌&&◌, ◌||◌, Option, none, some, List, [], ◌∷◌, arith, ltb, leb, ◌==◌, if◌then◌else◌, Bool-cases,
  inl, inr, length, take, ◌++◌, replicate,
}
use c_practice.Base.Int.{ℤ, pos, ◌-ℤ◌}

abbrev pub Text : Type 0
Text = List ℕ

-- The bytes of an ASCII literal.
abbrev pub bytes : String → Text
bytes String.[] = []
bytes (String.◌∷◌ c s) = code c ∷ bytes s

-- `strcmp(s, t) == 0`
unfoldable pub text_eq : Text → Text → Bool
text_eq [] [] = true
text_eq [] (_ ∷ _) = false
text_eq (_ ∷ _) [] = false
text_eq (a ∷ s) (b ∷ t) = a == b && text_eq s t

pub text_eq_refl : (s : Text) → text_eq s s ≡ true
unfolding text_eq
text_eq_refl [] = refl
text_eq_refl (a ∷ s) = ground (arith, text_eq_refl s)

pub text_eq→≡ : (s t : Text) → text_eq s t ≡ true → s ≡ t
unfolding text_eq
text_eq→≡ [] [] h = refl
text_eq→≡ [] (c ∷ t) h = absurd (cc)
text_eq→≡ (b ∷ s) [] h = absurd (cc)
text_eq→≡ (b ∷ s) (c ∷ t) h = elim (Bool-cases (b == c)) [
  | inl same ↦ let e : b ≡ c = ground arith in let r : s ≡ t = text_eq→≡ s t (rw same at h) in cc
  | inr other ↦ let q : false ≡ true = rw other at h in absurd (cc)
]

pub ne_of_text_eq : (s t : Text) → text_eq s t ≡ false → s ≢ t
ne_of_text_eq s t h e =
    let q : false ≡ true = sym h ∙ ap (λ r. text_eq r t) e ∙ text_eq_refl t in absurd (cc)

-- `strchr(s, b) != NULL`, for a byte that is not 0
abbrev pub has_byte : ℕ → Text → Bool
has_byte b [] = false
has_byte b (a ∷ s) = a == b || has_byte b s

-- No byte of the text is one of `ds`.
abbrev pub Free : List ℕ → Text → Type 0
Free [] s = Unit
Free (d ∷ ds) s = (has_byte d s ≡ false) × Free ds s

abbrev pub is_digit : ℕ → Bool
is_digit c = leb b'0' c && leb c b'9'

abbrev pub AllDigits : Text → Type 0
AllDigits [] = Unit
AllDigits (c ∷ s) = (is_digit c ≡ true) × AllDigits s

pub AllDigits-free : (d : ℕ) (s : Text) → is_digit d ≡ false → AllDigits s → has_byte d s ≡ false
AllDigits-free d [] out all = refl
AllDigits-free d (c ∷ s) out all = ground (arith, AllDigits-free d s out all.1)

-- `%u`: the digits of `n`, before `rest`. The fuel bounds the number of digits.
decimal_loop : ℕ → ℕ → Text → Text
decimal_loop zero n rest = rest
decimal_loop (suc k) n rest =
    let more = decimal_loop k (n / 10) ((b'0' + n % 10) ∷ rest) in
    if ltb n 10 then (b'0' + n) ∷ rest else more

unfoldable pub decimal : ℕ → Text
unfolding decimal_loop
decimal n = decimal_loop (suc n) n []

-- The value of the digits in front, after those that made `v`.
unfoldable pub digits_value : ℕ → Text → ℕ
digits_value v [] = v
digits_value v (c ∷ s) =
    let more = digits_value (v * 10 + (c - b'0')) s in if is_digit c then more else v

digits_value-decimal_loop :
    (k n : ℕ) (rest : Text) → n < k → digits_value 0 (decimal_loop k n rest) ≡ digits_value n rest
unfolding decimal_loop digits_value
digits_value-decimal_loop zero n rest lt = elim lt [ ]
digits_value-decimal_loop (suc k) n rest lt = ground (
  arith,
  digits_value-decimal_loop k (n / 10) ((b'0' + n % 10) ∷ rest),
  ap (λ t. digits_value t rest)
      (let e : n / 10 * 10 + (b'0' + n % 10 - b'0') ≡ n = omega arith in e),
  ap (λ t. digits_value t rest) (let e : 0 * 10 + (b'0' + n - b'0') ≡ n = omega arith in e),
)

decimal_loop-AllDigits :
    (k n : ℕ) (rest : Text) → n < k → AllDigits rest → AllDigits (decimal_loop k n rest)
unfolding decimal_loop
decimal_loop-AllDigits zero n rest lt all = elim lt [ ]
decimal_loop-AllDigits (suc k) n rest lt all = elim (Bool-cases (ltb n 10)) [
  | inl one ↦ rw one (ground arith, all)
  | inr more ↦ rw more (
      decimal_loop-AllDigits k (n / 10) ((b'0' + n % 10) ∷ rest) (ground arith) (ground arith, all))
]

digits_value-decimal : (n : ℕ) → digits_value 0 (decimal n) ≡ n
unfolding decimal digits_value
digits_value-decimal n = digits_value-decimal_loop (suc n) n [] (omega arith)

pub decimal-AllDigits : (n : ℕ) → AllDigits (decimal n)
unfolding decimal
decimal-AllDigits n = decimal_loop-AllDigits (suc n) n [] (omega arith) tt

is_space : ℕ → Bool
is_space c = c == b' ' || (leb 9 c && leb c 13)

skip_space : Text → Text
skip_space [] = []
skip_space (c ∷ s) = if is_space c then skip_space s else c ∷ s

-- A magnitude with its sign, if an `int` holds it.
int_of : Bool → ℕ → Option ℤ
int_of negative n =
    if negative
    then (if leb n 0x80000000 then some (pos 0 -ℤ pos n) else none)
    else (if ltb n 0x80000000 then some (pos n) else none)

signed : Text → Option ℤ
signed [] = int_of false 0
signed (c ∷ s) =
    if c == b'-'
    then int_of true (digits_value 0 s)
    else if c == b'+'
    then int_of false (digits_value 0 s)
    else int_of false (digits_value 0 (c ∷ s))

-- `atoi`; `none` where the value is no `int`, which is undefined behaviour.
unfoldable pub atoi : Text → Option ℤ
unfolding is_space skip_space signed int_of ◌-ℤ◌
atoi s = signed (skip_space s)

atoi-AllDigits : (s : Text) → AllDigits s → atoi s ≡ int_of false (digits_value 0 s)
unfolding atoi digits_value
atoi-AllDigits [] all = refl
atoi-AllDigits (c ∷ s) all =
    let solid : is_space c ≡ false = ground arith in
    let plain : (c == b'-') ≡ false = ground arith in
    let plain' : (c == b'+') ≡ false = ground arith in rw solid (rw plain (rw plain' refl))

-- `atoi` reads back what `%u` prints, for values of an `int`.
pub atoi-decimal : (n : ℕ) → n < 0x80000000 → atoi (decimal n) ≡ some (pos n)
unfolding int_of
atoi-decimal n lt =
    atoi-AllDigits (decimal n) (decimal-AllDigits n)
    ∙ ap (int_of false) (digits_value-decimal n)
    ∙ ground arith

-- `strncpy(dst, s, n)` and the 0 that is put behind: at most `n - 1` bytes are kept.
pub take_all : (n : ℕ) (s : Text) → length s ≤ n → take n s ≡ s
take_all zero [] le = refl
take_all zero (c ∷ s) le = elim le [ ]
take_all (suc n) [] le = refl
take_all (suc n) (c ∷ s) le = ap (◌∷◌ c) (take_all n s (omega arith))

pub has_byte-append : (b : ℕ) (s t : Text) → has_byte b (s ++ t) ≡ (has_byte b s || has_byte b t)
has_byte-append b [] t = refl
has_byte-append b (c ∷ s) t = rw (has_byte-append b s t, or_assoc)

pub has_byte-replicate : (n b : ℕ) → 0 < b → has_byte 0 (replicate n b) ≡ false
has_byte-replicate zero b pos_b = refl
has_byte-replicate (suc n) b pos_b = ground (arith, has_byte-replicate n b pos_b)

-- The buffer as `%s` prints it: up to the first zero byte.
unfoldable pub c_string : Text → Text
c_string [] = []
c_string (zero ∷ s) = []
c_string (suc c ∷ s) = suc c ∷ c_string s

pub c_string-first : (a b : Text) → has_byte 0 a ≡ false → c_string (a ++ (0 ∷ b)) ≡ a
unfolding c_string
c_string-first [] b clear = refl
c_string-first (zero ∷ a) b clear = ground arith
c_string-first (suc c ∷ a) b clear = ap (◌∷◌ (suc c)) (c_string-first a b (ground arith))
