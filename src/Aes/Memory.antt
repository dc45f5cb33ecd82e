-- ===== src/Aes/Memory.antt =====
-- Buffers: what `write`, `read` and `strlen` do to a buffer that is known in pieces.
use c_practice.Base.{
  ℕ, zero, suc, ◌+◌, ◌-◌, ◌≤◌, ◌<◌, ◌≡◌, refl, sym, ap, ◌∙◌, true, false, [], ◌∷◌, ◌++◌, arith, leb,
  length, replicate, length-append, length-replicate,
}
use c_practice.Base.Buffer.{take-append, drop-append, append_assoc, replicate-add}
use c_practice.Base.Text.{Text, has_byte}
use c_practice.Aes.{done, undefined, blank, write, read, strlen}

-- A write over the middle of a buffer.
pub write-middle :
    (a b b' c : Text) (off : ℕ)
    → off ≡ length a
    → length b' ≡ length b
    → write (a ++ (b ++ c)) off b' ≡ done (a ++ (b' ++ c))
unfolding write
write-middle a b b' c off at size =
    let fits : leb (length a + length b') (length (a ++ (b ++ c))) ≡ true =
      ground (arith, length-append a (b ++ c), length-append b c) in
    let whole : length a + length b' ≡ length (a ++ b) = omega (arith, length-append a b) in
    rw at (
      rw fits (
        rw (take-append a (b ++ c))
          (rw whole (rw (sym (append_assoc a b c)) (rw (drop-append (a ++ b) c) refl)))))

pub read-front : (a b : Text) (size : ℕ) → size ≡ length a → read size (a ++ b) ≡ done a
unfolding read
read-front a b size e =
    let fits : leb (length a) (length (a ++ b)) ≡ true = ground (arith, length-append a b) in
    rw e (rw fits (rw (take-append a b) refl))

pub strlen-first : (a b : Text) → has_byte 0 a ≡ false → strlen (a ++ (0 ∷ b)) ≡ done (length a)
unfolding strlen
strlen-first [] b clear = refl
strlen-first (zero ∷ a) b clear = ground arith
strlen-first (suc c ∷ a) b clear = rw (strlen-first a b (ground arith)) (ap done (omega arith))

pub strlen_undefined : (a : Text) → has_byte 0 a ≡ false → strlen a ≡ undefined
unfolding strlen
strlen_undefined [] clear = refl
strlen_undefined (zero ∷ a) clear = ground arith
strlen_undefined (suc c ∷ a) clear = rw (strlen_undefined a (ground arith)) refl

-- A write at the start of a blank buffer.
pub write-blank :
    (a : Text) → length a ≤ 1024 → write blank 0 a ≡ done (a ++ replicate (1024 - length a) 0)
unfolding blank
write-blank a le =
    let e : 1024 ≡ length a + (1024 - length a) = omega arith in
    ap (λ n. write (replicate n 0) 0 a) e
    ∙ rw (replicate-add {A = ℕ} (length a) (1024 - length a) 0) (
        write-middle [] (replicate (length a) 0) a (replicate (1024 - length a) 0) 0 refl
          (sym (length-replicate {A = ℕ} (length a) 0)))

pub write_undefined :
    (dst src : Text) (off : ℕ) → length dst < off + length src → write dst off src ≡ undefined
unfolding write
write_undefined dst src off lt =
    let over : leb (off + length src) (length dst) ≡ false = ground arith in rw over refl

pub length-blank : length blank ≡ 1024
unfolding blank
length-blank = length-replicate {A = ℕ} 1024 0
