-- ===== src/MyString/Reads.antt =====
-- Reading and copying a C string.
use c_practice.Base.{
  suc, ◌+◌, ◌≡◌, ◌≢◌, refl, ap, true, false, Option, none, some, [], ◌∷◌, ◌++◌, arith, length, take,
  update,
}
use c_practice.Base.Text.{Text, has_byte}
use c_practice.Base.Zero.{find_zero-first}
use c_practice.MyString.{
  Pointer, null, array, block, Heap, done, bad_alloc, bytes_at, strlen, ◌>>=◌, new_copy,
  clone_c_string,
}

-- A pointer through which a C string, or none, can be read.
abbrev pub Reads : Heap → Pointer → Option Text → Type 0
Reads h q none = q ≡ null
Reads h q (some t) =
    (q ≢ null) × (has_byte 0 t ≡ false) × (r : Text) × (bytes_at q h ≡ some (t ++ (0 ∷ r)))

take-first : (t r : Text) → take (length t + 1) (t ++ (0 ∷ r)) ≡ t ++ (0 ∷ [])
take-first [] r = refl
take-first (c ∷ t) r =
    let e : suc (length t) + 1 ≡ suc (length t + 1) = omega arith in
    rw e (ap (◌∷◌ c) (take-first t r))

abbrev pub allocated : Heap → Text → Heap
allocated h t = record { cell = update h.cell h.limit (some (t ++ (0 ∷ []))); limit = suc h.limit }

pub strlen-Reads :
    (h : Heap) (q : Pointer) (t : Text) → Reads h q (some t) → strlen q h ≡ done (length t) h
unfolding strlen
strlen-Reads h q t (some_q, clear, r, e) = rw e (rw (find_zero-first t r clear) refl)

copied :
    (h : Heap) (q : Pointer) (t : Text)
    → Reads h q (some t)
    → ((strlen q >>= λ len. new_copy true q (len + 1)) h ≡ done (block h.limit) (allocated h t))
      × ((strlen q >>= λ len. new_copy false q (len + 1)) h ≡ bad_alloc h)
unfolding new_copy
copied h q t reads =
    let m = strlen-Reads h q t reads in
    let (some_q, clear, r, e) = reads in
    (rw m (rw (e, new_copy) (rw (take-first t r) refl)), rw m refl)

pub clone_c_string-Reads :
    (h : Heap) (q : Pointer) (t : Text)
    → Reads h q (some t)
    → (clone_c_string true q h ≡ done (block h.limit) (allocated h t))
      × (clone_c_string false q h ≡ bad_alloc h)
unfolding clone_c_string
clone_c_string-Reads h null t (some_q, clear, r, e) = absurd (some_q refl)
clone_c_string-Reads h (array u) t reads = copied h (array u) t reads
clone_c_string-Reads h (block a) t reads = copied h (block a) t reads
