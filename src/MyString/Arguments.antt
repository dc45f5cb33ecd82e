-- ===== src/MyString/Arguments.antt =====
-- What the argument of a call stands for.
use c_practice.Base.{
  ℕ, zero, suc, ◌≡◌, refl, ap, ◌⊎◌, false, Option, none, some, [], ◌∷◌, ◌++◌, arith, inl, inr,
}
use c_practice.Base.Text.{Text, has_byte, c_string}
use c_practice.MyString.Values.{value_of, length_value}
use c_practice.MyString.Reads.{Reads, strlen-Reads}
use c_practice.MyString.{
  Pointer, null, array, block, Heap, length_of, Argument, null_pointer, text, c_string_of, done,
  Program, pointer_of,
}
use c_practice.MyString.Owned.{Contents, Stored, Represents}

-- A pointer and the value that it is to stand for.
abbrev pub Fits : Heap → Option Pointer → Option (Option Text) → Type 0
Fits h none none = Unit
Fits h (some q) (some v) = Reads h q v
Fits h _ _ = ⊥

pub Stored-Fits :
    (h : Heap) (o : Option Pointer) (v : Option (Option Text)) → Stored h o v → Fits h o v
Stored-Fits h none none st = tt
Stored-Fits h (some null) (some none) st = refl
Stored-Fits h (some (block a)) (some (some t)) (clear, at) = ((λ e. cc), clear, [], at)
Stored-Fits h none (some v) st = absurd st
Stored-Fits h (some null) none st = absurd st
Stored-Fits h (some null) (some (some t)) st = absurd st
Stored-Fits h (some (array u)) v st = absurd st
Stored-Fits h (some (block a)) none st = absurd st
Stored-Fits h (some (block a)) (some none) st = absurd st

c_string-cut :
    (t : Text)
    → (has_byte 0 (c_string t) ≡ false) × (r : Text) × (t ++ (0 ∷ []) ≡ c_string t ++ (0 ∷ r))
unfolding c_string
c_string-cut [] = (refl, [], refl)
c_string-cut (zero ∷ t) = (refl, t ++ (0 ∷ []), refl)
c_string-cut (suc c ∷ t) =
    let (clear, r, e) = c_string-cut t in (ground arith, r, ap (◌∷◌ (suc c)) e)

pub argument-Fits :
    (a : Argument) (p : Program) (s : Contents)
    → Represents p s
    → Fits p.heap (pointer_of a p) (value_of a s)
unfolding pointer_of
argument-Fits null_pointer p s rep = refl
argument-Fits (text t) p s rep =
    let (clear, r, e) = c_string-cut t in ((λ q. cc), clear, r, ap some e)
argument-Fits (c_string_of j) p s rep = Stored-Fits p.heap (p.strings j) (s j) (rep.stored j)

-- An object exists exactly if the contents say so.
exists-or :
    (h : Heap) (o : Option Pointer) (v : Option (Option Text))
    → Fits h o v
    → ((o ≡ none) × (v ≡ none))
      ⊎ ((q : Pointer) × (w : Option Text) × (o ≡ some q) × (v ≡ some w) × Reads h q w)
exists-or h none none fits = inl (refl, refl)
exists-or h none (some w) fits = absurd fits
exists-or h (some q) none fits = absurd fits
exists-or h (some q) (some w) fits = inr (q, w, refl, refl, fits)

pub length_of-Reads :
    (h : Heap) (q : Pointer) (v : Option Text)
    → Reads h q v
    → length_of q h ≡ done (length_value v) h
unfolding length_of
length_of-Reads h q none reads = rw reads refl
length_of-Reads h null (some t) reads = absurd (reads.0 refl)
length_of-Reads h (array u) (some t) reads = strlen-Reads h (array u) t reads
length_of-Reads h (block a) (some t) reads = strlen-Reads h (block a) t reads

pub there :
    (i : ℕ) (p : Program) (s : Contents)
    → Represents p s
    → ((p.strings i ≡ none) × (s i ≡ none))
      ⊎ ((q : Pointer) × (w : Option Text) × (p.strings i ≡ some q)
          × (s i ≡ some w)
          × Reads p.heap q w)
there i p s rep =
    exists-or p.heap (p.strings i) (s i) (Stored-Fits p.heap (p.strings i) (s i) (rep.stored i))
