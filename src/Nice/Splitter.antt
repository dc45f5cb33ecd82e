-- ===== src/Nice/Splitter.antt =====
-- A splitter with the behaviour that `GlibLaws` asks of GLib: the laws can be met.
use c_practice.Base.{
  ℕ, ◌+◌, ◌-◌, ◌≤◌, ◌<◌, ◌≡◌, refl, ap, ◌∙◌, ◌≢◌, false, List, [], ◌∷◌, ◌++◌, arith, ltb,
  if◌then◌else◌, Bool-cases, inl, inr, length, length-append,
}
use c_practice.Base.Text.{Text, has_byte, Free}
use c_practice.Nice.{Glib}
use c_practice.Nice.Laws.{GlibLaws, joined, pieces, Delimited}

abbrev prepend : ℕ → List Text → List Text
prepend c [] = (c ∷ []) ∷ []
prepend c (p ∷ ps) = (c ∷ p) ∷ ps

-- At most `k` pieces.
unfoldable pub cut : List ℕ → ℕ → Text → List Text
cut ds k [] = [] ∷ []
cut ds k (c ∷ s) =
    if has_byte c ds
    then (if ltb 1 k then [] ∷ cut ds (k - 1) s else (c ∷ s) ∷ [])
    else prepend c (cut ds k s)

unfoldable pub split : List ℕ → ℕ → Text → List Text
split ds k [] = []
split ds k (c ∷ s) = cut ds k (c ∷ s)

abbrev pub splitter : Glib
splitter = record {
  strsplit = λ s d max. split (d ∷ []) max s;
  strsplit_set = λ s ds. split ds (length s + 2) s;
}

not-delimiter : (ds : List ℕ) (c : ℕ) (s : Text) → Free ds (c ∷ s) → has_byte c ds ≡ false
not-delimiter [] c s f = refl
not-delimiter (d ∷ ds) c s f = ground (arith, not-delimiter ds c s f.1)

Free-tail : (ds : List ℕ) (c : ℕ) (s : Text) → Free ds (c ∷ s) → Free ds s
Free-tail [] c s f = tt
Free-tail (d ∷ ds) c s f = (ground arith, Free-tail ds c s f.1)

cut-last : (ds : List ℕ) (k : ℕ) (s : Text) → Free ds s → cut ds k s ≡ s ∷ []
unfolding cut
cut-last ds k [] f = refl
cut-last ds k (c ∷ s) f =
    rw (not-delimiter ds c s f) (rw (cut-last ds k s (Free-tail ds c s f)) refl)

cut-piece :
    (ds : List ℕ) (k d : ℕ) (s rest : Text)
    → Free ds s
    → has_byte d ds ≢ false
    → 1 < k
    → cut ds k (s ++ (d ∷ rest)) ≡ s ∷ cut ds (k - 1) rest
unfolding cut
cut-piece ds k d [] rest f here room = elim (Bool-cases (has_byte d ds)) [
  | inl e ↦ rw e (ground arith)
  | inr e ↦ absurd (here e)
]
cut-piece ds k d (c ∷ s) rest f here room =
    rw (not-delimiter ds c s f) (rw (cut-piece ds k d s rest (Free-tail ds c s f) here room) refl)

cut-joined :
    (ds : List ℕ) (k : ℕ) (parts : List (Text × ℕ)) (last : Text)
    → length parts < k
    → Delimited ds parts
    → Free ds last
    → cut ds k (joined parts last) ≡ pieces parts last
cut-joined ds k [] last room del free = cut-last ds k last free
cut-joined ds k ((s, d) ∷ parts) last room del free =
    cut-piece ds k d s (joined parts last) del.0 del.1 (omega arith)
    ∙ ap (◌∷◌ s) (cut-joined ds (k - 1) parts last (omega arith) del.2 free)

length-parts-le :
    (parts : List (Text × ℕ)) (last : Text) → length parts ≤ length (joined parts last)
length-parts-le [] last = omega arith
length-parts-le ((s, d) ∷ parts) last =
    omega (arith, length-parts-le parts last, length-append s (d ∷ joined parts last))

split-joined :
    (ds : List ℕ) (k : ℕ) (parts : List (Text × ℕ)) (last : Text)
    → parts ≢ []
    → length parts < k
    → Delimited ds parts
    → Free ds last
    → split ds k (joined parts last) ≡ pieces parts last
unfolding split
split-joined ds k [] last some_part room del free = absurd (some_part refl)
split-joined ds k (([], d) ∷ parts) last some_part room del free =
    cut-joined ds k (([], d) ∷ parts) last room del free
split-joined ds k ((c ∷ s, d) ∷ parts) last some_part room del free =
    cut-joined ds k ((c ∷ s, d) ∷ parts) last room del free

pub splitter-GlibLaws : GlibLaws splitter
splitter-GlibLaws = record {
  strsplit_joined = λ d max parts last some_part room del free.
      split-joined (d ∷ []) max parts last some_part room del free;
  strsplit_set_joined = λ ds parts last some_part del free.
      split-joined ds (length (joined parts last) + 2) parts last some_part
        (omega (arith, length-parts-le parts last)) del free;
}
