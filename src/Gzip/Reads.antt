-- ===== src/Gzip/Reads.antt =====
-- `gzdecompress` reads a stream that holds a text to its end, where there is room for the text.
use c_practice.Base.{
  ℕ, zero, suc, ◌+◌, ◌-◌, ◌<◌, ◌≡◌, refl, sym, ap, ◌∙◌, true, ◌&&◌, some, [], ◌∷◌, ◌++◌, arith, ltb,
  inl, inr, length, drop, length-append, length-drop, get_elem?,
}
use c_practice.Base.Buffer.{append_assoc, drop-drop}
use c_practice.Base.Text.{Text}
use c_practice.Gzip.{Zlib, Inflating, z_ok, z_stream_end, done, inflate_loop, in_zdata}
use c_practice.Gzip.Laws.{ZlibLaws}
use c_practice.Gzip.Codec.{ZlibCodec}

module _ {Z : Type 0} (lib : Zlib Z) (laws : ZlibLaws lib) (codec : ZlibCodec lib) where
  get_elem?-drop :
      (zs : Text) (k b : ℕ) (zrest : Text) → drop k zs ≡ b ∷ zrest → get_elem? zs k ≡ some b
  get_elem?-drop [] zero b zrest e = absurd (cc)
  get_elem?-drop [] (suc k) b zrest e = absurd (cc)
  get_elem?-drop (c ∷ zs) zero b zrest e = ap (λ l. get_elem? l 0) e
  get_elem?-drop (c ∷ zs) (suc k) b zrest e = get_elem?-drop zs k b zrest e

  abbrev inflating : ℕ → Text → Z → Inflating Z
  inflating k output z = record { next_in = in_zdata k; total_in = k; output = output; state = z }

  inflate_ok :
      (fuel ndata k b : ℕ) (zdata output : Text) (z : Z)
      → length output < ndata
      → k < length zdata
      → get_elem? zdata k ≡ some b
      → (lib.inflate (b ∷ []) 1 z).code ≡ z_ok
      → inflate_loop lib (suc fuel) zdata ndata (inflating k output z)
        ≡ inflate_loop lib fuel zdata ndata (
            inflating
              (k + (lib.inflate (b ∷ []) 1 z).used)
              (output ++ (lib.inflate (b ∷ []) 1 z).output)
              (lib.inflate (b ∷ []) 1 z).state)
  unfolding inflate_loop
  inflate_ok fuel ndata k b zdata output z room left byte ok =
      let more : (ltb (length output) ndata && ltb k (length zdata)) ≡ true = ground arith in
      rw (more, inflate_loop) (rw byte (rw ok refl))

  inflate_over :
      (fuel ndata k b : ℕ) (zdata output : Text) (z : Z)
      → length output < ndata
      → k < length zdata
      → get_elem? zdata k ≡ some b
      → (lib.inflate (b ∷ []) 1 z).code ≡ z_stream_end
      → lib.inflate_end (lib.inflate (b ∷ []) 1 z).state ≡ true
      → inflate_loop lib (suc fuel) zdata ndata (inflating k output z)
        ≡ done (output ++ (lib.inflate (b ∷ []) 1 z).output)
  unfolding inflate_loop
  inflate_over fuel ndata k b zdata output z room left byte over ends =
      let more : (ltb (length output) ndata && ltb k (length zdata)) ≡ true = ground arith in
      rw (more, inflate_loop) (rw byte (rw over (rw ends refl)))

  pub inflate-text :
      (fuel ndata k : ℕ) (zdata zrest text output rest : Text) (z : Z)
      → codec.Reading z zrest rest
      → drop k zdata ≡ zrest
      → output ++ rest ≡ text
      → length text < ndata
      → (ndata - length output) + (length zdata - k) < fuel
      → inflate_loop lib fuel zdata ndata (inflating k output z) ≡ done text
  inflate-text zero ndata k zdata zrest text output rest z reads at whole room lt =
      absurd (omega arith)
  inflate-text (suc fuel) ndata k zdata [] text output rest z reads at whole room lt =
      absurd (codec.inflate_more z rest reads)
  inflate-text (suc fuel) ndata k zdata (b ∷ zrest) text output rest z reads at whole room lt =
      let byte = get_elem?-drop zdata k b zrest at in
      let left = ap length at in
      let shrunk = length-drop k zdata in
      let sizes = ap length whole in
      let split = length-append output rest in
      let r = lib.inflate (b ∷ []) 1 z in
      let inside : k < length zdata = omega arith in
      let below : length output < ndata = omega arith in
      elim (codec.inflate_reads z b zrest rest reads) [
        | inl (ok, rest', parts, reads') ↦
            let grown = length-append output r.output in
            let progress = laws.inflate_progress (b ∷ []) 1 z ok in
            let whole' : (output ++ r.output) ++ rest' ≡ text =
              append_assoc output r.output rest' ∙ ap (λ t. output ++ t) (sym parts) ∙ whole in
            let at' : drop (k + r.used) zdata ≡ drop r.used (b ∷ zrest) =
              sym (drop-drop zdata k r.used) ∙ ap (drop r.used) at in
            inflate_ok fuel ndata k b zdata output z below inside byte ok
            ∙ inflate-text fuel ndata (k + r.used) zdata (drop r.used (b ∷ zrest)) text
                (output ++ r.output) rest' r.state reads' at' whole' room (omega arith)
        | inr (over, last, ends) ↦
            inflate_over fuel ndata k b zdata output z below inside byte over ends
            ∙ ap done (ap (λ t. output ++ t) (sym last) ∙ whole)
      ]
