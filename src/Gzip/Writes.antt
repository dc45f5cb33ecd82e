-- ===== src/Gzip/Writes.antt =====
-- `gzcompress` writes a stream that holds the text, where there is room for it.
use c_practice.Base.{
  ℕ, zero, suc, ◌+◌, ◌-◌, ◌≤◌, ◌<◌, ◌≡◌, refl, sym, ap, ◌∙◌, true, false, not, ◌&&◌, [], ◌∷◌, ◌++◌,
  arith, ltb, ◌==◌, inl, inr, length, take, drop, length-append, append_nil, take-append-drop,
}
use c_practice.Base.Buffer.{append_assoc, drop-nil}
use c_practice.Base.Text.{Text}
use c_practice.Gzip.{
  Zlib, Outcome, Deflating, z_ok, z_stream_end, done, after_deflate, finish_loop, after_feed,
  feed_loop,
}
use c_practice.Gzip.Laws.{ZlibLaws}
use c_practice.Gzip.Codec.{ZlibCodec}
use c_practice.Gzip.Compress.{measure, step-measure}

module _ {Z : Type 0} (lib : Zlib Z) (laws : ZlibLaws lib) (codec : ZlibCodec lib) where
  -- A stream that holds the text.
  abbrev pub Holds : Text → Outcome → Type 0
  Holds text o = (zdata : Text) × (o ≡ done zdata) × codec.Packed text zdata

  abbrev pub deflating : (input output : Text) → ℕ → Z → Deflating Z
  deflating input output room z = record {
    input = input;
    output = output;
    avail_out = room;
    state = z;
  }

  finish_ok :
      (fuel room : ℕ) (output : Text) (z : Z)
      → (lib.deflate true [] room z).code ≡ z_ok
      → finish_loop lib (suc fuel) (deflating [] output room z)
        ≡ finish_loop lib fuel (
            deflating []
              (output ++ (lib.deflate true [] room z).output)
              (room - length (lib.deflate true [] room z).output)
              (lib.deflate true [] room z).state)
  unfolding finish_loop
  finish_ok fuel room output z ok =
      let r = lib.deflate true [] room z in
      rw (ok, finish_loop)
        (ap
          (λ i.
            finish_loop lib fuel
              (deflating i (output ++ r.output) (room - length r.output) r.state))
          (drop-nil r.used))

  finish_over :
      (fuel room : ℕ) (output : Text) (z : Z)
      → (lib.deflate true [] room z).code ≡ z_stream_end
      → lib.deflate_end (lib.deflate true [] room z).state ≡ true
      → finish_loop lib (suc fuel) (deflating [] output room z)
        ≡ done (output ++ (lib.deflate true [] room z).output)
  unfolding finish_loop
  finish_over fuel room output z over ends = rw (over, finish_loop) (rw ends refl)

  finish-Holds :
      (nzdata fuel : ℕ) (text output : Text) (room : ℕ) (z : Z)
      → codec.Writing z text output
      → codec.bound (length text) ≤ nzdata
      → length output + room ≡ nzdata
      → room < fuel
      → Holds text (finish_loop lib fuel (deflating [] output room z))
  finish-Holds nzdata zero text output room z w fits total lt = absurd (omega arith)
  finish-Holds nzdata (suc fuel) text output room z w fits total lt =
      let below = codec.deflate_bound (length text) z text output w (omega arith) in
      let r = lib.deflate true [] room z in
      let room_left = laws.deflate_room true [] room z in
      let taken = laws.deflate_used true [] room z in
      let grown = length-append output r.output in
      elim (codec.deflate_finishes z text output room w (omega arith)) [
        | inl (ok, w') ↦
            let progress = laws.deflate_progress true [] room z ok in
            let (zdata, e, packed) =
              finish-Holds nzdata fuel text (output ++ r.output) (room - length r.output) r.state w'
                fits (omega arith) (omega arith) in
            (zdata, finish_ok fuel room output z ok ∙ e, packed)
        | inr (over, packed, ends) ↦
            (output ++ r.output, finish_over fuel room output z over ends, packed)
      ]

  feed_ok :
      (fuel nzdata room b : ℕ) (input output : Text) (z : Z)
      → length output < nzdata
      → (lib.deflate false (b ∷ input) room z).code ≡ z_ok
      → feed_loop lib (suc fuel) nzdata (deflating (b ∷ input) output room z)
        ≡ feed_loop lib fuel nzdata (
            after_deflate lib
              (lib.deflate false (b ∷ input) room z)
              (deflating (b ∷ input) output room z))
  unfolding feed_loop
  feed_ok fuel nzdata room b input output z lt ok =
      let more : (not (length (b ∷ input) == 0) && ltb (length output) nzdata) ≡ true =
        ground arith in
      rw (more, feed_loop) (rw ok refl)

  pub feed-Holds :
      (nzdata fuel : ℕ) (text fed input output : Text) (room : ℕ) (z : Z)
      → codec.Writing z fed output
      → fed ++ input ≡ text
      → codec.bound (length text) ≤ nzdata
      → length output + room ≡ nzdata
      → length input + room < fuel
      → Holds text (feed_loop lib fuel nzdata (deflating input output room z))
  unfolding feed_loop after_feed measure
  feed-Holds nzdata zero text fed input output room z w whole fits total lt = absurd (omega arith)
  feed-Holds nzdata (suc fuel) text fed [] output room z w whole fits total lt =
      let all_fed : fed ≡ text = sym (append_nil fed) ∙ whole in
      finish-Holds nzdata (suc fuel) text output room z (rw all_fed at w) fits total (omega arith)
  feed-Holds nzdata (suc fuel) text fed (b ∷ input) output room z w whole fits total lt =
      let sizes = ap length whole in
      let split = length-append fed (b ∷ input) in
      let below = codec.deflate_bound (length text) z fed output w (omega arith) in
      let r = lib.deflate false (b ∷ input) room z in
      let s = deflating (b ∷ input) output room z in
      let room_left = laws.deflate_room false (b ∷ input) room z in
      let grown = length-append output r.output in
      let (ok, w') =
        codec.deflate_feeds z fed output (b ∷ input) room w (omega arith) (omega arith) in
      let smaller = step-measure lib laws false s ok in
      let whole' : (fed ++ take r.used (b ∷ input)) ++ drop r.used (b ∷ input) ≡ text =
        append_assoc fed (take r.used (b ∷ input)) (drop r.used (b ∷ input))
        ∙ ap (λ t. fed ++ t) (take-append-drop r.used (b ∷ input))
        ∙ whole in
      let (zdata, e, packed) =
        feed-Holds nzdata fuel text (fed ++ take r.used (b ∷ input)) (drop r.used (b ∷ input))
          (output ++ r.output) (room - length r.output) r.state w' whole' fits (omega arith)
          (omega arith) in
      (zdata, feed_ok fuel nzdata room b input output z (omega arith) ok ∙ e, packed)
