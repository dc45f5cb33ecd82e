-- ===== src/Gzip/Decompress.antt =====
-- `gzdecompress` returns, and puts out no more than there is room for.
use c_practice.Base.{
  ℕ, zero, suc, ◌+◌, ◌-◌, ◌≤◌, ◌<◌, ◌&&◌, [], ◌∷◌, arith, ltb, length, length-append, Bool-cases,
  inl, inr, Option-cases,
}
use c_practice.Base.Text.{Text}
use c_practice.Gzip.{
  Zlib, Outcome, Inflating, failed, left, done, undefined, out_of_fuel, dummy_head, byte_at,
  after_inflate, call_inflate, call_dummy, inflate_done, inflate_loop, gzdecompress, in_zdata,
  in_dummy_head,
}
use c_practice.Gzip.Laws.{ZlibLaws, Code-cases}

-- What may come of `gzdecompress` with room for `ndata`.
abbrev pub Decompressed : (ndata : ℕ) → Outcome → Type 0
Decompressed ndata failed = Unit
Decompressed ndata (left n) = ⊥
Decompressed ndata (done out) = length out ≤ ndata
Decompressed ndata undefined = Unit
Decompressed ndata out_of_fuel = ⊥

module _ {Z : Type 0} (lib : Zlib Z) (laws : ZlibLaws lib) where
  closed-Decompressed :
      (ndata : ℕ) (s : Inflating Z)
      → length s.output ≤ ndata
      → Decompressed ndata (inflate_done lib s)
  closed-Decompressed ndata s le = elim (Bool-cases (lib.inflate_end s.state)) [
    | inl ok ↦ rw ok le
    | inr bad ↦ rw bad tt
  ]

  -- What is left to do.
  unfoldable pub to_do : (zdata : Text) (ndata : ℕ) → Inflating Z → ℕ
  to_do zdata ndata s = (ndata - length s.output) + (length zdata - s.total_in)

  inflate-Decompressed :
      (zdata : Text) (ndata fuel : ℕ) (s : Inflating Z)
      → length s.output ≤ ndata
      → to_do zdata ndata s < fuel
      → Decompressed ndata (inflate_loop lib fuel zdata ndata s)
  unfolding inflate_loop to_do
  inflate-Decompressed zdata ndata zero s le lt = absurd (omega arith)
  inflate-Decompressed zdata ndata (suc fuel) s le lt =
      elim (Bool-cases (ltb (length s.output) ndata && ltb s.total_in (length zdata))) [
        | inr stop ↦ rw (stop, inflate_loop) (closed-Decompressed ndata s le)
        | inl more ↦ elim (Option-cases (byte_at lib zdata s.next_in)) [
          | inl outside ↦ rw (more, inflate_loop) (rw outside tt)
          | inr (byte, inside) ↦
              let r = call_inflate lib byte s in
              let s' = after_inflate lib r s.next_in s in
              let room = laws.inflate_room (byte ∷ []) 1 s.state in
              let grown = length-append s.output r.output in
              let below : length s.output < ndata = ground arith in
              let before : s.total_in < length zdata = ground arith in
              rw (more, inflate_loop)
                (rw inside (elim (Code-cases r.code) [
                  | inl ok ↦
                      let progress = laws.inflate_progress (byte ∷ []) 1 s.state ok in
                      rw ok (inflate-Decompressed zdata ndata fuel s' (omega arith) (omega arith))
                  | inr (inl over) ↦ rw over (closed-Decompressed ndata s' (omega arith))
                  | inr (inr (inl bad)) ↦
                      let r' = call_dummy lib r in
                      let s'' = after_inflate lib r' (in_dummy_head 0) s' in
                      let room' = laws.inflate_room dummy_head (1 - length r.output) r.state in
                      let grown' = length-append s'.output r'.output in
                      rw bad (elim (Code-cases r'.code) [
                        | inl ok ↦
                            let progress =
                              laws.inflate_progress dummy_head (1 - length r.output) r.state ok in
                            rw ok (
                              inflate-Decompressed zdata ndata fuel s'' (omega arith) (omega arith))
                        | inr (inl over) ↦ rw over tt
                        | inr (inr (inl worse)) ↦ rw worse tt
                        | inr (inr (inr worse)) ↦ rw worse tt
                      ])
                  | inr (inr (inr bad)) ↦ rw bad tt
                ]))
        ]
      ]

  -- If zlib respects the room for output and says Z_OK only after some progress, then with more
  -- fuel than there are bytes of input and of room gzdecompress comes to an end: it returns -1,
  -- returns output that fits the room, or reads outside of its buffers.
  pub gzdecompress-Decompressed :
      (fuel : ℕ) (zdata : Text) (ndata : ℕ)
      → ndata + length zdata < fuel
      → Decompressed ndata (gzdecompress lib fuel zdata ndata)
  unfolding gzdecompress to_do
  gzdecompress-Decompressed fuel zdata ndata lt = elim (Option-cases lib.inflate_init) [
    | inl fails ↦ rw fails tt
    | inr (z, starts) ↦
        let s : Inflating Z = record {
          next_in = in_zdata 0;
          total_in = 0;
          output = [];
          state = z;
        } in
        rw (starts, gzdecompress)
          (inflate-Decompressed zdata ndata fuel s (omega arith) (omega arith))
  ]
