-- ===== src/Gzip/Compress.antt =====
-- `gzcompress` returns, and puts out no more than there is room for.
use c_practice.Base.{
  ℕ, zero, suc, ◌+◌, ◌≤◌, ◌<◌, ◌≡◌, ap, ◌∙◌, take, Bool, true, false, not, ◌&&◌, [], arith, ltb,
  ◌==◌, if◌then◌else◌, length, length-append, length-drop, Bool-cases, inl, inr, Option-cases,
}
use c_practice.Base.Buffer.{take_all}
use c_practice.Base.Int.{pos, negsuc}
use c_practice.Base.Text.{Text}
use c_practice.Gzip.{
  Zlib, Outcome, Deflating, z_ok, failed, left, done, undefined, out_of_fuel, after_deflate,
  call_deflate, finish_loop, after_feed, feed_loop, gzcompress, uint,
}
use c_practice.Gzip.Laws.{ZlibLaws, Code-cases}

-- What may come of `gzcompress` for `ndata` bytes and room for `nzdata`.
abbrev pub Compressed : (ndata nzdata : ℕ) → Outcome → Type 0
Compressed ndata nzdata failed = Unit
Compressed ndata nzdata (left (pos n)) = (0 < n) × (n ≤ ndata)
Compressed ndata nzdata (left (negsuc n)) = ⊥
Compressed ndata nzdata (done out) = length out ≤ nzdata
Compressed ndata nzdata undefined = ⊥
Compressed ndata nzdata out_of_fuel = ⊥

module _ {Z : Type 0} (lib : Zlib Z) (laws : ZlibLaws lib) where
  -- The output and the room make up what there was.
  record Bounded (ndata nzdata : ℕ) (s : Deflating Z) : Type 0 where
    room : length s.output + s.avail_out ≡ nzdata
    rest : length s.input ≤ ndata
    small : ndata < 2147483648

  step-Bounded :
      (ndata nzdata : ℕ) (finish : Bool) (s : Deflating Z)
      → Bounded ndata nzdata s
      → Bounded ndata nzdata (after_deflate lib (call_deflate lib finish s) s)
  step-Bounded ndata nzdata finish s b =
      let r = call_deflate lib finish s in
      let fits = laws.deflate_room finish s.input s.avail_out s.state in
      let grown = length-append s.output r.output in
      let shrunk = length-drop r.used s.input in
      let was = b.room in
      let rest = b.rest in record { room = omega arith; rest = omega arith; small = b.small }

  unfoldable pub measure : Deflating Z → ℕ
  measure s = length s.input + s.avail_out

  pub step-measure :
      (finish : Bool) (s : Deflating Z)
      → (call_deflate lib finish s).code ≡ z_ok
      → measure (after_deflate lib (call_deflate lib finish s) s) < measure s
  unfolding measure
  step-measure finish s ok =
      let r = call_deflate lib finish s in
      let fits = laws.deflate_room finish s.input s.avail_out s.state in
      let taken = laws.deflate_used finish s.input s.avail_out s.state in
      let some_progress = laws.deflate_progress finish s.input s.avail_out s.state ok in
      let shrunk = length-drop r.used s.input in omega arith

  closed-Compressed :
      (ndata nzdata : ℕ) (s : Deflating Z)
      → Bounded ndata nzdata s
      → Compressed ndata nzdata (if lib.deflate_end s.state then done s.output else failed)
  closed-Compressed ndata nzdata s b = elim (Bool-cases (lib.deflate_end s.state)) [
    | inl ok ↦ rw ok (let was = b.room in omega arith)
    | inr bad ↦ rw bad tt
  ]

  finish-Compressed :
      (ndata nzdata fuel : ℕ) (s : Deflating Z)
      → Bounded ndata nzdata s
      → measure s < fuel
      → Compressed ndata nzdata (finish_loop lib fuel s)
  unfolding finish_loop
  finish-Compressed ndata nzdata zero s b lt = absurd (omega arith)
  finish-Compressed ndata nzdata (suc fuel) s b lt =
      let s' = after_deflate lib (call_deflate lib true s) s in
      let b' = step-Bounded ndata nzdata true s b in
      elim (Code-cases (call_deflate lib true s).code) [
        | inl ok ↦
            let smaller = step-measure true s ok in
            rw (ok, finish_loop) (finish-Compressed ndata nzdata fuel s' b' (omega arith))
        | inr (inl over) ↦ rw (over, finish_loop) (closed-Compressed ndata nzdata s' b')
        | inr (inr (inl bad)) ↦ rw (bad, finish_loop) tt
        | inr (inr (inr bad)) ↦ rw (bad, finish_loop) tt
      ]

  after-Compressed :
      (ndata nzdata fuel : ℕ) (s : Deflating Z)
      → Bounded ndata nzdata s
      → measure s < fuel
      → Compressed ndata nzdata (after_feed lib fuel s)
  unfolding after_feed
  after-Compressed ndata nzdata fuel s b lt = elim (Bool-cases (length s.input == 0)) [
    | inl none_left ↦ rw (none_left, after_feed) (finish-Compressed ndata nzdata fuel s b lt)
    | inr some_left ↦
        let rest = b.rest in
        let small = b.small in
        let fits : ltb (length s.input) 2147483648 ≡ true = ground arith in
        rw (some_left, after_feed) (rw fits (ground arith, b.rest))
  ]

  feed-Compressed :
      (ndata nzdata fuel : ℕ) (s : Deflating Z)
      → Bounded ndata nzdata s
      → measure s < fuel
      → Compressed ndata nzdata (feed_loop lib fuel nzdata s)
  unfolding feed_loop
  feed-Compressed ndata nzdata zero s b lt = absurd (omega arith)
  feed-Compressed ndata nzdata (suc fuel) s b lt =
      let s' = after_deflate lib (call_deflate lib false s) s in
      let b' = step-Bounded ndata nzdata false s b in
      elim (Bool-cases (not (length s.input == 0) && ltb (length s.output) nzdata)) [
        | inr stop ↦ rw (stop, feed_loop) (after-Compressed ndata nzdata (suc fuel) s b lt)
        | inl more ↦ elim (Code-cases (call_deflate lib false s).code) [
          | inl ok ↦
              let smaller = step-measure false s ok in
              rw (more, feed_loop) (rw ok (feed-Compressed ndata nzdata fuel s' b' (omega arith)))
          | inr (inl bad) ↦ rw (more, feed_loop) (rw bad tt)
          | inr (inr (inl bad)) ↦ rw (more, feed_loop) (rw bad tt)
          | inr (inr (inr bad)) ↦ rw (more, feed_loop) (rw bad tt)
        ]
      ]

  -- If zlib respects its input and the room for output and says Z_OK only after some progress,
  -- then for fewer than 2 ^ 31 bytes, room for fewer than 2 ^ 32 and more fuel than there are
  -- bytes of input and of room gzcompress returns: -1, a positive number of bytes that were left,
  -- no more than there were, or 0 with output that fits the room.
  pub gzcompress-Compressed :
      (fuel : ℕ) (buffer : Text) (nzdata : ℕ)
      → length buffer < 2147483648
      → nzdata < 4294967296
      → length buffer + nzdata < fuel
      → Compressed (length buffer) nzdata (gzcompress lib fuel buffer nzdata)
  unfolding gzcompress measure
  gzcompress-Compressed fuel buffer nzdata small small' lt =
      elim (Bool-cases (length buffer == 0)) [
        | inl empty ↦ rw empty tt
        | inr some_in ↦ elim (Option-cases lib.deflate_init) [
          | inl fails ↦ rw some_in (rw fails tt)
          | inr (z, starts) ↦
              let s : Deflating Z = record {
                input = buffer;
                output = [];
                avail_out = nzdata;
                state = z;
              } in
              let b : Bounded (length buffer) nzdata s = record {
                room = omega arith;
                rest = omega arith;
                small = small;
              } in
              let whole : take (uint (length buffer)) buffer ≡ buffer =
                let same : uint (length buffer) ≡ length buffer = omega arith in
                ap (λ n. take n buffer) same ∙ take_all buffer in
              let room : uint nzdata ≡ nzdata = omega arith in
              rw some_in
                (rw (starts, whole, room) (feed-Compressed (length buffer) nzdata fuel s b lt))
        ]
      ]
