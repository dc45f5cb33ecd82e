-- ===== src/Gzip.antt =====
-- zlib/gzip/main.cpp: `gzcompress` and `gzdecompress` over zlib's streams.
--
-- zlib is not part of the repository: it is the record `Zlib` over its internal state `Z`, and
-- Gzip.Laws states what is relied on. The fields of a `z_stream` that the code reads and writes
-- are here. The two `while` loops and the `for (;;)` run on fuel.
pub mod Laws
pub mod Compress
pub mod Decompress
pub mod Codec
pub mod Writes
pub mod Reads
pub mod RoundTrip
pub mod Program
mod Tests
use c_practice.Base.{
  ℕ, zero, suc, ◌+◌, ◌-◌, ◌*◌, ◌/◌, ◌%◌, Bool, true, false, not, ◌&&◌, Option, none, some, List, [],
  ◌∷◌, ◌++◌, ltb, ◌==◌, if◌then◌else◌, length, drop, take, get_elem?,
}
use c_practice.Base.Int.{ℤ, pos, negsuc}
use c_practice.Base.Text.{Text}

-- Return codes: `Z_OK`, `Z_STREAM_END`, `Z_DATA_ERROR`, and the rest.
pub data Code : Type 0 where
  z_ok : Code
  z_stream_end : Code
  z_data_error : Code
  z_error : Code

-- What a call of `deflate` or `inflate` returns, how much of the input it takes and what it puts out.
pub record Reply (Z : Type 0) : Type 0 where
  pub code : Code
  pub used : ℕ
  pub output : Text
  pub state : Z

-- Both calls get the input at `next_in` and the room at `next_out`; `deflate` is also told whether to
-- finish. `none` stands for an initialization that fails; the two ends say whether they return `Z_OK`.
pub record Zlib (Z : Type 0) : Type 0 where
  pub deflate_init : Option Z
  pub deflate : (finish : Bool) → (input : Text) → (room : ℕ) → Z → Reply Z
  pub deflate_end : Z → Bool
  pub inflate_init : Option Z
  pub inflate : (input : Text) → (room : ℕ) → Z → Reply Z
  pub inflate_end : Z → Bool

-- `failed` is the return value -1, `left` is `avail_in` as an `int`, `done` is 0 with the output.
pub data Outcome : Type 0 where
  failed : Outcome
  left : ℤ → Outcome
  done : Text → Outcome
  undefined : Outcome
  out_of_fuel : Outcome

-- A `uLong` stored in a `uInt`, and a `uInt` returned as an `int`.
abbrev pub uint : ℕ → ℕ
uint n = n % 4294967296

abbrev pub to_int : ℕ → ℤ
to_int n = if ltb n 2147483648 then pos n else negsuc (4294967295 - n)

-- What is left of the input of `c_stream`, what was put out, and `avail_out`.
pub record Deflating (Z : Type 0) : Type 0 where
  pub input : Text
  pub output : Text
  pub avail_out : ℕ
  pub state : Z

-- `next_in` of `d_stream`: an offset in `zdata`, or in `dummy_head`.
pub data Pointer : Type 0 where
  in_zdata : ℕ → Pointer
  in_dummy_head : ℕ → Pointer

pub record Inflating (Z : Type 0) : Type 0 where
  pub next_in : Pointer
  pub total_in : ℕ
  pub output : Text
  pub state : Z

abbrev pub dummy_head : Text
dummy_head = (0x8 + 0x7 * 0x10) ∷ ((0x8 + 0x7 * 0x10) * 0x100 + 30) / 31 * 31 % 256 ∷ []

module _ {Z : Type 0} (lib : Zlib Z) where
  abbrev pub after_deflate : Reply Z → Deflating Z → Deflating Z
  after_deflate r s = record {
    input = drop r.used s.input;
    output = s.output ++ r.output;
    avail_out = s.avail_out - length r.output;
    state = r.state;
  }

  abbrev pub call_deflate : Bool → Deflating Z → Reply Z
  call_deflate finish s = lib.deflate finish s.input s.avail_out s.state

  -- `for (;;)`, and what follows it
  unfoldable pub finish_loop : ℕ → Deflating Z → Outcome
  finish_loop zero s = out_of_fuel
  finish_loop (suc fuel) s =
      let r = call_deflate true s in
      let s' = after_deflate r s in
      elim r.code [
        | z_stream_end ↦ if lib.deflate_end s'.state then done s'.output else failed
        | z_ok ↦ finish_loop fuel s'
        | z_data_error ↦ failed
        | z_error ↦ failed
      ]

  -- `if (c_stream.avail_in != 0) return c_stream.avail_in;`
  unfoldable pub after_feed : ℕ → Deflating Z → Outcome
  after_feed fuel s = elim (length s.input == 0) [
    | true ↦ finish_loop fuel s
    | false ↦ left (to_int (length s.input))
  ]

  -- The loop that hands the input over. What follows it has as much fuel as is left.
  unfoldable pub feed_loop : ℕ → (nzdata : ℕ) → Deflating Z → Outcome
  feed_loop zero nzdata s = out_of_fuel
  feed_loop (suc fuel) nzdata s = elim (not (length s.input == 0) && ltb (length s.output) nzdata) [
    | false ↦ after_feed (suc fuel) s
    | true ↦ elim (call_deflate false s).code [
      | z_ok ↦ feed_loop fuel nzdata (after_deflate (call_deflate false s) s)
      | z_stream_end ↦ failed
      | z_data_error ↦ failed
      | z_error ↦ failed
    ]
  ]

  -- `ndata`, the length of the buffer, and `*nzdata` are stored in `avail_in` and `avail_out`.
  unfoldable pub gzcompress : ℕ → (buffer : Text) → (nzdata : ℕ) → Outcome
  gzcompress fuel buffer nzdata = if length buffer == 0 then failed else elim lib.deflate_init [
    | none ↦ failed
    | some z ↦ feed_loop fuel nzdata (record {
      input = take (uint (length buffer)) buffer;
      output = [];
      avail_out = uint nzdata;
      state = z;
    })
  ]

  abbrev pub advance : ℕ → Pointer → Pointer
  advance n (in_zdata k) = in_zdata (k + n)
  advance n (in_dummy_head k) = in_dummy_head (k + n)

  -- The byte at `next_in`; `none` is outside.
  abbrev pub byte_at : Text → Pointer → Option ℕ
  byte_at zdata (in_zdata k) = get_elem? zdata k
  byte_at zdata (in_dummy_head k) = get_elem? dummy_head k

  abbrev pub after_inflate : Reply Z → Pointer → Inflating Z → Inflating Z
  after_inflate r from s = record {
    next_in = advance r.used from;
    total_in = s.total_in + r.used;
    output = s.output ++ r.output;
    state = r.state;
  }

  -- `avail_in = avail_out = 1`
  abbrev pub call_inflate : ℕ → Inflating Z → Reply Z
  call_inflate byte s = lib.inflate (byte ∷ []) 1 s.state

  -- On `Z_DATA_ERROR`, a header is offered in place of the input, with the room that is left.
  abbrev pub call_dummy : Reply Z → Reply Z
  call_dummy r = lib.inflate dummy_head (1 - length r.output) r.state

  abbrev pub inflate_done : Inflating Z → Outcome
  inflate_done s = if lib.inflate_end s.state then done s.output else failed

  unfoldable pub inflate_loop : ℕ → (zdata : Text) → (ndata : ℕ) → Inflating Z → Outcome
  inflate_loop zero zdata ndata s = out_of_fuel
  inflate_loop (suc fuel) zdata ndata s =
      elim (ltb (length s.output) ndata && ltb s.total_in (length zdata)) [
        | false ↦ inflate_done s
        | true ↦ elim (byte_at zdata s.next_in) [
          | none ↦ undefined
          | some byte ↦
              let r = call_inflate byte s in
              let s' = after_inflate r s.next_in s in
              elim r.code [
                | z_stream_end ↦ inflate_done s'
                | z_ok ↦ inflate_loop fuel zdata ndata s'
                | z_data_error ↦
                    let r' = call_dummy r in
                    elim r'.code [
                      | z_ok ↦ inflate_loop fuel zdata ndata (after_inflate r' (in_dummy_head 0) s')
                      | z_stream_end ↦ failed
                      | z_data_error ↦ failed
                      | z_error ↦ failed
                    ]
                | z_error ↦ failed
              ]
        ]
      ]

  unfoldable pub gzdecompress : ℕ → (zdata : Text) → (ndata : ℕ) → Outcome
  gzdecompress fuel zdata ndata = elim lib.inflate_init [
    | none ↦ failed
    | some z ↦
        inflate_loop fuel zdata ndata
          (record { next_in = in_zdata 0; total_in = 0; output = []; state = z })
  ]
