-- ===== src/Gzip/Tests/Marked.antt =====
-- A zlib that writes each byte one higher, and a 0 at the end.
use Prim.Native.Nat.{min}
use c_practice.Base.{
  ℕ, zero, suc, ◌+◌, ◌≤◌, ◌<◌, ◌≡◌, refl, sym, ap, ◌∙◌, Bool, true, false, ◌&&◌, some, [], ◌∷◌,
  ◌++◌, map, arith, ltb, ◌==◌, if◌then◌else◌, length, take, drop, length-take, length-append,
  length-map, Bool-cases, inl, inr, ◌⊎◌,
}
use c_practice.Base.Text.{Text}
use c_practice.Gzip.{Reply, Zlib, z_ok, z_stream_end, z_error}
use c_practice.Gzip.Laws.{ZlibLaws}
use c_practice.Gzip.Codec.{ZlibCodec}

-- How much is taken, and whether the end fits behind it.
abbrev taken : Text → ℕ → ℕ
taken input room = min room (length input)

abbrev ends : (finish : Bool) → Text → ℕ → Bool
ends finish input room = finish && (taken input room == length input && ltb (taken input room) room)

abbrev higher : Text → Text
higher s = map suc s

abbrev mark : Bool → Text
mark true = 0 ∷ []
mark false = []

abbrev write_higher : (finish : Bool) → Text → ℕ → Bool → Reply Bool
write_higher finish input room z = record {
  code =
      if ends finish input room
      then z_stream_end
      else if taken input room == 0
      then z_error
      else z_ok;
  used = taken input room;
  output = higher (take (taken input room) input) ++ mark (ends finish input room);
  state = z;
}

abbrev read_lower : Text → ℕ → Bool → Reply Bool
read_lower [] room z = record { code = z_error; used = 0; output = []; state = z }
read_lower (zero ∷ input) room z = record { code = z_stream_end; used = 1; output = []; state = z }
read_lower (suc c ∷ input) zero z = record { code = z_error; used = 0; output = []; state = z }
read_lower (suc c ∷ input) (suc room) z = record {
  code = z_ok;
  used = 1;
  output = c ∷ [];
  state = z;
}

abbrev pub marked : Zlib Bool
marked = record {
  deflate_init = some true;
  deflate = write_higher;
  deflate_end = λ z. true;
  inflate_init = some true;
  inflate = read_lower;
  inflate_end = λ z. true;
}

length-write_higher :
    (finish : Bool) (input : Text) (room : ℕ)
    → length (write_higher finish input room true).output
      ≡ taken input room + length (mark (ends finish input room))
length-write_higher finish input room =
    length-append (higher (take (taken input room) input)) (mark (ends finish input room))
    ∙ ap (λ n. n + length (mark (ends finish input room)))
        (length-map (take (taken input room) input) suc
          ∙ length-take (taken input room) input
          ∙ (let e : min (taken input room) (length input) ≡ taken input room = omega arith in e))

write_room :
    (finish : Bool) (input : Text) (room : ℕ)
    → length (write_higher finish input room true).output ≤ room
write_room finish input room =
    let l = length-write_higher finish input room in
    elim (Bool-cases (ends finish input room)) [
      | inl over ↦ let m = ap (λ b. length (mark b)) over in ground arith
      | inr on ↦ let m = ap (λ b. length (mark b)) on in omega arith
    ]

write_progress :
    (finish : Bool) (input : Text) (room : ℕ)
    → (write_higher finish input room true).code ≡ z_ok
    → 0
      < (write_higher finish input room true).used
        + length (write_higher finish input room true).output
write_progress finish input room ok = elim (Bool-cases (taken input room == 0)) [
  | inr some_taken ↦ ground arith
  | inl none_taken ↦ elim (Bool-cases (ends finish input room)) [
    | inl over ↦ let f : z_stream_end ≡ z_ok = rw over at ok in absurd (cc)
    | inr on ↦ let f : z_error ≡ z_ok = rw (on, none_taken) at ok in absurd (cc)
  ]
]

read_room : (input : Text) (room : ℕ) (z : Bool) → length (read_lower input room z).output ≤ room
read_room [] room z = omega arith
read_room (zero ∷ input) room z = omega arith
read_room (suc c ∷ input) zero z = omega arith
read_room (suc c ∷ input) (suc room) z = omega arith

read_progress :
    (input : Text) (room : ℕ) (z : Bool)
    → (read_lower input room z).code ≡ z_ok
    → 0 < (read_lower input room z).used + length (read_lower input room z).output
read_progress [] room z ok = absurd (cc)
read_progress (zero ∷ input) room z ok = absurd (cc)
read_progress (suc c ∷ input) zero z ok = absurd (cc)
read_progress (suc c ∷ input) (suc room) z ok = omega arith

pub marked-ZlibLaws : ZlibLaws marked
marked-ZlibLaws = record {
  deflate_used = λ finish input room z. omega arith;
  deflate_room = λ finish input room z. write_room finish input room;
  deflate_progress = λ finish input room z. write_progress finish input room;
  inflate_room = read_room;
  inflate_progress = read_progress;
}

higher-append : (s t : Text) → higher s ++ higher t ≡ higher (s ++ t)
higher-append [] t = refl
higher-append (c ∷ s) t = ap (◌∷◌ (suc c)) (higher-append s t)

append-mark_false : (s : Text) → s ++ [] ≡ s
append-mark_false [] = refl
append-mark_false (c ∷ s) = ap (◌∷◌ c) (append-mark_false s)

abbrev head_of : Text → ℕ
head_of [] = 0
head_of (c ∷ s) = c

abbrev tail_of : Text → Text
tail_of [] = []
tail_of (c ∷ s) = s

abbrev one_less : ℕ → ℕ
one_less zero = 0
one_less (suc n) = n

take_nil : (n : ℕ) → take {A = ℕ} n [] ≡ []
take_nil zero = refl
take_nil (suc n) = refl

not_over : (rest : Text) → [] ≡ higher rest ++ (0 ∷ []) → ⊥
not_over [] e = absurd (cc)
not_over (c ∷ rest) e = absurd (cc)

marked_feeds :
    (fed emitted input : Text) (room : ℕ) (z : Bool)
    → emitted ≡ higher fed
    → 0 < length input
    → 0 < room
    → ((write_higher false input room z).code ≡ z_ok)
      × (emitted ++ (write_higher false input room z).output
          ≡ higher (fed ++ take (taken input room) input))
marked_feeds fed emitted input room z w some_in some_room =
    let goes : (taken input room == 0) ≡ false = ground arith in
    (
      rw goes refl,
      ap (λ t. emitted ++ t) (append-mark_false (higher (take (taken input room) input)))
          ∙ ap (λ t. t ++ higher (take (taken input room) input)) w
          ∙ higher-append fed (take (taken input room) input),
    )

marked_finishes :
    (fed emitted : Text) (room : ℕ) (z : Bool)
    → emitted ≡ higher fed
    → 0 < room
    → ((write_higher true [] room z).code ≡ z_stream_end)
      × (emitted ++ (write_higher true [] room z).output ≡ higher fed ++ (0 ∷ []))
      × (true ≡ true)
marked_finishes fed emitted room z w some_room =
    let over : ends true [] room ≡ true = ground arith in
    (
      rw over refl,
      ap (λ t. emitted ++ (higher t ++ mark (ends true [] room))) (take_nil (taken [] room))
          ∙ ap (λ b. emitted ++ mark b) over
          ∙ ap (λ t. t ++ (0 ∷ [])) w,
      refl,
    )

marked_reads :
    (z : Bool) (b : ℕ) (zrest rest : Text)
    → b ∷ zrest ≡ higher rest ++ (0 ∷ [])
    → (((read_lower (b ∷ []) 1 z).code ≡ z_ok)
        × (rest' : Text) × (rest ≡ (read_lower (b ∷ []) 1 z).output ++ rest')
        × (drop (read_lower (b ∷ []) 1 z).used (b ∷ zrest) ≡ higher rest' ++ (0 ∷ [])))
      ⊎ (((read_lower (b ∷ []) 1 z).code ≡ z_stream_end)
          × (rest ≡ (read_lower (b ∷ []) 1 z).output)
          × (true ≡ true))
marked_reads z zero zrest [] e = inr (refl, refl, refl)
marked_reads z zero zrest (c ∷ rest) e = absurd (let f : zero ≡ suc c = ap head_of e in omega arith)
marked_reads z (suc b) zrest [] e = absurd (let f : suc b ≡ zero = ap head_of e in omega arith)
marked_reads z (suc b) zrest (c ∷ rest) e =
    inl (refl, rest, ap (λ l. one_less (head_of l) ∷ rest) (sym e), ap tail_of e)

pub marked-ZlibCodec : ZlibCodec marked
marked-ZlibCodec = record {
  Packed = λ text zdata. zdata ≡ higher text ++ (0 ∷ []);
  Writing = λ z fed emitted. emitted ≡ higher fed;
  Reading = λ z zrest rest. zrest ≡ higher rest ++ (0 ∷ []);
  bound = suc;
  deflate_starts = (true, refl, refl);
  deflate_bound =
      λ n z fed emitted w le. let l = ap length w in let m = length-map fed suc in omega arith;
  deflate_feeds = λ z fed emitted input room w some_in some_room.
      marked_feeds fed emitted input room z w some_in some_room;
  deflate_finishes =
      λ z fed emitted room w some_room. inr (marked_finishes fed emitted room z w some_room);
  inflate_starts = (true, refl, λ text zdata packed. packed);
  inflate_more = λ z rest e. not_over rest e;
  inflate_reads = marked_reads;
}

pub marked_bound : marked-ZlibCodec.bound 3 ≤ 10
unfolding marked-ZlibCodec
marked_bound = omega arith
