-- ===== src/Epoll/Reads.antt =====
-- The sequence of reads that empties a socket, and what each of the two loops makes of it.
use c_practice.Base.{
  ℕ, zero, suc, ◌+◌, ◌≤◌, ◌<◌, ◌≡◌, refl, sym, ap, ◌∙◌, ◌≢◌, some, List, [], ◌∷◌, ◌++◌, map, arith,
  length, length-append,
}
use c_practice.Base.Int.{ℤ}
use c_practice.Base.Text.{Text, c_string}
use c_practice.Epoll.{System, bytes_read, Message, content, Run, print, buffer_size, et_loop}
use c_practice.Epoll.Laws.{Stream, open_stream, Tail, SocketLaws}

length-positive : (s : Text) → s ≢ [] → 0 < length s
length-positive [] ne = absurd (ne refl)
length-positive (b ∷ s) ne = omega arith

-- What is printed of a piece.
abbrev pub shown : Text → Message
shown p = content (length p) (c_string p)

abbrev pub joined : List Text → Text
joined [] = []
joined (p ∷ ps) = p ++ joined ps

-- Pieces that the buffer can hold.
abbrev pub Sized : List Text → Type 0
Sized [] = Unit
Sized (p ∷ ps) = (0 < length p) × (length p < buffer_size) × Sized ps

abbrev pub print_all : {K : Type 0} → List Message → Run K → Run K
print_all [] r = r
print_all (m ∷ ms) r = print m (print_all ms r)

pub print_all-some :
    {K : Type 0} (ms ns : List Message) (k : K) → print_all ms (some (ns, k)) ≡ some (ms ++ ns, k)
print_all-some [] ns k = refl
print_all-some (m ∷ ms) ns k = ap (print m) (print_all-some ms ns k)

module _ {K : Type 0} (sys : System K) (fd : ℤ) where
  -- From `k`, `recv` gives these pieces one after the other, and leads to `k'`.
  abbrev pub Reads : K → List Text → K → Type 0
  Reads k [] k' = k ≡ k'
  Reads k (p ∷ ps) k' = (l : K) × (sys.recv fd 9 k ≡ (bytes_read p, l)) × Reads l ps k'

  pub et_loop-Reads :
      (fuel : ℕ) (ps : List Text) (k k' : K)
      → Sized ps
      → Reads k ps k'
      → et_loop sys (length ps + fuel) fd k ≡ print_all (map shown ps) (et_loop sys fuel fd k')
  unfolding et_loop
  et_loop-Reads fuel [] k k' sized same =
      let e : 0 + fuel ≡ fuel = omega arith in
      ap (λ n. et_loop sys n fd k) e ∙ ap (et_loop sys fuel fd) same
  et_loop-Reads fuel ([] ∷ ps) k k' sized reads = absurd (omega (arith, sized.0))
  et_loop-Reads fuel ((b ∷ bs) ∷ ps) k k' sized (l, got, reads) =
      let e : suc (length ps) + fuel ≡ suc (length ps + fuel) = omega arith in
      rw e (rw got (ap (print (shown (b ∷ bs))) (et_loop-Reads fuel ps l k' sized.2 reads)))

  module _ {stream : ℤ → K → Stream} (laws : SocketLaws sys stream) where
    -- What is there can be read, in at most as many pieces as there are bytes.
    pub Reads-stream :
        (n : ℕ) (bs : Text) (t : Tail) (k : K)
        → length bs ≤ n
        → stream fd k ≡ open_stream bs t
        → (ps : List Text) × Sized ps
          × (joined ps ≡ bs)
          × (length ps ≤ length bs)
          × (k' : K) × Reads k ps k'
          × (stream fd k' ≡ open_stream [] t)
    Reads-stream n [] t k le e = ([], tt, refl, omega arith, k, refl, e)
    Reads-stream zero (b ∷ bs) t k le e = absurd (omega arith)
    Reads-stream (suc n) (b ∷ bs) t k le e =
        let (taken, rest, ne, size, split, l, got, after) =
          laws.recv_bytes fd 9 k b bs t (omega arith) e in
        let some_taken : 0 < length taken = length-positive taken ne in
        let parts : suc (length bs) ≡ length taken + length rest =
          ap length split ∙ length-append taken rest in
        let (ps, sized, whole, few, k', reads, end) = Reads-stream n rest t l (omega arith) after in
        (
          taken ∷ ps,
          (some_taken, omega arith, sized),
          ap (λ r. taken ++ r) whole ∙ sym split,
          omega arith,
          k',
          (l, got, reads),
          end,
        )
