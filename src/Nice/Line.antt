-- ===== src/Nice/Line.antt =====
-- The line of candidates: printed, cut into words, and read.
use mathlib.Core.List.{reverse_aux}
use c_practice.Base.{
  ℕ, ◌≡◌, refl, ap, ◌∙◌, ◌≢◌, false, none, some, List, [], ◌∷◌, ◌++◌, map, arith, not,
  if◌then◌else◌,
}
use c_practice.Base.Int.{pos, ltb_ℤ}
use c_practice.Base.Text.{Text, has_byte, Free, decimal}
use c_practice.Nice.{
  Glib, Addresses, Candidate, Agent, done, ◌>>=◌, comma, blanks, read_args, hand_over, check_args,
  settle, parse_remote_data, credentials, candidates, print_candidates, print_with,
  print_local_data, parse_candidate,
}
use c_practice.Nice.Laws.{GlibLaws, joined, pieces, Delimited, Exchanges, received}
use c_practice.Nice.RoundTrip.{
  candidate_text, print_candidate-joined, parse_candidate-print, decimal-Free, name-Free,
}

-- A text without blanks that is not empty.
abbrev pub Word : Text → Type 0
Word s = (s ≢ []) × Free blanks s

abbrev pub AllWords : List Text → Type 0
AllWords [] = Unit
AllWords (t ∷ ts) = Word t × AllWords ts

-- The words of a line, each with the blank behind it.
abbrev line_parts : Text → List Text → List (Text × ℕ)
line_parts w [] = (w, 10) ∷ []
line_parts w (t ∷ ts) = (w, b' ') ∷ line_parts t ts

abbrev tail_text : List Text → Text
tail_text [] = 10 ∷ []
tail_text (t ∷ ts) = b' ' ∷ (t ++ tail_text ts)

tail_text-joined : (w : Text) (ts : List Text) → w ++ tail_text ts ≡ joined (line_parts w ts) []
tail_text-joined w [] = refl
tail_text-joined w (t ∷ ts) = ap (λ r. w ++ (b' ' ∷ r)) (tail_text-joined t ts)

line_parts-Delimited :
    (w : Text) (ts : List Text) → Word w → AllWords ts → Delimited blanks (line_parts w ts)
line_parts-Delimited w [] h all = (h.1, (λ e. cc), tt)
line_parts-Delimited w (t ∷ ts) h all = (h.1, (λ e. cc), line_parts-Delimited t ts all.0 all.1)

pieces-line : (w : Text) (ts : List Text) → pieces (line_parts w ts) [] ≡ w ∷ (ts ++ [] ∷ [])
pieces-line w [] = refl
pieces-line w (t ∷ ts) = ap (◌∷◌ w) (pieces-line t ts)

line_parts-ne : (w : Text) (ts : List Text) → line_parts w ts ≢ []
line_parts-ne w [] e = cc
line_parts-ne w (t ∷ ts) e = cc

has_byte-append :
    (b : ℕ) (s t : Text) → has_byte b s ≡ false → has_byte b t ≡ false → has_byte b (s ++ t) ≡ false
has_byte-append b [] t hs ht = ht
has_byte-append b (c ∷ s) t hs ht = ground (arith, has_byte-append b s t)

Free-append : (ds : List ℕ) (s t : Text) → Free ds s → Free ds t → Free ds (s ++ t)
Free-append [] s t hs ht = tt
Free-append (d ∷ ds) s t hs ht = (has_byte-append d s t hs.0 ht.0, Free-append ds s t hs.1 ht.1)

append-ne : (s : Text) (b : ℕ) (t : Text) → s ++ (b ∷ t) ≢ []
append-ne [] b t e = cc
append-ne (c ∷ s) b t e = cc

module _ {Address : Type 0} (g : Glib) (laws : GlibLaws g) (lib : Addresses Address) where
  abbrev pub AllExchange : List (Candidate Address) → Type 0
  AllExchange [] = Unit
  AllExchange (c ∷ cs) = Exchanges lib c × AllExchange cs

  abbrev pub texts : (cs : List (Candidate Address)) → AllExchange cs → List Text
  texts [] all = []
  texts (c ∷ cs) all = candidate_text g laws lib c all.0 ∷ texts cs all.1

  pub candidate_text-Word :
      (c : Candidate Address) (x : Exchanges lib c) → Word (candidate_text g laws lib c x)
  candidate_text-Word c x = (
    append-ne c.foundation comma _,
    Free-append blanks c.foundation _ x.foundation.1 (
        Free-append blanks (decimal c.priority) _ (decimal-Free c.priority).1 (
          Free-append blanks (lib.to_string c.addr) _ x.ip.1 (
            Free-append blanks (decimal (lib.get_port c.addr)) _
              (decimal-Free (lib.get_port c.addr)).1 (name-Free c.kind x.name x.known).1))),
  )

  texts-AllWords : (cs : List (Candidate Address)) (all : AllExchange cs) → AllWords (texts cs all)
  texts-AllWords [] all = tt
  texts-AllWords (c ∷ cs) all = (candidate_text-Word c all.0, texts-AllWords cs all.1)

  print_candidates-tail :
      (cs : List (Candidate Address)) (all : AllExchange cs)
      → print_candidates lib cs ≡ done (tail_text (texts cs all))
  unfolding print_candidates
  print_candidates-tail [] all = refl
  print_candidates-tail (c ∷ cs) all =
      rw (print_candidate-joined g laws lib c all.0) (rw (print_candidates-tail cs all.1) refl)

  pub read_args-candidate :
      (w : Text) (args : List Text) (stream : ℕ) (u p : Text) (cands : List (Candidate Address))
      → w ≢ []
      → read_args g lib (w ∷ args) stream (some u) (some p) cands ≡ (
          parse_candidate g lib w stream >>= λ cand.
          read_args g lib args stream (some u) (some p) (cand ∷ cands))
  unfolding read_args
  read_args-candidate [] args stream u p cands ne = absurd (ne refl)
  read_args-candidate (c ∷ w) args stream u p cands ne = refl

  pub read_args-two :
      (u p : Text) (args : List Text) (stream : ℕ)
      → u ≢ []
      → p ≢ []
      → read_args g lib (u ∷ p ∷ args) stream none none []
        ≡ read_args g lib args stream (some u) (some p) []
  unfolding read_args
  read_args-two [] p args stream hu hp = absurd (hu refl)
  read_args-two (c ∷ u) [] args stream hu hp = absurd (hp refl)
  read_args-two (c ∷ u) (d ∷ p) args stream hu hp = refl

  read_args-texts :
      (cs : List (Candidate Address)) (all : AllExchange cs) (stream : ℕ) (u p : Text)
      (acc : List (Candidate Address))
      → read_args g lib (texts cs all ++ [] ∷ []) stream (some u) (some p) acc
        ≡ done (some u, some p, reverse_aux (map (received stream) cs) acc)
  unfolding read_args
  read_args-texts [] all stream u p acc = refl
  read_args-texts (c ∷ cs) all stream u p acc =
      read_args-candidate (candidate_text g laws lib c all.0) (texts cs all.1 ++ [] ∷ []) stream u p
        acc (candidate_text-Word c all.0).0
      ∙ rw (parse_candidate-print g laws lib c all.0 stream)
          (read_args-texts cs all.1 stream u p (received stream c ∷ acc))

  check_args-reverse :
      (a : Agent Address) (cs acc : List (Candidate Address)) (u p : Text) (c : Candidate Address)
      → check_args a (some u, some p, reverse_aux cs (c ∷ acc))
        ≡ hand_over a u p (reverse_aux cs (c ∷ acc))
  unfolding check_args
  check_args-reverse a [] acc u p c = refl
  check_args-reverse a (d ∷ cs) acc u p c = check_args-reverse a cs (c ∷ acc) u p d

  -- The line that print_local_data writes for a client with credentials, words each, and at least
  -- one candidate, all of which fit for the exchange, is read back by parse_remote_data: it hands
  -- libnice the same credentials and, if libnice takes them, all the candidates, in the opposite
  -- order; and it succeeds exactly if libnice takes the credentials and one candidate or more.
  pub parse_remote_data-print :
      (from to : Agent Address) (u p : Text) (c : Candidate Address) (cs : List (Candidate Address))
      (stream : ℕ)
      → from.local_credentials ≡ some (u, p)
      → from.local_candidates ≡ c ∷ cs
      → Word u
      → Word p
      → AllExchange (c ∷ cs)
      → (line : Text) × (print_local_data lib from ≡ done line)
        × (parse_remote_data g lib to stream line
            ≡ done (
                let cands = reverse_aux (map (received stream) cs) (received stream c ∷ []) in
                if to.set_remote_credentials u p
                then (
                  not (ltb_ℤ (to.set_remote_candidates cands) (pos 1)),
                  credentials u p ∷ candidates cands ∷ [],
                )
                else (false, credentials u p ∷ [])))
  unfolding print_local_data print_with parse_remote_data settle hand_over
  parse_remote_data-print from to u p c cs stream creds cands hu hp all =
      let ts = texts (c ∷ cs) all in
      (
        u ++ tail_text (p ∷ ts),
        rw creds (rw cands (rw (print_candidates-tail (c ∷ cs) all) refl)),
        rw (tail_text-joined u (p ∷ ts)) (
            rw
              (laws.strsplit_set_joined blanks (line_parts u (p ∷ ts)) [] (line_parts-ne u (p ∷ ts))
                (line_parts-Delimited u (p ∷ ts) hu (hp, texts-AllWords (c ∷ cs) all))
                (refl, (refl, (refl, tt))))
              (rw (pieces-line u (p ∷ ts)) (
                rw (read_args-two u p (ts ++ [] ∷ []) stream hu.0 hp.0) (
                  rw (read_args-texts (c ∷ cs) all stream u p []) (
                    ap done (
                      check_args-reverse to (map (received stream) cs) [] u p
                        (received stream c))))))),
      )
