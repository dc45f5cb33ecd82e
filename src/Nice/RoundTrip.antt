-- ===== src/Nice/RoundTrip.antt =====
-- What one client prints, the other one reads.
use mathlib.Core.Path.{subst}
use c_practice.Base.{
  ℕ, zero, suc, ◌%◌, ◌^◌, ◌≡◌, refl, ap, ◌∙◌, some, List, [], ◌∷◌, arith, get_elem?,
}
use c_practice.Base.Text.{
  Text, Free, decimal, decimal-AllDigits, AllDigits-free, atoi-decimal, take_all,
}
use c_practice.Nice.{
  Glib, Addresses, Candidate, done, comma, blanks, candidate_type_name, find_type, parse_fields,
  parse_tokens, parse_candidate, print_candidate,
}
use c_practice.Nice.Laws.{GlibLaws, joined, Exchanges, received}

eq_of_some : {s t : Text} → some s ≡ some t → s ≡ t
eq_of_some e = cc

find_type-known :
    (kind : ℕ) (name : Text)
    → get_elem? candidate_type_name kind ≡ some name
    → find_type 0 candidate_type_name name ≡ some kind
unfolding find_type
find_type-known zero name e =
    subst (λ t. find_type 0 candidate_type_name t ≡ some 0) (eq_of_some e) refl
find_type-known (suc zero) name e =
    subst (λ t. find_type 0 candidate_type_name t ≡ some 1) (eq_of_some e) refl
find_type-known (suc (suc zero)) name e =
    subst (λ t. find_type 0 candidate_type_name t ≡ some 2) (eq_of_some e) refl
find_type-known (suc (suc (suc zero))) name e =
    subst (λ t. find_type 0 candidate_type_name t ≡ some 3) (eq_of_some e) refl
find_type-known (suc (suc (suc (suc k)))) name e = cc

pub name-Free :
    (kind : ℕ) (name : Text)
    → get_elem? candidate_type_name kind ≡ some name
    → Free (comma ∷ blanks) name
name-Free zero name e =
    subst (Free (comma ∷ blanks)) (eq_of_some e) (refl, (refl, (refl, (refl, tt))))
name-Free (suc zero) name e =
    subst (Free (comma ∷ blanks)) (eq_of_some e) (refl, (refl, (refl, (refl, tt))))
name-Free (suc (suc zero)) name e =
    subst (Free (comma ∷ blanks)) (eq_of_some e) (refl, (refl, (refl, (refl, tt))))
name-Free (suc (suc (suc zero))) name e =
    subst (Free (comma ∷ blanks)) (eq_of_some e) (refl, (refl, (refl, (refl, tt))))
name-Free (suc (suc (suc (suc k)))) name e = absurd (cc)

pub decimal-Free : (n : ℕ) → Free (comma ∷ blanks) (decimal n)
decimal-Free n = (
  AllDigits-free comma (decimal n) refl (decimal-AllDigits n),
  (
    AllDigits-free b' ' (decimal n) refl (decimal-AllDigits n),
    (
      AllDigits-free 9 (decimal n) refl (decimal-AllDigits n),
      (AllDigits-free 10 (decimal n) refl (decimal-AllDigits n), tt),
    ),
  ),
)

Free-comma : (s : Text) → Free (comma ∷ blanks) s → Free (comma ∷ []) s
Free-comma s f = (f.0, tt)

module _ {Address : Type 0} (g : Glib) (laws : GlibLaws g) (lib : Addresses Address) where
  -- The text of a candidate, cut at its commas.
  abbrev pub fields : Candidate Address → List (Text × ℕ)
  fields c =
      (c.foundation, comma)
      ∷ (decimal c.priority, comma)
      ∷ (lib.to_string c.addr, comma)
      ∷ (decimal (lib.get_port c.addr), comma)
      ∷ []

  abbrev pub candidate_text : (c : Candidate Address) → Exchanges lib c → Text
  candidate_text c x = joined (fields c) x.name

  pub print_candidate-joined :
      (c : Candidate Address) (x : Exchanges lib c)
      → print_candidate lib c ≡ done (candidate_text c x)
  unfolding print_candidate
  print_candidate-joined c x = rw x.known refl

  parse_fields-received :
      (c : Candidate Address) (x : Exchanges lib c) (stream : ℕ)
      → parse_fields g lib c.foundation
          (decimal c.priority)
          (lib.to_string c.addr)
          (decimal (lib.get_port c.addr))
          x.name
          stream
        ≡ done (received stream c)
  unfolding parse_fields
  parse_fields-received c x stream =
      let small : c.priority % 2 ^ 32 ≡ c.priority = omega (arith, x.priority) in
      let port : lib.get_port c.addr % 2 ^ 32 ≡ lib.get_port c.addr = omega (arith, x.port) in
      rw (find_type-known c.kind x.name x.known) (
        rw (atoi-decimal c.priority (omega (arith, x.priority))) (
          rw x.reads (
            rw (atoi-decimal (lib.get_port c.addr) (omega (arith, x.port)))
              (rw port (rw small (rw x.port_back (rw (take_all _ c.foundation x.fits) refl)))))))

  -- The text of a candidate that fits for the exchange is read back by parse_candidate field by
  -- field.
  pub parse_candidate-print :
      (c : Candidate Address) (x : Exchanges lib c) (stream : ℕ)
      → parse_candidate g lib (candidate_text c x) stream ≡ done (received stream c)
  unfolding parse_candidate parse_tokens
  parse_candidate-print c x stream =
      ap (λ ts. parse_tokens g lib ts stream)
        (laws.strsplit_joined comma 5 (fields c) x.name (λ e. cc) (omega arith)
          (
            Free-comma c.foundation x.foundation,
            (λ e. cc),
            (
              Free-comma (decimal c.priority) (decimal-Free c.priority),
              (λ e. cc),
              (
                Free-comma (lib.to_string c.addr) x.ip,
                (λ e. cc),
                (
                  Free-comma (decimal (lib.get_port c.addr)) (decimal-Free (lib.get_port c.addr)),
                  (λ e. cc),
                  tt,
                ),
              ),
            ),
          )
          (Free-comma x.name (name-Free c.kind x.name x.known)))
      ∙ parse_fields-received c x stream
