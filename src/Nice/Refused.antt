-- ===== src/Nice/Refused.antt =====
-- Lines that `parse_remote_data` refuses.
use c_practice.Base.{ℕ, ◌≡◌, refl, ◌∙◌, ◌≢◌, false, some, List, [], ◌∷◌, ◌++◌}
use c_practice.Base.Text.{Text}
use c_practice.Nice.{
  Glib, Addresses, Candidate, Agent, done, rejected, blanks, read_args, settle, parse_remote_data,
  parse_candidate,
}
use c_practice.Nice.Laws.{GlibLaws, received}
use c_practice.Nice.RoundTrip.{candidate_text, parse_candidate-print}
use c_practice.Nice.Line.{
  AllExchange, texts, candidate_text-Word, read_args-candidate, read_args-two,
}

module _ {Address : Type 0} (g : Glib) (laws : GlibLaws g) (lib : Addresses Address) where
  read_args-refuses :
      (cs : List (Candidate Address)) (all : AllExchange g laws lib cs) (w : Text)
      (rest : List Text) (stream : ℕ) (u p : Text) (acc : List (Candidate Address))
      → w ≢ []
      → parse_candidate g lib w stream ≡ rejected
      → read_args g lib (texts g laws lib cs all ++ (w ∷ rest)) stream (some u) (some p) acc
        ≡ rejected
  read_args-refuses [] all w rest stream u p acc ne bad =
      read_args-candidate g laws lib w rest stream u p acc ne ∙ rw bad refl
  read_args-refuses (c ∷ cs) all w rest stream u p acc ne bad =
      read_args-candidate g laws lib (candidate_text g laws lib c all.0) _ stream u p acc
        (candidate_text-Word g laws lib c all.0).0
      ∙ rw (parse_candidate-print g laws lib c all.0 stream)
          (read_args-refuses cs all.1 w rest stream u p (received stream c ∷ acc) ne bad)

  -- One word that is no candidate makes parse_remote_data fail before it calls libnice, whatever
  -- good candidates stand in front of it and whatever follows.
  pub parse_remote_data-refuses :
      (to : Agent Address) (u p w line : Text) (rest : List Text) (cs : List (Candidate Address))
      (all : AllExchange g laws lib cs) (stream : ℕ)
      → u ≢ []
      → p ≢ []
      → w ≢ []
      → parse_candidate g lib w stream ≡ rejected
      → g.strsplit_set line blanks ≡ u ∷ p ∷ (texts g laws lib cs all ++ (w ∷ rest))
      → parse_remote_data g lib to stream line ≡ done (false, [])
  unfolding parse_remote_data settle
  parse_remote_data-refuses to u p w line rest cs all stream hu hp hw bad split = rw split (
      rw (read_args-two g laws lib u p (texts g laws lib cs all ++ (w ∷ rest)) stream hu hp)
        (rw (read_args-refuses cs all w rest stream u p [] hw bad) refl))
