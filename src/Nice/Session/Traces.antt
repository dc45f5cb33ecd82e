-- ===== src/Nice/Session/Traces.antt =====
-- What any history of callbacks leaves behind.
use c_practice.Base.{
  ℕ, ◌+◌, ◌≤◌, ◌<◌, ◌≡◌, ◌⊎◌, inl, inr, Bool, ◌&&◌, not, Option, none, some, List, [], ◌∷◌, arith,
  Option-cases,
}
use c_practice.Base.Text.{Text, text_eq}
use c_practice.Nice.{Outcome, AgentCall}
use c_practice.Nice.Session.{
  connected, Session, Event, gathering_done, remote_line, state_changed, send_line, recv, initial,
  end_mark, step, run, cb_candidate_gathering_done, stdin_remote_info_cb,
  cb_component_state_changed, stdin_send_data_cb, cb_nice_recv,
}

module _ {Address : Type 0} where
  -- How often the component became connected.
  abbrev pub connections : List (Event Address) → ℕ
  connections [] = 0
  connections (state_changed connected ∷ es) = 1 + connections es
  connections (_ ∷ es) = connections es

  -- How often the local candidates were complete.
  abbrev pub gatherings : List (Event Address) → ℕ
  gatherings [] = 0
  gatherings (gathering_done ∷ es) = 1 + gatherings es
  gatherings (_ ∷ es) = gatherings es

module _ {Address : Type 0} (parse : Text → Outcome (Bool × List (AgentCall Address))) where
  -- The state after some callbacks, against their counts.
  pub record Counted (s t : Session) (es : List (Event Address)) : Type 0 where
    pub sends : t.send_watches ≡ s.send_watches + connections es
    pub remote : t.remote_watches ≤ s.remote_watches + gatherings es
    pub quiet : (t.sent ≡ s.sent) ⊎ (0 < s.send_watches + connections es)

  stdin_remote_info_cb-Counted :
      (s : Session) (l : Option Text) {t : Session}
      → stdin_remote_info_cb parse s l ≡ some t
      → (t.send_watches ≡ s.send_watches)
        × (t.remote_watches ≤ s.remote_watches)
        × (t.sent ≡ s.sent)
  unfolding stdin_remote_info_cb
  stdin_remote_info_cb-Counted s none e = ground arith
  stdin_remote_info_cb-Counted s (some line) e = ground arith

  step-Counted :
      (s : Session) (e : Event Address) {t : Session}
      → step parse s e ≡ some t
      → Counted s t (e ∷ [])
  unfolding step cb_candidate_gathering_done cb_component_state_changed stdin_send_data_cb
      cb_nice_recv
  step-Counted s gathering_done e = ground arith
  step-Counted s (remote_line l) e = grind (arith, stdin_remote_info_cb-Counted)
  step-Counted s (state_changed connected) e = ground arith
  step-Counted s (state_changed c) e = ground arith
  step-Counted s (send_line l) e = ground arith
  step-Counted s (recv []) e = ground arith
  step-Counted s (recv (b ∷ [])) e = ground arith
  step-Counted s (recv (b ∷ c ∷ r)) e = ground arith

  Counted-cons :
      (s t u : Session) (e : Event Address) (es : List (Event Address))
      → Counted s t (e ∷ [])
      → Counted t u es
      → Counted s u (e ∷ es)
  Counted-cons s t u gathering_done es a b = ground (arith, a, b)
  Counted-cons s t u (state_changed connected) es a b = ground (arith, a, b)
  Counted-cons s t u (state_changed c) es a b = ground (arith, a, b)
  Counted-cons s t u e es a b = ground (arith, a, b)

  run-Counted :
      (s : Session) (es : List (Event Address)) {t : Session}
      → run parse s es ≡ some t
      → Counted s t es
  unfolding run
  run-Counted s [] e = ground arith
  run-Counted s (x ∷ es) {t} e = elim (Option-cases (step parse s x)) [
    | inl stuck ↦ absurd (let bad : none ≡ some t = rw (stuck, run) at e in cc)
    | inr (u, moved) ↦
        Counted-cons s u t x es (step-Counted s x moved) (run-Counted u es (rw (moved, run) at e))
  ]

  -- However the callbacks follow one another from the start, the component was connected before
  -- anything was sent to the peer, the line reader for sending is registered once for each
  -- connection, and the reader for remote candidates at most once for each gathering.
  pub run-initial :
      (es : List (Event Address)) (t : Session)
      → run parse initial es ≡ some t
      → (t.send_watches ≡ connections es)
        × (t.remote_watches ≤ gatherings es)
        × ((0 < connections es) ⊎ (t.sent ≡ []))
  run-initial es t e =
      let c = run-Counted initial es e in
      (
        omega (arith, c.sends),
        omega (arith, c.remote),
        elim c.quiet [ inl same ↦ inr same | inr later ↦ inl (omega arith) ],
      )

-- What the end of the input sends makes the receiving client leave its main loop, and so does no
-- other message.
cb_nice_recv-quits :
    {Address : Type 0} (parse : Text → Outcome (Bool × List (AgentCall Address))) (s : Session)
    (buf : Text)
    → (cb_nice_recv parse s buf).running ≡ (s.running && not (text_eq buf end_mark))
unfolding cb_nice_recv text_eq
cb_nice_recv-quits parse s [] = ground arith
cb_nice_recv-quits parse s (b ∷ []) = ground arith
cb_nice_recv-quits parse s (b ∷ c ∷ r) = ground arith
