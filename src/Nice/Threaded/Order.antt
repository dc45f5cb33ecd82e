-- ===== src/Nice/Threaded/Order.antt =====
-- The order in which threaded-example.c does its work, whatever the threads' interleaving.
use c_practice.Base.{
  zero, ◌≢◌, ◌≡◌, refl, ◌∙◌, ◌⊎◌, inl, inr, Bool, true, false, ◌&&◌, ◌||◌, not, none, some, List,
  [], ◌∷◌, arith, Option-cases,
}
use c_practice.Base.Text.{Text}
use c_practice.Nice.Threaded.{
  MainPlace, looping, joining, returned, WorkerPlace, gather_check, gather_wait, reading_remote,
  negotiate_check, negotiate_wait, sending, leaving, ended, Threads, normal, again, other, Action,
  gathering_done, ready, failed, recv, leave_loop, join, spurious, check, read_line, finish,
  cb_candidate_gathering_done, component_ready, cb_nice_recv, act_main, act_worker, act_join, act,
  run, started, read_remote, send_lines,
}

abbrev pub is_empty : List Text → Bool
is_empty [] = true
is_empty (t ∷ ts) = false

-- What is known where `example_thread` is.
abbrev pub place_ok : WorkerPlace → (gathered negotiated quiet : Bool) → Bool
place_ok gather_check g n quiet = quiet
place_ok gather_wait g n quiet = quiet
place_ok reading_remote g n quiet = quiet && g
place_ok negotiate_check g n quiet = quiet && g
place_ok negotiate_wait g n quiet = quiet && g
place_ok sending g n quiet = g && n
place_ok leaving g n quiet = quiet || (g && n)
place_ok ended g n quiet = quiet || (g && n)

abbrev pub is_ended : WorkerPlace → Bool
is_ended ended = true
is_ended w = false

-- What is known where `main` is.
abbrev pub main_ok : MainPlace → WorkerPlace → Bool → Bool
main_ok looping w exit = not exit
main_ok joining w exit = exit
main_ok returned w exit = exit && is_ended w

abbrev pub holds : Threads → Bool
holds s =
    place_ok s.worker s.candidate_gathering_done s.negotiation_done (is_empty s.sent)
    && main_ok s.main s.worker s.exit_thread

worker_keeps :
    (a : Action) (s t : Threads) (w : WorkerPlace)
    → s.worker ≡ w
    → holds s ≡ true
    → act_worker a s w ≡ some t
    → holds t ≡ true
unfolding act_worker read_remote send_lines
worker_keeps check s t gather_check e h r = ground arith
worker_keeps check s t negotiate_check e h r = ground arith
worker_keeps spurious s t gather_wait e h r = ground arith
worker_keeps spurious s t negotiate_wait e h r = ground arith
worker_keeps (read_line (normal l true)) s t reading_remote e h r = ground arith
worker_keeps (read_line (normal l false)) s t reading_remote e h r = ground arith
worker_keeps (read_line again) s t reading_remote e h r = ground arith
worker_keeps (read_line other) s t reading_remote e h r = ground arith
worker_keeps (read_line (normal l p)) s t sending e h r = ground arith
worker_keeps (read_line again) s t sending e h r = ground arith
worker_keeps (read_line other) s t sending e h r = ground arith
worker_keeps finish s t leaving e h r = ground arith
worker_keeps a s t w e h r = ground arith

main_keeps :
    (a : Action) (s t : Threads) (m : MainPlace)
    → s.main ≡ m
    → holds s ≡ true
    → act_main a s m ≡ some t
    → holds t ≡ true
unfolding act_main cb_candidate_gathering_done component_ready cb_nice_recv
main_keeps gathering_done s t looping e h r = ground arith
main_keeps ready s t looping e h r = ground arith
main_keeps failed s t looping e h r = ground arith
main_keeps (recv []) s t looping e h r = ground arith
main_keeps (recv (zero ∷ [])) s t looping e h r = ground arith
main_keeps (recv (b ∷ bs)) s t looping e h r = ground arith
main_keeps leave_loop s t looping e h r = ground arith
main_keeps a s t m e h r = ground arith

join_keeps :
    (a : Action) (s t : Threads) (m : MainPlace) (w : WorkerPlace)
    → s.main ≡ m
    → s.worker ≡ w
    → holds s ≡ true
    → act_join a s m w ≡ some t
    → holds t ≡ true
unfolding act_join
join_keeps join s t joining ended e e' h r = ground arith
join_keeps a s t m w e e' h r = ground arith

-- Which thread an action was of.
pub act-cases :
    (a : Action) (s t : Threads)
    → act a s ≡ some t
    → (act_main a s s.main ≡ some t)
      ⊎ ((act_worker a s s.worker ≡ some t) ⊎ (act_join a s s.main s.worker ≡ some t))
unfolding act
act-cases a s t r = elim (Option-cases (act_main a s s.main)) [
  | inr (u, e) ↦ inl (e ∙ (rw e at r))
  | inl e ↦ elim (Option-cases (act_worker a s s.worker)) [
    | inr (u, e') ↦ inr (inl (e' ∙ (rw (e, e') at r)))
    | inl e' ↦ inr (inr (rw (e, e') at r))
  ]
]

act_keeps : (a : Action) (s t : Threads) → holds s ≡ true → act a s ≡ some t → holds t ≡ true
act_keeps a s t h r = elim (act-cases a s t r) [
  | inl e ↦ main_keeps a s t s.main refl h e
  | inr (inl e) ↦ worker_keeps a s t s.worker refl h e
  | inr (inr e) ↦ join_keeps a s t s.main s.worker refl refl h e
]

run_keeps :
    (steps : List Action) (s t : Threads) → holds s ≡ true → run steps s ≡ some t → holds t ≡ true
unfolding run
run_keeps [] s t h r = cc
run_keeps (a ∷ steps) s t h r = elim (Option-cases (act a s)) [
  | inl e ↦ absurd (let q : none ≡ some t = rw (e, run) at r in cc)
  | inr (u, e) ↦ run_keeps steps u t (act_keeps a s u h e) (rw (e, run) at r)
]

place-order :
    (w : WorkerPlace) (g n quiet : Bool) → place_ok w g n quiet ≡ true → (quiet || (g && n)) ≡ true
place-order gather_check g n quiet h = ground arith
place-order gather_wait g n quiet h = ground arith
place-order reading_remote g n quiet h = ground arith
place-order negotiate_check g n quiet h = ground arith
place-order negotiate_wait g n quiet h = ground arith
place-order sending g n quiet h = ground arith
place-order leaving g n quiet h = h
place-order ended g n quiet h = h

main-order :
    (m : MainPlace) (w : WorkerPlace) (exit : Bool)
    → main_ok m w exit ≡ true
    → (m ≢ returned) ⊎ (w ≡ ended)
main-order looping w exit h = inl (λ e. cc)
main-order joining w exit h = inl (λ e. cc)
main-order returned w exit h = ground arith

and-both : (a b : Bool) → (a && b) ≡ true → (a ≡ true) × (b ≡ true)
and-both a b h = ground arith

holds-order :
    (t : Threads)
    → holds t ≡ true
    → ((is_empty t.sent || (t.candidate_gathering_done && t.negotiation_done)) ≡ true)
      × ((t.main ≢ returned) ⊎ (t.worker ≡ ended))
holds-order t h =
    let (place, of_main) =
      and-both (place_ok t.worker t.candidate_gathering_done t.negotiation_done (is_empty t.sent))
        (main_ok t.main t.worker t.exit_thread) h in
    (
      place-order t.worker t.candidate_gathering_done t.negotiation_done (is_empty t.sent) place,
      main-order t.main t.worker t.exit_thread of_main,
    )

-- However the actions of the two threads interleave from the start, with spurious wakeups: before
-- anything is sent to the peer, candidates were gathered and the negotiation was done, and main
-- returns only after example_thread has ended.
pub run-Order :
    (steps : List Action) (t : Threads)
    → run steps started ≡ some t
    → ((is_empty t.sent || (t.candidate_gathering_done && t.negotiation_done)) ≡ true)
      × ((t.main ≢ returned) ⊎ (t.worker ≡ ended))
run-Order steps t r = holds-order t (run_keeps steps started t refl r)
