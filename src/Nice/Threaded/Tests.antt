-- ===== src/Nice/Threaded/Tests.antt =====
-- The two threads on concrete sequences of actions.
use c_practice.Base.{◌≡◌, refl, ◌⊎◌, inl, ◌≢◌, true, false, ◌&&◌, ◌||◌, some, List, [], ◌∷◌}
use c_practice.Base.Text.{bytes}
use c_practice.Nice.Session.{end_mark}
use c_practice.Nice.Threaded.{
  joining, returned, gather_wait, ended, Threads, normal, other, Action, gathering_done, ready,
  failed, leave_loop, join, spurious, check, read_line, finish, cb_candidate_gathering_done,
  component_ready, act_main, act_worker, act_join, act, run, started, read_remote, send_lines,
}
use c_practice.Nice.Threaded.Order.{is_empty, run-Order}
use c_practice.Nice.Threaded.Deadlock.{Deadlocked, SpuriousFirst, leave_loop-Deadlocked}

-- An exchange that succeeds.
abbrev exchange : List Action
exchange =
    check
    ∷ spurious
    ∷ check
    ∷ gathering_done
    ∷ check
    ∷ read_line (normal (bytes "nonsense") false)
    ∷ read_line (normal (bytes "u p c") true)
    ∷ check
    ∷ ready
    ∷ check
    ∷ read_line (normal (bytes "hi") false)
    ∷ read_line other
    ∷ finish
    ∷ leave_loop
    ∷ join
    ∷ []

abbrev end_of_exchange : Threads
end_of_exchange = record {
  main = returned;
  worker = ended;
  quit = true;
  exit_thread = true;
  candidate_gathering_done = true;
  negotiation_done = true;
  sent = end_mark ∷ bytes "hi" ∷ [];
}

run-Order_example :
    ((is_empty end_of_exchange.sent
        || (end_of_exchange.candidate_gathering_done && end_of_exchange.negotiation_done))
      ≡ true)
    × ((end_of_exchange.main ≢ returned) ⊎ (end_of_exchange.worker ≡ ended))
unfolding run act act_main act_worker act_join cb_candidate_gathering_done component_ready
    read_remote send_lines
run-Order_example = run-Order exchange end_of_exchange refl

-- The connection fails while the thread waits for candidates.
abbrev waiting_state : Threads
waiting_state = record started { worker = gather_wait; quit = true }

abbrev joining_state : Threads
joining_state = record waiting_state { main = joining; exit_thread = true }

run-waiting : run (check ∷ failed ∷ []) started ≡ some waiting_state
unfolding run act act_main act_worker act_join
run-waiting = refl

abbrev no_steps : List Action
no_steps = []

leave_loop-Deadlocked_example :
    ((no_steps ≡ []) × Deadlocked joining_state) ⊎ SpuriousFirst no_steps
unfolding run act act_main act_worker act_join
leave_loop-Deadlocked_example =
    leave_loop-Deadlocked no_steps waiting_state joining_state (inl refl) refl
