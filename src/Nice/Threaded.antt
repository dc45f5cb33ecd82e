-- ===== src/Nice/Threaded.antt =====
-- libnice/examples/threaded-example.c: the exchange of simple-example.c in a thread of its own,
-- which waits on two condition variables that the callbacks of the main loop signal.
--
-- An action is a step of one of the two threads; those under one mutex are one action, since
-- `g_cond_wait` releases it, and the test of `exit_thread` behind a wait is part of the test of its
-- loop. A thread wakes when it is signalled, or for no reason (`spurious`). What is parsed and printed is as in
-- simple-example.c; here a line either parses or does not.
pub mod Order
pub mod Deadlock
mod Tests
use c_practice.Base.{
  ℕ, zero, ℕ, Bool, true, false, ◌||◌, Option, none, some, List, [], ◌∷◌, if◌then◌else◌,
}
use c_practice.Base.Text.{Text}
use c_practice.Nice.Session.{end_mark}

-- Where `main` is: in `g_main_loop_run`, in `g_thread_join`, or at its end.
pub data MainPlace : Type 0 where
  looping joining returned : MainPlace

-- Where `example_thread` is.
pub data WorkerPlace : Type 0 where
  gather_check gather_wait reading_remote negotiate_check negotiate_wait sending leaving ended :
      WorkerPlace

pub record Threads : Type 0 where
  pub main : MainPlace
  pub worker : WorkerPlace
  pub quit : Bool  -- `g_main_loop_quit` was called
  pub exit_thread : Bool
  pub candidate_gathering_done : Bool
  pub negotiation_done : Bool
  pub sent : List Text  -- latest first

-- What `g_io_channel_read_line` gives.
pub data Line : Type 0 where
  normal : Text → Bool → Line  -- the line, and whether `parse_remote_data` accepts it
  again : Line
  other : Line

pub data Action : Type 0 where
  gathering_done ready failed : Action
  recv : Text → Action
  leave_loop join : Action
  spurious : Action  -- `g_cond_wait` returns without a signal
  check : Action
  read_line : Line → Action
  finish : Action

-- `g_cond_signal(&gather_cond)`
abbrev wake_gather : WorkerPlace → WorkerPlace
wake_gather gather_wait = gather_check
wake_gather w = w

-- `g_cond_signal(&negotiate_cond)`
abbrev wake_negotiate : WorkerPlace → WorkerPlace
wake_negotiate negotiate_wait = negotiate_check
wake_negotiate w = w

unfoldable pub cb_candidate_gathering_done : Threads → Threads
cb_candidate_gathering_done s = record s {
  candidate_gathering_done = true;
  worker = wake_gather s.worker;
}

-- `cb_component_state_changed` with the state `READY`; with `FAILED` it is `ask_quit`.
unfoldable pub component_ready : Threads → Threads
component_ready s = record s { negotiation_done = true; worker = wake_negotiate s.worker }

abbrev pub ask_quit : Threads → Threads
ask_quit s = record s { quit = true }

unfoldable pub cb_nice_recv : Text → Threads → Threads
cb_nice_recv (zero ∷ []) s = ask_quit s
cb_nice_recv buf s = s

-- An action of the main thread; the callbacks happen while it loops.
unfoldable pub act_main : Action → Threads → MainPlace → Option Threads
act_main gathering_done s looping = some (cb_candidate_gathering_done s)
act_main ready s looping = some (component_ready s)
act_main failed s looping = some (ask_quit s)
act_main (recv buf) s looping = some (cb_nice_recv buf s)
act_main leave_loop s looping =
    if s.quit then some (record s { main = joining; exit_thread = true }) else none
act_main _ s _ = none

-- The test of a `while` loop around `g_cond_wait`, and of `exit_thread` behind it.
abbrev wait_for : Bool → Bool → (waits on : WorkerPlace) → WorkerPlace
wait_for exit_thread done waits on = if exit_thread then leaving else if done then on else waits

-- The loop that reads remote candidates.
unfoldable pub read_remote : Line → Threads → Threads
read_remote l s = if s.exit_thread then record s { worker = negotiate_check } else elim l [
  | normal line true ↦ record s { worker = negotiate_check }
  | normal line false ↦ s
  | again ↦ s
  | other ↦ s
]

-- The loop that sends lines.
unfoldable pub send_lines : Line → Threads → Threads
send_lines l s = if s.exit_thread then record s { worker = leaving } else elim l [
  | normal line parses ↦ record s { sent = line ∷ s.sent }
  | again ↦ s
  | other ↦ record s { sent = end_mark ∷ s.sent; worker = leaving }
]

-- An action of `example_thread`.
unfoldable pub act_worker : Action → Threads → WorkerPlace → Option Threads
act_worker check s gather_check = some (record s {
  worker = wait_for s.exit_thread s.candidate_gathering_done gather_wait reading_remote;
})
act_worker check s negotiate_check =
    some (record s { worker = wait_for s.exit_thread s.negotiation_done negotiate_wait sending })
act_worker spurious s gather_wait = some (record s { worker = wake_gather gather_wait })
act_worker spurious s negotiate_wait = some (record s { worker = wake_negotiate negotiate_wait })
act_worker (read_line l) s reading_remote = some (read_remote l s)
act_worker (read_line l) s sending = some (send_lines l s)
act_worker finish s leaving = some (record s { worker = ended; quit = true })
act_worker _ s _ = none

-- `g_thread_join`, once the other thread has ended.
unfoldable pub act_join : Action → Threads → MainPlace → WorkerPlace → Option Threads
act_join join s joining ended = some (record s { main = returned })
act_join _ s _ _ = none

abbrev or_else : Option Threads → Option Threads → Option Threads
or_else none b = b
or_else (some a) b = some a

-- `none`: the action is not possible.
unfoldable pub act : Action → Threads → Option Threads
act a s =
    or_else (act_main a s s.main) (or_else (act_worker a s s.worker) (act_join a s s.main s.worker))

unfoldable pub run : List Action → Threads → Option Threads
run [] s = some s
run (a ∷ steps) s = elim (act a s) [ none ↦ none | some t ↦ run steps t ]

abbrev pub started : Threads
started = record {
  main = looping;
  worker = gather_check;
  quit = false;
  exit_thread = false;
  candidate_gathering_done = false;
  negotiation_done = false;
  sent = [];
}
