-- ===== src/Nice/Tests.antt =====
-- The exchange at concrete inputs, with a splitter that keeps GLib's laws and addresses that are
-- pairs of a text and a port.
use c_practice.Base.{ℕ, ◌<◌, ◌≤◌, ◌≡◌, ◌⊎◌, refl, true, false, none, some, List, [], ◌∷◌, arith}
use c_practice.Base.Int.{pos}
use c_practice.Base.Text.{Text, bytes}
use c_practice.Nice.{
  Addresses, Candidate, Agent, udp, done, parse_candidate, parse_tokens, parse_remote_data,
  print_local_data, credentials, candidates,
}
use c_practice.Nice.Laws.{Exchanges, received}
use c_practice.Nice.Line.{parse_remote_data-print}
use c_practice.Nice.Refused.{parse_remote_data-refuses}
use c_practice.Nice.Session.{
  Session, Event, gathering_done, state_changed, connected, send_line, remote_line, end_mark, run,
  step, cb_candidate_gathering_done, stdin_remote_info_cb, cb_component_state_changed,
  stdin_send_data_cb,
}
use c_practice.Nice.Session.Traces.{connections, gatherings, run-initial}
use c_practice.Nice.Splitter.{splitter, splitter-GlibLaws, split, cut}

abbrev Address : Type 0
Address = Text × ℕ

abbrev addresses : Addresses Address
addresses = record {
  set_from_string = λ s. some (s, 0);
  to_string = λ a. a.0;
  set_port = λ a p. (a.0, p);
  get_port = λ a. a.1;
  max_foundation = 33;
}

abbrev host : Candidate Address
host = record {
  kind = 0;
  transport = udp;
  addr = (bytes "10.0.0.1", 5000);
  priority = 2013266431;
  stream_id = 7;
  component_id = 1;
  foundation = bytes "1";
}

host-Exchanges : Exchanges addresses host
host-Exchanges = record {
  name = bytes "host";
  known = refl;
  fits = omega arith;
  priority = omega arith;
  port = omega arith;
  foundation = (refl, (refl, (refl, (refl, tt))));
  ip = (refl, (refl, (refl, (refl, tt))));
  address = (bytes "10.0.0.1", 0);
  reads = refl;
  port_back = refl;
}

abbrev client : Agent Address
client = record {
  set_remote_credentials = λ u p. true;
  set_remote_candidates = λ cs. pos 1;
  local_credentials = some (bytes "user", bytes "pass");
  local_candidates = host ∷ host ∷ [];
}

parse_remote_data-print_example :
    (line : Text) × (print_local_data addresses client ≡ done line)
    × (parse_remote_data splitter addresses client 3 line
        ≡ done (
          true,
          credentials (bytes "user") (bytes "pass")
              ∷ candidates (received 3 host ∷ received 3 host ∷ [])
              ∷ [],
        ))
parse_remote_data-print_example =
    parse_remote_data-print splitter splitter-GlibLaws addresses client client (bytes "user")
      (bytes "pass") host (host ∷ []) 3 refl refl ((λ e. cc), (refl, (refl, (refl, tt))))
      ((λ e. cc), (refl, (refl, (refl, tt)))) (host-Exchanges, (host-Exchanges, tt))

parse_remote_data-refuses_example :
    parse_remote_data splitter addresses client 3 (bytes "u p nonsense") ≡ done (false, [])
unfolding parse_candidate parse_tokens split cut
parse_remote_data-refuses_example =
    parse_remote_data-refuses splitter splitter-GlibLaws addresses client (bytes "u") (bytes "p")
      (bytes "nonsense") (bytes "u p nonsense") [] [] tt 3 (λ e. cc) (λ e. cc) (λ e. cc) refl refl

abbrev history : List (Event Address)
history =
    gathering_done
    ∷ remote_line none
    ∷ state_changed connected
    ∷ send_line (some (bytes "hi"))
    ∷ send_line none
    ∷ []

abbrev last_state : Session
last_state = record {
  running = false;
  remote_watches = 1;
  send_watches = 1;
  sent = end_mark ∷ bytes "hi" ∷ [];
}

run-initial_example :
    (last_state.send_watches ≡ connections history)
    × (last_state.remote_watches ≤ gatherings history)
    × ((0 < connections history) ⊎ (last_state.sent ≡ []))
unfolding run step cb_candidate_gathering_done stdin_remote_info_cb cb_component_state_changed
    stdin_send_data_cb
run-initial_example =
    run-initial (parse_remote_data splitter addresses client 3) history last_state refl
