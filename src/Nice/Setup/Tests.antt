-- ===== src/Nice/Setup/Tests.antt =====
-- The program with a STUN server and a port, and an agent that counts the calls.
use c_practice.Base.{ℕ, ◌+◌, ◌≡◌, refl, true, some, List, [], ◌∷◌}
use c_practice.Base.Text.{Text, bytes, atoi, digits_value}
use c_practice.Nice.{rejected}
use c_practice.Nice.Session.{initial, run}
use c_practice.Nice.Setup.{
  Options, read_role, read_options, NewAgent, ready, out_of_bounds, set_up, start, main,
}

abbrev counted : NewAgent ℕ
counted = record {
  agent_new = λ k. (true, k + 1);
  set_stun_server = λ host k. k + 1;
  set_stun_server_port = λ port k. k + 1;
  set_controlling_mode = λ b k. k + 1;
  connect = λ s k. k + 1;
  add_stream = λ n k. (1, k + 1);
  attach_recv = λ stream component k. k + 1;
  gather_candidates = λ stream k. (true, k + 1);
}

abbrev argv : List Text
argv = bytes "simple-example" ∷ bytes "1" ∷ bytes "stun" ∷ bytes "5000" ∷ []

abbrev parsed : Options
parsed = record { stun = some (bytes "stun", 5000); controlling = true }

main_run : main counted {Address = ℕ} (λ t. rejected) argv [] 0 ≡ (ready 1 10, some initial)
unfolding main start set_up read_options read_role atoi digits_value run
main_run = refl

no_role : start counted (bytes "simple-example" ∷ [] ∷ []) 0 ≡ out_of_bounds
unfolding start set_up read_options read_role
no_role = refl
