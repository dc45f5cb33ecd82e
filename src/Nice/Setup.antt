-- ===== src/Nice/Setup.antt =====
-- libnice/examples/simple-example.c, `main`: its arguments, and the agent that it sets up before the main
-- loop runs. `main` of threaded-example.c and sdp-example.c reads the same arguments, and their threads
-- set an agent up in the same order.
--
-- libnice is the record `NewAgent` over a state of any type. `g_error` ends the program.
pub mod Arguments
mod Tests
use c_practice.Base.{
  ℕ, ◌-◌, ◌^◌, Bool, true, false, not, Option, none, some, List, [], ◌∷◌, ◌==◌, if◌then◌else◌,
}
use c_practice.Base.Int.{ℤ}
use c_practice.Base.Text.{Text, bytes, atoi}
use c_practice.Nice.{Outcome, done, rejected, undefined, ◌>>=◌, to_guint, AgentCall}
use c_practice.Nice.Session.{Session, Event, initial, run}

-- `stun_addr` and `stun_port`, if there is an address, and `controlling`.
pub record Options : Type 0 where
  pub stun : Option (Text × ℕ)
  pub controlling : Bool

-- `argv[1][0] - '0'`, which is to be 0 or 1.
abbrev pub role : ℕ → Outcome Bool
role c = if c == b'0' then done false else if c == b'1' then done true else rejected

-- `argv[1]`; an empty one is read beyond its end.
unfoldable pub read_role : Text → Outcome Bool
read_role [] = undefined
read_role (c ∷ []) = role c
read_role (c ∷ d ∷ t) = rejected

abbrev port_of : Option ℤ → Outcome ℕ
port_of none = undefined
port_of (some n) = done (to_guint n)

-- `rejected` is the usage that is printed.
unfoldable pub read_options : (argv : List Text) → Outcome Options
read_options (name ∷ first ∷ []) = do
  controlling ← read_role first
  done (record { stun = none; controlling = controlling })
read_options (name ∷ first ∷ host ∷ []) = do
  controlling ← read_role first
  done (record { stun = some (host, 3478); controlling = controlling })
read_options (name ∷ first ∷ host ∷ port ∷ []) = do
  controlling ← read_role first
  stun_port ← port_of (atoi port)
  done (record { stun = some (host, stun_port); controlling = controlling })
read_options _ = rejected

-- The signals, in the order in which they are connected.
pub data Signal : Type 0 where
  candidate_gathering_done new_selected_pair component_state_changed : Signal

pub record NewAgent (K : Type 0) : Type 0 where
  pub agent_new : K → Bool × K  -- whether it is not `NULL`
  pub set_stun_server : Text → K → K
  pub set_stun_server_port : ℕ → K → K
  pub set_controlling_mode : Bool → K → K
  pub connect : Signal → K → K
  pub add_stream : (components : ℕ) → K → ℕ × K
  pub attach_recv : (stream component : ℕ) → K → K
  pub gather_candidates : (stream : ℕ) → K → Bool × K

-- `main` ends with `EXIT_FAILURE`, in undefined behaviour or by `g_error`; or the agent is ready, with
-- the number of its stream, and the main loop runs.
pub data Start (K : Type 0) : Type 0 where
  usage out_of_bounds error : Start K
  ready : ℕ → K → Start K

module _ {K : Type 0} (lib : NewAgent K) where
  abbrev pub set_stun : Option (Text × ℕ) → K → K
  set_stun none k = k
  set_stun (some (host, port)) k = lib.set_stun_server_port port (lib.set_stun_server host k)

  abbrev pub gather : ℕ → Bool × K → Start K
  gather stream (false, k) = error
  gather stream (true, k) = ready stream k

  abbrev pub with_stream : ℕ × K → Start K
  with_stream (stream, k) =
      if stream == 0
      then error
      else gather stream (lib.gather_candidates stream (lib.attach_recv stream 1 k))

  abbrev pub with_agent : Options → Bool × K → Start K
  with_agent o (false, k) = error
  with_agent o (true, k) =
      let k = lib.set_controlling_mode o.controlling (set_stun o.stun k) in
      let k = lib.connect candidate_gathering_done k in
      let k = lib.connect new_selected_pair k in
      with_stream (lib.add_stream 1 (lib.connect component_state_changed k))

  unfoldable pub set_up : Outcome Options → K → Start K
  set_up rejected k = usage
  set_up undefined k = out_of_bounds
  set_up (done o) k = with_agent o (lib.agent_new k)

  -- `main`, up to the main loop.
  unfoldable pub start : (argv : List Text) → K → Start K
  start argv k = set_up (read_options argv) k

  abbrev loop :
      {Address : Type 0}
      → (Text → Outcome (Bool × List (AgentCall Address)))
      → List (Event Address)
      → Start K
      → Start K × Option Session
  loop parse events (ready stream k) = (ready stream k, run parse initial events)
  loop parse events s = (s, none)

  -- `main`, with what happens in the main loop: the agent, and the session if there is one and the
  -- events can happen in it.
  unfoldable pub main :
      {Address : Type 0}
      → (Text → Outcome (Bool × List (AgentCall Address)))
      → (argv : List Text) → List (Event Address)
      → K
      → Start K × Option Session
  main parse argv events k = loop parse events (start argv k)
