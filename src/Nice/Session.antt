-- ===== src/Nice/Session.antt =====
-- The callbacks of simple-example.c, run by the main loop: which of them are registered, what is
-- sent to the peer, and when the loop is left.
--
-- An event is a callback that the main loop makes; it is possible only while the loop runs and the
-- callback is registered; a callback of the very iteration that quits is left out. A `none` for a
-- line is a read that is not `G_IO_STATUS_NORMAL`.
pub mod Traces
use c_practice.Base.{
  ℕ, ◌+◌, ◌-◌, Bool, true, false, Option, none, some, List, [], ◌∷◌, ltb, ◌==◌, if◌then◌else◌,
}
use c_practice.Base.Text.{Text}
use c_practice.Nice.{Outcome, done, rejected, undefined, AgentCall}

-- `state_name`, in order
pub data ComponentState : Type 0 where
  disconnected gathering connecting connected ready failed : ComponentState

pub record Session : Type 0 where
  pub running : Bool
  pub remote_watches : ℕ  -- registered `stdin_remote_info_cb`
  pub send_watches : ℕ  -- registered `stdin_send_data_cb`
  pub sent : List Text  -- latest first

pub data Event (Address : Type 0) : Type 0 where
  gathering_done : Event Address
  remote_line : Option Text → Event Address
  state_changed : ComponentState → Event Address
  send_line : Option Text → Event Address
  recv : Text → Event Address

abbrev pub quit : Session → Session
quit s = record s { running = false }

-- The message that stands for the end of the input.
abbrev pub end_mark : Text
end_mark = 0 ∷ []

module _ {Address : Type 0} (parse : Text → Outcome (Bool × List (AgentCall Address))) where
  unfoldable pub cb_candidate_gathering_done : Session → Session
  cb_candidate_gathering_done s = record s { remote_watches = s.remote_watches + 1 }

  -- After a line that parses the callback returns `FALSE`, and its watch goes.
  abbrev after_parse : Session → Outcome (Bool × List (AgentCall Address)) → Option Session
  after_parse s (done (true, _)) = some (record s { remote_watches = s.remote_watches - 1 })
  after_parse s (done (false, _)) = some s
  after_parse s rejected = some s
  after_parse s undefined = none

  unfoldable pub stdin_remote_info_cb : Session → Option Text → Option Session
  stdin_remote_info_cb s none = some s
  stdin_remote_info_cb s (some line) = after_parse s (parse line)

  unfoldable pub cb_component_state_changed : Session → ComponentState → Session
  cb_component_state_changed s connected = record s { send_watches = s.send_watches + 1 }
  cb_component_state_changed s failed = quit s
  cb_component_state_changed s _ = s

  unfoldable pub stdin_send_data_cb : Session → Option Text → Session
  stdin_send_data_cb s (some line) = record s { sent = line ∷ s.sent }
  stdin_send_data_cb s none = quit (record s { sent = end_mark ∷ s.sent })

  unfoldable pub cb_nice_recv : Session → Text → Session
  cb_nice_recv s (b ∷ []) = if b == 0 then quit s else s
  cb_nice_recv s _ = s

  -- `none`: the event cannot happen, or parsing the line has no defined outcome.
  abbrev dispatch : Session → Event Address → Option Session
  dispatch s gathering_done = some (cb_candidate_gathering_done s)
  dispatch s (remote_line l) = if ltb 0 s.remote_watches then stdin_remote_info_cb s l else none
  dispatch s (state_changed c) = some (cb_component_state_changed s c)
  dispatch s (send_line l) = if ltb 0 s.send_watches then some (stdin_send_data_cb s l) else none
  dispatch s (recv buf) = some (cb_nice_recv s buf)

  unfoldable pub step : Session → Event Address → Option Session
  step s e = if s.running then dispatch s e else none

  unfoldable pub run : Session → List (Event Address) → Option Session
  run s [] = some s
  run s (e ∷ es) = elim (step s e) [ none ↦ none | some t ↦ run t es ]

abbrev pub initial : Session
initial = record { running = true; remote_watches = 0; send_watches = 0; sent = [] }
