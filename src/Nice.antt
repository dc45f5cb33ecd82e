-- ===== src/Nice.antt =====
-- libnice/examples/simple-example.c: the text in which two ICE clients exchange their candidates.
--
-- GLib's string splitting and libnice's addresses are not part of the repository: they are the
-- records `Glib` and `Addresses`, and what is relied on is stated in Nice.Laws and at each
-- candidate. What libnice answers to a call comes in as the record `Agent`; the calls made are
-- recorded in order.
pub mod Laws
pub mod RoundTrip
pub mod Line
pub mod Refused
pub mod Session
pub mod Setup
pub mod Splitter
pub mod Threaded
mod Tests
use Prim.Native.String.{String}
use c_practice.Base.{
  ℕ, zero, suc, ◌+◌, ◌-◌, ◌%◌, ◌^◌, Bool, true, false, Option, none, some, List, [], ◌∷◌, ◌++◌, ltb,
  if◌then◌else◌, get_elem?, take, not,
}
use c_practice.Base.Int.{ℤ, pos, negsuc, ltb_ℤ}
use c_practice.Base.Text.{Text, bytes, text_eq, decimal, atoi}

-- `g_strsplit(s, delimiter, max_tokens)` and `g_strsplit_set(s, delimiters, 0)`
pub record Glib : Type 0 where
  pub strsplit : Text → ℕ → ℕ → List Text
  pub strsplit_set : Text → List ℕ → List Text

-- `nice_address_*` and `NICE_CANDIDATE_MAX_FOUNDATION`
pub record Addresses (Address : Type 0) : Type 0 where
  pub set_from_string : Text → Option Address
  pub to_string : Address → Text
  pub set_port : Address → ℕ → Address
  pub get_port : Address → ℕ
  pub max_foundation : ℕ

pub data Transport : Type 0 where
  udp tcp_active tcp_passive tcp_so : Transport

pub record Candidate (Address : Type 0) : Type 0 where
  pub kind : ℕ
  pub transport : Transport
  pub addr : Address
  pub priority : ℕ
  pub stream_id : ℕ
  pub component_id : ℕ
  pub foundation : Text

abbrev pub candidate_type_name : List Text
candidate_type_name = bytes "host" ∷ bytes "srflx" ∷ bytes "prflx" ∷ bytes "relay" ∷ []

abbrev pub comma : ℕ
comma = b','

abbrev pub blanks : List ℕ
blanks = b' ' ∷ 9 ∷ 10 ∷ []

-- `rejected` is `NULL` or `EXIT_FAILURE`; `undefined` an `atoi` of a value that is no `int`, or a
-- type with no name.
pub data Outcome (A : Type 0) : Type 0 where
  done : A → Outcome A
  rejected : Outcome A
  undefined : Outcome A

infixl 5 ◌>>=◌
abbrev pub ◌>>=◌ : {A B : Type 0} → Outcome A → (A → Outcome B) → Outcome B
done a >>= k = k a
rejected >>= k = rejected
undefined >>= k = undefined

abbrev pub or_rejected : {A : Type 0} → Option A → Outcome A
or_rejected none = rejected
or_rejected (some a) = done a

abbrev pub or_undefined : {A : Type 0} → Option A → Outcome A
or_undefined none = undefined
or_undefined (some a) = done a

-- An `int` where a 32-bit unsigned number is wanted.
abbrev pub to_guint : ℤ → ℕ
to_guint (pos n) = n % 2 ^ 32
to_guint (negsuc n) = 2 ^ 32 - 1 - n

-- The loop over `candidate_type_name`.
unfoldable pub find_type : ℕ → List Text → Text → Option ℕ
unfolding text_eq
find_type i [] token = none
find_type i (name ∷ names) token =
    if text_eq token name then some i else find_type (i + 1) names token

module _ {Address : Type 0} (g : Glib) (lib : Addresses Address) where
  -- The fields of a candidate, once there are five of them.
  pub parse_fields : (f prio ip port type_name : Text) → ℕ → Outcome (Candidate Address)
  parse_fields f prio ip port type_name stream = do
    ntype ← or_rejected (find_type 0 candidate_type_name type_name)
    priority ← or_undefined (atoi prio)
    addr ← or_rejected (lib.set_from_string ip)
    port_number ← or_undefined (atoi port)
    done (record {
      kind = ntype;
      transport = udp;
      addr = lib.set_port addr (to_guint port_number);
      priority = to_guint priority;
      stream_id = stream;
      component_id = 1;
      foundation = take (lib.max_foundation - 1) f;
    })

  pub parse_tokens : List Text → ℕ → Outcome (Candidate Address)
  parse_tokens (f ∷ prio ∷ ip ∷ port ∷ type_name ∷ []) stream =
      parse_fields f prio ip port type_name stream
  parse_tokens _ stream = rejected

  pub parse_candidate : Text → ℕ → Outcome (Candidate Address)
  parse_candidate scand stream = parse_tokens (g.strsplit scand comma 5) stream

  -- The `for` of `parse_remote_data`; candidates are put in front of those read before.
  pub read_args :
      List Text
      → ℕ
      → (ufrag passwd : Option Text) → List (Candidate Address)
      → Outcome (Option Text × Option Text × List (Candidate Address))
  read_args [] stream ufrag passwd cands = done (ufrag, passwd, cands)
  read_args ([] ∷ args) stream ufrag passwd cands = read_args args stream ufrag passwd cands
  read_args ((c ∷ cs) ∷ args) stream none passwd cands =
      read_args args stream (some (c ∷ cs)) passwd cands
  read_args ((c ∷ cs) ∷ args) stream (some u) none cands =
      read_args args stream (some u) (some (c ∷ cs)) cands
  read_args ((c ∷ cs) ∷ args) stream (some u) (some p) cands =
      parse_candidate (c ∷ cs) stream >>= λ cand.
      read_args args stream (some u) (some p) (cand ∷ cands)

-- What libnice answers.
pub record Agent (Address : Type 0) : Type 0 where
  pub set_remote_credentials : Text → Text → Bool
  pub set_remote_candidates : List (Candidate Address) → ℤ
  pub local_credentials : Option (Text × Text)
  pub local_candidates : List (Candidate Address)

-- A call to libnice.
pub data AgentCall (Address : Type 0) : Type 0 where
  credentials : Text → Text → AgentCall Address
  candidates : List (Candidate Address) → AgentCall Address

module _ {Address : Type 0} (agent : Agent Address) where
  -- Whether it returned `EXIT_SUCCESS`, and the calls made.
  pub hand_over : Text → Text → List (Candidate Address) → Bool × List (AgentCall Address)
  hand_over ufrag passwd cands =
      if agent.set_remote_credentials ufrag passwd
      then (
        not (ltb_ℤ (agent.set_remote_candidates cands) (pos 1)),
        credentials ufrag passwd ∷ candidates cands ∷ [],
      )
      else (false, credentials ufrag passwd ∷ [])

  pub check_args :
      Option Text × Option Text × List (Candidate Address) → Bool × List (AgentCall Address)
  check_args (some ufrag, some passwd, c ∷ cs) = hand_over ufrag passwd (c ∷ cs)
  check_args _ = (false, [])

  pub settle :
      Outcome (Option Text × Option Text × List (Candidate Address))
      → Outcome (Bool × List (AgentCall Address))
  settle (done r) = done (check_args r)
  settle rejected = done (false, [])
  settle undefined = undefined

module _ {Address : Type 0} (lib : Addresses Address) where
  -- ` %s,%u,%s,%u,%s` for each candidate
  pub print_candidate : Candidate Address → Outcome Text
  print_candidate c = do
    name ← or_undefined (get_elem? candidate_type_name c.kind)
    done (
        c.foundation
        ++ (comma
            ∷ (decimal c.priority
                ++ (comma
                    ∷ (lib.to_string c.addr
                        ++ (comma ∷ (decimal (lib.get_port c.addr) ++ (comma ∷ name))))))))

  pub print_candidates : List (Candidate Address) → Outcome Text
  print_candidates [] = done (10 ∷ [])
  print_candidates (c ∷ cs) = do
    text ← print_candidate c
    rest ← print_candidates cs
    done (b' ' ∷ (text ++ rest))

module _ {Address : Type 0} (g : Glib) (lib : Addresses Address) (agent : Agent Address) where
  pub parse_remote_data : ℕ → Text → Outcome (Bool × List (AgentCall Address))
  parse_remote_data stream line =
      settle agent (read_args g lib (g.strsplit_set line blanks) stream none none [])

module _ {Address : Type 0} (lib : Addresses Address) (agent : Agent Address) where
  pub print_with : Option (Text × Text) → List (Candidate Address) → Outcome Text
  print_with none cands = rejected
  print_with (some (ufrag, passwd)) [] = rejected
  print_with (some (ufrag, passwd)) (c ∷ cs) = do
    text ← print_candidates lib (c ∷ cs)
    done (ufrag ++ (b' ' ∷ (passwd ++ text)))

  -- What is written to stdout, in one piece; `rejected` is `EXIT_FAILURE` with nothing written.
  pub print_local_data : Outcome Text
  print_local_data = print_with agent.local_credentials agent.local_candidates
