-- ===== src/Nice/Laws.antt =====
-- What the exchange relies on: GLib's documented splitting, and the texts of a candidate.
use c_practice.Base.{
  ℕ, ◌-◌, ◌^◌, ◌≤◌, ◌<◌, ◌≡◌, ◌≢◌, false, some, List, [], ◌∷◌, ◌++◌, get_elem?, length,
}
use c_practice.Base.Text.{Text, has_byte, Free}
use c_practice.Nice.{Glib, Addresses, Candidate, comma, blanks, candidate_type_name, udp}

-- The pieces, each with the delimiter byte behind it, and the text after the last delimiter.
abbrev pub joined : List (Text × ℕ) → Text → Text
joined [] last = last
joined ((piece, d) ∷ rest) last = piece ++ (d ∷ joined rest last)

abbrev pub pieces : List (Text × ℕ) → Text → List Text
pieces [] last = last ∷ []
pieces ((piece, d) ∷ rest) last = piece ∷ pieces rest last

-- Every piece is free of the delimiters, and stands before one of them.
abbrev pub Delimited : List ℕ → List (Text × ℕ) → Type 0
Delimited ds [] = Unit
Delimited ds ((piece, d) ∷ rest) = Free ds piece × (has_byte d ds ≢ false) × Delimited ds rest

-- `g_strsplit` and `g_strsplit_set` cut a text at its delimiters, an empty piece between two
-- neighbours included; the first stops at `max_tokens` pieces. Only the empty text has no piece.
pub record GlibLaws (g : Glib) : Type 0 where
  pub strsplit_joined :
      (d max : ℕ) (parts : List (Text × ℕ)) (last : Text)
      → parts ≢ []
      → length parts < max
      → Delimited (d ∷ []) parts
      → Free (d ∷ []) last
      → g.strsplit (joined parts last) d max ≡ pieces parts last
  pub strsplit_set_joined :
      (ds : List ℕ) (parts : List (Text × ℕ)) (last : Text)
      → parts ≢ []
      → Delimited ds parts
      → Free ds last
      → g.strsplit_set (joined parts last) ds ≡ pieces parts last

-- A candidate that survives the exchange: its type has a name, its foundation fits, its priority is
-- an `int`, its texts hold no delimiter, and libnice reads back the text of its address.
pub record Exchanges {Address : Type 0} (lib : Addresses Address) (c : Candidate Address)
    : Type 0 where
  pub name : Text
  pub known : get_elem? candidate_type_name c.kind ≡ some name
  pub fits : length c.foundation ≤ lib.max_foundation - 1
  pub priority : c.priority < 2 ^ 31
  pub port : lib.get_port c.addr < 2 ^ 16
  pub foundation : Free (comma ∷ blanks) c.foundation
  pub ip : Free (comma ∷ blanks) (lib.to_string c.addr)
  pub address : Address
  pub reads : lib.set_from_string (lib.to_string c.addr) ≡ some address
  pub port_back : lib.set_port address (lib.get_port c.addr) ≡ c.addr

-- The candidate as the other side holds it.
abbrev pub received : {Address : Type 0} → ℕ → Candidate Address → Candidate Address
received stream c = record c { stream_id = stream; component_id = 1; transport = udp }
