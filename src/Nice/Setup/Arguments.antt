-- ===== src/Nice/Setup/Arguments.antt =====
-- What `main` makes of its arguments.
use c_practice.Base.{ℕ, ◌≡◌, Bool, true, false, Option, none, some, List, [], ◌∷◌}
use c_practice.Base.Int.{ℤ}
use c_practice.Base.Text.{Text, bytes, atoi}
use c_practice.Nice.{to_guint}
use c_practice.Nice.Setup.{Options}

-- `0` or `1`
abbrev pub flag : Bool → Text
flag false = bytes "0"
flag true = bytes "1"

-- The port, 3478 if none is given.
abbrev pub Port : List Text → ℕ → Type 0
Port [] p = p ≡ 3478
Port (port ∷ []) p = (n : ℤ) × (atoi port ≡ some n) × (p ≡ to_guint n)
Port _ p = ⊥

abbrev pub Stun : List Text → Option (Text × ℕ) → Type 0
Stun [] stun = stun ≡ none
Stun (host ∷ port) stun = (p : ℕ) × (stun ≡ some (host, p)) × Port port p

-- What the arguments stand for.
abbrev pub Denotes : List Text → Options → Type 0
Denotes (name ∷ first ∷ rest) o = (first ≡ flag o.controlling) × Stun rest o.stun
Denotes _ o = ⊥
