-- ===== src/Epoll/Laws.antt =====
-- What the server relies on of stream sockets that do not block.
use c_practice.Base.{ℕ, ◌≤◌, ◌<◌, ◌≡◌, ◌≢◌, [], ◌∷◌, ◌++◌, length}
use c_practice.Base.Int.{ℤ}
use c_practice.Base.Text.{Text}
use c_practice.Epoll.{System, eagain, other_error, bytes_read, failed}

-- What follows the bytes that have arrived: nothing yet, or the end of the stream.
pub data Tail : Type 0 where
  waiting finished : Tail

-- A descriptor: the bytes not yet read and what follows them, or not open.
pub data Stream : Type 0 where
  open_stream : Text → Tail → Stream
  closed : Stream

module _ {K : Type 0} (sys : System K) where
  -- `recv` takes at least one byte of those that are there, and no more than asked for; it then
  -- reports that it would block, or the end of the stream. A closed descriptor is an error.
  pub record SocketLaws (stream : ℤ → K → Stream) : Type 0 where
    pub recv_bytes :
        (fd : ℤ) (n : ℕ) (k : K) (b : ℕ) (bs : Text) (t : Tail)
        → 0 < n
        → stream fd k ≡ open_stream (b ∷ bs) t
        → (taken rest : Text) × (taken ≢ [])
          × (length taken ≤ n)
          × (b ∷ bs ≡ taken ++ rest)
          × (k' : K) × (sys.recv fd n k ≡ (bytes_read taken, k'))
          × (stream fd k' ≡ open_stream rest t)
    pub recv_waiting :
        (fd : ℤ) (n : ℕ) (k : K)
        → stream fd k ≡ open_stream [] waiting
        → (k' : K) × (sys.recv fd n k ≡ (failed eagain, k'))
          × (stream fd k' ≡ open_stream [] waiting)
    pub recv_finished :
        (fd : ℤ) (n : ℕ) (k : K)
        → stream fd k ≡ open_stream [] finished
        → (k' : K) × (sys.recv fd n k ≡ (bytes_read [], k'))
          × (stream fd k' ≡ open_stream [] finished)
    pub recv_closed :
        (fd : ℤ) (n : ℕ) (k : K)
        → stream fd k ≡ closed
        → (k' : K) × (sys.recv fd n k ≡ (failed other_error, k')) × (stream fd k' ≡ closed)
    pub close_closed : (fd : ℤ) (k : K) → stream fd (sys.close fd k) ≡ closed
