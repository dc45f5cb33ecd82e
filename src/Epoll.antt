-- ===== src/Epoll.antt =====
-- epoll/server.c: a server that prints what it receives, with level-triggered (`lt`) or
-- edge-triggered (`et`) notification.
--
-- `main` is in Epoll.Server. The operating system is the record `System`: its calls change a state `K` of any type, and
-- Epoll.Laws states what is relied on. What is printed is the list of `Message`s. The `while (1)` of
-- `et` runs on fuel. A descriptor is an `int`; where `recv` returns -1 it has an `Errno`.
pub mod Laws
pub mod Reads
pub mod Drains
pub mod Server
mod Tests
use c_practice.Base.{
  ℕ, zero, suc, ◌-◌, Bool, true, false, ◌&&◌, Option, none, some, List, [], ◌∷◌, ◌++◌, ◌==◌,
  if◌then◌else◌, length,
}
use c_practice.Base.Int.{ℤ, pos, negsuc}
use c_practice.Base.Text.{Text, c_string}

pub data Errno : Type 0 where
  eagain ewouldblock other_error : Errno

-- The result of `recv`: the bytes, none of them at the end of the stream, or an error.
pub data Received : Type 0 where
  bytes_read : Text → Received
  failed : Errno → Received

-- The flags of `fcntl`: `O_NONBLOCK`, and the others.
pub record Flags : Type 0 where
  pub nonblock : Bool
  pub others : ℕ

pub record EpollEvent : Type 0 where
  pub fd : ℤ
  pub epollin : Bool
  pub epollet : Bool

pub record System (K : Type 0) : Type 0 where
  pub get_flags : ℤ → K → Flags
  pub set_flags : ℤ → Flags → K → K
  pub epoll_add : (epollfd fd : ℤ) → EpollEvent → K → K
  pub epoll_wait : ℤ → (maxevents : ℕ) → K → Option (List EpollEvent) × K
  pub accept : ℤ → K → ℤ × K
  pub recv : ℤ → ℕ → K → Received × K
  pub close : ℤ → K → K

-- `event trigger once`, `get %d bytes of content:%s`, `read later`, `something else happend` and
-- `epoll failure`
pub data Message : Type 0 where
  triggered : Message
  content : ℕ → Text → Message
  read_later : Message
  something_else : Message
  epoll_failure : Message

abbrev pub buffer_size : ℕ
buffer_size = 10

abbrev pub eq_fd : ℤ → ℤ → Bool
eq_fd (pos m) (pos n) = m == n
eq_fd (negsuc m) (negsuc n) = m == n
eq_fd _ _ = false

-- What was printed, and the state of the system; `none` if the fuel ended.
abbrev pub Run : Type 0 → Type 0
Run K = Option (List Message × K)

module _ {K : Type 0} where
  -- Prints before what follows.
  abbrev pub print : Message → Run K → Run K
  print m none = none
  print m (some (ms, k)) = some (m ∷ ms, k)

  abbrev pub print_before : List Message → Run K → Run K
  print_before ms none = none
  print_before ms (some (ns, k)) = some (ms ++ ns, k)

  abbrev pub then_run : Run K → (K → Run K) → Run K
  then_run none next = none
  then_run (some (ms, k)) next = print_before ms (next k)

module _ {K : Type 0} (sys : System K) where
  -- The flags that were set before are returned.
  unfoldable pub setnonblocking : ℤ → K → Flags × K
  setnonblocking fd k =
      let old_option = sys.get_flags fd k in
      (old_option, sys.set_flags fd (record old_option { nonblock = true }) k)

  unfoldable pub addfd : (epollfd fd : ℤ) → Bool → K → K
  addfd epollfd fd enable_et k =
      (setnonblocking fd
        (sys.epoll_add epollfd fd (record { fd = fd; epollin = true; epollet = enable_et }) k)).1

  -- The branch for the listening socket.
  unfoldable pub accept_connection : (epollfd listenfd : ℤ) → Bool → K → K
  accept_connection epollfd listenfd enable_et k =
      let (connfd, k') = sys.accept listenfd k in addfd epollfd connfd enable_et k'

  abbrev pub after_recv : ℤ → Received × K → Run K
  after_recv sockfd (failed e, k) = some ([], sys.close sockfd k)
  after_recv sockfd (bytes_read [], k) = some ([], sys.close sockfd k)
  after_recv sockfd (bytes_read (b ∷ bs), k) =
      some (content (length (b ∷ bs)) (c_string (b ∷ bs)) ∷ [], k)

  -- One round of the `for` of `lt`.
  unfoldable pub lt_event : (epollfd listenfd : ℤ) → EpollEvent → K → Run K
  lt_event epollfd listenfd event k =
      if eq_fd event.fd listenfd
      then some ([], accept_connection epollfd listenfd false k)
      else if event.epollin
      then print triggered (after_recv event.fd (sys.recv event.fd (buffer_size - 1) k))
      else some (something_else ∷ [], k)

  unfoldable pub lt : (epollfd listenfd : ℤ) → List EpollEvent → K → Run K
  lt epollfd listenfd [] k = some ([], k)
  lt epollfd listenfd (event ∷ events) k =
      then_run (lt_event epollfd listenfd event k) (lt epollfd listenfd events)

  -- What follows a `recv` in the `while (1)` of `et`; `again` is the rest of the loop.
  abbrev after_et_recv : (K → Run K) → ℤ → Received × K → Run K
  after_et_recv again sockfd (failed eagain, k) = some (read_later ∷ [], k)
  after_et_recv again sockfd (failed ewouldblock, k) = some (read_later ∷ [], k)
  after_et_recv again sockfd (failed other_error, k) = some ([], sys.close sockfd k)
  after_et_recv again sockfd (bytes_read [], k) = again (sys.close sockfd k)
  after_et_recv again sockfd (bytes_read (b ∷ bs), k) =
      print (content (length (b ∷ bs)) (c_string (b ∷ bs))) (again k)

  -- The `while (1)` of `et`.
  unfoldable pub et_loop : ℕ → ℤ → K → Run K
  et_loop zero sockfd k = none
  et_loop (suc fuel) sockfd k =
      after_et_recv (et_loop fuel sockfd) sockfd (sys.recv sockfd (buffer_size - 1) k)

  unfoldable pub et_event : ℕ → (epollfd listenfd : ℤ) → EpollEvent → K → Run K
  et_event fuel epollfd listenfd event k =
      if eq_fd event.fd listenfd
      then some ([], accept_connection epollfd listenfd true k)
      else if event.epollin
      then print triggered (et_loop fuel event.fd k)
      else some (something_else ∷ [], k)

  unfoldable pub et : ℕ → (epollfd listenfd : ℤ) → List EpollEvent → K → Run K
  et fuel epollfd listenfd [] k = some ([], k)
  et fuel epollfd listenfd (event ∷ events) k =
      then_run (et_event fuel epollfd listenfd event k) (et fuel epollfd listenfd events)
