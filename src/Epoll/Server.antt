-- ===== src/Epoll/Server.antt =====
-- epoll/server.c, `main`: the listening socket, and the loop over `epoll_wait`.
--
-- The calls that only `main` makes are the record `Startup`. The `while (1)` of `main` runs on the
-- fuel `rounds`.
pub mod LevelTriggered
mod Tests
use c_practice.Base.{
  ℕ, zero, suc, Bool, true, false, not, Option, none, some, List, [], ◌∷◌, if◌then◌else◌,
}
use c_practice.Base.Int.{ℤ, pos, negsuc, ltb_ℤ}
use c_practice.Base.Text.{Text}
use c_practice.Epoll.{
  System, EpollEvent, Message, epoll_failure, eq_fd, addfd, Run, then_run, lt, et,
}

-- `struct sockaddr_in`, of the family AF_INET
pub record Address : Type 0 where
  pub sin_addr : ℕ
  pub sin_port : ℕ

pub record Startup (K : Type 0) : Type 0 where
  pub atoi : Text → ℤ
  pub htons : ℤ → ℕ
  pub inet_pton : Text → Option ℕ
  pub socket : K → ℤ × K
  pub bind : ℤ → Address → K → ℤ × K
  pub listen : ℤ → (backlog : ℕ) → K → ℤ × K
  pub epoll_create : ℕ → K → ℤ × K

-- The usage is printed and 1 returned; an assertion fails; or 0 is returned.
pub data Exit (K : Type 0) : Type 0 where
  usage : Exit K
  assertion_failed : Exit K
  returned : List Message → K → Exit K

abbrev pub max_event_number : ℕ
max_event_number = 1024

-- An `int` as a condition.
abbrev pub truth : ℤ → Bool
truth n = not (eq_fd n (pos 0))

-- `bzero`, and an `inet_pton` of which the result is not read: the address stays 0 if it fails.
abbrev pub parsed : Option ℕ → ℕ
parsed none = 0
parsed (some a) = a

module _ {K : Type 0} where
  abbrev pub asserted : Bool → Option (Exit K) → Option (Exit K)
  asserted false rest = some assertion_failed
  asserted true rest = rest

  -- What follows the loop, `close` and `return 0`.
  abbrev pub close_and_return : (K → K) → Run K → Option (Exit K)
  close_and_return close none = none
  close_and_return close (some (ms, k)) = some (returned ms (close k))

module _ {K : Type 0} (sys : System K) where
  unfoldable pub handle : ℕ → (is_et : ℤ) → (epollfd listenfd : ℤ) → List EpollEvent → K → Run K
  handle fuel is_et epollfd listenfd events k =
      if truth is_et
      then et sys fuel epollfd listenfd events k
      else lt sys epollfd listenfd events k

  abbrev pub after_wait :
      (List EpollEvent → K → Run K) → (K → Run K) → Option (List EpollEvent) × K → Run K
  after_wait handler again (none, k) = some (epoll_failure ∷ [], k)
  after_wait handler again (some events, k) = then_run (handler events k) again

  -- The `while (1)` of `main`.
  unfoldable pub main_loop : (rounds fuel : ℕ) → (is_et : ℤ) → (epollfd listenfd : ℤ) → K → Run K
  main_loop zero fuel is_et epollfd listenfd k = none
  main_loop (suc rounds) fuel is_et epollfd listenfd k =
      after_wait (handle fuel is_et epollfd listenfd) (main_loop rounds fuel is_et epollfd listenfd)
        (sys.epoll_wait epollfd max_event_number k)

  module _ (startup : Startup K) where
    -- From `socket` on.
    unfoldable pub serve : (rounds fuel : ℕ) → (is_et : ℤ) → Address → K → Option (Exit K)
    serve rounds fuel is_et address k =
        let (listenfd, k) = startup.socket k in
        asserted (not (ltb_ℤ listenfd (pos 0))) (
          let (ret, k) = startup.bind listenfd address k in
          asserted (not (eq_fd ret (negsuc 0))) (
            let (ret, k) = startup.listen listenfd 5 k in
            asserted (not (eq_fd ret (negsuc 0))) (
              let (epollfd, k) = startup.epoll_create 5 k in
              asserted (not (eq_fd epollfd (negsuc 0))) (
                close_and_return (sys.close listenfd) (
                  main_loop rounds fuel is_et epollfd listenfd
                    (addfd sys epollfd listenfd true k))))))

    -- `argc == 4`, for what follows the third of the arguments.
    abbrev pub mode : List Text → ℤ
    mode (m ∷ []) = startup.atoi m
    mode _ = pos 0

    unfoldable pub main : (rounds fuel : ℕ) → (argv : List Text) → K → Option (Exit K)
    main rounds fuel (name ∷ ip ∷ port ∷ rest) k =
        serve rounds fuel (mode rest)
          (record {
            sin_addr = parsed (startup.inet_pton ip);
            sin_port = startup.htons (startup.atoi port);
          })
          k
    main rounds fuel _ k = some usage
