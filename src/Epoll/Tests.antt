-- ===== src/Epoll/Tests.antt =====
-- The server over a system with one socket, which keeps the laws.
use c_practice.Base.{
  ℕ, zero, suc, ◌+◌, ◌≤◌, ◌<◌, ◌≡◌, refl, sym, ap, ◌≢◌, true, false, none, some, List, [], ◌∷◌,
  ◌++◌, map, arith, take, drop, length, length-take, take-append-drop,
}
use c_practice.Base.Int.{pos}
use c_practice.Base.Text.{Text, bytes, c_string}
use c_practice.Epoll.{
  System, Received, bytes_read, failed, eagain, other_error, triggered, content, read_later,
  EpollEvent, lt, et, et_event, et_loop,
}
use c_practice.Epoll.Laws.{Stream, open_stream, closed, waiting, finished, SocketLaws}
use c_practice.Epoll.Reads.{shown, joined, Sized}
use c_practice.Epoll.Drains.{lt_calls, lt_shown, lt_goodbye, last_calls, goodbye, settled, et-lt}

abbrev socket_recv : ℕ → Stream → Received × Stream
socket_recv n (open_stream [] waiting) = (failed eagain, open_stream [] waiting)
socket_recv n (open_stream [] finished) = (bytes_read [], open_stream [] finished)
socket_recv n (open_stream (b ∷ bs) t) =
    (bytes_read (take n (b ∷ bs)), open_stream (drop n (b ∷ bs)) t)
socket_recv n closed = (failed other_error, closed)

abbrev one_socket : System Stream
one_socket = record {
  get_flags = λ fd k. record { nonblock = false; others = 2 };
  set_flags = λ fd f k. k;
  epoll_add = λ epollfd fd e k. k;
  epoll_wait = λ epollfd maxevents k. (none, k);
  accept = λ fd k. (pos 6, k);
  recv = λ fd n k. socket_recv n k;
  close = λ fd k. closed;
}

recv-some :
    (n : ℕ) (b : ℕ) (bs : Text) → 0 < n → (take n (b ∷ bs) ≢ []) × (length (take n (b ∷ bs)) ≤ n)
recv-some zero b bs lt = absurd (omega arith)
recv-some (suc n) b bs lt = ((λ e. cc), omega (arith, length-take n bs))

one_socket-SocketLaws : SocketLaws one_socket (λ fd k. k)
one_socket-SocketLaws = record {
  recv_bytes = λ fd n k b bs t lt e. (
    take n (b ∷ bs),
    drop n (b ∷ bs),
    (recv-some n b bs lt).0,
    (recv-some n b bs lt).1,
    sym (take-append-drop n (b ∷ bs)),
    open_stream (drop n (b ∷ bs)) t,
    ap (socket_recv n) e,
    refl,
  );
  recv_waiting = λ fd n k e. (open_stream [] waiting, ap (socket_recv n) e, refl);
  recv_finished = λ fd n k e. (open_stream [] finished, ap (socket_recv n) e, refl);
  recv_closed = λ fd n k e. (closed, ap (socket_recv n) e, refl);
  close_closed = λ fd k. refl;
}

abbrev event : EpollEvent
event = record { fd = pos 5; epollin = true; epollet = true }

abbrev line : Text
line = bytes "hello, world"

et-lt_example :
    (ps : List Text) × Sized ps
    × (joined ps ≡ line)
    × (k1 : Stream) × (et one_socket 20 (pos 4) (pos 3) (event ∷ []) (open_stream line finished)
        ≡ some (triggered ∷ (map shown ps ++ goodbye finished), k1))
    × (k1 ≡ settled finished)
    × (k2 : Stream) × (lt_calls one_socket
          (length ps + last_calls finished)
          (pos 4)
          (pos 3)
          event
          (open_stream line finished)
        ≡ some (lt_shown ps ++ lt_goodbye finished, k2))
    × (k2 ≡ settled finished)
et-lt_example =
    et-lt one_socket (pos 4) (pos 3) event refl refl one_socket-SocketLaws 20 line finished
      (open_stream line finished) (omega arith) refl

et-line :
    et one_socket 20 (pos 4) (pos 3) (event ∷ []) (open_stream line waiting)
    ≡ some (
      triggered ∷ content 9 (bytes "hello, wo") ∷ content 3 (bytes "rld") ∷ read_later ∷ [],
      open_stream [] waiting,
    )
unfolding et et_event et_loop c_string
et-line = refl
