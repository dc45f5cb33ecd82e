-- ===== src/Epoll/Server/Tests.antt =====
-- The server over a system that reports a fixed list of events.
use c_practice.Base.{
  ℕ, ◌+◌, ◌≡◌, refl, true, false, none, some, List, [], ◌∷◌, ◌++◌, arith, length, ap, Option,
}
use c_practice.Base.Int.{pos}
use c_practice.Base.Text.{Text, bytes, c_string}
use c_practice.Epoll.{
  System, EpollEvent, Message, triggered, content, epoll_failure, bytes_read, lt, lt_event,
  accept_connection, addfd, setnonblocking,
}
use c_practice.Epoll.Server.{Startup, returned, usage, handle, main_loop, serve, main}
use c_practice.Epoll.Server.LevelTriggered.{View, ServerLaws, notified, main-Served}

abbrev next_events : View → Option (List EpollEvent) × View
next_events (a, []) = (none, (a, []))
next_events (a, events ∷ script) = (some events, (a, script))

-- Each `recv` finds the same bytes.
abbrev scripted : System View
scripted = record {
  get_flags = λ fd k. record { nonblock = false; others = 2 };
  set_flags = λ fd f k. k;
  epoll_add = λ epollfd fd e k. k;
  epoll_wait = λ epollfd maxevents k. next_events k;
  accept = λ fd k. (pos 5, (1 + k.0, k.1));
  recv = λ fd n k. (bytes_read (bytes "hi"), k);
  close = λ fd k. k;
}

abbrev all_succeed : Startup View
all_succeed = record {
  atoi = λ t. pos (length t);
  htons = λ n. 6666;
  inet_pton = λ t. none;
  socket = λ k. (pos 3, k);
  bind = λ fd a k. (pos 0, k);
  listen = λ fd n k. (pos 0, k);
  epoll_create = λ n k. (pos 4, k);
}

scripted-ServerLaws : ServerLaws scripted all_succeed (pos 3) (pos 4) (λ k. k)
scripted-ServerLaws = record {
  socket = λ k. (k, refl, refl);
  bind = λ a k. (k, refl, refl);
  listen = λ n k. (k, refl, refl);
  epoll_create = λ n k. (k, refl, refl);
  set_flags = λ fd f k. refl;
  epoll_add = λ ep fd e k. refl;
  recv = λ fd n k. refl;
  close = λ fd k. refl;
  accept = λ fd k. refl;
  wait_ready = λ n k a events script fits e. ((a, script), ap next_events e, refl);
  wait_failed = λ n k a e. ((a, []), ap next_events e, refl);
}

abbrev readable : ℕ → EpollEvent
readable n = record { fd = pos n; epollin = true; epollet = false }

abbrev script : List (List EpollEvent)
script = (readable 3 ∷ []) ∷ (readable 5 ∷ readable 3 ∷ []) ∷ []

abbrev ip : Text
ip = bytes "localhost"

main_run :
    main scripted all_succeed 3 0 (bytes "server" ∷ ip ∷ bytes "6666" ∷ []) (0, script)
    ≡ some (returned (triggered ∷ content 2 (bytes "hi") ∷ epoll_failure ∷ []) (2, []))
unfolding main serve main_loop handle lt lt_event accept_connection addfd setnonblocking c_string
main_run = refl

too_few : main scripted all_succeed 3 0 (bytes "server" ∷ ip ∷ []) (0, script) ≡ some usage
unfolding main
too_few = refl

main-Served_example :
    (ms : List Message) × (l : View) × (main scripted all_succeed 3 0
        (bytes "server" ∷ ip ∷ bytes "6666" ∷ [])
        (0, script)
      ≡ some (returned (ms ++ epoll_failure ∷ []) l))
    × (l ≡ (0 + notified (pos 3) script, []))
main-Served_example =
    main-Served scripted all_succeed scripted-ServerLaws refl refl 3 0 (bytes "server") ip
      (bytes "6666") [] (0, script) 0 script refl (omega arith) (omega arith, (omega arith, tt))
      refl
