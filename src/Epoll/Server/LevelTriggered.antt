-- ===== src/Epoll/Server/LevelTriggered.antt =====
-- In the level-triggered mode `main` serves every notification that comes, and returns 0.
use c_practice.Base.{
  ℕ, zero, suc, ◌+◌, ◌≤◌, ◌<◌, ◌≡◌, refl, sym, ap, ◌∙◌, Bool, true, false, none, some, List, [],
  ◌∷◌, ◌++◌, arith, length, Bool-cases, inl, inr,
}
use c_practice.Base.Buffer.{append_assoc}
use c_practice.Base.Counting.{one, count}
use c_practice.Base.Int.{ℤ, pos, negsuc, ltb_ℤ}
use c_practice.Base.Text.{Text}
use c_practice.Epoll.{
  System, Flags, EpollEvent, Message, triggered, epoll_failure, eq_fd, Received, bytes_read, failed,
  after_recv, addfd, setnonblocking, accept_connection, Run, lt_event, lt,
}
use c_practice.Epoll.Server.{
  Startup, Address, returned, max_event_number, handle, main_loop, serve, mode, main,
}

-- How often `accept` was called, and the events that `epoll_wait` is going to report.
abbrev pub View : Type 0
View = ℕ × List (List EpollEvent)

abbrev pub listens : ℤ → EpollEvent → Bool
listens listenfd event = eq_fd event.fd listenfd

-- The notifications for the listening socket.
abbrev pub notified : ℤ → List (List EpollEvent) → ℕ
notified listenfd [] = 0
notified listenfd (events ∷ script) = count (listens listenfd) events + notified listenfd script

abbrev pub Fitting : List (List EpollEvent) → Type 0
Fitting [] = Unit
Fitting (events ∷ script) = (length events ≤ max_event_number) × Fitting script

module _ {K : Type 0} (sys : System K) (startup : Startup K) where
  -- The calls that set the sockets up succeed; `epoll_wait` reports what the view says, and then
  -- fails; only `accept` is counted.
  pub record ServerLaws (listenfd epollfd : ℤ) (view : K → View) : Type 0 where
    pub socket : (k : K) → (l : K) × (startup.socket k ≡ (listenfd, l)) × (view l ≡ view k)
    pub bind :
        (a : Address) (k : K)
        → (l : K) × (startup.bind listenfd a k ≡ (pos 0, l)) × (view l ≡ view k)
    pub listen :
        (n : ℕ) (k : K) → (l : K) × (startup.listen listenfd n k ≡ (pos 0, l)) × (view l ≡ view k)
    pub epoll_create :
        (n : ℕ) (k : K) → (l : K) × (startup.epoll_create n k ≡ (epollfd, l)) × (view l ≡ view k)
    pub set_flags : (fd : ℤ) (f : Flags) (k : K) → view (sys.set_flags fd f k) ≡ view k
    pub epoll_add : (ep fd : ℤ) (e : EpollEvent) (k : K) → view (sys.epoll_add ep fd e k) ≡ view k
    pub recv : (fd : ℤ) (n : ℕ) (k : K) → view (sys.recv fd n k).1 ≡ view k
    pub close : (fd : ℤ) (k : K) → view (sys.close fd k) ≡ view k
    pub accept : (fd : ℤ) (k : K) → view (sys.accept fd k).1 ≡ (1 + (view k).0, (view k).1)
    pub wait_ready :
        (n : ℕ) (k : K) (a : ℕ) (events : List EpollEvent) (script : List (List EpollEvent))
        → length events ≤ n
        → view k ≡ (a, events ∷ script)
        → (l : K) × (sys.epoll_wait epollfd n k ≡ (some events, l)) × (view l ≡ (a, script))
    pub wait_failed :
        (n : ℕ) (k : K) (a : ℕ)
        → view k ≡ (a, [])
        → (l : K) × (sys.epoll_wait epollfd n k ≡ (none, l)) × (view l ≡ (a, []))

  module _ {listenfd epollfd : ℤ} {view : K → View} (laws : ServerLaws listenfd epollfd view)
      (open_fd : ltb_ℤ listenfd (pos 0) ≡ false) (epoll_fd : eq_fd epollfd (negsuc 0) ≡ false) where
    -- A run that ends, and what is seen of its state.
    abbrev Seen : Run K → View → Type 0
    Seen r v = (ms : List Message) × (k : K) × (r ≡ some (ms, k)) × (view k ≡ v)

    addfd-view : (ep fd : ℤ) (et : Bool) (k : K) → view (addfd sys ep fd et k) ≡ view k
    unfolding addfd setnonblocking
    addfd-view ep fd et k = laws.set_flags fd _ _ ∙ laws.epoll_add ep fd _ k

    accept_connection-view :
        (ep : ℤ) (et : Bool) (k : K)
        → view (accept_connection sys ep listenfd et k) ≡ (1 + (view k).0, (view k).1)
    unfolding accept_connection
    accept_connection-view ep et k =
        addfd-view ep (sys.accept listenfd k).0 et (sys.accept listenfd k).1
        ∙ laws.accept listenfd k

    after_recv-Seen : (fd : ℤ) (r : Received) (k : K) → Seen (after_recv sys fd (r, k)) (view k)
    after_recv-Seen fd (failed e) k = ([], sys.close fd k, refl, laws.close fd k)
    after_recv-Seen fd (bytes_read []) k = ([], sys.close fd k, refl, laws.close fd k)
    after_recv-Seen fd (bytes_read (b ∷ bs)) k = (_, k, refl, refl)

    zero_more : (k : K) → view k ≡ (0 + (view k).0, (view k).1)
    zero_more k = let e : (view k).0 ≡ 0 + (view k).0 = omega arith in ap (λ n. (n, (view k).1)) e

    lt_event-Seen :
        (event : EpollEvent) (k : K)
        → Seen
            (lt_event sys epollfd listenfd event k)
            (one (listens listenfd event) + (view k).0, (view k).1)
    unfolding lt_event
    lt_event-Seen event k = elim (Bool-cases (eq_fd event.fd listenfd)) [
      | inl first ↦ rw first ([], _, refl, accept_connection-view epollfd false k)
      | inr next ↦ elim (Bool-cases event.epollin) [
        | inl ready ↦
            let (ms, l, ran, saw) =
              after_recv-Seen event.fd (sys.recv event.fd 9 k).0 (sys.recv event.fd 9 k).1 in
            rw (next, ready)
              (triggered ∷ ms, l, rw ran refl, saw ∙ laws.recv event.fd 9 k ∙ zero_more k)
        | inr other ↦ rw (next, other) (_, k, refl, zero_more k)
      ]
    ]

    recount :
        (r : Run K) (script : List (List EpollEvent)) (m n : ℕ)
        → m ≡ n
        → Seen r (m, script)
        → Seen r (n, script)
    recount r script m n e (ms, k, ran, saw) = (ms, k, ran, saw ∙ ap (λ i. (i, script)) e)

    lt-Seen :
        (events : List EpollEvent) (k : K) (a : ℕ) (script : List (List EpollEvent))
        → view k ≡ (a, script)
        → Seen (lt sys epollfd listenfd events k) (a + count (listens listenfd) events, script)
    unfolding lt
    lt-Seen [] k a script saw = recount _ script a (a + 0) (omega arith) ([], k, refl, saw)
    lt-Seen (event ∷ events) k a script saw =
        let one_more = one (listens listenfd event) in
        let (ms, l, ran, was) = lt_event-Seen event k in
        let (ns, l', ran', saw') =
          lt-Seen events l (one_more + a) script (was ∙ ap (λ v. (one_more + v.0, v.1)) saw) in
        recount _ script (one_more + a + count (listens listenfd) events) _ (omega arith)
          (ms ++ ns, l', rw ran (rw ran' refl), saw')

    main_loop-Seen :
        (rounds fuel : ℕ) (k : K) (a : ℕ) (script : List (List EpollEvent))
        → length script < rounds
        → Fitting script
        → view k ≡ (a, script)
        → (ms : List Message) × (l : K) × (main_loop sys rounds fuel (pos 0) epollfd listenfd k
            ≡ some (ms ++ epoll_failure ∷ [], l))
          × (view l ≡ (a + notified listenfd script, []))
    unfolding main_loop handle
    main_loop-Seen zero fuel k a script enough fits saw = absurd (omega arith)
    main_loop-Seen (suc rounds) fuel k a [] enough fits saw =
        let (l, failed_wait, saw') = laws.wait_failed max_event_number k a saw in
        let none_more : a ≡ a + 0 = omega arith in
        ([], l, rw failed_wait refl, saw' ∙ ap (λ n. (n, [])) none_more)
    main_loop-Seen (suc rounds) fuel k a (events ∷ script) enough fits saw =
        let (l, waited, saw') = laws.wait_ready max_event_number k a events script fits.0 saw in
        let (ms, l', ran, saw'') = lt-Seen events l a script saw' in
        let (ns, l'', ran', seen) =
          main_loop-Seen rounds fuel l' (a + count (listens listenfd) events) script (omega arith)
            fits.1 saw'' in
        let whole : a + count (listens listenfd) events + notified listenfd script
            ≡ a + (count (listens listenfd) events + notified listenfd script) =
          omega arith in
        (
          ms ++ ns,
          l'',
          rw waited (
              rw ran (
                rw ran' (ap (λ m. some (m, l'')) (sym (append_assoc ms ns (epoll_failure ∷ [])))))),
          seen ∙ ap (λ n. (n, [])) whole,
        )

    serve-Served :
        (rounds fuel : ℕ) (address : Address) (k : K) (a : ℕ) (script : List (List EpollEvent))
        → length script < rounds
        → Fitting script
        → view k ≡ (a, script)
        → (ms : List Message) × (l : K) × (serve sys startup rounds fuel (pos 0) address k
            ≡ some (returned (ms ++ epoll_failure ∷ []) l))
          × (view l ≡ (a + notified listenfd script, []))
    unfolding serve
    serve-Served rounds fuel address k a script enough fits saw =
        let (k1, made, saw1) = laws.socket k in
        let (k2, bound, saw2) = laws.bind address k1 in
        let (k3, listening, saw3) = laws.listen 5 k2 in
        let (k4, created, saw4) = laws.epoll_create 5 k3 in
        let (ms, l, ran, seen) =
          main_loop-Seen rounds fuel (addfd sys epollfd listenfd true k4) a script enough fits
            (addfd-view epollfd listenfd true k4 ∙ saw4 ∙ saw3 ∙ saw2 ∙ saw1 ∙ saw) in
        (
          ms,
          sys.close listenfd l,
          rw made (rw open_fd (rw bound (rw listening (rw created (rw epoll_fd (rw ran refl)))))),
          laws.close listenfd l ∙ seen,
        )

    -- In the level-triggered mode, where the calls that set the sockets up succeed and epoll_wait
    -- reports a list of events and then fails, main returns 0: its last message is that of the
    -- failure, and accept was called once for each notification of the listening socket, no more
    -- often.
    pub main-Served :
        (rounds fuel : ℕ) (name ip port : Text) (rest : List Text) (k : K) (a : ℕ)
        (script : List (List EpollEvent))
        → mode sys startup rest ≡ pos 0
        → length script < rounds
        → Fitting script
        → view k ≡ (a, script)
        → (ms : List Message) × (l : K) × (main sys startup rounds fuel (name ∷ ip ∷ port ∷ rest) k
            ≡ some (returned (ms ++ epoll_failure ∷ []) l))
          × (view l ≡ (a + notified listenfd script, []))
    unfolding main
    main-Served rounds fuel name ip port rest k a script level enough fits saw =
        rw level (serve-Served rounds fuel _ k a script enough fits saw)
