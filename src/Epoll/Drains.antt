-- ===== src/Epoll/Drains.antt =====
-- Both ways of notification print everything that has arrived, in order, and leave the socket empty
-- or, at the end of the stream, closed.
use c_practice.Base.{
  ℕ, zero, suc, ◌+◌, ◌-◌, ◌≤◌, ◌≡◌, refl, sym, ap, ◌∙◌, true, false, none, some, List, [], ◌∷◌,
  ◌++◌, map, arith, length, append_nil,
}
use c_practice.Base.Int.{ℤ}
use c_practice.Base.Text.{Text}
use c_practice.Epoll.{
  System, bytes_read, Message, triggered, read_later, Run, print, print_before, then_run,
  EpollEvent, eq_fd, lt_event, lt, et_loop, et_event, et,
}
use c_practice.Epoll.Laws.{Stream, open_stream, closed, Tail, waiting, finished, SocketLaws}
use c_practice.Epoll.Reads.{
  shown, joined, Sized, print_all, print_all-some, Reads, et_loop-Reads, Reads-stream,
}

-- What `et` prints last, and the stream that both leave.
abbrev pub goodbye : Tail → List Message
goodbye waiting = read_later ∷ []
goodbye finished = []

abbrev pub settled : Tail → Stream
settled waiting = open_stream [] waiting
settled finished = closed

-- At the end of the stream `lt` is called once more.
abbrev pub last_calls : Tail → ℕ
last_calls waiting = 0
last_calls finished = 1

abbrev pub lt_goodbye : Tail → List Message
lt_goodbye waiting = []
lt_goodbye finished = triggered ∷ []

abbrev pub lt_shown : List Text → List Message
lt_shown [] = []
lt_shown (p ∷ ps) = triggered ∷ shown p ∷ lt_shown ps

print_all-none : {K : Type 0} (ms : List Message) → print_all {K = K} ms none ≡ none
print_all-none [] = refl
print_all-none (m ∷ ms) = ap (print m) (print_all-none ms)

print_before-all : {K : Type 0} (ms : List Message) (r : Run K) → print_before ms r ≡ print_all ms r
print_before-all ms none = sym (print_all-none ms)
print_before-all ms (some (ns, k)) = sym (print_all-some ms ns k)

module _ {K : Type 0} (sys : System K) where
  -- Calls of `lt` for one event, as long as the notification repeats.
  pub lt_calls : ℕ → (epollfd listenfd : ℤ) → EpollEvent → K → Run K
  lt_calls zero epollfd listenfd event k = some ([], k)
  lt_calls (suc n) epollfd listenfd event k =
      then_run (lt sys epollfd listenfd (event ∷ []) k) (lt_calls n epollfd listenfd event)

  module _ (epollfd listenfd : ℤ) (event : EpollEvent) (other : eq_fd event.fd listenfd ≡ false)
      (ready : event.epollin ≡ true) where
    lt-read :
        (b : ℕ) (bs : Text) (k l : K)
        → sys.recv event.fd 9 k ≡ (bytes_read (b ∷ bs), l)
        → lt sys epollfd listenfd (event ∷ []) k ≡ some (triggered ∷ shown (b ∷ bs) ∷ [], l)
    unfolding lt lt_event
    lt-read b bs k l got = rw other (rw ready (rw got refl))

    et-one :
        (fuel : ℕ) (ms : List Message) (k l : K)
        → et_loop sys fuel event.fd k ≡ some (ms, l)
        → et sys fuel epollfd listenfd (event ∷ []) k ≡ some (triggered ∷ ms, l)
    unfolding et et_event
    et-one fuel ms k l ran =
        rw other (rw ready (rw ran (ap (λ r. some (triggered ∷ r, l)) (append_nil ms))))

    lt_calls-Reads :
        (more : ℕ) (ps : List Text) (k k' : K)
        → Sized ps
        → Reads sys event.fd k ps k'
        → lt_calls (length ps + more) epollfd listenfd event k
          ≡ print_all (lt_shown ps) (lt_calls more epollfd listenfd event k')
    unfolding lt_calls
    lt_calls-Reads more [] k k' sized same =
        let e : 0 + more ≡ more = omega arith in
        ap (λ n. lt_calls n epollfd listenfd event k) e
        ∙ ap (lt_calls more epollfd listenfd event) same
    lt_calls-Reads more ([] ∷ ps) k k' sized reads = absurd (omega (arith, sized.0))
    lt_calls-Reads more ((b ∷ bs) ∷ ps) k k' sized (l, got, reads) =
        let e : suc (length ps) + more ≡ suc (length ps + more) = omega arith in
        rw e (
          rw (lt-read b bs k l got) (
            print_before-all (triggered ∷ shown (b ∷ bs) ∷ [])
              (lt_calls (length ps + more) epollfd listenfd event l)
            ∙ ap (print_all (triggered ∷ shown (b ∷ bs) ∷ []))
                (lt_calls-Reads more ps l k' sized.2 reads)))

    module _ {stream : ℤ → K → Stream} (laws : SocketLaws sys stream) where
      et_loop-end :
          (fuel : ℕ) (t : Tail) (k : K)
          → 2 ≤ fuel
          → stream event.fd k ≡ open_stream [] t
          → (k' : K) × (et_loop sys fuel event.fd k ≡ some (goodbye t, k'))
            × (stream event.fd k' ≡ settled t)
      unfolding et_loop
      et_loop-end zero t k le e = absurd (omega arith)
      et_loop-end (suc zero) t k le e = absurd (omega arith)
      et_loop-end (suc (suc fuel)) waiting k le e =
          let (l, got, still) = laws.recv_waiting event.fd 9 k e in (l, rw got refl, still)
      et_loop-end (suc (suc fuel)) finished k le e =
          let (l, got, still) = laws.recv_finished event.fd 9 k e in
          let (l', got', gone) =
            laws.recv_closed event.fd 9 (sys.close event.fd l) (laws.close_closed event.fd l) in
          (sys.close event.fd l', rw got (rw got' refl), laws.close_closed event.fd l')

      lt_calls-end :
          (t : Tail) (k : K)
          → stream event.fd k ≡ open_stream [] t
          → (k' : K) × (lt_calls (last_calls t) epollfd listenfd event k ≡ some (lt_goodbye t, k'))
            × (stream event.fd k' ≡ settled t)
      unfolding lt_calls lt lt_event
      lt_calls-end waiting k e = (k, refl, e)
      lt_calls-end finished k e =
          let (l, got, still) = laws.recv_finished event.fd 9 k e in
          (sys.close event.fd l, rw other (rw ready (rw got refl)), laws.close_closed event.fd l)

      -- One call of et and repeated calls of lt read the same pieces, which make up what has
      -- arrived; both end, and leave the socket empty, or closed if the stream is at its end.
      pub et-lt :
          (fuel : ℕ) (bs : Text) (t : Tail) (k : K)
          → length bs + 2 ≤ fuel
          → stream event.fd k ≡ open_stream bs t
          → (ps : List Text) × Sized ps
            × (joined ps ≡ bs)
            × (k1 : K) × (et sys fuel epollfd listenfd (event ∷ []) k
                ≡ some (triggered ∷ (map shown ps ++ goodbye t), k1))
            × (stream event.fd k1 ≡ settled t)
            × (k2 : K) × (lt_calls (length ps + last_calls t) epollfd listenfd event k
                ≡ some (lt_shown ps ++ lt_goodbye t, k2))
            × (stream event.fd k2 ≡ settled t)
      et-lt fuel bs t k enough e =
          let (ps, sized, whole, few, k', reads, empty) =
            Reads-stream sys event.fd laws (length bs) bs t k (omega arith) e in
          let (k1, ran, at_end) = et_loop-end (fuel - length ps) t k' (omega arith) empty in
          let (k2, ran', at_end') = lt_calls-end t k' empty in
          (
            ps,
            sized,
            whole,
            k1,
            et-one fuel (map shown ps ++ goodbye t) k k1 (
                ap (λ n. et_loop sys n event.fd k)
                  (let n : fuel ≡ length ps + (fuel - length ps) = omega arith in n)
                ∙ et_loop-Reads sys event.fd (fuel - length ps) ps k k' sized reads
                ∙ ap (print_all (map shown ps)) ran
                ∙ print_all-some (map shown ps) (goodbye t) k1),
            at_end,
            k2,
            lt_calls-Reads (last_calls t) ps k k' sized reads
                ∙ ap (print_all (lt_shown ps)) ran'
                ∙ print_all-some (lt_shown ps) (lt_goodbye t) k2,
            at_end',
          )
