-- ===== src/Nice/Threaded/Deadlock.antt =====
-- A main loop that is left while `example_thread` waits: `main` sets `exit_thread` but signals
-- nothing, so that only a spurious wakeup can help.
use c_practice.Base.{◌≡◌, ◌≢◌, refl, ◌⊎◌, inl, inr, none, some, List, [], ◌∷◌, arith, Option-cases}
use c_practice.Nice.Threaded.{
  MainPlace, looping, returned, spurious, gathering_done, ready, failed, recv, join, check,
  read_line, finish, WorkerPlace, leave_loop, joining, gather_wait, negotiate_wait, Threads, Action,
  act_main, act_worker, act_join, act, run,
}
use c_practice.Nice.Threaded.Order.{act-cases}

-- In `g_cond_wait`.
abbrev pub Waiting : WorkerPlace → Type 0
Waiting w = (w ≡ gather_wait) ⊎ (w ≡ negotiate_wait)

-- `main` waits for a thread that waits for a signal.
abbrev pub Deadlocked : Threads → Type 0
Deadlocked s = (s.main ≡ joining) × Waiting s.worker

no_act : (a : Action) (s : Threads) → a ≢ spurious → Deadlocked s → act a s ≡ none
unfolding act act_main act_worker act_join
no_act spurious s signal (m, w) = absurd (signal refl)
no_act a s signal (m, inl w) = ground arith
no_act a s signal (m, inr w) = ground arith

-- What is done next, if anything, is a spurious wakeup.
abbrev pub SpuriousFirst : List Action → Type 0
SpuriousFirst [] = ⊥
SpuriousFirst (spurious ∷ steps) = Unit
SpuriousFirst (a ∷ steps) = ⊥

first-cases : (a : Action) (steps : List Action) → SpuriousFirst (a ∷ steps) ⊎ (a ≢ spurious)
first-cases spurious steps = inl tt
first-cases gathering_done steps = inr (λ e. cc)
first-cases ready steps = inr (λ e. cc)
first-cases failed steps = inr (λ e. cc)
first-cases (recv b) steps = inr (λ e. cc)
first-cases leave_loop steps = inr (λ e. cc)
first-cases join steps = inr (λ e. cc)
first-cases check steps = inr (λ e. cc)
first-cases (read_line l) steps = inr (λ e. cc)
first-cases finish steps = inr (λ e. cc)

run-Deadlocked :
    (steps : List Action) (s t : Threads)
    → Deadlocked s
    → run steps s ≡ some t
    → ((steps ≡ []) × Deadlocked t) ⊎ SpuriousFirst steps
unfolding run
run-Deadlocked [] s t dead r = let e : s ≡ t = cc in inl (refl, rw⁻¹ e dead)
run-Deadlocked (a ∷ steps) s t dead r = elim (first-cases a steps) [
  | inl first ↦ inr first
  | inr signal ↦ absurd (let q : none ≡ some t = rw (no_act a s signal dead, run) at r in cc)
]

act_main-leave :
    (s t : Threads) (m : MainPlace)
    → act_main leave_loop s m ≡ some t
    → (t.main ≡ joining) × (t.worker ≡ s.worker)
unfolding act_main
act_main-leave s t looping r = ground arith
act_main-leave s t joining r = ground arith
act_main-leave s t returned r = ground arith

act_worker-leave :
    (s t : Threads) (w : WorkerPlace) → Waiting w → act_worker leave_loop s w ≢ some t
unfolding act_worker
act_worker-leave s t w waits r = let q : none ≡ some t = r in absurd (cc)

act_join-leave :
    (s t : Threads) (m : MainPlace) (w : WorkerPlace)
    → Waiting w
    → act_join leave_loop s m w ≢ some t
unfolding act_join
act_join-leave s t m w (inl e) r = ground arith
act_join-leave s t m w (inr e) r = ground arith

leave-Deadlocked : (s t : Threads) → Waiting s.worker → act leave_loop s ≡ some t → Deadlocked t
leave-Deadlocked s t waits r = elim (act-cases leave_loop s t r) [
  | inl e ↦ let (m, w) = act_main-leave s t s.main e in (m, rw w waits)
  | inr (inl e) ↦ absurd (act_worker-leave s t s.worker waits e)
  | inr (inr e) ↦ absurd (act_join-leave s t s.main s.worker waits e)
]

-- If the main loop is left while example_thread waits on a condition, the only action of either
-- thread that is possible is a spurious wakeup; as long as g_cond_wait returns only for a signal,
-- main stays in its join and example_thread in its wait.
pub leave_loop-Deadlocked :
    (steps : List Action) (s t : Threads)
    → Waiting s.worker
    → run (leave_loop ∷ steps) s ≡ some t
    → ((steps ≡ []) × Deadlocked t) ⊎ SpuriousFirst steps
unfolding run
leave_loop-Deadlocked steps s t waits r = elim (Option-cases (act leave_loop s)) [
  | inl e ↦ absurd (let q : none ≡ some t = rw (e, run) at r in cc)
  | inr (u, e) ↦ run-Deadlocked steps u t (leave-Deadlocked s u waits e) (rw (e, run) at r)
]
