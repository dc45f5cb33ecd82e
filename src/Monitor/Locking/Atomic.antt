-- ===== src/Monitor/Locking/Atomic.antt =====
-- Only one thread is inside at a time, so what it does there is one step.
use c_practice.Base.{
  ℕ, zero, suc, ◌≡◌, ◌≢◌, refl, sym, ap, ◌∙◌, true, false, none, some, List, [], ◌∷◌, arith, update,
  get_elem?, set, get_elem?-set_ne, Bool-cases, inl, inr, ◌==◌, ==_iff,
}
use c_practice.Base.Counting.{one, count, get_elem?-set_same}
use c_practice.Base.Updates.{update_self}
use c_practice.Monitor.{Class, Point, State, Step, Trace, goes, at, is_resting}
use c_practice.Monitor.Locking.{is_inside, Locked, LockedTrace}

module _ {Call Wait Answer : Type 0} where
  resting-outside : (p : Point Call Wait Answer) → is_resting p ≡ true → is_inside p ≡ false
  resting-outside Point.idle e = refl
  resting-outside (Point.returned a) e = refl
  resting-outside Point.threw e = refl
  resting-outside Point.broken e = absurd (cc)
  resting-outside (Point.locking c) e = absurd (cc)
  resting-outside (Point.running c) e = absurd (cc)
  resting-outside (Point.entering c) e = absurd (cc)
  resting-outside (Point.checking b c) e = absurd (cc)
  resting-outside (Point.sleeping c) e = absurd (cc)
  resting-outside (Point.woken c) e = absurd (cc)

  -- Thread `t` moves from `p` to `q`, and is the thread that is asked about, or not.
  moved :
      {B : Type 0} (ts : List (Point Call Wait Answer)) (t u : ℕ) (p q r : Point Call Wait Answer)
      → get_elem? ts t ≡ some p
      → get_elem? (set ts t q) u ≡ some r
      → (t ≡ u → q ≡ r → B)
      → (t ≢ u → get_elem? ts u ≡ some r → B)
      → B
  moved ts t u p q r here there same other = elim (Bool-cases (t == u)) [
    | inl e ↦
        let e' : t ≡ u = (==_iff t u).0 e in
        let r_is : some q ≡ some r =
          sym (get_elem?-set_same ts t p q here) ∙ ap (get_elem? (set ts t q)) e' ∙ there in
        same e' (let x : q ≡ r = cc in x)
    | inr e ↦ let ne : t ≢ u = ground arith in other ne (sym (get_elem?-set_ne ts q ne) ∙ there)
  ]

  outside :
      (ts : List (Point Call Wait Answer)) (t : ℕ) (p : Point Call Wait Answer)
      → count is_inside ts ≡ 0
      → get_elem? ts t ≡ some p
      → is_inside p ≡ false
  outside [] t p none_in here = absurd (cc)
  outside (q ∷ ts) zero p none_in here = elim (Bool-cases (is_inside p)) [
    | inr out ↦ out
    | inl inside ↦
        let same : q ≡ p = cc in
        let n : one (is_inside q) ≡ 1 = ap one (ap is_inside same ∙ inside) in absurd (omega arith)
  ]
  outside (q ∷ ts) (suc t) p none_in here = outside ts t p (omega arith) here

module _ {S Call Wait Answer : Type 0} where
  -- A thread that is inside holds the mutex, and has seen what the contents are.
  abbrev pub Guarded : State S Call Wait Answer → (ℕ → S) → Type 0
  Guarded s seen =
      (t : ℕ) (p : Point Call Wait Answer)
      → at s t ≡ some p
      → is_inside p ≡ true
      → (s.mutex ≡ some t) × (seen t ≡ s.contents)

  -- A thread that stays outside.
  stay-Guarded :
      (s : State S Call Wait Answer) (seen : ℕ → S) (t : ℕ) (p q : Point Call Wait Answer)
      → at s t ≡ some p
      → is_inside q ≡ false
      → Guarded s seen
      → Guarded (goes t q s.mutex s) seen
  stay-Guarded s seen t p q here out g = λ u r there inside.
      moved s.threads t u p q r here there
        (λ e e'. absurd (let x : is_inside q ≡ is_inside r = ap is_inside e' in cc))
        (λ ne there'. g u r there' inside)

  -- A thread that takes the mutex and reads.
  enter-Guarded :
      (s : State S Call Wait Answer) (seen : ℕ → S) (t : ℕ) (p q : Point Call Wait Answer)
      → at s t ≡ some p
      → s.mutex ≡ none
      → Guarded s seen
      → Guarded (goes t q (some t) s) (update seen t s.contents)
  enter-Guarded s seen t p q here clear g = λ u r there inside.
      moved s.threads t u p q r here there
        (λ e e'. (ap some e, ap (update seen t s.contents) (sym e) ∙ update_self seen t s.contents))
        (λ ne there'. absurd (let x : none ≡ some u = sym clear ∙ (g u r there' inside).0 in cc))

  -- A thread that writes and leaves the mutex.
  leave-Guarded :
      (s : State S Call Wait Answer) (seen : ℕ → S) (t : ℕ) (p q : Point Call Wait Answer) (x : S)
      → at s t ≡ some p
      → is_inside p ≡ true
      → is_inside q ≡ false
      → Guarded s seen
      → Guarded (goes t q none (record s { contents = x })) seen
  leave-Guarded s seen t p q x here was out g = λ u r there inside.
      moved s.threads t u p q r here there
        (λ e e'. absurd (let y : is_inside q ≡ is_inside r = ap is_inside e' in cc))
        (λ ne there'. absurd (
          let y : some t ≡ some u = sym (g t p here was).0 ∙ (g u r there' inside).0 in
          let z : t ≡ u = cc in ne z))

  module _ (class : Class S Call Wait Answer) where
    -- Each step is one of Monitor, and keeps to the mutex.
    step-Step :
        (s s' : State S Call Wait Answer) (seen seen' : ℕ → S) (e : _)
        → Locked class s seen e s' seen'
        → Guarded s seen
        → Step class s e s' × Guarded s' seen'
    step-Step s s' seen seen' e (Locked.calls t p c here rest) g =
        (Step.calls t p c here rest, stay-Guarded s seen t p (Point.locking c) here refl g)
    step-Step s s' seen seen' e (Locked.calls_wait t p w here rest) g =
        (Step.calls_wait t p w here rest, stay-Guarded s seen t p (Point.entering w) here refl g)
    step-Step s s' seen seen' e (Locked.locks t c here clear) g = (
      Step.locks t c here clear,
      enter-Guarded s seen t (Point.locking c) (Point.running c) here clear g,
    )
    step-Step s s' seen seen' e (Locked.enters t w here clear) g = (
      Step.enters t w here clear,
      enter-Guarded s seen t (Point.entering w) (Point.checking false w) here clear g,
    )
    step-Step s s' seen seen' e (Locked.relocks t w here clear) g = (
      Step.relocks t w here clear,
      enter-Guarded s seen t (Point.woken w) (Point.checking true w) here clear g,
    )
    step-Step s s' seen seen' e (Locked.returns t c ok a x here b) g =
        let same = (g t (Point.running c) here refl).1 in
        (
          Step.returns t c ok a x here (ap (class.body c ok) (sym same) ∙ b),
          leave-Guarded s seen t (Point.running c) (Point.returned a) x here refl refl g,
        )
    step-Step s s' seen seen' e (Locked.notifies_none t c ok a x here b nobody) g =
        let same = (g t (Point.running c) here refl).1 in
        (
          Step.notifies_none t c ok a x here (ap (class.body c ok) (sym same) ∙ b) nobody,
          leave-Guarded s seen t (Point.running c) (Point.returned a) x here refl refl g,
        )
    step-Step s s' seen seen' e (Locked.notifies t u c w ok a x here b there) g =
        let same = (g t (Point.running c) here refl).1 in
        (
          Step.notifies t u c w ok a x here (ap (class.body c ok) (sym same) ∙ b) there,
          stay-Guarded (goes t (Point.returned a) none (record s { contents = x })) seen u
              (Point.sleeping w) (Point.woken w) there refl
              (leave-Guarded s seen t (Point.running c) (Point.returned a) x here refl refl g),
        )
    step-Step s s' seen seen' e (Locked.throws t c ok here b) g =
        let same = (g t (Point.running c) here refl).1 in
        (
          Step.throws t c ok here (ap (class.body c ok) (sym same) ∙ b),
          leave-Guarded s seen t (Point.running c) Point.threw s.contents here refl refl g,
        )
    step-Step s s' seen seen' e (Locked.sleeps t slept w here out) g =
        let same = (g t (Point.checking slept w) here refl).1 in
        (
          Step.sleeps t slept w here (ap class.ready (sym same) ∙ out),
          leave-Guarded s seen t (Point.checking slept w) (Point.sleeping w) s.contents here refl
              refl g,
        )
    step-Step s s' seen seen' e (Locked.passes t slept w ok a x here ready r) g =
        let same = (g t (Point.checking slept w) here refl).1 in
        (
          Step.passes t slept w ok a x here (ap class.ready (sym same) ∙ ready)
              (ap (class.rest w ok) (sym same) ∙ r),
          leave-Guarded s seen t (Point.checking slept w) (Point.returned a) x here refl refl g,
        )
    step-Step s s' seen seen' e (Locked.throws_after t slept w ok here ready r) g =
        let same = (g t (Point.checking slept w) here refl).1 in
        (
          Step.throws_after t slept w ok here (ap class.ready (sym same) ∙ ready)
              (ap (class.rest w ok) (sym same) ∙ r),
          leave-Guarded s seen t (Point.checking slept w) Point.threw s.contents here refl refl g,
        )
    step-Step s s' seen seen' e (Locked.breaks t slept w ok here ready r) g =
        let same = (g t (Point.checking slept w) here refl).1 in
        (
          Step.breaks t slept w ok here (ap class.ready (sym same) ∙ ready)
              (ap (class.rest w ok) (sym same) ∙ r),
          leave-Guarded s seen t (Point.checking slept w) Point.broken s.contents here refl refl g,
        )
    step-Step s s' seen seen' e (Locked.wakes t w here) g =
        (Step.wakes t w here, stay-Guarded s seen t (Point.sleeping w) (Point.woken w) here refl g)

    pub trace-Trace :
        (s s' : State S Call Wait Answer) (seen seen' : ℕ → S) (es : _)
        → LockedTrace class s seen es s' seen'
        → Guarded s seen
        → Trace class s es s' × Guarded s' seen'
    trace-Trace s s' seen seen' es LockedTrace.stop g = (Trace.stop, g)
    trace-Trace s s' seen seen' es (LockedTrace.go step more) g =
        let (one_step, g') = step-Step s _ seen _ _ step g in
        let (trace, g'') = trace-Trace _ s' _ seen' _ more g' in (Trace.go one_step trace, g'')

  -- Where no thread is inside, all is well.
  pub nobody-Guarded :
      (s : State S Call Wait Answer) (seen : ℕ → S) → count is_inside s.threads ≡ 0 → Guarded s seen
  nobody-Guarded s seen none_in =
      λ t p here inside. absurd (let out = outside s.threads t p none_in here in cc)
