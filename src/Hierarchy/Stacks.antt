-- ===== src/Hierarchy/Stacks.antt =====
-- The mutexes that each thread holds, the latest first, when guards unlock them in that order.
use c_practice.Base.{
  update, ℕ, ◌≤◌, ◌<◌, ◌≡◌, ◌≢◌, refl, sym, ◌∙◌, inl, inr, Bool, true, false, ◌||◌, Option, none,
  some, List, [], ◌∷◌, arith, leb, ◌==◌, Bool-cases, Option-cases,
}
use c_practice.Hierarchy.{
  Mutex, State, ulong_max, locked, violated, blocked, busy, take_mutex, lock, try_lock, unlock,
}

abbrev pub holds : ℕ → List ℕ → Bool
holds m [] = false
holds m (n ∷ ns) = m == n || holds m ns

-- From the value `v` of the thread `t`: it owns these mutexes, and the values go up to the start.
abbrev pub Stack : (ℕ → Mutex) → ℕ → ℕ → List ℕ → Type 0
Stack mutex t v [] = v ≡ ulong_max
Stack mutex t v (m ∷ ms) =
    ((mutex m).owner ≡ some t)
    × ((mutex m).hierarchy_value ≡ v)
    × (v < (mutex m).previous_hierarchy_value)
    × Stack mutex t (mutex m).previous_hierarchy_value ms

-- A mutex that the thread does not own can change.
Stack-update :
    (mutex : ℕ → Mutex) (t v i : ℕ) (x : Mutex) (ms : List ℕ)
    → (mutex i).owner ≢ some t
    → Stack mutex t v ms
    → Stack (update mutex i x) t v ms
Stack-update mutex t v i x [] other st = st
Stack-update mutex t v i x (m ∷ ms) other (own, value, lt, rest) = elim (Bool-cases (m == i)) [
  | inl same ↦ absurd (other (let e : m ≡ i = ground arith in rw (sym e) own))
  | inr apart ↦
      rw apart
        (own, value, lt, Stack-update mutex t (mutex m).previous_hierarchy_value i x ms other rest)
]

-- Nothing that a thread holds is lower in the hierarchy than its value.
pub Stack-le :
    (mutex : ℕ → Mutex) (t v m : ℕ) (ms : List ℕ)
    → Stack mutex t v ms
    → holds m ms ≡ true
    → v ≤ (mutex m).hierarchy_value
Stack-le mutex t v m [] st h = absurd (cc)
Stack-le mutex t v m (n ∷ ns) (own, value, lt, rest) h = elim (Bool-cases (m == n)) [
  | inl same ↦ let e : m ≡ n = ground arith in rw e (omega (arith, value))
  | inr apart ↦
      omega (arith, Stack-le mutex t (mutex n).previous_hierarchy_value m ns rest (ground arith))
]

-- The threads hold these mutexes, and no others are owned.
pub record Ordered (s : State) (stacks : ℕ → List ℕ) : Type 0 where
  pub stack : (t : ℕ) → Stack s.mutex t (s.thread_value t) (stacks t)
  pub owned : (m t : ℕ) → (s.mutex m).owner ≡ some t → holds m (stacks t) ≡ true

==-refl : (n : ℕ) → (n == n) ≡ true
==-refl n = ground arith

not_owner : (o : Option ℕ) (u : ℕ) → o ≡ none → o ≢ some u
not_owner o u free e = let q : none ≡ some u = sym free ∙ e in absurd (cc)

abbrev taken : State → (t m : ℕ) → Mutex
taken s t m = record {
  hierarchy_value = (s.mutex m).hierarchy_value;
  previous_hierarchy_value = s.thread_value t;
  owner = some t;
}

take_mutex-Ordered :
    (s : State) (stacks : ℕ → List ℕ) (t m : ℕ)
    → Ordered s stacks
    → (s.mutex m).owner ≡ none
    → (s.mutex m).hierarchy_value < s.thread_value t
    → Ordered (take_mutex s t m) (update stacks t (m ∷ stacks t))
unfolding take_mutex
take_mutex-Ordered s stacks t m o free lt = record {
  stack = λ u. elim (Bool-cases (u == t)) [
    | inl same ↦
        let e : u ≡ t = ground arith in
        rw e (
          rw (==-refl t) (
            rw (==-refl m) (
              refl,
              refl,
              lt,
              Stack-update s.mutex t (s.thread_value t) m (taken s t m) (stacks t)
                  (not_owner (s.mutex m).owner t free) (o.stack t),
            )))
    | inr apart ↦ rw apart (
        Stack-update s.mutex u (s.thread_value u) m (taken s t m) (stacks u)
          (not_owner (s.mutex m).owner u free) (o.stack u))
  ];
  owned = λ n u e. elim (Bool-cases (n == m)) [
    | inl same ↦
        let q : some t ≡ some u = rw same at e in
        let w : u ≡ t = cc in rw w (rw (==-refl t) (rw same refl))
    | inr apart ↦
        let h : holds n (stacks u) ≡ true = o.owned n u (rw apart at e) in
        elim (Bool-cases (u == t)) [
          | inl st ↦ let w : u ≡ t = ground arith in rw st (rw apart (rw w at h))
          | inr other ↦ rw other h
        ]
  ];
}

abbrev released : State → ℕ → Mutex
released s m = record {
  hierarchy_value = (s.mutex m).hierarchy_value;
  previous_hierarchy_value = (s.mutex m).previous_hierarchy_value;
  owner = none;
}

-- A mutex that is not on the stack can change.
Stack-skip :
    (mutex : ℕ → Mutex) (t v i : ℕ) (x : Mutex) (ms : List ℕ)
    → holds i ms ≡ false
    → Stack mutex t v ms
    → Stack (update mutex i x) t v ms
Stack-skip mutex t v i x [] out st = st
Stack-skip mutex t v i x (m ∷ ms) out (own, value, lt, rest) =
    let apart : (m == i) ≡ false = ground arith in
    rw apart (
      own,
      value,
      lt,
      Stack-skip mutex t (mutex m).previous_hierarchy_value i x ms (ground arith) rest,
    )

-- The latest mutex is not held twice.
Stack-once :
    (mutex : ℕ → Mutex) (t v m : ℕ) (ms : List ℕ) → Stack mutex t v (m ∷ ms) → holds m ms ≡ false
Stack-once mutex t v m ms (own, value, lt, rest) = elim (Bool-cases (holds m ms)) [
  | inl twice ↦ absurd (
      omega (arith, value, lt, Stack-le mutex t (mutex m).previous_hierarchy_value m ms rest twice))
  | inr once ↦ once
]

-- The guard of the latest lock ends.
pub unlock-Ordered :
    (s : State) (stacks : ℕ → List ℕ) (t m : ℕ) (ms : List ℕ)
    → Ordered s stacks
    → stacks t ≡ m ∷ ms
    → Ordered (unlock t m s) (update stacks t ms)
unfolding unlock
unlock-Ordered s stacks t m ms o top =
    let st : Stack s.mutex t (s.thread_value t) (m ∷ ms) = rw top at (o.stack t) in
    record {
      stack = λ u. elim (Bool-cases (u == t)) [
        | inl same ↦
            let e : u ≡ t = ground arith in
            rw e (
              rw (==-refl t) (
                Stack-skip s.mutex t (s.mutex m).previous_hierarchy_value m (released s m) ms
                  (Stack-once s.mutex t (s.thread_value t) m ms st) st.3))
        | inr apart ↦ rw apart (
            Stack-update s.mutex u (s.thread_value u) m (released s m) (stacks u)
              (λ e.
                let q : some t ≡ some u = sym st.0 ∙ e in
                let w : t ≡ u = cc in absurd (ground arith))
              (o.stack u))
      ];
      owned = λ n u e. elim (Bool-cases (n == m)) [
        | inl same ↦ absurd (let q : none ≡ some u = rw same at e in cc)
        | inr apart ↦
            let h : holds n (stacks u) ≡ true = o.owned n u (rw apart at e) in
            elim (Bool-cases (u == t)) [
              | inl at_t ↦
                  let w : u ≡ t = ground arith in
                  let h' : holds n (m ∷ ms) ≡ true = rw top at (rw w at h) in rw at_t (ground arith)
              | inr other ↦ rw other h
            ]
      ];
    }

-- However a guard is taken, the order is kept.
pub lock-Ordered :
    (s s' : State) (stacks : ℕ → List ℕ) (t m : ℕ)
    → Ordered s stacks
    → lock t m s ≡ locked s'
    → Ordered s' (update stacks t (m ∷ stacks t))
unfolding lock
lock-Ordered s s' stacks t m o e =
    elim (Bool-cases (leb (s.thread_value t) (s.mutex m).hierarchy_value)) [
      | inl low ↦ absurd (let q : violated ≡ locked s' = rw low at e in cc)
      | inr high ↦ elim (Option-cases (s.mutex m).owner) [
        | inr (u, own) ↦ absurd (let q : blocked ≡ locked s' = rw (high, own) at e in cc)
        | inl free ↦
            let q : locked (take_mutex s t m) ≡ locked s' = rw (high, free) at e in
            let w : take_mutex s t m ≡ s' = cc in
            rw⁻¹ w (take_mutex-Ordered s stacks t m o free (ground arith))
      ]
    ]

-- Where `try_lock` succeeds, `lock` would.
pub try_lock-lock : (s s' : State) (t m : ℕ) → try_lock t m s ≡ locked s' → lock t m s ≡ locked s'
unfolding lock try_lock
try_lock-lock s s' t m e = elim (Bool-cases (leb (s.thread_value t) (s.mutex m).hierarchy_value)) [
  | inl low ↦ absurd (let q : violated ≡ locked s' = rw low at e in cc)
  | inr high ↦ elim (Option-cases (s.mutex m).owner) [
    | inr (u, own) ↦ absurd (let q : busy ≡ locked s' = rw (high, own) at e in cc)
    | inl free ↦ rw (high, free) (rw (high, free) at e)
  ]
]
