-- ===== src/MyString/Owned.antt =====
-- What the objects stand for: each owns an array of its own, and no array is without an owner.
use c_practice.Base.{
  ℕ, ◌≤◌, ◌≡◌, ◌≢◌, refl, sym, ap, ◌∙◌, false, Option, none, some, [], ◌∷◌, ◌++◌, arith, ◌==◌,
  update, Bool-cases, inl, inr,
}
use c_practice.Base.Updates.{update_self, update_ne, update-cases, ne_of_test}
use c_practice.Base.Text.{Text, has_byte}
use c_practice.MyString.Reads.{allocated}
use c_practice.MyString.{Pointer, null, array, block, Heap, Program}

-- The contents of each object that exists; an object may be `NULL`.
abbrev pub Contents : Type 0
Contents = ℕ → Option (Option Text)

abbrev pub Stored : Heap → Option Pointer → Option (Option Text) → Type 0
Stored h none none = Unit
Stored h (some null) (some none) = Unit
Stored h (some (block a)) (some (some t)) =
    (has_byte 0 t ≡ false) × (h.cell a ≡ some (t ++ (0 ∷ [])))
Stored h _ _ = ⊥

pub record Represents (p : Program) (s : Contents) : Type 0 where
  pub stored : (i : ℕ) → Stored p.heap (p.strings i) (s i)
  pub apart : (i j a : ℕ) → p.strings i ≡ some (block a) → p.strings j ≡ some (block a) → i ≡ j
  pub owned : (a : ℕ) (t : Text) → p.heap.cell a ≡ some t → (i : ℕ) × (p.strings i ≡ some (block a))
  pub fresh : (a : ℕ) → p.heap.limit ≤ a → p.heap.cell a ≡ none

pub Stored-heap :
    (h h' : Heap) (o : Option Pointer) (v : Option (Option Text))
    → Stored h o v
    → ((a : ℕ) → o ≡ some (block a) → h'.cell a ≡ h.cell a)
    → Stored h' o v
Stored-heap h h' none none st same = tt
Stored-heap h h' none (some v) st same = st
Stored-heap h h' (some null) none st same = st
Stored-heap h h' (some null) (some none) st same = tt
Stored-heap h h' (some null) (some (some t)) st same = st
Stored-heap h h' (some (array u)) v st same = st
Stored-heap h h' (some (block a)) none st same = st
Stored-heap h h' (some (block a)) (some none) st same = st
Stored-heap h h' (some (block a)) (some (some t)) (clear, at) same = (clear, same a refl ∙ at)

block-Stored :
    (h : Heap) (a : ℕ) (v : Option (Option Text))
    → Stored h (some (block a)) v
    → (t : Text) × (v ≡ some (some t)) × (has_byte 0 t ≡ false) × (h.cell a ≡ some (t ++ (0 ∷ [])))
block-Stored h a none st = absurd st
block-Stored h a (some none) st = absurd st
block-Stored h a (some (some t)) (clear, at) = (t, refl, clear, at)

pub array-Stored :
    (h : Heap) (t : Text) (v : Option (Option Text)) → Stored h (some (array t)) v → ⊥
array-Stored h t v st = st

-- Another object than the one that is changed.
kept :
    (f : ℕ → Option Pointer) (i j a : ℕ) (v : Option Pointer)
    → v ≢ some (block a)
    → update f i v j ≡ some (block a)
    → (j ≢ i) × (f j ≡ some (block a))
kept f i j a v other e = elim (update-cases f i j v (some (block a)) e) [
  | inl (same, bad) ↦ absurd (other bad)
  | inr (ne, is) ↦ (ne, is)
]

pub live :
    (p : Program) (s : Contents) (i a : ℕ)
    → Represents p s
    → p.strings i ≡ some (block a)
    → (t : Text) × (p.heap.cell a ≡ some t)
live p s i a rep is =
    let (t, e, clear, at) = block-Stored p.heap a (s i) (rw is at (rep.stored i)) in (_, at)

pub ne_limit :
    (p : Program) (s : Contents) (i a : ℕ)
    → Represents p s
    → p.strings i ≡ some (block a)
    → a ≢ p.heap.limit
ne_limit p s i a rep is e =
    let (t, at) = live p s i a rep is in
    let free : p.heap.cell a ≡ none = rep.fresh a (omega arith) in absurd (cc)

Stored-removed :
    (h h' : Heap) (i j : ℕ) (strings : ℕ → Option Pointer) (s : Contents)
    → Stored h (strings j) (s j)
    → ((a : ℕ) → j ≢ i → strings j ≡ some (block a) → h'.cell a ≡ h.cell a)
    → Stored h' (update strings i none j) (update s i none j)
Stored-removed h h' i j strings s st same = elim (Bool-cases (j == i)) [
  | inl here ↦ rw here tt
  | inr there ↦
      rw there (Stored-heap h h' (strings j) (s j) st (λ a. same a (ne_of_test i j there)))
]

-- The object `i` is gone, and of the arrays at most its own.
pub removed-Represents :
    (i : ℕ) (h' : Heap) (p : Program) (s : Contents)
    → Represents p s
    → ((j a : ℕ) → j ≢ i → p.strings j ≡ some (block a) → h'.cell a ≡ p.heap.cell a)
    → ((a : ℕ) (t : Text)
        → h'.cell a ≡ some t
        → (p.heap.cell a ≡ some t) × (p.strings i ≢ some (block a)))
    → ((a : ℕ) → h'.limit ≤ a → h'.cell a ≡ none)
    → Represents (record { strings = update p.strings i none; heap = h' }) (update s i none)
removed-Represents i h' p s rep same less fresh = record {
  stored = λ j. Stored-removed p.heap h' i j p.strings s (rep.stored j) (same j);
  apart = λ j k a ej ek.
      rep.apart j k a (kept p.strings i j a none (λ q. cc) ej).1
        (kept p.strings i k a none (λ q. cc) ek).1;
  owned = λ a t e.
      let (was, other) = less a t e in
      let (j, is) = rep.owned a t was in
      (j, update_ne p.strings i j none (λ q. other (rw (← q) is)) ∙ is);
  fresh = fresh;
}

pub null-Represents :
    (i : ℕ) (p : Program) (s : Contents)
    → Represents p s
    → p.strings i ≡ none
    → Represents (record p { strings = update p.strings i (some null) }) (update s i (some none))
null-Represents i p s rep is = record {
  stored = λ j. elim (Bool-cases (j == i)) [
    | inl here ↦ rw here tt
    | inr there ↦ rw there (rep.stored j)
  ];
  apart = λ j k a ej ek.
      rep.apart j k a (kept p.strings i j a (some null) (λ q. cc) ej).1
        (kept p.strings i k a (some null) (λ q. cc) ek).1;
  owned = λ a t e.
      let (j, at) = rep.owned a t e in
      (
        j,
        update_ne p.strings i j (some null)
              (λ q. let r : p.strings i ≡ some (block a) = rw (← q) at in cc)
            ∙ at,
      );
  fresh = rep.fresh;
}

pub allocated-Represents :
    (i : ℕ) (t : Text) (p : Program) (s : Contents)
    → Represents p s
    → p.strings i ≡ none
    → has_byte 0 t ≡ false
    → Represents
        (record {
          strings = update p.strings i (some (block p.heap.limit));
          heap = allocated p.heap t;
        })
        (update s i (some (some t)))
allocated-Represents i t p s rep is clear = record {
  stored = λ j. elim (Bool-cases (j == i)) [
    | inl here ↦ rw here (clear, update_self p.heap.cell p.heap.limit (some (t ++ (0 ∷ []))))
    | inr there ↦ rw there (
        Stored-heap p.heap (allocated p.heap t) (p.strings j) (s j) (rep.stored j) (λ a e.
          update_ne p.heap.cell p.heap.limit a (some (t ++ (0 ∷ []))) (ne_limit p s j a rep e)))
  ];
  apart = λ j k a ej ek.
      elim (update-cases p.strings i j (some (block p.heap.limit)) (some (block a)) ej) [
        | inl (same, new) ↦
            elim (update-cases p.strings i k (some (block p.heap.limit)) (some (block a)) ek) [
              | inl (same', new') ↦ same ∙ sym same'
              | inr (ne, old) ↦
                  let e : p.heap.limit ≡ a = cc in absurd (ne_limit p s k a rep old (sym e))
            ]
        | inr (ne, old) ↦
            elim (update-cases p.strings i k (some (block p.heap.limit)) (some (block a)) ek) [
              | inl (same', new') ↦
                  let e : p.heap.limit ≡ a = cc in absurd (ne_limit p s j a rep old (sym e))
              | inr (ne', old') ↦ rep.apart j k a old old'
            ]
      ];
  owned = λ a u e.
      elim (update-cases p.heap.cell p.heap.limit a (some (t ++ (0 ∷ []))) (some u) e) [
        | inl (same, new) ↦ (
          i,
          update_self p.strings i (some (block p.heap.limit)) ∙ ap (λ b. some (block b)) (sym same),
        )
        | inr (ne, was) ↦
            let (j, at) = rep.owned a u was in
            (
              j,
              update_ne p.strings i j (some (block p.heap.limit))
                    (λ q. let r : p.strings i ≡ some (block a) = rw (← q) at in cc)
                  ∙ at,
            )
      ];
  fresh = λ a le.
      update_ne p.heap.cell p.heap.limit a (some (t ++ (0 ∷ []))) (λ q. omega arith)
      ∙ rep.fresh a (omega arith);
}
