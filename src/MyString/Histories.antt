-- ===== src/MyString/Histories.antt =====
-- The histories of any number of objects: what each call answers, by their contents alone.
use mathlib.Core.Path.{subst}
use c_practice.Base.{
  ℕ, ◌≡◌, refl, ap, ◌∙◌, Bool, true, false, Option, none, some, List, [], ◌∷◌, update, Option-cases,
  inl, inr,
}
use c_practice.Base.Updates.{update-update, update_self}
use c_practice.Base.Text.{Text}
use c_practice.MyString.Values.{value_of, put_value, value_step, then_values, value_run}
use c_practice.MyString.Reads.{allocated, clone_c_string-Reads}
use c_practice.MyString.{
  Pointer, null, block, Heap, set_string, clone_c_string, Call, make, make_from, copy, assign,
  destroy, get_length, Answer, Program, pointer_of, put, stores, step, run, no_strings,
}
use c_practice.MyString.Arguments.{Fits, Stored-Fits, argument-Fits, there, length_of-Reads}
use c_practice.MyString.Removals.{Removes, delete_array-Removes, null-Removes}
use c_practice.MyString.Owned.{Contents, Represents, null-Represents, allocated-Represents}

-- `step` agrees with what the contents say.
abbrev Agrees : Option (Answer × Program) → Option (Answer × Contents) → Type 0
Agrees r none = r ≡ none
Agrees r (some (a, s)) = (p : Program) × (r ≡ some (a, p)) × Represents p s

set_again :
    (i : ℕ) (f : ℕ → Option Pointer) (h : Heap) (s : Contents) (q : Option Pointer)
    (v : Option (Option Text))
    → Represents
        (record { strings = update (update f i none) i q; heap = h })
        (update (update s i none) i v)
    → Represents (record { strings = update f i q; heap = h }) (update s i v)
set_again i f h s q v rep = rw (update-update f i none q) at (rw (update-update s i none v) at rep)

put-Agrees :
    (i : ℕ) (memory : Bool) (o : Option Pointer) (v : Option (Option Text)) (old : Pointer)
    (p : Program) (s : Contents)
    → Represents p s
    → Removes i old p s
    → Fits p.heap o v
    → Agrees (put i memory o old p) (put_value i memory v s)
unfolding put set_string clone_c_string
put-Agrees i memory none none old p s rep gone fits = refl
put-Agrees i memory none (some v) old p s rep gone fits = absurd fits
put-Agrees i memory (some q) none old p s rep gone fits = absurd fits
put-Agrees i memory (some q) (some none) old p s rep gone fits = (
  record { strings = update p.strings i (some null); heap = gone.after },
  ap (λ a. stores i p (set_string memory a old p.heap)) fits ∙ rw gone.deletes refl,
  set_again i p.strings gone.after s (some null) (some none)
      (null-Represents i _ _ gone.rest (update_self p.strings i none)),
)
put-Agrees i false (some q) (some (some t)) old p s rep gone fits =
    (p, rw (clone_c_string-Reads p.heap q t fits).1 refl, rep)
put-Agrees i true (some q) (some (some t)) old p s rep gone fits =
    let cloned = (clone_c_string-Reads p.heap q t fits).0 in
    let later = gone.deletes_later t in
    (
      record {
        strings = update p.strings i (some (block p.heap.limit));
        heap = allocated gone.after t;
      },
      rw cloned (rw later refl),
      rw (← gone.limit) (
          set_again i p.strings (allocated gone.after t) s (some (block gone.after.limit))
            (some (some t))
            (allocated-Represents i t _ _ gone.rest (update_self p.strings i none) fits.1)),
    )

step-Agrees :
    (c : Call) (p : Program) (s : Contents) → Represents p s → Agrees (step c p) (value_step c s)
unfolding step value_step
step-Agrees (make i) p s rep = elim (there i p s rep) [
  | inl (is, is') ↦ rw (is', value_step) (_, rw (is, step) refl, null-Represents i p s rep is)
  | inr (q, w, is, is', reads) ↦ rw (is', value_step) (rw (is, step) refl)
]
step-Agrees (make_from i memory a) p s rep = elim (there i p s rep) [
  | inl (is, is') ↦
      rw (is', value_step)
        (rw (is, step)
          (put-Agrees i memory (pointer_of a p) (value_of a s) null p s rep
            (null-Removes i p s rep is is') (argument-Fits a p s rep)))
  | inr (q, w, is, is', reads) ↦ rw (is', value_step) (rw (is, step) refl)
]
step-Agrees (copy i memory j) p s rep = elim (there i p s rep) [
  | inl (is, is') ↦
      rw (is', value_step)
        (rw (is, step)
          (put-Agrees i memory (p.strings j) (s j) null p s rep (null-Removes i p s rep is is')
            (Stored-Fits p.heap (p.strings j) (s j) (rep.stored j))))
  | inr (q, w, is, is', reads) ↦ rw (is', value_step) (rw (is, step) refl)
]
step-Agrees (assign i memory a) p s rep = elim (there i p s rep) [
  | inl (is, is') ↦ rw (is', value_step) (rw (is, step) refl)
  | inr (q, w, is, is', reads) ↦
      rw (is', value_step)
        (rw (is, step)
          (put-Agrees i memory (pointer_of a p) (value_of a s) q p s rep
            (delete_array-Removes i q p s rep is) (argument-Fits a p s rep)))
]
step-Agrees (destroy i) p s rep = elim (there i p s rep) [
  | inl (is, is') ↦ rw (is', value_step) (rw (is, step) refl)
  | inr (q, w, is, is', reads) ↦
      let gone = delete_array-Removes i q p s rep is in
      rw (is', value_step) (_, rw (is, step) (rw gone.deletes refl), gone.rest)
]
step-Agrees (get_length i) p s rep = elim (there i p s rep) [
  | inl (is, is') ↦ rw (is', value_step) (rw (is, step) refl)
  | inr (q, w, is, is', reads) ↦
      rw (is', value_step) (p, rw (is, step) (rw (length_of-Reads p.heap q w reads) refl), rep)
]

then_values-some :
    (a : Answer) (r : Option (List Answer × Contents)) (out : List Answer) (s : Contents)
    → then_values a r ≡ some (out, s)
    → (out' : List Answer) × (r ≡ some (out', s)) × (out ≡ a ∷ out')
then_values-some a none out s e = absurd (cc)
then_values-some a (some (out', s')) out s e = (out', cc, cc)

run-Represents :
    (cs : List Call) (out : List Answer) (p : Program) (s s' : Contents)
    → Represents p s
    → value_run cs s ≡ some (out, s')
    → (p' : Program) × (run cs p ≡ some (out, p')) × Represents p' s'
unfolding value_run run
run-Represents [] out p s s' rep e =
    let same : s ≡ s' = cc in
    (
      p,
      let none_out : [] ≡ out = cc in ap (λ os. some (os, p)) none_out,
      subst (λ (t : Contents). Represents p t) same rep,
    )
run-Represents (c ∷ cs) out p s s' rep e = elim (Option-cases (value_step c s)) [
  | inl none' ↦ absurd (let q : none ≡ some (out, s') = rw (none', value_run) at e in cc)
  | inr ((a, t), stepped) ↦
      let (out', later, parts) =
        then_values-some a (value_run cs t) out s' (rw (stepped, value_run) at e) in
      let (q, done_so, rep') =
        let r : Agrees (step c p) (some (a, t)) = rw stepped at (step-Agrees c p s rep) in r in
      let (p', ran, rep'') = run-Represents cs out' q t s' rep' later in
      (p', rw (done_so, run) (rw ran (rw parts refl)), rep'')
]

-- Without objects there are no arrays.
no_strings-Represents : Represents no_strings (λ i. none)
no_strings-Represents = record {
  stored = λ i. tt;
  apart = λ i j a e e'. absurd (cc);
  owned = λ a t e. absurd (cc);
  fresh = λ a le. refl;
}

-- If the contents alone allow a history of calls of any number of objects (a call names objects
-- that exist, or makes one that does not), then nothing in it is undefined, also where Set is
-- given the object's own c_string() or memory runs out: the calls answer as the contents say,
-- where a call that throws changes nothing; and in the end each object holds its contents in an
-- array of its own, and no other array is left.
pub run-Contents :
    (cs : List Call) (out : List Answer) (s : Contents)
    → value_run cs (λ i. none) ≡ some (out, s)
    → (p : Program) × (run cs no_strings ≡ some (out, p)) × Represents p s
run-Contents cs out s e = run-Represents cs out no_strings (λ i. none) s no_strings-Represents e
