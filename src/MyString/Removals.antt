-- ===== src/MyString/Removals.antt =====
-- What is left when the array of an object is deleted.
use c_practice.Base.{
  ℕ, suc, ◌≡◌, refl, sym, ap, ◌∙◌, none, some, [], ◌∷◌, ◌++◌, ◌==◌, update, Bool-cases, inl, inr,
}
use c_practice.Base.Updates.{update_ne, update-cases, update_comm, update-unchanged}
use c_practice.Base.Text.{Text}
use c_practice.MyString.Reads.{allocated}
use c_practice.MyString.Owned.{
  Contents, Represents, live, ne_limit, array-Stored, removed-Represents,
}
use c_practice.MyString.{Pointer, null, array, block, Heap, done, delete_array, Program}

-- What `delete[]` of the old array of the object `i` does, also when another was allocated just before.
pub record Removes (i : ℕ) (old : Pointer) (p : Program) (s : Contents) : Type 0 where
  pub after : Heap
  pub limit : after.limit ≡ p.heap.limit
  pub deletes : delete_array old p.heap ≡ done tt after
  pub deletes_later :
      (t : Text) → delete_array old (allocated p.heap t) ≡ done tt (allocated after t)
  pub rest :
      Represents (record { strings = update p.strings i none; heap = after }) (update s i none)

pub delete_array-Removes :
    (i : ℕ) (old : Pointer) (p : Program) (s : Contents)
    → Represents p s
    → p.strings i ≡ some old
    → Removes i old p s
unfolding delete_array
delete_array-Removes i null p s rep is = record {
  after = p.heap;
  limit = refl;
  deletes = refl;
  deletes_later = λ t. refl;
  rest = removed-Represents i p.heap p s rep (λ j a ne e. refl) (λ a t e. (e, λ q. cc)) rep.fresh;
}
delete_array-Removes i (array t) p s rep is =
    absurd (array-Stored p.heap t (s i) (rw is at (rep.stored i)))
delete_array-Removes i (block a) p s rep is =
    let (t, at) = live p s i a rep is in
    let apart = ne_limit p s i a rep is in
    record {
      after = record p.heap { cell = update p.heap.cell a none };
      limit = refl;
      deletes = rw (at, delete_array) refl;
      deletes_later = λ u.
          rw (update_ne p.heap.cell p.heap.limit a (some (u ++ (0 ∷ []))) apart ∙ at, delete_array)
            (ap (λ c. done tt (record { cell = c; limit = suc p.heap.limit }))
              (update_comm p.heap.cell p.heap.limit a (some (u ++ (0 ∷ []))) none
                (λ q. apart (sym q))));
      rest =
          removed-Represents i (record p.heap { cell = update p.heap.cell a none }) p s rep
            (λ j b ne ej.
              update_ne p.heap.cell a b none (λ q. ne (rep.apart j i a (rw q at ej) is)))
            (λ b u eb. elim (update-cases p.heap.cell a b none (some u) eb) [
              | inl (same, bad) ↦ absurd (cc)
              | inr (ne, was) ↦ (was, λ q. let e : a ≡ b = cc in ne (sym e))
            ])
            (λ b le. elim (Bool-cases (b == a)) [
              | inl same ↦ rw same refl
              | inr other ↦ rw other (rep.fresh b le)
            ]);
    }

-- An object that does not exist yet has nothing to delete.
pub null-Removes :
    (i : ℕ) (p : Program) (s : Contents)
    → Represents p s
    → p.strings i ≡ none
    → s i ≡ none
    → Removes i null p s
unfolding delete_array
null-Removes i p s rep is is' = record {
  after = p.heap;
  limit = refl;
  deletes = refl;
  deletes_later = λ t. refl;
  rest = rw (update-unchanged p.strings i none is) (rw (update-unchanged s i none is') rep);
}
