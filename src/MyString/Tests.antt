-- ===== src/MyString/Tests.antt =====
-- Strings that are set to themselves, and strings that are copied, destroyed and set without memory.
use c_practice.Base.{◌≡◌, refl, true, false, none, some, List, [], ◌∷◌, update}
use c_practice.Base.Text.{bytes, c_string}
use c_practice.MyString.{
  null_pointer, text, c_string_of, Call, make_from, copy, assign, destroy, get_length, Answer,
  finished, thrown, number, Program, run, no_strings,
}
use c_practice.MyString.Owned.{Contents, Represents}
use c_practice.MyString.Values.{value_step, value_run}
use c_practice.MyString.Histories.{run-Contents}

abbrev history : List Call
history =
    make_from 0 true (text (bytes "hello"))
    ∷ assign 0 true (c_string_of 0)
    ∷ copy 1 true 0
    ∷ assign 0 false (text (bytes "world"))
    ∷ destroy 1
    ∷ get_length 0
    ∷ assign 0 true null_pointer
    ∷ []

abbrev answers : List Answer
answers = finished ∷ finished ∷ finished ∷ thrown ∷ finished ∷ number 5 ∷ finished ∷ []

abbrev at_end : Contents
at_end =
    update
      (update
        (update
          (update (update (λ i. none) 0 (some (some (bytes "hello")))) 0
            (some (some (bytes "hello"))))
          1 (some (some (bytes "hello"))))
        1 none)
      0 (some none)

run-Contents_example :
    (p : Program) × (run history no_strings ≡ some (answers, p)) × Represents p at_end
unfolding value_run value_step c_string
run-Contents_example = run-Contents history answers at_end refl
