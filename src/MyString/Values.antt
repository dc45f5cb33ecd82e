-- ===== src/MyString/Values.antt =====
-- What the calls answer and do, by the contents of the objects alone.
use c_practice.Base.{ℕ, Bool, true, false, Option, none, some, List, [], ◌∷◌, length, update}
use c_practice.Base.Text.{Text, c_string}
use c_practice.MyString.{
  Argument, null_pointer, text, c_string_of, Call, make, make_from, copy, assign, destroy,
  get_length, Answer, finished, thrown, number,
}
use c_practice.MyString.Owned.{Contents}

-- What an argument stands for, if its object exists.
abbrev pub value_of : Argument → Contents → Option (Option Text)
value_of null_pointer s = some none
value_of (text t) s = some (some (c_string t))
value_of (c_string_of j) s = s j

-- A text needs memory.
abbrev pub put_value : ℕ → Bool → Option (Option Text) → Contents → Option (Answer × Contents)
put_value i memory none s = none
put_value i memory (some none) s = some (finished, update s i (some none))
put_value i true (some (some t)) s = some (finished, update s i (some (some t)))
put_value i false (some (some t)) s = some (thrown, s)

abbrev pub length_value : Option Text → ℕ
length_value none = 0
length_value (some t) = length t

unfoldable pub value_step : Call → Contents → Option (Answer × Contents)
value_step (make i) s = elim (s i) [
  | some v ↦ none
  | none ↦ some (finished, update s i (some none))
]
value_step (make_from i memory a) s = elim (s i) [
  | some v ↦ none
  | none ↦ put_value i memory (value_of a s) s
]
value_step (copy i memory j) s = elim (s i) [ some v ↦ none | none ↦ put_value i memory (s j) s ]
value_step (assign i memory a) s = elim (s i) [
  | none ↦ none
  | some v ↦ put_value i memory (value_of a s) s
]
value_step (destroy i) s = elim (s i) [ none ↦ none | some v ↦ some (finished, update s i none) ]
value_step (get_length i) s = elim (s i) [
  | none ↦ none
  | some v ↦ some (number (length_value v), s)
]

abbrev pub then_values : Answer → Option (List Answer × Contents) → Option (List Answer × Contents)
then_values a none = none
then_values a (some (as', s)) = some (a ∷ as', s)

-- The answers of a history, where each call is one on objects that exist, or makes a new one.
unfoldable pub value_run : List Call → Contents → Option (List Answer × Contents)
value_run [] s = some ([], s)
value_run (c ∷ cs) s = elim (value_step c s) [
  | none ↦ none
  | some (a, s') ↦ then_values a (value_run cs s')
]
