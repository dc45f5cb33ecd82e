-- ===== src/Account/Tests.antt =====
-- The service over a manager whose store is a function from users to balances.
use c_practice.Base.{◌≡◌, refl, ◌≢◌, false, some, inl, inr, Bool-cases, if◌then◌else◌}
use c_practice.Base.Int.{ℤ, pos, ◌+ℤ◌, ◌-ℤ◌}
use c_practice.Base.Text.{Text, bytes, text_eq, text_eq_refl, text_eq→≡, ne_of_text_eq}
use c_practice.Account.{AccountManager, transfer}
use c_practice.Account.Transfer.{ManagerLaws, transfer-balances}

abbrev Store : Type 0
Store = Text → ℤ

abbrev stored : AccountManager Store
stored = record {
  find_account_for_user = λ u s. (record { account_id = u; balance = s u }, s);
  update_account = λ a s u. if text_eq u a.account_id then a.balance else s u;
}

text_eq-false : (s t : Text) → s ≢ t → text_eq s t ≡ false
text_eq-false s t ne = elim (Bool-cases (text_eq s t)) [
  | inl same ↦ absurd (ne (text_eq→≡ s t same))
  | inr other ↦ other
]

stored-ManagerLaws : ManagerLaws stored (λ s u. s u)
stored-ManagerLaws = record {
  find_id = λ u s. refl;
  find_balance = λ u s. refl;
  find_keeps = λ u v s. refl;
  update_self = λ a s. rw (text_eq_refl a.account_id) refl;
  update_other = λ a u s ne. rw (text_eq-false u a.account_id ne) refl;
}

abbrev balances : Store
balances u = if text_eq u (bytes "1") then pos 3000 else pos 2000

transfer-balances_example :
    (t : Store) × (transfer stored (bytes "1") (bytes "2") (pos 1000) balances ≡ some t)
    × (t (bytes "1") ≡ balances (bytes "1") -ℤ pos 1000)
    × (t (bytes "2") ≡ balances (bytes "2") +ℤ pos 1000)
    × (t (bytes "3") ≡ balances (bytes "3"))
unfolding text_eq ◌+ℤ◌ ◌-ℤ◌
transfer-balances_example =
    transfer-balances stored (λ s u. s u) stored-ManagerLaws (bytes "1") (bytes "2") (bytes "3")
      (pos 1000) balances (ne_of_text_eq (bytes "1") (bytes "2") refl)
      (ne_of_text_eq (bytes "3") (bytes "1") refl) (ne_of_text_eq (bytes "3") (bytes "2") refl) refl
      refl
