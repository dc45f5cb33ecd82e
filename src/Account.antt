-- ===== src/Account.antt =====
-- googletest/gmock/account_service: accounts, and a service that moves an amount from one to
-- another through an account manager.
--
-- A balance is a `long`, a signed number of 64 bits; a result that does not fit is undefined
-- behaviour, and the outcome is `none`. `AccountManager` is an interface in the source: here it is a
-- record of operations on a store `S`, and Account.Transfer states what its implementations are for.
pub mod Transfer
mod Tests
use c_practice.Base.{ℕ, ◌-◌, ◌^◌, ◌≤◌, Bool, true, false, Option, none, some, leb, if◌then◌else◌}
use c_practice.Base.Int.{ℤ, pos, negsuc, ◌+ℤ◌, ◌-ℤ◌}
use c_practice.Base.Text.{Text}

pub record Account : Type 0 where
  pub account_id : Text
  pub balance : ℤ

-- Whether a number is a `long`.
abbrev pub fits_long : ℤ → Bool
fits_long (pos n) = leb n 9223372036854775807
fits_long (negsuc n) = leb n 9223372036854775807

unfoldable pub long : ℤ → Option ℤ
long z = if fits_long z then some z else none

infixl 5 ◌>>=◌
abbrev pub ◌>>=◌ : {A B : Type 0} → Option A → (A → Option B) → Option B
none >>= k = none
some a >>= k = k a

unfoldable pub debit : ℤ → Account → Option Account
debit amount account = do
  rest ← long (account.balance -ℤ amount)
  some (record account { balance = rest })

unfoldable pub credit : ℤ → Account → Option Account
credit amount account = do
  sum ← long (account.balance +ℤ amount)
  some (record account { balance = sum })

pub record AccountManager (S : Type 0) : Type 0 where
  pub find_account_for_user : Text → S → Account × S
  pub update_account : Account → S → S

module _ {S : Type 0} (manager : AccountManager S) where
  pub transfer : (sender_id beneficiary_id : Text) → ℤ → S → Option S
  transfer sender_id beneficiary_id amount s = do
    let (sender, s1) = manager.find_account_for_user sender_id s
    let (beneficiary, s2) = manager.find_account_for_user beneficiary_id s1
    debited ← debit amount sender
    credited ← credit amount beneficiary
    some (manager.update_account credited (manager.update_account debited s2))
