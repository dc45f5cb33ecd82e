-- ===== src/Account/Transfer.antt =====
-- What `transfer` does to the balances that a manager stores.
use c_practice.Base.{◌≡◌, refl, ◌∙◌, ◌≢◌, true, some}
use c_practice.Base.Int.{ℤ, ◌+ℤ◌, ◌-ℤ◌}
use c_practice.Base.Text.{Text}
use c_practice.Account.{Account, AccountManager, fits_long, long, debit, credit, transfer}

-- A manager of stored balances: a user's account is found as it was last updated.
pub record ManagerLaws {S : Type 0} (manager : AccountManager S) (balance_of : S → Text → ℤ)
    : Type 0 where
  pub find_id : (u : Text) (s : S) → (manager.find_account_for_user u s).0.account_id ≡ u
  pub find_balance :
      (u : Text) (s : S) → (manager.find_account_for_user u s).0.balance ≡ balance_of s u
  pub find_keeps :
      (u v : Text) (s : S) → balance_of (manager.find_account_for_user u s).1 v ≡ balance_of s v
  pub update_self :
      (a : Account) (s : S) → balance_of (manager.update_account a s) a.account_id ≡ a.balance
  pub update_other :
      (a : Account) (u : Text) (s : S)
      → u ≢ a.account_id
      → balance_of (manager.update_account a s) u ≡ balance_of s u

module _ {S : Type 0} (manager : AccountManager S) (balance_of : S → Text → ℤ)
    (laws : ManagerLaws manager balance_of) where
  abbrev pub account : Text → ℤ → Account
  account u b = record { account_id = u; balance = b }

  -- The store after the two updates.
  abbrev after : (a b : Text) → (x y : ℤ) → S → S
  after a b x y s = manager.update_account (account b y) (
      manager.update_account (account a x)
        (manager.find_account_for_user b (manager.find_account_for_user a s).1).1)

  transfer-after :
      (a b : Text) (amount : ℤ) (s : S)
      → fits_long (balance_of s a -ℤ amount) ≡ true
      → fits_long (balance_of s b +ℤ amount) ≡ true
      → transfer manager a b amount s
        ≡ some (after a b (balance_of s a -ℤ amount) (balance_of s b +ℤ amount) s)
  unfolding transfer debit credit long
  transfer-after a b amount s fits fits' =
      let s1 = (manager.find_account_for_user a s).1 in
      rw (laws.find_balance a s) (
        rw (laws.find_id a s) (
          rw (laws.find_balance b s1)
            (rw (laws.find_id b s1) (rw (laws.find_keeps a b s) (rw fits (rw fits' refl))))))

  -- Between two different users, for results that fit a long, the amount leaves the one and
  -- reaches the other, and the balance of a third one stays.
  pub transfer-balances :
      (a b u : Text) (amount : ℤ) (s : S)
      → a ≢ b
      → u ≢ a
      → u ≢ b
      → fits_long (balance_of s a -ℤ amount) ≡ true
      → fits_long (balance_of s b +ℤ amount) ≡ true
      → (t : S) × (transfer manager a b amount s ≡ some t)
        × (balance_of t a ≡ balance_of s a -ℤ amount)
        × (balance_of t b ≡ balance_of s b +ℤ amount)
        × (balance_of t u ≡ balance_of s u)
  transfer-balances a b u amount s ab ua ub fits fits' =
      let x = balance_of s a -ℤ amount in
      let y = balance_of s b +ℤ amount in
      let s2 = (manager.find_account_for_user b (manager.find_account_for_user a s).1).1 in
      (
        after a b x y s,
        transfer-after a b amount s fits fits',
        laws.update_other (account b y) a (manager.update_account (account a x) s2) ab
            ∙ laws.update_self (account a x) s2,
        laws.update_self (account b y) (manager.update_account (account a x) s2),
        laws.update_other (account b y) u (manager.update_account (account a x) s2) ub
            ∙ laws.update_other (account a x) u s2 ua
            ∙ laws.find_keeps b u (manager.find_account_for_user a s).1
            ∙ laws.find_keeps a u s,
      )

  -- A transfer from a user to the same user, for results that fit a long, raises the balance by
  -- the amount.
  pub transfer_self :
      (a : Text) (amount : ℤ) (s : S)
      → fits_long (balance_of s a -ℤ amount) ≡ true
      → fits_long (balance_of s a +ℤ amount) ≡ true
      → (t : S) × (transfer manager a a amount s ≡ some t)
        × (balance_of t a ≡ balance_of s a +ℤ amount)
  transfer_self a amount s fits fits' =
      let x = balance_of s a -ℤ amount in
      let y = balance_of s a +ℤ amount in
      let s2 = (manager.find_account_for_user a (manager.find_account_for_user a s).1).1 in
      (
        after a a x y s,
        transfer-after a a amount s fits fits',
        laws.update_self (account a y) (manager.update_account (account a x) s2),
      )
