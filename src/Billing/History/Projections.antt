-- ===== src/Billing/History/Projections.antt =====
-- What the actions on the projections preserve, from what the writes to them do.
use xscope.Prelude.{ℕ, Option, none, some, arith}
use xscope.Prelude.Int.{ℤ}
use xscope.Prelude.Text.{Text}
use xscope.Billing.Types.{Db, Balance}
use xscope.Billing.Projection.{
  initial_balance, initial_hold, initial_spend, account, key_hold, monthly,
  historical_balance_and_held, balance_and_held, change_balance, change_hold, change_spend,
}
use xscope.Billing.Ledger.{lock_account}
use xscope.Billing.History.Writes.{IsProjectionClosed, Preserves, preserving}

module _ {P : Db → Type 0} (c : IsProjectionClosed P) where
  pub lock_account-Preserves : (project : Text) → Preserves P (lock_account project)
  unfolding lock_account
  lock_account-Preserves project = search preserving

  historical-Preserves : (id : Text) → Preserves P (historical_balance_and_held id)
  unfolding historical_balance_and_held
  historical-Preserves id = record { after = λ db db' a p h. ground arith }

  initial_balance-Preserves : (id : Text) (o : Option Balance) → Preserves P (initial_balance id o)
  initial_balance-Preserves id (some row) = search preserving
  initial_balance-Preserves id none = search (preserving, historical-Preserves, c.balances)

  account-Preserves : (id : Text) → Preserves P (account id)
  unfolding account
  account-Preserves id = record {
    after = λ db. (initial_balance-Preserves id (db.balances id)).after db;
  }

  pub balance_and_held-Preserves : (id : Text) → Preserves P (balance_and_held id)
  unfolding balance_and_held
  balance_and_held-Preserves id = search (preserving, account-Preserves)

  initial_hold-Preserves : (key : Text) (o : Option ℤ) → Preserves P (initial_hold key o)
  initial_hold-Preserves key (some held) = search preserving
  initial_hold-Preserves key none = search (preserving, c.holds)

  pub key_hold-Preserves : (key : Text) → Preserves P (key_hold key)
  unfolding key_hold
  key_hold-Preserves key = record {
    after = λ db. (initial_hold-Preserves key (db.holds key)).after db;
  }

  initial_spend-Preserves :
      (month_of : ℕ → ℕ) (key : Text) (m : ℕ) (o : Option ℤ)
      → Preserves P (initial_spend month_of key m o)
  initial_spend-Preserves month_of key m (some spent) = search preserving
  initial_spend-Preserves month_of key m none = search (preserving, c.spends)

  pub monthly-Preserves :
      (month_of : ℕ → ℕ) (key : Text) (m : ℕ) → Preserves P (monthly month_of key m)
  unfolding monthly
  monthly-Preserves month_of key m = record {
    after = λ db. (initial_spend-Preserves month_of key m (db.spends key m)).after db;
  }

  pub change_hold-Preserves : (id key : Text) (delta : ℤ) → Preserves P (change_hold id key delta)
  unfolding change_hold
  change_hold-Preserves id key delta =
      search (preserving, account-Preserves, key_hold-Preserves, c.balances, c.holds) depth 9

  pub change_balance-Preserves : (id : Text) (delta : ℤ) → Preserves P (change_balance id delta)
  unfolding change_balance
  change_balance-Preserves id delta = search (preserving, account-Preserves, c.balances) depth 9

  pub change_spend-Preserves :
      (key : Text) (m : ℕ) (spent delta : ℤ) → Preserves P (change_spend key m spent delta)
  unfolding change_spend
  change_spend-Preserves key m spent delta = search (preserving, c.spends)
