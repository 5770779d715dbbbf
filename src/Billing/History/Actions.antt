-- ===== src/Billing/History/Actions.antt =====
-- What the actions of the money protocol preserve, from what their writes do.
use xscope.Prelude.{ℕ, Option, none, some, subst, sym}
use xscope.Prelude.Int.{ℤ}
use xscope.Prelude.Text.{Text}
use xscope.Billing.Types.{Db, Account, ReserveRequest, LedgerTransaction, Reservation, ApiKey}
use xscope.Domain.Money.{Model}
use xscope.Billing.Ledger.{guard_debit, append_event, append_event_inv, insert_balanced_entries}
use xscope.Billing.Reserve.{
  active_model, check_balance, check_budget, hold_and_insert, admit, existing_or_admit,
  reserve_money,
}
use xscope.Billing.History.Writes.{IsClosed, projections, Preserves, preserving}
use xscope.Billing.History.Projections.{
  lock_account-Preserves, balance_and_held-Preserves, change_balance-Preserves, monthly-Preserves,
  key_hold-Preserves, change_hold-Preserves,
}

module _ {P : Db → Type 0} (c : IsClosed P) where
  pub append_event-Preserves :
      (id kind aggregate : Text) → Preserves P (append_event id kind aggregate)
  append_event-Preserves id kind aggregate = record {
    after = λ db db' a p h.
        let (s, fresh, e) = append_event_inv id kind aggregate db db' h in
        subst P (sym e) (c.events db id kind aggregate s fresh p);
  }

  guard_debit-Preserves : (a : Account) (delta : ℤ) → Preserves P (guard_debit a delta)
  unfolding guard_debit
  guard_debit-Preserves a delta = search (preserving, balance_and_held-Preserves (projections c))

  pub insert_balanced_entries-Preserves :
      (txn : Text) (a : Account) (h : LedgerTransaction) (delta : ℤ) (counter : Text)
      → Preserves P (insert_balanced_entries txn a h delta counter)
  unfolding insert_balanced_entries
  insert_balanced_entries-Preserves txn a h delta counter =
      search
        (
          preserving,
          lock_account-Preserves (projections c),
          guard_debit-Preserves,
          change_balance-Preserves (projections c),
          append_event-Preserves,
          c.postings,
        )
        depth 14

  active_model-Preserves : (id : Text) → Preserves P (active_model id)
  unfolding active_model
  active_model-Preserves id = search preserving

  check_balance-Preserves : (a : Account) (amount : ℤ) → Preserves P (check_balance a amount)
  unfolding check_balance
  check_balance-Preserves a amount = search (preserving, balance_and_held-Preserves (projections c))

  check_budget-Preserves :
      (month_of : ℕ → ℕ) (now : ℕ) (key : ApiKey) (amount : ℤ)
      → Preserves P (check_budget month_of now key amount)
  unfolding check_budget
  check_budget-Preserves month_of now key amount =
      search (preserving, monthly-Preserves (projections c), key_hold-Preserves (projections c))
        depth 9

  hold_and_insert-Preserves :
      (a : Account) (key : ApiKey) (r : ReserveRequest) (m : Model) (amount : ℤ)
      → Preserves P (hold_and_insert a key r m amount)
  unfolding hold_and_insert
  hold_and_insert-Preserves a key r m amount =
      search
        (preserving, change_hold-Preserves (projections c), append_event-Preserves, c.reservations)
        depth 9

  admit-Preserves :
      (month_of : ℕ → ℕ) (now : ℕ) (a : Account) (r : ReserveRequest)
      → Preserves P (admit month_of now a r)
  unfolding admit
  admit-Preserves month_of now a r =
      search
        (
          preserving, active_model-Preserves, check_balance-Preserves, check_budget-Preserves,
          hold_and_insert-Preserves,
        )
        depth 20

  existing_or_admit-Preserves :
      (month_of : ℕ → ℕ) (now : ℕ) (a : Account) (r : ReserveRequest) (o : Option Reservation)
      → Preserves P (existing_or_admit month_of now a r o)
  existing_or_admit-Preserves month_of now a r (some row) = search preserving
  existing_or_admit-Preserves month_of now a r none = admit-Preserves month_of now a r

  pub reserve_money-Preserves :
      (month_of : ℕ → ℕ) (now : ℕ) (r : ReserveRequest) → Preserves P (reserve_money month_of now r)
  unfolding reserve_money
  reserve_money-Preserves month_of now r =
      search (preserving, lock_account-Preserves (projections c), existing_or_admit-Preserves) depth
        9
