-- ===== src/Billing/Projection.antt =====
-- rust/crates/control-plane/src/billing_projection.rs: counters derived from the ledger, the
-- reservations and the usage, each initialised on its first use. `month_of` stands for chrono's
-- first day of an instant's UTC month.
use xscope.Prelude.{
  ℕ, Bool, true, false, not, ◌&&◌, ◌||◌, Option, none, some, List, if◌then◌else◌, Result, ok, err,
  ◌==◌,
}
use xscope.Prelude.Int.{ℤ, pos, leb_ℤ, checked_add}
use xscope.Prelude.Text.{Text, codes, text_eq}
use xscope.Billing.Types.{
  ServiceError, internal, projection_range, Reservation, LedgerEntry, UsageEvent, Balance, Db,
}
use xscope.Billing.Store.{
  Tx, ◌>>=◌, ◌>>◌, pure, lift, gets, modify, upsert, set_month, is_held, sum_where, total,
}

-- The filters of the three historical sums.
abbrev pub of_account : Text → LedgerEntry → Bool
of_account id e =
    text_eq e.billing_account_id id && text_eq e.ledger_account (codes "customer_balance")

abbrev pub held_of_account : Text → Reservation → Bool
held_of_account id r = text_eq r.billing_account_id id && is_held r.state

abbrev pub held_of_key : Text → Reservation → Bool
held_of_key key r = text_eq r.api_key_id key && is_held r.state

abbrev pub usage_of_month : (ℕ → ℕ) → Text → ℕ → UsageEvent → Bool
usage_of_month month_of key month u = text_eq u.api_key_id key && month_of u.occurred_at == month

abbrev pub booked_sum : Text → List LedgerEntry → ℤ
booked_sum id = sum_where (of_account id) (λ e. e.amount_microunits)

abbrev pub held_sum : Text → List Reservation → ℤ
held_sum id = sum_where (held_of_account id) (λ r. r.reserved_microunits)

abbrev pub key_held_sum : Text → List Reservation → ℤ
key_held_sum key = sum_where (held_of_key key) (λ r. r.reserved_microunits)

abbrev pub spent_sum : (ℕ → ℕ) → Text → ℕ → List UsageEvent → ℤ
spent_sum month_of key month =
    sum_where (usage_of_month month_of key month) (λ u. u.cost_microunits)

-- `add(value, delta, nonnegative)`
unfoldable pub add : ℤ → ℤ → Bool → Result ServiceError ℤ
add value delta nonnegative = elim (checked_add value delta) [
  | some v ↦ if not nonnegative || leb_ℤ (pos 0) v then ok v else err (internal projection_range)
  | none ↦ err (internal projection_range)
]

unfoldable pub historical_balance_and_held : Text → Tx (ℤ × ℤ)
historical_balance_and_held id db = elim (total (booked_sum id db.ledger)) [
  | ok booked ↦ elim (total (held_sum id db.reservations)) [
    | ok held ↦ ok ((booked, held), db)
    | err e ↦ err e
  ]
  | err e ↦ err e
]

abbrev pub initial_balance : Text → Option Balance → Tx Balance
initial_balance id (some row) = pure row
initial_balance id none = do
  sums ← historical_balance_and_held id
  let row : Balance = record { balance_microunits = sums.0; held_microunits = sums.1 }
  modify (λ db. record db { balances = upsert id row db.balances })
  pure row

-- `account(tx, id)`
unfoldable pub account : Text → Tx Balance
account id db = initial_balance id (db.balances id) db

unfoldable pub balance_and_held : Text → Tx (ℤ × ℤ)
unfolding account historical_balance_and_held
balance_and_held id = do row ← account id; pure (row.balance_microunits, row.held_microunits)

abbrev pub initial_hold : Text → Option ℤ → Tx ℤ
initial_hold key (some held) = pure held
initial_hold key none = do
  reservations ← gets (λ db. db.reservations)
  held ← lift (total (key_held_sum key reservations))
  modify (λ db. record db { holds = upsert key held db.holds })
  pure held

-- `key_hold(tx, id)`, with `historical_key_hold`
unfoldable pub key_hold : Text → Tx ℤ
key_hold key db = initial_hold key (db.holds key) db

abbrev pub set_spend : Text → ℕ → ℤ → Db → Db
set_spend key month spent db = record db { spends = set_month key month spent db.spends }

abbrev pub initial_spend : (ℕ → ℕ) → Text → ℕ → Option ℤ → Tx ℤ
initial_spend month_of key month (some spent) = pure spent
initial_spend month_of key month none = do
  usage ← gets (λ db. db.usage)
  spent ← lift (total (spent_sum month_of key month usage))
  modify (set_spend key month spent)
  pure spent

-- `monthly(tx, id, period)`, with `historical_spend`
unfoldable pub monthly : (ℕ → ℕ) → Text → ℕ → Tx ℤ
monthly month_of key month db = initial_spend month_of key month (db.spends key month) db

abbrev set_held : Text → Balance → ℤ → Db → Db
set_held id row held db = record db {
  balances = upsert id (record row { held_microunits = held }) db.balances;
}

-- Called before the reservation changes, so that a first initialisation sees the old rows.
unfoldable pub change_hold : Text → Text → ℤ → Tx (Unit {0})
unfolding account key_hold historical_balance_and_held add
change_hold account_id key delta = do
  row ← account account_id
  held ← lift (add row.held_microunits delta true)
  modify (set_held account_id row held)
  key_row ← key_hold key
  key_held ← lift (add key_row delta true)
  modify (λ db. record db { holds = upsert key key_held db.holds })

-- Called before the matching ledger entries.
unfoldable pub change_balance : Text → ℤ → Tx (Unit {0})
unfolding account historical_balance_and_held add
change_balance id delta = do
  row ← account id
  amount ← lift (add row.balance_microunits delta false)
  modify (λ db. record db {
    balances = upsert id (record row { balance_microunits = amount }) db.balances;
  })

-- The row was read by `monthly` before the usage event was inserted.
unfoldable pub change_spend : Text → ℕ → ℤ → ℤ → Tx (Unit {0})
unfolding add
change_spend key month spent delta = do
  amount ← lift (add spent delta true)
  modify (set_spend key month amount)
