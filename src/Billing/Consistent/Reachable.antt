-- ===== src/Billing/Consistent/Reachable.antt =====
-- Histories of the money protocol, and the projections at the end of each.
use xscope.Prelude.{ℕ, ◌≡◌, false, Option, none, List, [], ok}
use xscope.Prelude.Int.{ℤ}
use xscope.Prelude.Text.{Text, codes, text_eq}
use xscope.Domain.Catalog.{CatalogModel}
use xscope.Billing.Types.{
  ReserveRequest, SettleRequest, UnresolvedRequest, ReleaseRequest, Reservation, Account, ApiKey,
  LedgerTransaction, Db,
}
use xscope.Billing.Projection.{booked_sum, held_sum, balance_and_held}
use xscope.Billing.Ledger.{insert_balanced_entries}
use xscope.Billing.Reserve.{reserve_money}
use xscope.Billing.Lifecycle.{dispatch_money, release_money, unresolved_money, settle_money}
use xscope.Billing.Consistent.Keeps.{balance_and_held-sums}
use xscope.Billing.Consistent.{IsConsistent}
use xscope.Billing.Consistent.Lifecycle.{dispatch_money-IsConsistent, unresolved_money-IsConsistent}
use xscope.Billing.Consistent.Release.{release_money-IsConsistent}
use xscope.Billing.Consistent.Reserve.{reserve_money-IsConsistent}
use xscope.Billing.Consistent.Settle.{
  insert_balanced_entries-IsConsistent, settle_money-IsConsistent,
}

-- One committed transaction of the protocol or a move of the clock, and histories of them. A refused call rolls back.
pub data Step (month_of : ℕ → ℕ) : Db → Db → Type 0 where
  reserves :
      (now : ℕ) (r : ReserveRequest) (row : Reservation) (db db' : Db)
      → reserve_money month_of now r db ≡ ok (row, db')
      → Step month_of db db'
  dispatches :
      (project id : Text) (row : Reservation) (db db' : Db)
      → dispatch_money project id db ≡ ok (row, db')
      → Step month_of db db'
  reports :
      (project id : Text) (r : UnresolvedRequest) (row : Reservation) (db db' : Db)
      → unresolved_money project id r db ≡ ok (row, db')
      → Step month_of db db'
  releases :
      (project id : Text) (r : ReleaseRequest) (row : Reservation) (db db' : Db)
      → release_money project id r db ≡ ok (row, db')
      → Step month_of db db'
  settles :
      (now : ℕ) (txn project id : Text) (r : SettleRequest) (row : Reservation) (db db' : Db)
      → settle_money (record { now = now; month_of = month_of; txn = txn }) project id r db
        ≡ ok (row, db')
      → Step month_of db db'
  ticks : (t : ℕ) (db : Db) → Step month_of db (record db { clock = t })
  posts :
      (txn counter : Text) (a : Account) (h : LedgerTransaction) (delta : ℤ) (db db' : Db)
      → text_eq counter (codes "customer_balance") ≡ false
      → insert_balanced_entries txn a h delta counter db ≡ ok (tt, db')
      → Step month_of db db'

pub data Run (month_of : ℕ → ℕ) : Db → Db → Type 0 where
  stop : {db : Db} → Run month_of db db
  next : {db db' db'' : Db} → Step month_of db db' → Run month_of db' db'' → Run month_of db db''

pub Step-IsConsistent :
    (month_of : ℕ → ℕ) {db db' : Db}
    → IsConsistent month_of db
    → Step month_of db db'
    → IsConsistent month_of db'
Step-IsConsistent month_of c (reserves now r row db db' e) =
    reserve_money-IsConsistent month_of now r row db db' c e
Step-IsConsistent month_of c (dispatches project id row db db' e) =
    dispatch_money-IsConsistent month_of project id row db db' c e
Step-IsConsistent month_of c (reports project id r row db db' e) =
    unresolved_money-IsConsistent month_of project id r row db db' c e
Step-IsConsistent month_of c (releases project id r row db db' e) =
    release_money-IsConsistent month_of project id r row db db' c e
Step-IsConsistent month_of c (settles now txn project id r row db db' e) =
    settle_money-IsConsistent (record { now = now; month_of = month_of; txn = txn }) project id r
      row db db' c e
Step-IsConsistent month_of c (ticks t db) = record { tracks = c.tracks; owned = c.owned }
Step-IsConsistent month_of c (posts txn counter a h delta db db' other e) =
    insert_balanced_entries-IsConsistent month_of txn a h delta counter db db' other c e

-- From a consistent state, any history of committed transactions, whose postings are against a
-- counter account other than the customer balance, ends with consistent projections.
pub Run-IsConsistent :
    (month_of : ℕ → ℕ) {db db' : Db}
    → IsConsistent month_of db
    → Run month_of db db'
    → IsConsistent month_of db'
Run-IsConsistent month_of c stop = c
Run-IsConsistent month_of c (next s r) =
    Run-IsConsistent month_of (Step-IsConsistent month_of c s) r

-- A new database: accounts, keys and a catalog, and no money moved yet.
abbrev pub fresh : List Account → List ApiKey → (Text → Option CatalogModel) → Db
fresh accounts keys catalog = record {
  clock = 0;
  accounts = accounts;
  keys = keys;
  catalog = catalog;
  reservations = [];
  usage = [];
  ledger = [];
  transactions = [];
  events = [];
  jobs = λ _. none;
  effects = [];
  reviews = [];
  audits = [];
  balances = λ _. none;
  holds = λ _. none;
  spends = λ _ _. none;
}

pub fresh-IsConsistent :
    (month_of : ℕ → ℕ) (accounts : List Account) (keys : List ApiKey)
    (catalog : Text → Option CatalogModel)
    → IsConsistent month_of (fresh accounts keys catalog)
fresh-IsConsistent month_of accounts keys catalog = record {
  tracks = record {
    of_balance = λ id b e. cc;
    of_hold = λ key h e. cc;
    of_spend = λ key m s e. cc;
  };
  owned = tt;
}

-- At the end of any history of committed transactions from a new database, whose postings are
-- against a counter account other than the customer balance, what `balance_and_held` answers for an
-- account is the sum of its customer ledger entries and the sum of its reserved and dispatched
-- reservations.
pub balance_and_held-historical :
    (month_of : ℕ → ℕ) (accounts : List Account) (keys : List ApiKey)
    (catalog : Text → Option CatalogModel) (db db' : Db) (id : Text) (sums : ℤ × ℤ)
    → Run month_of (fresh accounts keys catalog) db
    → balance_and_held id db ≡ ok (sums, db')
    → sums ≡ (booked_sum id db.ledger, held_sum id db.reservations)
balance_and_held-historical month_of accounts keys catalog db db' id sums r h =
    let c = Run-IsConsistent month_of (fresh-IsConsistent month_of accounts keys catalog) r in
    balance_and_held-sums month_of db db' id sums c h
