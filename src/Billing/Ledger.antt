-- ===== src/Billing/Ledger.antt =====
-- The outbox of account events with its worker's job row, and the double-entry postings:
-- `append_event` and `lock_account` of billing.rs, `schedule` of event_worker.rs and
-- `insert_balanced_entries` of repository.rs, all in rust/crates/control-plane/src.
use xscope.Prelude.{
  ℕ, ◌≡◌, sym, ◌&&◌, Option, none, some, List, [], ◌∷◌, if◌then◌else◌, ok, find, any, is_none_or,
  and_then,
}
use xscope.Prelude.Int.{ℤ, pos, negsuc, neg, ltb_ℤ, leb_ℤ, eq_ℤ, checked_add, checked_sub, max_i64}
use xscope.Prelude.Text.{Text, codes, text_eq}
use xscope.Billing.Types.{
  not_found, invalid, conflict, insufficient_funds, sequence_exhausted, ledger_too_large,
  resource_exists, reserved_balance, Account, LedgerTransaction, LedgerEntry, Event, idle, pending,
  Job, Db,
}
use xscope.Billing.Store.{
  Tx, ◌>>=◌, ◌>>◌, pure, fail_if, some_or, gets, modify, upsert, bind-some_or-eq-ok, some_or_inv,
  ok_inv,
}
use xscope.Billing.Projection.{balance_and_held, change_balance}

-- `lock_account(tx, project_id)`: every other mutator of the account waits until the commit.
unfoldable pub lock_account : Text → Tx Account
lock_account project_id = do
  accounts ← gets (λ db. db.accounts)
  some_or (find (λ a. text_eq a.project_id project_id) accounts) not_found

abbrev pub later : ℤ → Option ℤ → Option ℤ
later s none = some s
later s (some t) = some (if leb_ℤ t s then s else t)

-- The greatest sequence number among the account's events.
unfoldable pub last_sequence : Text → List Event → Option ℤ
last_sequence id [] = none
last_sequence id (e ∷ es) =
    let rest = last_sequence id es in
    if text_eq e.billing_account_id id then later e.sequence rest else rest

abbrev pub reschedule : ℕ → ℤ → Option Job → Job
reschedule clock sequence none = record {
  acknowledged = pos 0;
  target_sequence = sequence;
  lease_epoch = pos 0;
  lease_through = pos 0;
  lease_token = none;
  lease_until = none;
  available_at = clock;
  state = pending;
  attempts = pos 0;
  last_error = none;
}
reschedule clock sequence (some job) = record job {
  target_sequence = sequence;
  state = elim job.state [ idle ↦ pending | s ↦ s ];
}

-- `schedule`: the worker's job row of the account is inserted, or its target moved.
unfoldable pub schedule : Text → ℤ → Db → Db
schedule id sequence db = record db {
  jobs = upsert id (reschedule db.clock sequence (db.jobs id)) db.jobs;
}

abbrev pub or_zero : Option ℤ → ℤ
or_zero none = pos 0
or_zero (some s) = s

-- The account's next sequence number, where it is in range.
unfoldable pub next_sequence : Text → List Event → Option ℤ
unfolding last_sequence
next_sequence id events = checked_add (or_zero (last_sequence id events)) (pos 1)

abbrev pub with_event : Text → Text → Text → ℤ → Db → Db
with_event id kind aggregate sequence db = record db {
  events =
      record { billing_account_id = id; sequence = sequence; kind = kind; aggregate_id = aggregate }
      ∷ db.events;
}

unfoldable pub append_event : Text → Text → Text → Tx (Unit {0})
unfolding next_sequence schedule
append_event id kind aggregate = do
  events ← gets (λ db. db.events)
  sequence ← some_or (next_sequence id events) (invalid sequence_exhausted)
  modify (with_event id kind aggregate sequence)
  modify (schedule id sequence)

abbrev pub entry : Text → Account → Text → ℤ → LedgerEntry
entry txn account ledger_account amount = record {
  transaction_id = txn;
  billing_account_id = account.id;
  ledger_account = ledger_account;
  amount_microunits = amount;
  currency = account.currency;
}

-- The check on a debit of an account that enforces its balance.
unfoldable pub guard_debit : Account → ℤ → Tx (Unit {0})
guard_debit locked delta =
    if ltb_ℤ delta (pos 0) && locked.enforce_balance
    then (do
      sums ← balance_and_held locked.id
      fail_if
          (is_none_or (and_then (checked_sub sums.0 sums.1) λ v. checked_add v delta)
            (λ v. ltb_ℤ v (pos 0)))
          (insufficient_funds reserved_balance))
    else pure tt

-- `txn` is the fresh `txn-{uuid}`.
unfoldable pub insert_balanced_entries :
    Text → Account → LedgerTransaction → ℤ → Text → Tx (Unit {0})
unfolding lock_account guard_debit
insert_balanced_entries txn account header delta counter_account = do
  fail_if (eq_ℤ delta (negsuc max_i64)) (invalid ledger_too_large)
  locked ← lock_account account.project_id
  guard_debit locked delta
  change_balance account.id delta
  transactions ← gets (λ db. db.transactions)
  fail_if (any (λ t. text_eq t.idempotency_key header.idempotency_key) transactions)
      (conflict resource_exists)
  modify (λ db. record db {
    transactions = record header { id = txn; currency = account.currency } ∷ db.transactions;
    ledger =
        entry txn account counter_account (neg delta)
        ∷ entry txn account (codes "customer_balance") delta
        ∷ db.ledger;
  })
  append_event account.id (codes "ledger.posted") txn

-- What a successful `append_event` did.
pub append_event_inv :
    (id kind aggregate : Text) (db db' : Db)
    → append_event id kind aggregate db ≡ ok (tt, db')
    → (s : ℤ) × (next_sequence id db.events ≡ some s)
      × (db' ≡ schedule id s (with_event id kind aggregate s db))
unfolding append_event
append_event_inv id kind aggregate db db' h =
    let (s, e, f) =
      bind-some_or-eq-ok (next_sequence id db.events) (invalid sequence_exhausted)
        (λ s. modify (with_event id kind aggregate s) >> modify (schedule id s)) db h in
    (s, e, sym (ok_inv tt tt (schedule id s (with_event id kind aggregate s db)) db' f).1)

pub lock_account_inv :
    (project : Text) (a : Account) (db db' : Db)
    → lock_account project db ≡ ok (a, db')
    → (find (λ a. text_eq a.project_id project) db.accounts ≡ some a) × (db ≡ db')
unfolding lock_account
lock_account_inv project a db db' h =
    some_or_inv (find (λ a. text_eq a.project_id project) db.accounts) not_found a db db' h
