-- ===== src/Billing/Tests.antt =====
-- The money protocol run on a small database: one project that is postpaid, one key, one model.
use xscope.Billing.Inactive.{reserve_money-inactive}
use xscope.Domain.Keys.{active, key_status}
use xscope.Billing.Audit.{
  CheckRequest, Report, projected_spend, projection_check, compare, rebuild_rows,
  projected_spend-historical,
}
use xscope.Billing.Audit.Exact.{IsExact, projection_check-IsExact}
use xscope.Billing.Audit.Rebuild.{projection_check-rebuilds}
use xscope.Billing.Projection.{spent_sum}
use xscope.Billing.Requests.{reserve_eq}
use xscope.Billing.Store.{upsert}
use xscope.Billing.History.DoubleEntry.{of_transaction, of_billing_account, ledger-balanced}
use xscope.Billing.History.Outbox.{IsOutbox, IsOutbox-numbered}
use xscope.Prelude.{◌==◌, ◌↔◌, find}
use xscope.Prelude.{◌≢◌}
use xscope.Prelude.{ℕ, ◌≡◌, refl, ◌/◌, true, false, Option, none, some, [], ◌∷◌, ok, if◌then◌else◌}
use xscope.Prelude.Int.{
  ℤ, pos, negsuc, neg, ◌+ℤ◌, ◌-ℤ◌, ◌*ℤ◌, checked_add, checked_sub, checked_mul, wrap_i64, quot_i64,
}
use xscope.Prelude.Text.{Text, codes, text_eq, text_mem}
use xscope.Domain.Money.{Model, usage_cost_microunits, ceil_minor_units}
use xscope.Domain.Catalog.{CatalogModel}
use xscope.Billing.Types.{ReserveRequest, SettleRequest, Reservation, Account, ApiKey, Db}
use xscope.Billing.Store.{Tx, sum_where}
use xscope.Billing.Projection.{
  add, historical_balance_and_held, account, balance_and_held, key_hold, monthly, change_hold,
  change_balance, change_spend, booked_sum, held_sum,
}
use xscope.Billing.Ledger.{
  lock_account, last_sequence, next_sequence, schedule, append_event, guard_debit,
  insert_balanced_entries,
}
use xscope.Billing.Requests.{identifier}
use xscope.Billing.Reserve.{
  malformed, key_refused, active_model, bad_terms, request_identity_used, check_balance,
  check_budget, hold_and_insert, admit, reserve_money,
}
use xscope.Billing.Lifecycle.{
  Stamp, project_reservation, dispatch_row, dispatch_money, release_row, release_money,
  bad_settlement, insert_usage, post_charge, charge, settle_row, settle_locked, settle_money,
}
use xscope.Billing.Consistent.{IsConsistent}
use xscope.Billing.Consistent.Reachable.{
  Run, reserves, dispatches, settles, stop, next, fresh, fresh-IsConsistent, Run-IsConsistent,
  Step-IsConsistent, balance_and_held-historical,
}
use xscope.Billing.Consistent.Covered.{reserve_money-covers}
use xscope.Billing.Outcomes.{settle_locked-within, dispatch_money-replay}
use xscope.Domain.Money.Cost.{Priced}
use xscope.Billing.Store.{find_reservation}
use xscope.Billing.Consistent.{find_account}
use xscope.Billing.Types.{dispatched, LedgerTransaction}
use xscope.Billing.Consistent.Settle.{insert_balanced_entries-IsConsistent}
use xscope.Billing.Consistent.Reachable.{posts}
use xscope.Prelude.{◌+◌, ◌*◌, ◌≤◌}
use xscope.Prelude.Int.{◌≤ℤ◌}
use xscope.Billing.Projection.{change_balance}
use xscope.Billing.Consistent.Lifecycle.{dispatch_money-IsConsistent}
use xscope.Billing.Consistent.Release.{release_money-IsConsistent}
use xscope.Billing.Consistent.Reserve.{reserve_money-IsConsistent}
use xscope.Billing.Consistent.Settle.{settle_money-IsConsistent}

abbrev pub acme : Account
acme = record {
  id = codes "acc-1";
  tenant_id = codes "t-1";
  project_id = codes "p-1";
  currency = codes "CNY";
  enforce_balance = false;
  status = codes "active";
}

abbrev pub acme_key : ApiKey
acme_key = record {
  id = codes "key-1";
  tenant_id = codes "t-1";
  project_id = codes "p-1";
  name = codes "main";
  secret_hash = [];
  scopes = codes "chat.completions" ∷ [];
  allowed_models = codes "m" ∷ [];
  expires_at = none;
  rate_limit_rpm = pos 60;
  rate_limit_tpm = pos 1000;
  monthly_budget_amount = pos 50;
  currency = codes "CNY";
  revoked_at = none;
}

abbrev pub tiny_model : Model
tiny_model = record {
  id = codes "m";
  display_name = codes "M";
  max_context_tokens = pos 100;
  input_per_million_tokens = record { currency = codes "CNY"; amount = pos 3 };
  output_per_million_tokens = record { currency = codes "CNY"; amount = pos 5 };
  price_version = codes "v1";
}

abbrev pub catalog : Text → Option CatalogModel
catalog id =
    if text_eq id (codes "m")
    then some (record { revision = pos 1; enabled = true; default_pool = none; model = tiny_model })
    else none

abbrev pub start : Db
start = fresh (acme ∷ []) (acme_key ∷ []) catalog

abbrev pub month_of : ℕ → ℕ
month_of t = t / 1000

abbrev pub call : ReserveRequest
call = record {
  id = codes "r-1";
  tenant_id = codes "t-1";
  project_id = codes "p-1";
  api_key_id = codes "key-1";
  request_id = codes "q-1";
  model_id = codes "m";
  model_revision = codes "a";
  price_version = codes "v1";
  input_token_limit = pos 10;
  output_token_limit = pos 20;
}

abbrev pub usage : SettleRequest
usage = record {
  input_tokens = pos 4;
  output_tokens = pos 6;
  latency_ms = pos 9;
  endpoint_id = codes "e-1";
  region = codes "cn";
  status = codes "succeeded";
}

-- A run's answer, its final state and the equation between them.
abbrev pub Outcome : Tx Reservation → Db → Type 0
Outcome m db = (row : Reservation) × (db' : Db) × (m db ≡ ok (row, db'))

unfoldable pub reserved_call : Outcome (reserve_money month_of 7 call) start
unfolding reserve_money malformed key_refused active_model bad_terms request_identity_used
    check_balance check_budget hold_and_insert admit identifier lock_account usage_cost_microunits
    checked_add checked_sub checked_mul monthly key_hold change_hold account add
    historical_balance_and_held append_event next_sequence last_sequence schedule sum_where text_eq
    text_mem neg ◌+ℤ◌ ◌*ℤ◌
reserved_call = (_, _, refl)

unfoldable dispatched_call : Outcome (dispatch_money (codes "p-1") (codes "r-1")) reserved_call.1
unfolding reserved_call dispatch_money dispatch_row lock_account project_reservation append_event
    next_sequence last_sequence schedule checked_add text_eq ◌+ℤ◌
dispatched_call = (_, _, refl)

unfoldable released_call :
    Outcome
      (release_money (codes "p-1") (codes "r-1") (record { reason = codes "not_dispatched" }))
      reserved_call.1
unfolding reserved_call release_money release_row lock_account project_reservation change_hold
    account key_hold add append_event next_sequence last_sequence schedule checked_add text_eq neg
    ◌+ℤ◌
released_call = (_, _, refl)

abbrev pub stamp : Stamp
stamp = record { now = 8; month_of = month_of; txn = codes "txn-1" }

unfoldable settled_call :
    Outcome (settle_money stamp (codes "p-1") (codes "r-1") usage) dispatched_call.1
unfolding reserved_call dispatched_call settle_money settle_locked settle_row charge insert_usage
    post_charge insert_balanced_entries guard_debit bad_settlement identifier lock_account
    project_reservation change_hold change_balance change_spend monthly account key_hold
    historical_balance_and_held add append_event next_sequence last_sequence schedule
    usage_cost_microunits ceil_minor_units wrap_i64 quot_i64 checked_add checked_sub checked_mul
    sum_where text_eq neg ◌+ℤ◌ ◌-ℤ◌ ◌*ℤ◌
settled_call = (_, _, refl)

-- The reservation is created, dispatched and settled.
history : Run month_of start settled_call.1
history = next (reserves 7 call reserved_call.0 start reserved_call.1 reserved_call.2) (
    next
      (dispatches (codes "p-1") (codes "r-1") dispatched_call.0 reserved_call.1 dispatched_call.1
        dispatched_call.2)
      (next
        (settles 8 (codes "txn-1") (codes "p-1") (codes "r-1") usage settled_call.0
          dispatched_call.1 settled_call.1 settled_call.2)
        stop))

unfoldable read_back :
    (sums : ℤ × ℤ) × (db : Db) × (balance_and_held (codes "acc-1") settled_call.1 ≡ ok (sums, db))
unfolding reserved_call dispatched_call settled_call balance_and_held account
read_back = (_, _, refl)

read_back_test : read_back.0 ≡ (negsuc 41, pos 0)
unfolding read_back
read_back_test = refl

start-IsConsistent : IsConsistent month_of start
start-IsConsistent = fresh-IsConsistent month_of (acme ∷ []) (acme_key ∷ []) catalog

reserved-IsConsistent : IsConsistent month_of reserved_call.1
reserved-IsConsistent =
    Step-IsConsistent month_of start-IsConsistent
      (reserves 7 call reserved_call.0 start reserved_call.1 reserved_call.2)

dispatched-IsConsistent : IsConsistent month_of dispatched_call.1
dispatched-IsConsistent = Step-IsConsistent month_of reserved-IsConsistent (
    dispatches (codes "p-1") (codes "r-1") dispatched_call.0 reserved_call.1 dispatched_call.1
      dispatched_call.2)

run-IsConsistent_example : IsConsistent month_of settled_call.1
run-IsConsistent_example = Run-IsConsistent month_of start-IsConsistent history

balance_and_held-historical_example : read_back.0 ≡ (
  booked_sum (codes "acc-1") settled_call.1.ledger,
  held_sum (codes "acc-1") settled_call.1.reservations,
)
balance_and_held-historical_example =
    balance_and_held-historical month_of (acme ∷ []) (acme_key ∷ []) catalog settled_call.1
      read_back.1 (codes "acc-1") read_back.0 history read_back.2

reserve_money-IsConsistent_example : IsConsistent month_of reserved_call.1
reserve_money-IsConsistent_example =
    reserve_money-IsConsistent month_of 7 call reserved_call.0 start reserved_call.1
      start-IsConsistent reserved_call.2

dispatch_money-IsConsistent_example : IsConsistent month_of dispatched_call.1
dispatch_money-IsConsistent_example =
    dispatch_money-IsConsistent month_of (codes "p-1") (codes "r-1") dispatched_call.0
      reserved_call.1 dispatched_call.1 reserved-IsConsistent dispatched_call.2

release_money-IsConsistent_example : IsConsistent month_of released_call.1
release_money-IsConsistent_example =
    release_money-IsConsistent month_of (codes "p-1") (codes "r-1")
      (record { reason = codes "not_dispatched" }) released_call.0 reserved_call.1 released_call.1
      reserved-IsConsistent released_call.2

settle_money-IsConsistent_example : IsConsistent month_of settled_call.1
settle_money-IsConsistent_example =
    settle_money-IsConsistent stamp (codes "p-1") (codes "r-1") usage settled_call.0
      dispatched_call.1 settled_call.1 dispatched-IsConsistent settled_call.2

-- The same project with an enforced balance, funded by a deposit of five fen.
abbrev strict : Account
strict = record acme { enforce_balance = true }

abbrev strict_start : Db
strict_start = fresh (strict ∷ []) (acme_key ∷ []) catalog

abbrev deposit : LedgerTransaction
deposit = record {
  id = [];
  tenant_id = codes "t-1";
  kind = codes "payment";
  reference_type = codes "order";
  reference_id = codes "o-1";
  idempotency_key = codes "pay-1";
  currency = [];
  description = codes "Deposit";
}

unfoldable funded :
    (db : Db) × (insert_balanced_entries
        (codes "txn-0")
        strict
        deposit
        (pos 5000000)
        (codes "cash")
        strict_start
      ≡ ok (tt, db))
unfolding insert_balanced_entries guard_debit balance_and_held change_balance lock_account account
    historical_balance_and_held add append_event next_sequence last_sequence schedule checked_add
    checked_sub sum_where text_eq neg ◌+ℤ◌ ◌-ℤ◌
funded = (_, refl)

funded-IsConsistent : IsConsistent month_of funded.0
funded-IsConsistent =
    Step-IsConsistent month_of (fresh-IsConsistent month_of (strict ∷ []) (acme_key ∷ []) catalog) (
      posts (codes "txn-0") (codes "cash") strict deposit (pos 5000000) strict_start funded.0
        (unfold text_eq in refl) funded.1)

insert_balanced_entries-IsConsistent_example : IsConsistent month_of funded.0
insert_balanced_entries-IsConsistent_example =
    insert_balanced_entries-IsConsistent month_of (codes "txn-0") strict deposit (pos 5000000)
      (codes "cash") strict_start funded.0 (unfold text_eq in refl)
      (fresh-IsConsistent month_of (strict ∷ []) (acme_key ∷ []) catalog) funded.1

unfoldable strict_call : Outcome (reserve_money month_of 7 call) funded.0
unfolding funded balance_and_held ◌-ℤ◌ reserve_money malformed key_refused active_model bad_terms
    request_identity_used check_balance check_budget hold_and_insert admit identifier lock_account
    usage_cost_microunits checked_add checked_sub checked_mul monthly key_hold change_hold account
    add historical_balance_and_held append_event next_sequence last_sequence schedule sum_where
    text_eq text_mem neg ◌+ℤ◌ ◌*ℤ◌
strict_call = (_, _, refl)

funded_account : find_account call.project_id funded.0.accounts ≡ some strict
unfolding funded text_eq
funded_account = refl

funded_empty : find_reservation call.id funded.0.reservations ≡ none
unfolding funded
funded_empty = refl

reserve_money-covers_example :
    held_sum strict.id strict_call.1.reservations ≤ℤ booked_sum strict.id strict_call.1.ledger
reserve_money-covers_example =
    reserve_money-covers month_of 7 strict call strict_call.0 funded.0 strict_call.1 funded_account
      refl funded_empty funded-IsConsistent strict_call.2

unfoldable settled_row_call :
    Outcome (settle_locked stamp acme dispatched_call.0 usage) dispatched_call.1
unfolding reserved_call dispatched_call settle_money settle_locked settle_row charge insert_usage
    post_charge insert_balanced_entries guard_debit bad_settlement identifier lock_account
    project_reservation change_hold change_balance change_spend monthly account key_hold
    historical_balance_and_held add append_event next_sequence last_sequence schedule
    usage_cost_microunits ceil_minor_units wrap_i64 quot_i64 checked_add checked_sub checked_mul
    sum_where text_eq neg ◌+ℤ◌ ◌-ℤ◌ ◌*ℤ◌
settled_row_call = (_, _, refl)

tiny_Priced : Priced dispatched_call.0.price 3 5
unfolding dispatched_call reserved_call
tiny_Priced = record { input_price = refl; output_price = refl }

held_cost : usage_cost_microunits dispatched_call.0.price (pos 10) (pos 20) ≡ ok (pos 130)
unfolding dispatched_call reserved_call usage_cost_microunits checked_add checked_mul ◌+ℤ◌ ◌*ℤ◌
held_cost = refl

dispatched_terms :
    (dispatched_call.0.state ≡ dispatched)
    × (dispatched_call.0.spec.input_token_limit ≡ pos 10)
    × (dispatched_call.0.spec.output_token_limit ≡ pos 20)
unfolding dispatched_call reserved_call
dispatched_terms = (refl, refl, refl)

settle_locked-within_example :
    (settled_row_call.0.settled_microunits ≡ some (pos (4 * 3 + 6 * 5))) × (4 * 3 + 6 * 5 ≤ 130)
settle_locked-within_example =
    settle_locked-within stamp acme usage dispatched_call.0 settled_row_call.0 dispatched_call.1
      settled_row_call.1 3 5 4 6 10 20 130 tiny_Priced dispatched_terms.0 dispatched_terms.1
      dispatched_terms.2 refl refl held_cost settled_row_call.2

dispatch_money-replay_example :
    dispatch_money (codes "p-1") (codes "r-1") dispatched_call.1
    ≡ ok (dispatched_call.0, dispatched_call.1)
dispatch_money-replay_example =
    dispatch_money-replay (codes "p-1") (codes "r-1") dispatched_call.0 reserved_call.1
      dispatched_call.1 dispatched_call.2

abbrev old_key : ApiKey
old_key = record acme_key { expires_at = some 5 }

old_key_inactive : key_status old_key.revoked_at old_key.expires_at 7 ≢ active
unfolding key_status
old_key_inactive h = cc

-- The key has expired since the reservation.
abbrev later : Db
later = record reserved_call.1 { keys = old_key ∷ [] }

unfoldable replayed_call : Outcome (reserve_money month_of 7 call) later
unfolding reserved_call reserve_money malformed identifier lock_account reserve_eq text_eq
replayed_call = (_, _, refl)

old_key_found : find (λ k. text_eq k.id call.api_key_id) later.keys ≡ some old_key
unfolding text_eq
old_key_found = refl

reserve_money-inactive_example :
    (find_reservation (codes "r-1") later.reservations ≡ some replayed_call.0)
    × (replayed_call.1 ≡ later)
reserve_money-inactive_example =
    reserve_money-inactive month_of 7 call old_key replayed_call.0 later replayed_call.1
      old_key_found old_key_inactive replayed_call.2

abbrev check_call : CheckRequest
check_call = record { api_key_id = codes "key-1"; month = 0 }

unfoldable checked_call :
    (report : Report) × (db : Db) × (projection_check
        (λ m. m == 0)
        month_of
        (codes "p-1")
        check_call
        true
        settled_call.1
      ≡ ok (report, db))
unfolding reserved_call dispatched_call settled_call projection_check compare rebuild_rows
    historical_balance_and_held account key_hold monthly lock_account append_event next_sequence
    last_sequence schedule checked_add sum_where text_eq neg ◌+ℤ◌
checked_call = (_, _, refl)

settled_account : find_account (codes "p-1") settled_call.1.accounts ≡ some acme
unfolding reserved_call dispatched_call settled_call text_eq
settled_account = refl

projection_check-IsExact_example :
    (checked_call.0.consistent_before ≡ true) ↔ IsExact month_of acme.id check_call settled_call.1
projection_check-IsExact_example =
    projection_check-IsExact month_of (λ m. m == 0) (codes "p-1") check_call true acme
      checked_call.0 settled_call.1 checked_call.1 settled_account checked_call.2

consistent_test : checked_call.0.consistent_before ≡ true
unfolding reserved_call dispatched_call settled_call checked_call text_eq
consistent_test = refl

-- The key's hold has drifted.
abbrev drifted : Db
drifted = record settled_call.1 { holds = upsert (codes "key-1") (pos 77) settled_call.1.holds }

unfoldable repaired_call :
    (report : Report) × (db : Db) × (projection_check
        (λ m. m == 0)
        month_of
        (codes "p-1")
        check_call
        true
        drifted
      ≡ ok (report, db))
unfolding reserved_call dispatched_call settled_call projection_check compare rebuild_rows
    historical_balance_and_held account key_hold monthly lock_account append_event next_sequence
    last_sequence schedule checked_add sum_where text_eq neg ◌+ℤ◌
repaired_call = (_, _, refl)

drift_test : repaired_call.0.consistent_before ≡ false
unfolding reserved_call dispatched_call settled_call repaired_call text_eq
drift_test = refl

projection_check-rebuilds_example : IsExact month_of acme.id check_call repaired_call.1
projection_check-rebuilds_example =
    projection_check-rebuilds month_of (λ m. m == 0) (codes "p-1") check_call acme repaired_call.0
      drifted repaired_call.1 settled_account repaired_call.2

unfoldable spend_call :
    (v : ℤ) × (db : Db) × (projected_spend month_of (codes "p-1") (codes "key-1") 0 settled_call.1
      ≡ ok (v, db))
unfolding reserved_call dispatched_call settled_call projected_spend lock_account monthly text_eq
spend_call = (_, _, refl)

projected_spend-historical_example :
    spend_call.0 ≡ spent_sum month_of (codes "key-1") 0 settled_call.1.usage
projected_spend-historical_example =
    projected_spend-historical month_of (codes "p-1") (codes "key-1") 0 spend_call.0 settled_call.1
      spend_call.1 (Run-IsConsistent month_of start-IsConsistent history) spend_call.2

ledger-balanced_example :
    (sum_where (of_transaction (codes "txn-1")) (λ e. e.amount_microunits) settled_call.1.ledger
      ≡ pos 0)
    × (sum_where
          (of_billing_account (codes "txn-1"))
          (λ e. e.amount_microunits)
          settled_call.1.ledger
        ≡ pos 0)
ledger-balanced_example =
    ledger-balanced month_of (acme ∷ []) (acme_key ∷ []) catalog settled_call.1 (codes "txn-1")
      history

IsOutbox-numbered_example : IsOutbox settled_call.1
IsOutbox-numbered_example =
    IsOutbox-numbered month_of (acme ∷ []) (acme_key ∷ []) catalog settled_call.1 history
