-- ===== src/Billing/History/DoubleEntry.antt =====
-- The double-entry law of the ledger, over histories of the money protocol.
use xscope.Prelude.{ℕ, ◌≡◌, Bool, refl, Bool-cases, inl, inr, Option, List, ◌∷◌}
use xscope.Prelude.Int.{pos, neg, int_laws}
use xscope.Prelude.Text.{Text, codes, text_eq}
use xscope.Domain.Catalog.{CatalogModel}
use xscope.Billing.Types.{Account, ApiKey, LedgerEntry, Db}
use xscope.Billing.Store.{sum_where, sum_where-cons}
use xscope.Billing.Ledger.{entry, schedule}
use xscope.Billing.Consistent.Reachable.{Run, fresh}
use xscope.Billing.History.Writes.{IsClosed}
use xscope.Billing.History.Lifecycle.{Run-preserves}

abbrev pub of_transaction : Text → LedgerEntry → Bool
of_transaction txn e = text_eq e.transaction_id txn

abbrev pub of_billing_account : Text → LedgerEntry → Bool
of_billing_account id e = text_eq e.billing_account_id id

-- The entries sum to zero within each transaction and within each account.
abbrev pub IsDoubleEntry : Db → Type 0
IsDoubleEntry db =
    (key : Text)
    → (sum_where (of_transaction key) (λ e. e.amount_microunits) db.ledger ≡ pos 0)
      × (sum_where (of_billing_account key) (λ e. e.amount_microunits) db.ledger ≡ pos 0)

-- Two opposite entries that a filter does not tell apart leave a sum as it was.
opposite_entries :
    (p : LedgerEntry → Bool) (a b : LedgerEntry) (entries : List LedgerEntry)
    → p a ≡ p b
    → a.amount_microunits ≡ neg b.amount_microunits
    → sum_where p (λ e. e.amount_microunits) (a ∷ b ∷ entries)
      ≡ sum_where p (λ e. e.amount_microunits) entries
opposite_entries p a b entries same opposite =
    rw
      (
        sum_where-cons p (λ e. e.amount_microunits) a (b ∷ entries),
        sum_where-cons p (λ e. e.amount_microunits) b entries,
        same,
        opposite,
      )
      (elim (Bool-cases (p b)) [ inl e ↦ rw e (omega int_laws) | inr e ↦ rw e (omega int_laws) ])

IsDoubleEntry-IsClosed : IsClosed IsDoubleEntry
IsDoubleEntry-IsClosed = record {
  balances = λ db b p. p;
  holds = λ db h p. p;
  spends = λ db s p. p;
  reservations = λ db r p. p;
  usage = λ db u p. p;
  clock = λ db t p. p;
  postings = λ db txn a h delta counter p key. (
    rw
        (opposite_entries (of_transaction key) (entry txn a counter (neg delta))
          (entry txn a (codes "customer_balance") delta) db.ledger refl refl)
        (p key).0,
    rw
        (opposite_entries (of_billing_account key) (entry txn a counter (neg delta))
          (entry txn a (codes "customer_balance") delta) db.ledger refl refl)
        (p key).1,
  );
  events = λ db id kind aggregate s _ p. unfold schedule in p;
}

-- At the end of any history of committed transactions from a new database, the ledger's entries sum
-- to zero within every transaction and within every billing account.
pub ledger-balanced :
    (month_of : ℕ → ℕ) (accounts : List Account) (keys : List ApiKey)
    (catalog : Text → Option CatalogModel) (db : Db) (key : Text)
    → Run month_of (fresh accounts keys catalog) db
    → (sum_where (of_transaction key) (λ e. e.amount_microunits) db.ledger ≡ pos 0)
      × (sum_where (of_billing_account key) (λ e. e.amount_microunits) db.ledger ≡ pos 0)
ledger-balanced month_of accounts keys catalog db key run =
    let start : IsDoubleEntry (fresh accounts keys catalog) =
      λ k. unfold sum_where in (refl, refl) in
    Run-preserves IsDoubleEntry-IsClosed start run key
