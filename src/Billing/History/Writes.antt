-- ===== src/Billing/History/Writes.antt =====
-- The writes of the money protocol, and the rules by which what they all preserve is preserved by
-- an action that is composed of them.
use xscope.Prelude.{
  ℕ, ◌≡◌, subst, Bool, true, false, Option, none, some, List, ◌∷◌, if◌then◌else◌, Result, ok, err,
}
use xscope.Prelude.Int.{ℤ, neg}
use xscope.Prelude.Text.{Text, codes}
use xscope.Billing.Types.{
  ServiceError, Reservation, UsageEvent, Account, LedgerTransaction, Balance, Db,
}
use xscope.Billing.Store.{
  Tx, ◌>>=◌, pure, fail, fail_if, lift, some_or, gets, modify, bind-eq-ok, ok_inv,
}
use xscope.Billing.Ledger.{entry, next_sequence, schedule, with_event}

-- A posting's header and its two entries.
abbrev pub with_posting : Text → Account → LedgerTransaction → ℤ → Text → Db → Db
with_posting txn account header delta counter db = record db {
  transactions = record header { id = txn; currency = account.currency } ∷ db.transactions;
  ledger =
      entry txn account counter (neg delta)
      ∷ entry txn account (codes "customer_balance") delta
      ∷ db.ledger;
}

-- The predicate is preserved by each of the protocol's writes.
pub record IsClosed (P : Db → Type 0) : Type 0 where
  pub balances : (db : Db) (b : Text → Option Balance) → P db → P (record db { balances = b })
  pub holds : (db : Db) (h : Text → Option ℤ) → P db → P (record db { holds = h })
  pub spends : (db : Db) (s : Text → ℕ → Option ℤ) → P db → P (record db { spends = s })
  pub reservations : (db : Db) (r : List Reservation) → P db → P (record db { reservations = r })
  pub usage : (db : Db) (u : List UsageEvent) → P db → P (record db { usage = u })
  pub clock : (db : Db) (t : ℕ) → P db → P (record db { clock = t })
  pub postings :
      (db : Db) (txn : Text) (a : Account) (h : LedgerTransaction) (delta : ℤ) (counter : Text)
      → P db
      → P (with_posting txn a h delta counter db)
  pub events :
      (db : Db) (id kind aggregate : Text) (s : ℤ)
      → next_sequence id db.events ≡ some s
      → P db
      → P (schedule id s (with_event id kind aggregate s db))

-- The predicate is preserved by the writes to the projections.
pub record IsProjectionClosed (P : Db → Type 0) : Type 0 where
  pub balances : (db : Db) (b : Text → Option Balance) → P db → P (record db { balances = b })
  pub holds : (db : Db) (h : Text → Option ℤ) → P db → P (record db { holds = h })
  pub spends : (db : Db) (s : Text → ℕ → Option ℤ) → P db → P (record db { spends = s })

pub projections : {P : Db → Type 0} → IsClosed P → IsProjectionClosed P
projections c = record { balances = c.balances; holds = c.holds; spends = c.spends }

-- An action that succeeds preserves the predicate.
pub record Preserves {A : Type 0} (P : Db → Type 0) (m : Tx A) : Type 0 where
  pub after : (db db' : Db) (a : A) → P db → m db ≡ ok (a, db') → P db'

module _ {P : Db → Type 0} where
  pub bind-Preserves :
      {A B : Type 0} {m : Tx A} {f : A → Tx B}
      → Preserves P m
      → ((a : A) → Preserves P (f a))
      → Preserves P (m >>= f)
  bind-Preserves {m = m} {f = f} first rest = record {
    after = λ db db' b p h.
        let (a, x, e, g) = bind-eq-ok m f db h in (rest a).after x db' b (first.after db x a p e) g;
  }

  pub pure-Preserves : {A : Type 0} {v : A} → Preserves P (pure v)
  pure-Preserves {v = v} = record { after = λ db db' a p h. subst P (ok_inv v a db db' h).1 p }

  pub fail-Preserves : {A : Type 0} {e : ServiceError} → Preserves P (fail {A = A} e)
  fail-Preserves = record { after = λ db db' a p h. cc }

  pub fail_if-Preserves : (t : Bool) (e : ServiceError) → Preserves P (fail_if t e)
  fail_if-Preserves true e = fail-Preserves
  fail_if-Preserves false e = pure-Preserves

  pub lift-Preserves : {A : Type 0} (r : Result ServiceError A) → Preserves P (lift r)
  lift-Preserves (ok v) = pure-Preserves
  lift-Preserves (err e) = fail-Preserves

  pub some_or-Preserves : {A : Type 0} (o : Option A) (e : ServiceError) → Preserves P (some_or o e)
  some_or-Preserves (some v) e = pure-Preserves
  some_or-Preserves none e = fail-Preserves

  pub gets-Preserves : {A : Type 0} {f : Db → A} → Preserves P (gets f)
  gets-Preserves {f = f} = record { after = λ db db' a p h. subst P (ok_inv (f db) a db db' h).1 p }

  pub modify-Preserves : {f : Db → Db} → ((db : Db) → P db → P (f db)) → Preserves P (modify f)
  modify-Preserves {f = f} keep = record {
    after = λ db db' a p h. subst P (ok_inv tt a (f db) db' h).1 (keep db p);
  }

  pub if-Preserves :
      {A : Type 0} (t : Bool) (m k : Tx A)
      → Preserves P m
      → Preserves P k
      → Preserves P (if t then m else k)
  if-Preserves true m k first second = first
  if-Preserves false m k first second = second

-- How `search` takes an action apart.
pub ruleset preserving = (
  bind-Preserves, pure-Preserves, fail-Preserves, fail_if-Preserves, lift-Preserves,
  some_or-Preserves, gets-Preserves, modify-Preserves, if-Preserves,
)
