-- ===== src/Billing/Moves/Writes.antt =====
-- Writes to the rows that the counters are derived from, behind a move of the counters.
use xscope.Prelude.{ℕ, ◌≡◌, sym, ap, ◌∙◌, inl, inr, true, List, ok}
use xscope.Prelude.Int.{ℤ}
use xscope.Prelude.Text.{Text}
use xscope.Billing.Types.{Reservation, UsageEvent, LedgerTransaction, LedgerEntry, Balance, Db}
use xscope.Billing.Store.{upsert, bind-eq-ok, bind-lift-eq-ok, ok_inv}
use xscope.Billing.Projection.{account, key_hold, add, change_hold}
use xscope.Billing.Moves.{Moved, initial_balance_inv, initial_hold_inv}

-- A write to the reservations behind a move is the move behind the write.
pub Moved-reservations :
    {B H K : Text → ℤ} {S : Text → ℕ → ℤ} (f : List Reservation → List Reservation) (db x : Db)
    → Moved db B H K S x
    → Moved
        (record db { reservations = f db.reservations })
        B
        H
        K
        S
        (record x { reservations = f x.reservations })
Moved-reservations f db x (b, h, s, same, t) =
    (b, h, s, ap {A = Db} (λ d. record d { reservations = f d.reservations }) same, t)

pub Moved-usage :
    {B H K : Text → ℤ} {S : Text → ℕ → ℤ} (f : List UsageEvent → List UsageEvent) (db x : Db)
    → Moved db B H K S x
    → Moved (record db { usage = f db.usage }) B H K S (record x { usage = f x.usage })
Moved-usage f db x (b, h, s, same, t) =
    (b, h, s, ap {A = Db} (λ d. record d { usage = f d.usage }) same, t)

pub Moved-postings :
    {B H K : Text → ℤ} {S : Text → ℕ → ℤ} (f : List LedgerTransaction → List LedgerTransaction)
    (g : List LedgerEntry → List LedgerEntry) (db x : Db)
    → Moved db B H K S x
    → Moved
        (record db { transactions = f db.transactions; ledger = g db.ledger })
        B
        H
        K
        S
        (record x { transactions = f x.transactions; ledger = g x.ledger })
Moved-postings f g db x (b, h, s, same, t) = (
  b,
  h,
  s,
  ap {A = Db} (λ d. record d { transactions = f d.transactions; ledger = g d.ledger }) same,
  t,
)

account-spends :
    (a : Text) (row : Balance) (db db' : Db) → account a db ≡ ok (row, db') → db'.spends ≡ db.spends
unfolding account
account-spends a row db db' e = elim (initial_balance_inv a (db.balances a) row db db' e) [
  | inl (stays, _) ↦ ap (λ (d : Db). d.spends) stays
  | inr (moves, _, _) ↦ ap (λ (d : Db). d.spends) moves
]

key_hold-spends :
    (a : Text) (row : ℤ) (db db' : Db) → key_hold a db ≡ ok (row, db') → db'.spends ≡ db.spends
unfolding key_hold
key_hold-spends a row db db' e = elim (initial_hold_inv a (db.holds a) row db db' e) [
  | inl (stays, _) ↦ ap (λ (d : Db). d.spends) stays
  | inr (moves, _) ↦ ap (λ (d : Db). d.spends) moves
]

-- A change of a hold touches no month's spend.
pub change_hold-spends :
    (a key : Text) (d : ℤ) (db1 db2 : Db)
    → change_hold a key d db1 ≡ ok (tt, db2)
    → db2.spends ≡ db1.spends
unfolding change_hold
change_hold-spends a key d db1 db2 e =
    let (row, x, e1, f1) = bind-eq-ok (account a) _ db1 e in
    let (held, e2, f2) = bind-lift-eq-ok (add row.held_microunits d true) _ x f1 in
    let y : Db = record x {
      balances = upsert a (record row { held_microunits = held }) x.balances;
    } in
    let (kr, z, e3, f3) = bind-eq-ok (key_hold key) _ y f2 in
    let (kh, e4, f4) = bind-lift-eq-ok (add kr d true) _ z f3 in
    ap (λ (d : Db). d.spends) (sym (ok_inv tt tt _ db2 f4).1)
    ∙ key_hold-spends key kr y z e3
    ∙ account-spends a row db1 x e1
