-- ===== src/Billing/Moves.antt =====
-- What the helpers of the projection do to the tables, as moves of the expected counters.
pub mod Writes
use xscope.Prelude.{
  ℕ, ◌≡◌, sym, ap, subst, ◌∙◌, ◌⊎◌, inl, inr, Bool, true, false, Option, none, some, List, arith,
  ok,
}
use xscope.Prelude.Int.{ℤ, ◌+ℤ◌, checked_add-some}
use xscope.Prelude.Text.{Text, text_eq_refl}
use xscope.Billing.Types.{Reservation, UsageEvent, LedgerTransaction, LedgerEntry, Balance, Db}
use xscope.Billing.Store.{upsert, set_month, bind-eq-ok, bind-lift-eq-ok, ok_inv}
use xscope.Billing.Projection.{
  booked_sum, held_sum, key_held_sum, spent_sum, initial_balance, initial_hold, initial_spend,
  account, key_hold, monthly, add, change_hold, change_balance, change_spend,
  historical_balance_and_held,
}
use xscope.Billing.Tracks.{
  Tracks, shift, shift_month, Tracks-new_balance, Tracks-new_hold, Tracks-new_spend,
  Tracks-set_held, Tracks-set_hold, Tracks-set_balance, Tracks-set_spend,
}

abbrev pub with_tables :
    Db → (Text → Option Balance) → (Text → Option ℤ) → (Text → ℕ → Option ℤ) → Db
with_tables db b h s = record db { balances = b; holds = h; spends = s }

-- The second state is the first but for its projection tables, which track the counters.
abbrev pub Moved : Db → (Text → ℤ) → (Text → ℤ) → (Text → ℤ) → (Text → ℕ → ℤ) → Db → Type 0
Moved db B H K S db' =
    (b : Text → Option Balance) × (h : Text → Option ℤ) × (s : Text → ℕ → Option ℤ) × (db'
      ≡ with_tables db b h s)
    × Tracks B H K S b h s

initial_balance_inv :
    (a : Text) (o : Option Balance) (row : Balance) (db db' : Db)
    → initial_balance a o db ≡ ok (row, db')
    → ((db' ≡ db) × (o ≡ some row))
      ⊎ ((db' ≡ record db { balances = upsert a row db.balances })
          × (row.balance_microunits ≡ booked_sum a db.ledger)
          × (row.held_microunits ≡ held_sum a db.reservations))
unfolding historical_balance_and_held
initial_balance_inv a (some b) row db db' h = inl (ground arith, ground arith)
initial_balance_inv a none row db db' h = inr (ground arith, ground arith, ground arith)

initial_hold_inv :
    (a : Text) (o : Option ℤ) (row : ℤ) (db db' : Db)
    → initial_hold a o db ≡ ok (row, db')
    → ((db' ≡ db) × (o ≡ some row))
      ⊎ ((db' ≡ record db { holds = upsert a row db.holds })
          × (row ≡ key_held_sum a db.reservations))
initial_hold_inv a (some b) row db db' h = inl (ground arith, ground arith)
initial_hold_inv a none row db db' h = inr (ground arith, ground arith)

initial_spend_inv :
    (month_of : ℕ → ℕ) (a : Text) (m : ℕ) (o : Option ℤ) (row : ℤ) (db db' : Db)
    → initial_spend month_of a m o db ≡ ok (row, db')
    → ((db' ≡ db) × (o ≡ some row))
      ⊎ ((db' ≡ record db { spends = set_month a m row db.spends })
          × (row ≡ spent_sum month_of a m db.usage))
initial_spend_inv month_of a m (some b) row db db' h = inl (ground arith, ground arith)
initial_spend_inv month_of a m none row db db' h = inr (ground arith, ground arith)

upsert_self :
    {V : Type 0} (k : Text) (v : V) (table : Text → Option V) → upsert k v table k ≡ some v
upsert_self k v table = rw (text_eq_refl k)

set_month_self :
    (a : Text) (m : ℕ) (v : ℤ) (spends : Text → ℕ → Option ℤ) → set_month a m v spends a m ≡ some v
set_month_self a m v spends = rw (text_eq_refl a) (ground arith)

add_sum : (v d w : ℤ) (n : Bool) → add v d n ≡ ok w → w ≡ v +ℤ d
unfolding add
add_sum v d w n h = checked_add-some v d w (ground arith)

module _ {B H K : Text → ℤ} {S : Text → ℕ → ℤ} (db : Db) where
  pub account-Moved :
      (a : Text) (row : Balance) (db1 db2 : Db)
      → booked_sum a db.ledger ≡ B a
      → held_sum a db.reservations ≡ H a
      → Moved db B H K S db1
      → account a db1 ≡ ok (row, db2)
      → Moved db B H K S db2 × (db2.balances a ≡ some row)
  unfolding account
  account-Moved a row db1 db2 p q (b, h, s, same, t) e =
      elim (initial_balance_inv a (db1.balances a) row db1 db2 e) [
        | inl (stays, r) ↦ ((b, h, s, stays ∙ same, t), rw stays r)
        | inr (moves, x, y) ↦ (
          (
            upsert a row b,
            h,
            s,
            moves ∙ ap {A = Db} (λ d. record d { balances = upsert a row d.balances }) same,
            Tracks-new_balance t a row (x ∙ ap (λ d. booked_sum a d.ledger) same ∙ p)
                (y ∙ ap (λ d. held_sum a d.reservations) same ∙ q),
          ),
          rw moves (upsert_self a row db1.balances),
        )
      ]

  pub key_hold-Moved :
      (a : Text) (row : ℤ) (db1 db2 : Db)
      → key_held_sum a db.reservations ≡ K a
      → Moved db B H K S db1
      → key_hold a db1 ≡ ok (row, db2)
      → Moved db B H K S db2 × (db2.holds a ≡ some row)
  unfolding key_hold
  key_hold-Moved a row db1 db2 p (b, h, s, same, t) e =
      elim (initial_hold_inv a (db1.holds a) row db1 db2 e) [
        | inl (stays, r) ↦ ((b, h, s, stays ∙ same, t), rw stays r)
        | inr (moves, x) ↦ (
          (
            b,
            upsert a row h,
            s,
            moves ∙ ap {A = Db} (λ d. record d { holds = upsert a row d.holds }) same,
            Tracks-new_hold t a row (x ∙ ap (λ d. key_held_sum a d.reservations) same ∙ p),
          ),
          rw moves (upsert_self a row db1.holds),
        )
      ]

  pub monthly-Moved :
      (month_of : ℕ → ℕ) (a : Text) (m : ℕ) (row : ℤ) (db1 db2 : Db)
      → spent_sum month_of a m db.usage ≡ S a m
      → Moved db B H K S db1
      → monthly month_of a m db1 ≡ ok (row, db2)
      → Moved db B H K S db2 × (db2.spends a m ≡ some row)
  unfolding monthly
  monthly-Moved month_of a m row db1 db2 p (b, h, s, same, t) e =
      elim (initial_spend_inv month_of a m (db1.spends a m) row db1 db2 e) [
        | inl (stays, r) ↦ ((b, h, s, stays ∙ same, t), rw stays r)
        | inr (moves, x) ↦ (
          (
            b,
            h,
            set_month a m row s,
            moves ∙ ap {A = Db} (λ d. record d { spends = set_month a m row d.spends }) same,
            Tracks-new_spend t a m row (x ∙ ap (λ d. spent_sum month_of a m d.usage) same ∙ p),
          ),
          rw moves (set_month_self a m row db1.spends),
        )
      ]

  -- Writing back a counter that was read, moved by `d`.
  Moved-set_held :
      (a : Text) (row : Balance) (d v : ℤ) (db1 : Db)
      → Moved db B H K S db1
      → db1.balances a ≡ some row
      → v ≡ row.held_microunits +ℤ d
      → Moved db B
          (shift H a d)
          K
          S
          (record db1 { balances = upsert a (record row { held_microunits = v }) db1.balances })
  Moved-set_held a row d v db1 (b, h, s, same, t) r e = (
    upsert a (record row { held_microunits = v }) b,
    h,
    s,
    ap {A = Db}
        (λ x. record x { balances = upsert a (record row { held_microunits = v }) x.balances })
        same,
    rw e (Tracks-set_held t a row d (ap (λ x. x.balances a) (sym same) ∙ r)),
  )

  Moved-set_balance :
      (a : Text) (row : Balance) (d v : ℤ) (db1 : Db)
      → Moved db B H K S db1
      → db1.balances a ≡ some row
      → v ≡ row.balance_microunits +ℤ d
      → Moved db
          (shift B a d)
          H
          K
          S
          (record db1 { balances = upsert a (record row { balance_microunits = v }) db1.balances })
  Moved-set_balance a row d v db1 (b, h, s, same, t) r e = (
    upsert a (record row { balance_microunits = v }) b,
    h,
    s,
    ap {A = Db}
        (λ x. record x { balances = upsert a (record row { balance_microunits = v }) x.balances })
        same,
    rw e (Tracks-set_balance t a row d (ap (λ x. x.balances a) (sym same) ∙ r)),
  )

  Moved-set_hold :
      (a : Text) (row d v : ℤ) (db1 : Db)
      → Moved db B H K S db1
      → db1.holds a ≡ some row
      → v ≡ row +ℤ d
      → Moved db B H (shift K a d) S (record db1 { holds = upsert a v db1.holds })
  Moved-set_hold a row d v db1 (b, h, s, same, t) r e = (
    b,
    upsert a v h,
    s,
    ap {A = Db} (λ x. record x { holds = upsert a v x.holds }) same,
    rw e (Tracks-set_hold t a row d (ap (λ x. x.holds a) (sym same) ∙ r)),
  )

  Moved-set_spend :
      (a : Text) (m : ℕ) (row d v : ℤ) (db1 : Db)
      → Moved db B H K S db1
      → db1.spends a m ≡ some row
      → v ≡ row +ℤ d
      → Moved db B H K (shift_month S a m d) (record db1 { spends = set_month a m v db1.spends })
  Moved-set_spend a m row d v db1 (b, h, s, same, t) r e = (
    b,
    h,
    set_month a m v s,
    ap {A = Db} (λ x. record x { spends = set_month a m v x.spends }) same,
    rw e (Tracks-set_spend t a m row d (ap (λ x. x.spends a m) (sym same) ∙ r)),
  )

pub change_hold-Moved :
    {B H K : Text → ℤ} {S : Text → ℕ → ℤ} (db : Db) (a key : Text) (d : ℤ) (db1 db2 : Db)
    → booked_sum a db.ledger ≡ B a
    → held_sum a db.reservations ≡ H a
    → key_held_sum key db.reservations ≡ K key
    → Moved db B H K S db1
    → change_hold a key d db1 ≡ ok (tt, db2)
    → Moved db B (shift H a d) (shift K key d) S db2
unfolding change_hold
change_hold-Moved db a key d db1 db2 p q r mv e =
    let (row, x, e1, f1) = bind-eq-ok (account a) _ db1 e in
    let (held, e2, f2) = bind-lift-eq-ok (add row.held_microunits d true) _ x f1 in
    let y : Db = record x {
      balances = upsert a (record row { held_microunits = held }) x.balances;
    } in
    let (kr, z, e3, f3) = bind-eq-ok (key_hold key) _ y f2 in
    let (kh, e4, f4) = bind-lift-eq-ok (add kr d true) _ z f3 in
    let (mv1, at) = account-Moved db a row db1 x p q mv e1 in
    let mv2 =
      Moved-set_held db a row d held x mv1 at (add_sum row.held_microunits d held true e2) in
    let (mv3, there) = key_hold-Moved db key kr y z r mv2 e3 in
    let mv4 = Moved-set_hold db key kr d kh z mv3 there (add_sum kr d kh true e4) in
    subst (Moved db _ _ _ _) (ok_inv tt tt _ db2 f4).1 mv4

pub change_balance-Moved :
    {B H K : Text → ℤ} {S : Text → ℕ → ℤ} (db : Db) (a : Text) (d : ℤ) (db1 db2 : Db)
    → booked_sum a db.ledger ≡ B a
    → held_sum a db.reservations ≡ H a
    → Moved db B H K S db1
    → change_balance a d db1 ≡ ok (tt, db2)
    → Moved db (shift B a d) H K S db2
unfolding change_balance
change_balance-Moved db a d db1 db2 p q mv e =
    let (row, x, e1, f1) = bind-eq-ok (account a) _ db1 e in
    let (amount, e2, f2) = bind-lift-eq-ok (add row.balance_microunits d false) _ x f1 in
    let (mv1, at) = account-Moved db a row db1 x p q mv e1 in
    let mv2 =
      Moved-set_balance db a row d amount x mv1 at
        (add_sum row.balance_microunits d amount false e2) in
    subst (Moved db _ _ _ _) (ok_inv tt tt _ db2 f2).1 mv2

pub change_spend-Moved :
    {B H K : Text → ℤ} {S : Text → ℕ → ℤ} (db : Db) (a : Text) (m : ℕ) (row d : ℤ) (db1 db2 : Db)
    → db1.spends a m ≡ some row
    → Moved db B H K S db1
    → change_spend a m row d db1 ≡ ok (tt, db2)
    → Moved db B H K (shift_month S a m d) db2
unfolding change_spend
change_spend-Moved db a m row d db1 db2 at mv e =
    let (amount, e1, f1) = bind-lift-eq-ok (add row d true) _ db1 e in
    let mv1 = Moved-set_spend db a m row d amount db1 mv at (add_sum row d amount true e1) in
    subst (Moved db _ _ _ _) (ok_inv tt tt _ db2 f1).1 mv1
