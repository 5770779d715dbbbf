-- ===== src/Billing/Audit/Rebuild.antt =====
-- The repair of `projection_check`: what a rebuild leaves in the rows.
use xscope.Prelude.{ℕ, ◌≡◌, refl, sym, ap, subst, ◌∙◌, Bool, true, Option, none, some, ok, ==_iff}
use xscope.Prelude.Int.{ℤ}
use xscope.Prelude.Text.{Text, codes, text_eq_refl}
use xscope.Billing.Types.{Account, Balance, Db}
use xscope.Billing.Store.{total, upsert, set_month, bind-eq-ok, bind-lift-eq-ok, ok_inv}
use xscope.Billing.Projection.{
  key_held_sum, spent_sum, historical_balance_and_held, initial_balance, account, initial_hold,
  key_hold, set_spend, initial_spend, monthly,
}
use xscope.Billing.Ledger.{append_event_inv, with_event, schedule}
use xscope.Billing.Consistent.{find_account}
use xscope.Billing.Audit.{
  CheckRequest, Report, compare, rebuild_rows, projection_check, history_inv,
}
use xscope.Billing.Audit.Exact.{IsExact, projection_check_inv}

initial_balance-frame :
    (id : Text) (o : Option Balance) (row : Balance) (db db' : Db)
    → initial_balance id o db ≡ ok (row, db')
    → (t : Text → Option Balance) × (db' ≡ record db { balances = t })
initial_balance-frame id (some r) row db db' h = (db.balances, sym (ok_inv r row db db' h).1)
initial_balance-frame id none row db db' h =
    let (sums, x, e, h1) = bind-eq-ok (historical_balance_and_held id) _ db h in
    let (_, _, here) = history_inv id sums db x e in
    let new : Balance = record { balance_microunits = sums.0; held_microunits = sums.1 } in
    let (_, q) = ok_inv new row (record x { balances = upsert id new x.balances }) db' h1 in
    (
      upsert id new db.balances,
      sym q ∙ ap {A = Db} (λ d. record d { balances = upsert id new d.balances }) (sym here),
    )

account-frame :
    (id : Text) (row : Balance) (db db' : Db)
    → account id db ≡ ok (row, db')
    → (t : Text → Option Balance) × (db' ≡ record db { balances = t })
unfolding account
account-frame id row db db' h = initial_balance-frame id (db.balances id) row db db' h

initial_hold-frame :
    (key : Text) (o : Option ℤ) (held : ℤ) (db db' : Db)
    → initial_hold key o db ≡ ok (held, db')
    → (t : Text → Option ℤ) × (db' ≡ record db { holds = t })
initial_hold-frame key (some v) held db db' h = (db.holds, sym (ok_inv v held db db' h).1)
initial_hold-frame key none held db db' h =
    let (v, _, h1) = bind-lift-eq-ok (total (key_held_sum key db.reservations)) _ db h in
    let (_, q) = ok_inv v held (record db { holds = upsert key v db.holds }) db' h1 in
    (upsert key v db.holds, sym q)

key_hold-frame :
    (key : Text) (held : ℤ) (db db' : Db)
    → key_hold key db ≡ ok (held, db')
    → (t : Text → Option ℤ) × (db' ≡ record db { holds = t })
unfolding key_hold
key_hold-frame key held db db' h = initial_hold-frame key (db.holds key) held db db' h

initial_spend-frame :
    (month_of : ℕ → ℕ) (key : Text) (month : ℕ) (o : Option ℤ) (spent : ℤ) (db db' : Db)
    → initial_spend month_of key month o db ≡ ok (spent, db')
    → (t : Text → ℕ → Option ℤ) × (db' ≡ record db { spends = t })
initial_spend-frame month_of key month (some v) spent db db' h =
    (db.spends, sym (ok_inv v spent db db' h).1)
initial_spend-frame month_of key month none spent db db' h =
    let (v, _, h1) = bind-lift-eq-ok (total (spent_sum month_of key month db.usage)) _ db h in
    let (_, q) = ok_inv v spent (set_spend key month v db) db' h1 in
    (set_month key month v db.spends, sym q)

monthly-frame :
    (month_of : ℕ → ℕ) (key : Text) (month : ℕ) (spent : ℤ) (db db' : Db)
    → monthly month_of key month db ≡ ok (spent, db')
    → (t : Text → ℕ → Option ℤ) × (db' ≡ record db { spends = t })
unfolding monthly
monthly-frame month_of key month spent db db' h =
    initial_spend-frame month_of key month (db.spends key month) spent db db' h

-- The tables with the three rows of a report, on top of others.
abbrev Rows : Text → CheckRequest → Report → Db → Db → Type 0
Rows id request report db db' =
    (row : Balance) × (balances : Text → Option Balance) × (holds : Text → Option ℤ)
    × (spends : Text → ℕ → Option ℤ) × (db' ≡ record db {
      balances =
          upsert id
            (record row { balance_microunits = report.booked; held_microunits = report.held })
            balances;
      holds = upsert request.api_key_id report.key_held holds;
      spends = set_month request.api_key_id request.month report.spent spends;
    })

module _ (month_of : ℕ → ℕ) (id : Text) (request : CheckRequest) (report : Report) where
  put_balance : Balance → Db → Db
  put_balance row db = record db {
    balances =
        upsert id (record row { balance_microunits = report.booked; held_microunits = report.held })
          db.balances;
  }

  put_hold : Db → Db
  put_hold db = record db { holds = upsert request.api_key_id report.key_held db.holds }

  put_spend : Db → Db
  put_spend db = record db {
    spends = set_month request.api_key_id request.month report.spent db.spends;
  }

  rebuild_rows_inv :
      (db db' : Db)
      → rebuild_rows month_of id request report true db ≡ ok (tt, db')
      → (s : ℤ) × (written : Db) × Rows id request report db written
        × (db'
            ≡ schedule id s
                (with_event id (codes "projection.rebuilt") request.api_key_id s written))
  unfolding rebuild_rows put_balance put_hold put_spend
  rebuild_rows_inv db db' h =
      let (row, a, e1, h1) = bind-eq-ok (account id) _ db h in
      let (held, b, e2, h2) = bind-eq-ok (key_hold request.api_key_id) _ (put_balance row a) h1 in
      let (spent, c, e3, h3) =
        bind-eq-ok (monthly month_of request.api_key_id request.month) _ (put_hold b) h2 in
      let (s, _, e4) =
        append_event_inv id (codes "projection.rebuilt") request.api_key_id (put_spend c) db' h3 in
      let (t1, f1) = account-frame id row db a e1 in
      let (t2, f2) = key_hold-frame request.api_key_id held (put_balance row a) b e2 in
      let (t3, f3) =
        monthly-frame month_of request.api_key_id request.month spent (put_hold b) c e3 in
      (
        s,
        put_spend c,
        (
          row,
          t1,
          t2,
          t3,
          ap put_spend f3
              ∙ ap {A = Db} (λ d. put_spend (record (put_hold d) { spends = t3 })) f2
              ∙ ap {A = Db}
                  (λ d.
                    put_spend (record (put_hold (record (put_balance row d) { holds = t2 })) {
                      spends = t3;
                    }))
                  f1,
        ),
        e4,
      )

month_own :
    (key : Text) (month : ℕ) (v : ℤ) (table : Text → ℕ → Option ℤ)
    → set_month key month v table key month ≡ some v
month_own key month v table = rw (text_eq_refl key, (==_iff month month).1 refl) refl

row_own : {V : Type 0} (k : Text) (v : V) (table : Text → Option V) → upsert k v table k ≡ some v
row_own k v table = rw (text_eq_refl k) refl

-- A check with a rebuild leaves the three rows of the account, the key and the month stored, and each is the sum that
-- it stands for, whatever the rows were before.
pub projection_check-rebuilds :
    (month_of : ℕ → ℕ) (first_day : ℕ → Bool) (project : Text) (request : CheckRequest)
    (owner : Account) (report : Report) (db db' : Db)
    → find_account project db.accounts ≡ some owner
    → projection_check first_day month_of project request true db ≡ ok (report, db')
    → IsExact month_of owner.id request db'
unfolding compare schedule
projection_check-rebuilds month_of first_day project request owner report db db' a h =
    let (told, wrote) =
      projection_check_inv month_of first_day project request true owner report db db' a h in
    let (s, written, (row, balances, holds, spends, f), e) =
      rebuild_rows_inv month_of owner.id request report db db' wrote in
    let key = request.api_key_id in
    let behind =
      λ (d : Db). schedule owner.id s (with_event owner.id (codes "projection.rebuilt") key s d) in
    subst (IsExact month_of owner.id request) (sym (e ∙ ap behind f)) (
      record row { balance_microunits = report.booked; held_microunits = report.held },
      row_own owner.id _ balances,
      ap (λ (r : Report). r.booked) told,
      ap (λ (r : Report). r.held) told,
      row_own key report.key_held holds ∙ ap (λ (r : Report). some r.key_held) told,
      month_own key request.month report.spent spends ∙ ap (λ (r : Report). some r.spent) told,
    )
