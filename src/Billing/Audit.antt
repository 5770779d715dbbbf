-- ===== src/Billing/Audit.antt =====
-- The reads and the repair of the projections: `projected_spend` and `projection_check` of
-- rust/crates/control-plane/src/billing_projection.rs.
pub mod Exact
pub mod Rebuild
use xscope.Prelude.{
  ℕ, ◌≡◌, refl, sym, ap, subst, ◌∙◌, Bool, true, false, not, ◌&&◌, Option, none, some, arith, ok,
  is_some_and, is_some, find,
}
use xscope.Prelude.Int.{ℤ, eq_ℤ, eq_ℤ_iff}
use xscope.Prelude.Text.{Text, codes, text_eq}
use xscope.Billing.Types.{not_found, invalid, invalid_month_start, Account, Balance, Db}
use xscope.Billing.Store.{
  Tx, ◌>>=◌, ◌>>◌, pure, fail_if, lift, some_or, gets, modify, total, upsert, set_month, bind-eq-ok,
  bind-fail_if-eq-ok, bind-some_or-eq-ok, bind-lift-eq-ok, ok_inv,
}
use xscope.Billing.Projection.{
  booked_sum, held_sum, key_held_sum, spent_sum, historical_balance_and_held, account, key_hold,
  monthly,
}
use xscope.Billing.Ledger.{lock_account, lock_account_inv, append_event}
use xscope.Billing.Moves.{monthly-Moved}
use xscope.Billing.Consistent.Reserve.{some_injective}
use xscope.Billing.Consistent.{find_account, IsConsistent, unmoved}

pub record CheckRequest : Type 0 where
  pub api_key_id : Text
  pub month : ℕ

-- The answer of the check: the verdict, the rows that were stored and the sums that were expected.
pub record Report : Type 0 where
  pub consistent_before : Bool
  pub rebuilt : Bool
  pub stored_account : Option Balance
  pub stored_key : Option ℤ
  pub stored_month : Option ℤ
  pub booked : ℤ
  pub held : ℤ
  pub key_held : ℤ
  pub spent : ℤ

abbrev spend_or_initialise : (ℕ → ℕ) → Text → Text → ℕ → Option ℤ → Tx ℤ
spend_or_initialise month_of project key month (some spent) = pure spent
spend_or_initialise month_of project key month none = do
  lock_account project
  monthly month_of key month

unfoldable pub projected_spend : (ℕ → ℕ) → Text → Text → ℕ → Tx ℤ
projected_spend month_of project key month db =
    spend_or_initialise month_of project key month (db.spends key month) db

abbrev pub agrees : Balance → ℤ → ℤ → Bool
agrees row booked held = eq_ℤ row.balance_microunits booked && eq_ℤ row.held_microunits held

-- The verdict on the stored rows.
unfoldable pub compare : Text → CheckRequest → Bool → ℤ × ℤ → ℤ → ℤ → Db → Report
compare id request rebuild (booked, held) key_held spent db = record {
  consistent_before =
      is_some_and (db.balances id) (λ v. agrees v booked held)
      && is_some_and (db.holds request.api_key_id) (λ v. eq_ℤ v key_held)
      && is_some_and (db.spends request.api_key_id request.month) (λ v. eq_ℤ v spent);
  rebuilt = rebuild;
  stored_account = db.balances id;
  stored_key = db.holds request.api_key_id;
  stored_month = db.spends request.api_key_id request.month;
  booked = booked;
  held = held;
  key_held = key_held;
  spent = spent;
}

unfoldable pub rebuild_rows : (ℕ → ℕ) → Text → CheckRequest → Report → Bool → Tx (Unit {0})
rebuild_rows month_of id request report false = pure tt
rebuild_rows month_of id request report true = do
  row ← account id
  modify (λ db. record db {
    balances =
        upsert id (record row { balance_microunits = report.booked; held_microunits = report.held })
          db.balances;
  })
  key_hold request.api_key_id
  modify (λ db. record db { holds = upsert request.api_key_id report.key_held db.holds })
  monthly month_of request.api_key_id request.month
  modify (λ db. record db {
    spends = set_month request.api_key_id request.month report.spent db.spends;
  })
  append_event id (codes "projection.rebuilt") request.api_key_id

-- `first_day` stands for chrono's test that a date is the first of its month.
unfoldable pub projection_check : (ℕ → Bool) → (ℕ → ℕ) → Text → CheckRequest → Bool → Tx Report
projection_check first_day month_of project request rebuild = do
  fail_if (not (first_day request.month)) (invalid invalid_month_start)
  owner ← lock_account project
  keys ← gets (λ db. db.keys)
  some_or (find (λ k. text_eq k.id request.api_key_id && text_eq k.project_id project) keys)
      not_found
  sums ← historical_balance_and_held owner.id
  reservations ← gets (λ db. db.reservations)
  key_held ← lift (total (key_held_sum request.api_key_id reservations))
  usage ← gets (λ db. db.usage)
  spent ← lift (total (spent_sum month_of request.api_key_id request.month usage))
  report ← gets (compare owner.id request rebuild sums key_held spent)
  rebuild_rows month_of owner.id request report rebuild
  pure report

pub total_inv : (v w : ℤ) → total v ≡ ok w → v ≡ w
total_inv v w h = ground arith

pub history_inv :
    (id : Text) (sums : ℤ × ℤ) (db db' : Db)
    → historical_balance_and_held id db ≡ ok (sums, db')
    → (sums.0 ≡ booked_sum id db.ledger) × (sums.1 ≡ held_sum id db.reservations) × (db ≡ db')
unfolding historical_balance_and_held
history_inv id sums db db' h = (ground arith, ground arith, ground arith)

module _ (month_of : ℕ → ℕ) where
  spend_read :
      (project key : Text) (m : ℕ) (v : ℤ) (o : Option ℤ) (db db' : Db)
      → IsConsistent month_of db
      → db.spends key m ≡ o
      → spend_or_initialise month_of project key m o db ≡ ok (v, db')
      → v ≡ spent_sum month_of key m db.usage
  spend_read project key m v (some s) db db' c r h =
      sym (ok_inv s v db db' h).0 ∙ c.tracks.of_spend key m s r
  spend_read project key m v none db db' c r h =
      let (o, x, e, g) = bind-eq-ok (lock_account project) (λ _. monthly month_of key m) db h in
      let stay = (lock_account_inv project o db x e).1 in
      let ((_, _, _, same, t), at) =
        monthly-Moved x month_of key m v x db' refl
          (unmoved month_of x (subst (IsConsistent month_of) stay c)) g in
      subst (λ (d : Db). v ≡ spent_sum month_of key m d.usage) (sym stay)
        (t.of_spend key m v (ap (λ (d : Db). d.spends key m) (sym same) ∙ at))

  -- In a state with consistent projections the month's spend that is read, from the stored row or initialised, is
  -- the sum of the costs of the key's usage in that month.
  pub projected_spend-historical :
      (project key : Text) (m : ℕ) (v : ℤ) (db db' : Db)
      → IsConsistent month_of db
      → projected_spend month_of project key m db ≡ ok (v, db')
      → v ≡ spent_sum month_of key m db.usage
  unfolding projected_spend
  projected_spend-historical project key m v db db' c h =
      spend_read project key m v (db.spends key m) db db' c refl h
