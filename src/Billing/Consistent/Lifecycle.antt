-- ===== src/Billing/Consistent/Lifecycle.antt =====
-- The projections behind a dispatch and an unresolved report.
use xscope.Prelude.{
  ℕ, ◌≡◌, refl, sym, subst, ◌∙◌, Bool, true, false, Option, none, some, List, arith, ok, not,
}
use xscope.Prelude.Text.{Text, text_eq, text_eq_iff}
use xscope.Billing.Types.{
  ReservationState, reserved, dispatched, settled, waived, Reservation, Account, Completion,
  of_unresolved, not_found, conflict, invalid, evidence_changed, invalid_report, UnresolvedRequest,
  Db,
}
use xscope.Billing.Store.{
  Tx, ◌>>=◌, ◌>>◌, bind-eq-ok, bind-some_or-eq-ok, bind-fail_if-eq-ok, ok_inv, fail_if, pure,
  is_held, find_reservation, replace_reservation,
}
use xscope.Billing.Ledger.{lock_account, lock_account_inv, append_event}
use xscope.Billing.Lifecycle.{
  project_reservation, dispatch_row, dispatch_money, bad_report, record_evidence, unresolved_row,
  unresolved_money,
}
use xscope.Billing.Sums.{keep_sum, All-replace, All-find, found_id}
use xscope.Billing.Consistent.{
  find_account, IsOwned, IsConsistent, settled_move, append_event-IsConsistent,
}

not-false : {b : Bool} → not b ≡ false → b ≡ true
not-false {b} h = ground arith

pub project_reservation_inv :
    (project id : Text) (row : Reservation) (db db' : Db)
    → project_reservation project id db ≡ ok (row, db')
    → (find_reservation id db.reservations ≡ some row)
      × (text_eq row.project_id project ≡ true)
      × (db ≡ db')
unfolding project_reservation
project_reservation_inv project id row db db' h =
    let (r, found, f) =
      bind-some_or-eq-ok (find_reservation id db.reservations) not_found
        (λ r. fail_if (not (text_eq r.project_id project)) not_found >> pure r) db h in
    let (same, g) =
      bind-fail_if-eq-ok (not (text_eq r.project_id project)) not_found (pure r) db f in
    let (e, stay) = ok_inv r row db db' g in (rw (← e) found, rw (← e) (not-false same), stay)

find_self :
    (id : Text) (row : Reservation) (rs : List Reservation)
    → find_reservation id rs ≡ some row
    → find_reservation row.id rs ≡ some row
find_self id row rs h = subst (λ i. find_reservation i rs ≡ some row) (sym (found_id id row rs h)) h

-- The two reads that begin every method find the account and the row, and change nothing.
pub located :
    (project id : Text) (k : Account → Reservation → Tx Reservation) (r : Reservation) (db db' : Db)
    → (lock_account project >>= λ a. project_reservation project id >>= λ row. k a row) db
      ≡ ok (r, db')
    → (a : Account) × (row : Reservation) × (find_account project db.accounts ≡ some a)
      × (find_reservation row.id db.reservations ≡ some row)
      × (row.project_id ≡ project)
      × (row.id ≡ id)
      × (k a row db ≡ ok (r, db'))
located project id k r db db' h =
    let (a, x, e, f) = bind-eq-ok (lock_account project) _ db h in
    let (row, y, e', g) = bind-eq-ok (project_reservation project id) (k a) x f in
    let (acc, here) = lock_account_inv project a db x e in
    let (found, same, there) = project_reservation_inv project id row x y e' in
    (
      a,
      row,
      acc,
      find_self id row db.reservations
          (subst (λ (d : Db). find_reservation id d.reservations ≡ some row) (sym here) found),
      (text_eq_iff row.project_id project).0 same,
      found_id id row db.reservations
          (subst (λ (d : Db). find_reservation id d.reservations ≡ some row) (sym here) found),
      subst (λ (d : Db). k a row d ≡ ok (r, db')) (sym (here ∙ there)) g,
    )

-- A row that keeps its owner, its amount and whether it is held keeps the projections.
pub store-IsConsistent :
    (month_of : ℕ → ℕ) (id : Text) (old new : Reservation) (db : Db)
    → IsConsistent month_of db
    → find_reservation id db.reservations ≡ some old
    → new.billing_account_id ≡ old.billing_account_id
    → new.project_id ≡ old.project_id
    → new.api_key_id ≡ old.api_key_id
    → new.reserved_microunits ≡ old.reserved_microunits
    → is_held new.state ≡ is_held old.state
    → IsConsistent month_of
        (record db { reservations = replace_reservation id new db.reservations })
store-IsConsistent month_of id old new db c f owner project key amount state =
    settled_move month_of (record db { reservations = replace_reservation id new db.reservations })
      _ (db.balances, db.holds, db.spends, refl, c.tracks) (λ _. refl)
      (λ a. sym (
        keep_sum (λ r. text_eq r.billing_account_id a) id old new db.reservations f (rw owner) state
          amount))
      (λ k.
        sym (
          keep_sum (λ r. text_eq r.api_key_id k) id old new db.reservations f (rw key) state
            amount))
      (λ _ _. refl)
      (All-replace (IsOwned db.accounts) id new db.reservations
        (λ a e.
          owner
          ∙ All-find (IsOwned db.accounts) id old db.reservations f c.owned a (rw project at e))
        c.owned)

module _ (month_of : ℕ → ℕ) where
  dispatch_row-IsConsistent :
      (account : Account) (row r : Reservation) (s : ReservationState) (db db' : Db)
      → row.state ≡ s
      → find_reservation row.id db.reservations ≡ some row
      → IsConsistent month_of db
      → dispatch_row account row s db ≡ ok (r, db')
      → IsConsistent month_of db'
  unfolding dispatch_row
  dispatch_row-IsConsistent account row r reserved db db' st f c h =
      let (_, x, e, g) = bind-eq-ok (append_event account.id _ row.id) _ _ h in
      let c1 =
        store-IsConsistent month_of row.id row (record row { state = dispatched }) db c f refl refl
          refl refl (rw st) in
      subst (IsConsistent month_of) (ok_inv _ r x db' g).1
        (append_event-IsConsistent month_of _ _ _ _ x c1 e)
  dispatch_row-IsConsistent account row r dispatched db db' st f c h =
      subst (IsConsistent month_of) (ok_inv row r db db' h).1 c
  dispatch_row-IsConsistent account row r _ db db' st f c h = cc

  -- Dispatching a reservation keeps the projections consistent.
  pub dispatch_money-IsConsistent :
      (project id : Text) (r : Reservation) (db db' : Db)
      → IsConsistent month_of db
      → dispatch_money project id db ≡ ok (r, db')
      → IsConsistent month_of db'
  unfolding dispatch_money
  dispatch_money-IsConsistent project id r db db' c h =
      let (account, row, _, found, _, _, g) =
        located project id (λ a row. dispatch_row a row row.state) r db db' h in
      dispatch_row-IsConsistent account row r row.state db db' refl found c g

  record_evidence-IsConsistent :
      (account : Account) (request : UnresolvedRequest) (row r : Reservation)
      (o : Option Completion) (db db' : Db)
      → find_reservation row.id db.reservations ≡ some row
      → IsConsistent month_of db
      → record_evidence account request row o db ≡ ok (r, db')
      → IsConsistent month_of db'
  unfolding record_evidence
  record_evidence-IsConsistent account request row r none db db' f c h =
      let (_, x, e, g) = bind-eq-ok (append_event account.id _ row.id) _ _ h in
      let c1 =
        store-IsConsistent month_of row.id row
          (record row { completion = some (of_unresolved request) }) db c f refl refl refl refl
          refl in
      subst (IsConsistent month_of) (ok_inv _ r x db' g).1
        (append_event-IsConsistent month_of _ _ _ _ x c1 e)
  record_evidence-IsConsistent account request row r (some previous) db db' f c h =
      let (_, g) = bind-fail_if-eq-ok _ (conflict evidence_changed) (pure row) db h in
      subst (IsConsistent month_of) (ok_inv row r db db' g).1 c

  unresolved_row-IsConsistent :
      (account : Account) (request : UnresolvedRequest) (row r : Reservation) (s : ReservationState)
      (db db' : Db)
      → find_reservation row.id db.reservations ≡ some row
      → IsConsistent month_of db
      → unresolved_row account request row s db ≡ ok (r, db')
      → IsConsistent month_of db'
  unfolding unresolved_row
  unresolved_row-IsConsistent account request row r dispatched db db' f c h =
      record_evidence-IsConsistent account request row r row.completion db db' f c h
  unresolved_row-IsConsistent account request row r settled db db' f c h =
      subst (IsConsistent month_of) (ok_inv row r db db' h).1 c
  unresolved_row-IsConsistent account request row r waived db db' f c h =
      subst (IsConsistent month_of) (ok_inv row r db db' h).1 c
  unresolved_row-IsConsistent account request row r _ db db' f c h = cc

  -- An unresolved report keeps the projections consistent.
  pub unresolved_money-IsConsistent :
      (project id : Text) (request : UnresolvedRequest) (r : Reservation) (db db' : Db)
      → IsConsistent month_of db
      → unresolved_money project id request db ≡ ok (r, db')
      → IsConsistent month_of db'
  unfolding unresolved_money
  unresolved_money-IsConsistent project id request r db db' c h =
      let (_, f) = bind-fail_if-eq-ok (bad_report request) (invalid invalid_report) _ db h in
      let (account, row, _, found, _, _, g) =
        located project id (λ a row. unresolved_row a request row row.state) r db db' f in
      unresolved_row-IsConsistent account request row r row.state db db' found c g
