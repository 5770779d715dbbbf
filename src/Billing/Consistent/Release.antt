-- ===== src/Billing/Consistent/Release.antt =====
-- The projections behind a release.
use xscope.Prelude.{ℕ, ◌≡◌, refl, sym, subst, ◌∙◌, true, false, some, ok, not}
use xscope.Prelude.Int.{neg}
use xscope.Prelude.Text.{Text, codes, text_eq}
use xscope.Billing.Types.{
  ReservationState, reserved, released, Reservation, Account, invalid, only_not_dispatched,
  ReleaseRequest, Db,
}
use xscope.Billing.Store.{
  bind-eq-ok, bind-fail_if-eq-ok, ok_inv, is_held, find_reservation, replace_reservation,
}
use xscope.Billing.Projection.{change_hold}
use xscope.Billing.Ledger.{append_event}
use xscope.Billing.Lifecycle.{released_row, release_row, release_money}
use xscope.Billing.Moves.{change_hold-Moved}
use xscope.Billing.Moves.Writes.{Moved-reservations}
use xscope.Billing.Sums.{drop_sum, All-replace, All-find}
use xscope.Billing.Consistent.{
  find_account, IsOwned, IsConsistent, unmoved, settled_move, append_event-IsConsistent,
}
use xscope.Billing.Consistent.Lifecycle.{located}

module _ (month_of : ℕ → ℕ) where
  -- A hold taken down together with the row that it stood for.
  pub drop-IsConsistent :
      (account : Account) (old new : Reservation) (db x : Db)
      → find_account old.project_id db.accounts ≡ some account
      → find_reservation old.id db.reservations ≡ some old
      → is_held old.state ≡ true
      → is_held new.state ≡ false
      → new.billing_account_id ≡ old.billing_account_id
      → new.project_id ≡ old.project_id
      → IsConsistent month_of db
      → change_hold account.id old.api_key_id (neg old.reserved_microunits) db ≡ ok (tt, x)
      → IsConsistent month_of
          (record x { reservations = replace_reservation old.id new x.reservations })
  drop-IsConsistent account old new db x a f before after owner project c e =
      let mv =
        change_hold-Moved db account.id old.api_key_id _ db x refl refl refl (unmoved month_of db c)
          e in
      let own = All-find (IsOwned db.accounts) old.id old db.reservations f c.owned in
      settled_move month_of
        (record db { reservations = replace_reservation old.id new db.reservations }) _
        (Moved-reservations (replace_reservation old.id new) db x mv) (λ _. refl)
        (λ i. rw (sym (own account a)) (
          sym (
            drop_sum (λ r. text_eq r.billing_account_id i) old.id old new db.reservations f before
              after)))
        (λ k.
          sym
            (drop_sum (λ r. text_eq r.api_key_id k) old.id old new db.reservations f before after))
        (λ _ _. refl)
        (All-replace (IsOwned db.accounts) old.id new db.reservations
          (λ b g. owner ∙ own b (rw project at g)) c.owned)

  release_row-IsConsistent :
      (account : Account) (request : ReleaseRequest) (row r : Reservation) (s : ReservationState)
      (db db' : Db)
      → row.state ≡ s
      → find_account row.project_id db.accounts ≡ some account
      → find_reservation row.id db.reservations ≡ some row
      → IsConsistent month_of db
      → release_row account request row s db ≡ ok (r, db')
      → IsConsistent month_of db'
  unfolding release_row
  release_row-IsConsistent account request row r released db db' st a f c h =
      subst (IsConsistent month_of) (ok_inv row r db db' h).1 c
  release_row-IsConsistent account request row r reserved db db' st a f c h =
      let (_, x, e, g) = bind-eq-ok (change_hold account.id row.api_key_id _) _ db h in
      let (_, y, e', g') = bind-eq-ok (append_event account.id _ row.id) _ _ g in
      let c1 =
        drop-IsConsistent account row (released_row request row) db x a f (rw st) refl refl refl c
          e in
      subst (IsConsistent month_of) (ok_inv _ r y db' g').1
        (append_event-IsConsistent month_of _ _ _ _ y c1 e')
  release_row-IsConsistent account request row r _ db db' st a f c h = cc

  -- A successful release keeps the projections consistent.
  pub release_money-IsConsistent :
      (project id : Text) (request : ReleaseRequest) (r : Reservation) (db db' : Db)
      → IsConsistent month_of db
      → release_money project id request db ≡ ok (r, db')
      → IsConsistent month_of db'
  unfolding release_money
  release_money-IsConsistent project id request r db db' c h =
      let (_, f) =
        bind-fail_if-eq-ok (not (text_eq request.reason (codes "not_dispatched")))
          (invalid only_not_dispatched) _ db h in
      let (account, row, a, found, same, _, g) =
        located project id (λ a row. release_row a request row row.state) r db db' f in
      release_row-IsConsistent account request row r row.state db db' refl (rw same a) found c g
