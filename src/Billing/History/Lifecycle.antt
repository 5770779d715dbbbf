-- ===== src/Billing/History/Lifecycle.antt =====
-- What the transactions on a reservation, and histories of them, preserve.
use xscope.Prelude.{ℕ, Option, none, some}
use xscope.Prelude.Int.{ℤ}
use xscope.Prelude.Text.{Text}
use xscope.Billing.Types.{
  Db, Account, Reservation, ReservationState, reserved, dispatched, settled, released, waived,
  ReleaseRequest, UnresolvedRequest, SettleRequest, UsageEvent, Completion,
}
use xscope.Billing.Lifecycle.{
  project_reservation, store, dispatch_row, release_row, record_evidence, unresolved_row,
  insert_usage, post_charge, charge, settle_row, settle_locked, dispatch_money, release_money,
  unresolved_money, settle_money, Stamp,
}
use xscope.Billing.Consistent.Reachable.{
  Step, reserves, dispatches, reports, releases, settles, ticks, posts, Run, stop, next,
}
use xscope.Billing.History.Writes.{IsClosed, projections, Preserves, preserving}
use xscope.Billing.History.Actions.{
  append_event-Preserves, insert_balanced_entries-Preserves, reserve_money-Preserves,
}
use xscope.Billing.History.Projections.{
  lock_account-Preserves, monthly-Preserves, change_hold-Preserves, change_spend-Preserves,
}

module _ {P : Db → Type 0} (c : IsClosed P) where
  project_reservation-Preserves : (project id : Text) → Preserves P (project_reservation project id)
  unfolding project_reservation
  project_reservation-Preserves project id = search preserving depth 7

  store-Preserves : (id : Text) (row : Reservation) → Preserves P (store id row)
  store-Preserves id row = search (preserving, c.reservations)

  dispatch_row-Preserves :
      (a : Account) (row : Reservation) (s : ReservationState) → Preserves P (dispatch_row a row s)
  unfolding dispatch_row
  dispatch_row-Preserves a row reserved =
      search (preserving, store-Preserves, append_event-Preserves c) depth 7
  dispatch_row-Preserves a row dispatched = search preserving
  dispatch_row-Preserves a row settled = search preserving
  dispatch_row-Preserves a row released = search preserving
  dispatch_row-Preserves a row waived = search preserving

  release_row-Preserves :
      (a : Account) (r : ReleaseRequest) (row : Reservation) (s : ReservationState)
      → Preserves P (release_row a r row s)
  unfolding release_row
  release_row-Preserves a r row reserved =
      search
        (
          preserving,
          change_hold-Preserves (projections c),
          store-Preserves,
          append_event-Preserves c,
        )
        depth 8
  release_row-Preserves a r row dispatched = search preserving
  release_row-Preserves a r row settled = search preserving
  release_row-Preserves a r row released = search preserving
  release_row-Preserves a r row waived = search preserving

  record_evidence-Preserves :
      (a : Account) (r : UnresolvedRequest) (row : Reservation) (o : Option Completion)
      → Preserves P (record_evidence a r row o)
  unfolding record_evidence
  record_evidence-Preserves a r row none =
      search (preserving, store-Preserves, append_event-Preserves c) depth 7
  record_evidence-Preserves a r row (some previous) = search preserving

  unresolved_row-Preserves :
      (a : Account) (r : UnresolvedRequest) (row : Reservation) (s : ReservationState)
      → Preserves P (unresolved_row a r row s)
  unfolding unresolved_row
  unresolved_row-Preserves a r row reserved = search preserving
  unresolved_row-Preserves a r row dispatched = record_evidence-Preserves a r row row.completion
  unresolved_row-Preserves a r row settled = search preserving
  unresolved_row-Preserves a r row released = search preserving
  unresolved_row-Preserves a r row waived = search preserving

  insert_usage-Preserves : (e : UsageEvent) → Preserves P (insert_usage e)
  unfolding insert_usage
  insert_usage-Preserves e = search (preserving, c.usage) depth 7

  post_charge-Preserves :
      (stamp : Stamp) (a : Account) (row : Reservation) (amount : ℤ)
      → Preserves P (post_charge stamp a row amount)
  unfolding post_charge
  post_charge-Preserves stamp a row amount =
      search (preserving, insert_balanced_entries-Preserves c)

  charge-Preserves :
      (stamp : Stamp) (a : Account) (r : SettleRequest) (row : Reservation) (amount : ℤ)
      → Preserves P (charge stamp a r row amount)
  unfolding charge
  charge-Preserves stamp a r row amount =
      search
        (
          preserving,
          monthly-Preserves (projections c),
          change_hold-Preserves (projections c),
          insert_usage-Preserves,
          change_spend-Preserves (projections c),
          store-Preserves,
          post_charge-Preserves,
          append_event-Preserves c,
        )
        depth 14

  settle_row-Preserves :
      (stamp : Stamp) (a : Account) (r : SettleRequest) (row : Reservation) (s : ReservationState)
      → Preserves P (settle_row stamp a r row s)
  unfolding settle_row
  settle_row-Preserves stamp a r row reserved = search preserving
  settle_row-Preserves stamp a r row dispatched = search (preserving, charge-Preserves) depth 7
  settle_row-Preserves stamp a r row settled = search preserving
  settle_row-Preserves stamp a r row released = search preserving
  settle_row-Preserves stamp a r row waived = search preserving

  pub dispatch_money-Preserves : (project id : Text) → Preserves P (dispatch_money project id)
  unfolding dispatch_money
  dispatch_money-Preserves project id =
      search
        (
          preserving,
          lock_account-Preserves (projections c),
          project_reservation-Preserves,
          dispatch_row-Preserves,
        )
        depth 8

  pub release_money-Preserves :
      (project id : Text) (r : ReleaseRequest) → Preserves P (release_money project id r)
  unfolding release_money
  release_money-Preserves project id r =
      search
        (
          preserving,
          lock_account-Preserves (projections c),
          project_reservation-Preserves,
          release_row-Preserves,
        )
        depth 8

  pub unresolved_money-Preserves :
      (project id : Text) (r : UnresolvedRequest) → Preserves P (unresolved_money project id r)
  unfolding unresolved_money
  unresolved_money-Preserves project id r =
      search
        (
          preserving,
          lock_account-Preserves (projections c),
          project_reservation-Preserves,
          unresolved_row-Preserves,
        )
        depth 8

  pub settle_money-Preserves :
      (stamp : Stamp) (project id : Text) (r : SettleRequest)
      → Preserves P (settle_money stamp project id r)
  unfolding settle_money settle_locked
  settle_money-Preserves stamp project id r =
      search
        (
          preserving,
          lock_account-Preserves (projections c),
          project_reservation-Preserves,
          settle_row-Preserves,
        )
        depth 8

  -- A predicate that each write of the protocol preserves holds after every committed transaction.
  pub Step-preserves : {month_of : ℕ → ℕ} {db db' : Db} → P db → Step month_of db db' → P db'
  Step-preserves {month_of} p (reserves now r row db db' e) =
      (reserve_money-Preserves c month_of now r).after db db' row p e
  Step-preserves p (dispatches project id row db db' e) =
      (dispatch_money-Preserves project id).after db db' row p e
  Step-preserves p (reports project id r row db db' e) =
      (unresolved_money-Preserves project id r).after db db' row p e
  Step-preserves p (releases project id r row db db' e) =
      (release_money-Preserves project id r).after db db' row p e
  Step-preserves {month_of} p (settles now txn project id r row db db' e) =
      let stamp : Stamp = record { now = now; month_of = month_of; txn = txn } in
      (settle_money-Preserves stamp project id r).after db db' row p e
  Step-preserves p (ticks t db) = c.clock db t p
  Step-preserves p (posts txn counter a h delta db db' other e) =
      (insert_balanced_entries-Preserves c txn a h delta counter).after db db' tt p e

  pub Run-preserves : {month_of : ℕ → ℕ} {db db' : Db} → P db → Run month_of db db' → P db'
  Run-preserves p stop = p
  Run-preserves p (next s r) = Run-preserves (Step-preserves p s) r
