-- ===== src/Billing/Consistent/Settle.antt =====
-- The projections behind postings and settlements.
use xscope.Prelude.{
  ℕ, ◌≡◌, refl, sym, ap, subst, ◌∙◌, true, false, not, ◌&&◌, ◌||◌, some, List, ◌∷◌, ok, any,
  Bool-cases, inl, inr, ◌==◌,
}
use xscope.Prelude.Int.{ℤ, pos, negsuc, max_i64, neg, int_laws, ltb_ℤ, eq_ℤ}
use xscope.Prelude.Text.{Text, codes, text_eq, text_eq_refl}
use xscope.Domain.Money.{usage_cost_microunits}
use xscope.Billing.Types.{
  invalid, conflict, database, ledger_too_large, resource_exists, exceeds_bounds,
  settlement_changed, invalid_settlement, ReservationState, dispatched, settled, Reservation,
  Account, LedgerTransaction, LedgerEntry, UsageEvent, SettleRequest, Db,
}
use xscope.Billing.Store.{
  bind-eq-ok, bind-fail_if-eq-ok, bind-lift-eq-ok, ok_inv, is_held, find_reservation,
  replace_reservation, sum_where, pure,
}
use xscope.Billing.Projection.{
  booked_sum, spent_sum, change_hold, change_balance, change_spend, monthly, balance_and_held,
}
use xscope.Billing.Ledger.{
  append_event, lock_account, lock_account_inv, entry, guard_debit, insert_balanced_entries,
}
use xscope.Billing.Reserve.{of_domain}
use xscope.Billing.Lifecycle.{
  Stamp, usage_of, bad_settlement, insert_usage, settled_row, usage_header, post_charge, charge,
  same_settlement, settle_row, settle_locked, settle_money,
}
use xscope.Billing.Tracks.{shift, shift_month}
use xscope.Billing.Moves.{
  Moved, change_hold-Moved, change_balance-Moved, change_spend-Moved, monthly-Moved,
}
use xscope.Billing.Moves.Writes.{
  Moved-reservations, Moved-usage, Moved-postings, change_hold-spends,
}
use xscope.Billing.Sums.{drop_sum, All-replace, All-find}
use xscope.Billing.Consistent.{
  find_account, IsOwned, IsConsistent, unmoved, settled_move, append_event-IsConsistent,
}
use xscope.Billing.Consistent.Lifecycle.{located}
use xscope.Billing.Consistent.Keeps.{Keeps, balance_and_held-Keeps, fail_if_inv}

-- The two entries of a posting move the account's booked sum by the posted amount.
posted_sum :
    (txn counter : Text) (account : Account) (delta : ℤ) (ledger : List LedgerEntry) (id : Text)
    → text_eq counter (codes "customer_balance") ≡ false
    → shift (λ i. booked_sum i ledger) account.id delta id
      ≡ booked_sum id (
          entry txn account counter (neg delta)
          ∷ entry txn account (codes "customer_balance") delta
          ∷ ledger)
unfolding sum_where
posted_sum txn counter account delta ledger id h = elim (Bool-cases (text_eq account.id id)) [
  | inl e ↦ rw (e, h, text_eq_refl (codes "customer_balance")) (omega int_laws)
  | inr e ↦ rw e refl
]

-- A usage event adds its cost to the spend of its key and month.
spent_more :
    (month_of : ℕ → ℕ) (event : UsageEvent) (usage : List UsageEvent) (key : Text) (m : ℕ)
    → shift_month
        (λ k n. spent_sum month_of k n usage)
        event.api_key_id
        (month_of event.occurred_at)
        event.cost_microunits
        key
        m
      ≡ spent_sum month_of key m (event ∷ usage)
unfolding sum_where
spent_more month_of event usage key m =
    elim (Bool-cases (text_eq event.api_key_id key && month_of event.occurred_at == m)) [
      | inl e ↦ rw e (omega int_laws)
      | inr e ↦ rw e refl
    ]

abbrev posted : Text → Text → Account → LedgerTransaction → ℤ → Db → Db
posted txn counter account header delta d = record d {
  transactions = record header { id = txn; currency = account.currency } ∷ d.transactions;
  ledger =
      entry txn account counter (neg delta)
      ∷ entry txn account (codes "customer_balance") delta
      ∷ d.ledger;
}

module _ (month_of : ℕ → ℕ) where
  guard_debit-Keeps :
      (a : Account) (delta : ℤ) (db db' : Db)
      → IsConsistent month_of db
      → guard_debit a delta db ≡ ok (tt, db')
      → Keeps month_of db db'
  unfolding guard_debit
  guard_debit-Keeps a delta db db' c h =
      elim (Bool-cases (ltb_ℤ delta (pos 0) && a.enforce_balance)) [
        | inl q ↦
            let (sums, x, e, g) = bind-eq-ok (balance_and_held a.id) _ db (rw q at h) in
            let (_, stay) = fail_if_inv _ _ x db' g in
            subst (Keeps month_of db) stay (balance_and_held-Keeps month_of a.id sums db x c e)
        | inr q ↦
            let (_, stay) = ok_inv tt tt db db' (rw q at h) in
            subst (Keeps month_of db) stay (c, (refl, refl, refl))
      ]

  -- A successful posting against a counter account other than the customer balance keeps the
  -- projections consistent.
  pub insert_balanced_entries-IsConsistent :
      (txn : Text) (account : Account) (header : LedgerTransaction) (delta : ℤ) (counter : Text)
      (db db' : Db)
      → text_eq counter (codes "customer_balance") ≡ false
      → IsConsistent month_of db
      → insert_balanced_entries txn account header delta counter db ≡ ok (tt, db')
      → IsConsistent month_of db'
  unfolding insert_balanced_entries
  insert_balanced_entries-IsConsistent txn account header delta counter db db' other c h =
      let (_, h1) =
        bind-fail_if-eq-ok (eq_ℤ delta (negsuc max_i64)) (invalid ledger_too_large) _ db h in
      let (locked, x, e2, h2) = bind-eq-ok (lock_account account.project_id) _ db h1 in
      let (_, y, e3, h3) = bind-eq-ok (guard_debit locked delta) _ x h2 in
      let (_, z, e4, h4) = bind-eq-ok (change_balance account.id delta) _ y h3 in
      let (_, h5) =
        bind-fail_if-eq-ok
          (any (λ t. text_eq t.idempotency_key header.idempotency_key) z.transactions)
          (conflict resource_exists) _ z h4 in
      let (_, stay) = lock_account_inv account.project_id locked db x e2 in
      let (c1, _) = guard_debit-Keeps locked delta x y (subst (IsConsistent month_of) stay c) e3 in
      let mv = change_balance-Moved y account.id delta y z refl refl (unmoved month_of y c1) e4 in
      let c2 =
        settled_move month_of (posted txn counter account header delta y)
          (posted txn counter account header delta z)
          (Moved-postings (λ ts. record header { id = txn; currency = account.currency } ∷ ts)
            (λ es.
              entry txn account counter (neg delta)
              ∷ entry txn account (codes "customer_balance") delta
              ∷ es)
            y z mv)
          (λ i. posted_sum txn counter account delta y.ledger i other) (λ _. refl) (λ _. refl)
          (λ _ _. refl) c1.owned in
      append_event-IsConsistent month_of account.id (codes "ledger.posted") txn
        (posted txn counter account header delta z) db' c2 h5

  post_charge-IsConsistent :
      (stamp : Stamp) (account : Account) (row : Reservation) (amount : ℤ) (db db' : Db)
      → IsConsistent month_of db
      → post_charge stamp account row amount db ≡ ok (tt, db')
      → IsConsistent month_of db'
  unfolding post_charge
  post_charge-IsConsistent stamp account row amount db db' c h =
      elim (Bool-cases (ltb_ℤ (pos 0) amount)) [
        | inl q ↦
            insert_balanced_entries-IsConsistent stamp.txn account (usage_header row) (neg amount)
              (codes "usage_revenue") db db' (unfold text_eq in refl) c (rw q at h)
        | inr q ↦ subst (IsConsistent month_of) (ok_inv tt tt db db' (rw q at h)).1 c
      ]

insert_usage_inv :
    (event : UsageEvent) (db db' : Db)
    → insert_usage event db ≡ ok (tt, db')
    → db' ≡ record db { usage = event ∷ db.usage }
unfolding insert_usage
insert_usage_inv event db db' h =
    let (_, g) =
      bind-fail_if-eq-ok (any (λ u. text_eq u.event_id event.event_id) db.usage) database _ db h in
    sym (ok_inv tt tt _ db' g).1

abbrev charged : UsageEvent → Text → Reservation → Db → Db
charged event id row d = record d {
  usage = event ∷ d.usage;
  reservations = replace_reservation id row d.reservations;
}

module _ (stamp : Stamp) where
  charge-IsConsistent :
      (account : Account) (request : SettleRequest) (row r : Reservation) (amount : ℤ) (db db' : Db)
      → is_held row.state ≡ true
      → find_account row.project_id db.accounts ≡ some account
      → find_reservation row.id db.reservations ≡ some row
      → IsConsistent stamp.month_of db
      → charge stamp account request row amount db ≡ ok (r, db')
      → IsConsistent stamp.month_of db'
  unfolding charge
  charge-IsConsistent account request row r amount db db' held a f c h =
      let month = stamp.month_of stamp.now in
      let event = usage_of stamp account request row amount in
      let new = settled_row request amount row in
      let (spent, x, e1, h1) = bind-eq-ok (monthly stamp.month_of row.api_key_id month) _ db h in
      let (_, y, e2, h2) =
        bind-eq-ok (change_hold account.id row.api_key_id (neg row.reserved_microunits)) _ x h1 in
      let (_, z, e3, h3) = bind-eq-ok (insert_usage event) _ y h2 in
      let (_, w, e4, h4) = bind-eq-ok (change_spend row.api_key_id month spent amount) _ z h3 in
      let (_, v, e5, h5) =
        bind-eq-ok (post_charge stamp account row amount) _
          (record w { reservations = replace_reservation row.id new w.reservations }) h4 in
      let (_, u, e6, h6) =
        bind-eq-ok (append_event account.id (codes "reservation.settled") row.id) _ v h5 in
      let (mv1, at) =
        monthly-Moved db stamp.month_of row.api_key_id month spent db x refl
          (unmoved stamp.month_of db c) e1 in
      let mv2 = change_hold-Moved db account.id row.api_key_id _ x y refl refl refl mv1 e2 in
      let mv3 = Moved-usage (λ us. event ∷ us) db y mv2 in
      let put = insert_usage_inv event y z e3 in
      let mv4 =
        change_spend-Moved (record db { usage = event ∷ db.usage }) row.api_key_id month spent
          amount z w
          (ap (λ (d : Db). d.spends row.api_key_id month) put
            ∙ ap (λ t. t row.api_key_id month)
                (change_hold-spends account.id row.api_key_id _ x y e2)
            ∙ at)
          (subst (Moved (record db { usage = event ∷ db.usage }) _ _ _ _) (sym put) mv3) e4 in
      let own = All-find (IsOwned db.accounts) row.id row db.reservations f c.owned in
      let c1 =
        settled_move stamp.month_of (charged event row.id new db)
          (record w { reservations = replace_reservation row.id new w.reservations })
          (Moved-reservations (replace_reservation row.id new)
            (record db { usage = event ∷ db.usage }) w mv4)
          (λ _. refl)
          (λ i. rw (sym (own account a)) (
            sym (
              drop_sum (λ r. text_eq r.billing_account_id i) row.id row new db.reservations f held
                refl)))
          (λ k.
            sym (drop_sum (λ r. text_eq r.api_key_id k) row.id row new db.reservations f held refl))
          (λ k m. spent_more stamp.month_of event db.usage k m)
          (All-replace (IsOwned db.accounts) row.id new db.reservations own c.owned) in
      let c2 = post_charge-IsConsistent stamp.month_of stamp account row amount _ v c1 e5 in
      subst (IsConsistent stamp.month_of) (ok_inv new r u db' h6).1
        (append_event-IsConsistent stamp.month_of _ _ _ v u c2 e6)

  settle_row-IsConsistent :
      (account : Account) (request : SettleRequest) (row r : Reservation) (s : ReservationState)
      (db db' : Db)
      → row.state ≡ s
      → find_account row.project_id db.accounts ≡ some account
      → find_reservation row.id db.reservations ≡ some row
      → IsConsistent stamp.month_of db
      → settle_row stamp account request row s db ≡ ok (r, db')
      → IsConsistent stamp.month_of db'
  unfolding settle_row
  settle_row-IsConsistent account request row r settled db db' st a f c h =
      let (_, g) =
        bind-fail_if-eq-ok (not (same_settlement request row.completion))
          (conflict settlement_changed) (pure row) db h in
      subst (IsConsistent stamp.month_of) (ok_inv row r db db' g).1 c
  settle_row-IsConsistent account request row r dispatched db db' st a f c h =
      let (_, h1) =
        bind-fail_if-eq-ok
          (ltb_ℤ row.spec.input_token_limit request.input_tokens
            || ltb_ℤ row.spec.output_token_limit request.output_tokens)
          (conflict exceeds_bounds) _ db h in
      let (amount, _, h2) =
        bind-lift-eq-ok
          (of_domain (usage_cost_microunits row.price request.input_tokens request.output_tokens)) _
          db h1 in
      charge-IsConsistent account request row r amount db db' (rw st refl) a f c h2
  settle_row-IsConsistent account request row r _ db db' st a f c h = cc

  -- A successful settlement keeps the projections consistent.
  pub settle_money-IsConsistent :
      (project id : Text) (request : SettleRequest) (r : Reservation) (db db' : Db)
      → IsConsistent stamp.month_of db
      → settle_money stamp project id request db ≡ ok (r, db')
      → IsConsistent stamp.month_of db'
  unfolding settle_money settle_locked
  settle_money-IsConsistent project id request r db db' c h =
      let (account, row, a, found, same, _, g) =
        located project id (λ a row. settle_locked stamp a row request) r db db' h in
      let (_, g') =
        bind-fail_if-eq-ok (bad_settlement request) (invalid invalid_settlement) _ db g in
      settle_row-IsConsistent account request row r row.state db db' refl (rw same a) found c g'
