-- ===== src/Billing/Outcomes.antt =====
-- What the operations answer: the amount of a settlement, and repeated calls.
use xscope.Billing.Lifecycle.{money_reservation}
use xscope.Prelude.{
  ℕ, ◌+◌, ◌*◌, ◌≤◌, ◌≡◌, refl, sym, ap, subst, ◌∙◌, true, false, not, ◌||◌, some, List, ◌∷◌, [],
  arith, ok, Bool-cases, inl, inr,
}
use xscope.Prelude.Int.{ℤ, pos, neg, ltb_ℤ}
use xscope.Prelude.Text.{Text, codes, text_eq, text_eq_refl}
use xscope.Domain.Money.{Model, usage_cost_microunits}
use xscope.Domain.Money.Cost.{Priced, usage_cost_within_limits}
use xscope.Billing.Types.{
  invalid, conflict, not_found, invalid_settlement, exceeds_bounds, ReservationState, reserved,
  dispatched, Reservation, Account, SettleRequest, Db,
}
use xscope.Billing.Store.{
  bind-eq-ok, bind-fail_if-eq-ok, bind-lift-eq-ok, ok_inv, find_reservation, replace_reservation,
  ◌>>=◌, ◌>>◌, some_or, fail_if, pure,
}
use xscope.Billing.Projection.{monthly, change_hold, change_spend}
use xscope.Billing.Ledger.{append_event, append_event_inv, schedule, lock_account}
use xscope.Billing.Reserve.{of_domain}
use xscope.Billing.Lifecycle.{
  Stamp, usage_of, settled_row, insert_usage, post_charge, bad_settlement, charge, settle_row,
  settle_locked, dispatch_row, dispatch_money, project_reservation,
}
use xscope.Billing.Consistent.{find_account}
use xscope.Billing.Consistent.Lifecycle.{located}

charge_row :
    (stamp : Stamp) (account : Account) (request : SettleRequest) (row r : Reservation) (amount : ℤ)
    (db db' : Db)
    → charge stamp account request row amount db ≡ ok (r, db')
    → settled_row request amount row ≡ r
unfolding charge
charge_row stamp account request row r amount db db' h =
    let month = stamp.month_of stamp.now in
    let (spent, x, _, h1) = bind-eq-ok (monthly stamp.month_of row.api_key_id month) _ db h in
    let (_, y, _, h2) =
      bind-eq-ok (change_hold account.id row.api_key_id (neg row.reserved_microunits)) _ x h1 in
    let (_, z, _, h3) =
      bind-eq-ok (insert_usage (usage_of stamp account request row amount)) _ y h2 in
    let (_, w, _, h4) = bind-eq-ok (change_spend row.api_key_id month spent amount) _ z h3 in
    let w' : Db = record w {
      reservations = replace_reservation row.id (settled_row request amount row) w.reservations;
    } in
    let (_, v, _, h5) = bind-eq-ok (post_charge stamp account row amount) _ w' h4 in
    let (_, u, _, h6) =
      bind-eq-ok (append_event account.id (codes "reservation.settled") row.id) _ v h5 in
    (ok_inv (settled_row request amount row) r u db' h6).0

of_domain_ok : {A : Type 0} {a b : A} → of_domain (ok a) ≡ ok b → a ≡ b
of_domain_ok h = cc

cost_of :
    (m : Model) (a b c d v amount : ℤ)
    → a ≡ c
    → b ≡ d
    → usage_cost_microunits m c d ≡ ok v
    → of_domain (usage_cost_microunits m a b) ≡ ok amount
    → v ≡ amount
cost_of m a b c d v amount p q e h = of_domain_ok (rw (p, q, e) at h)

-- A dispatched reservation whose hold is the cost of its two token limits, at prices that are not
-- negative, settles at the exact cost of the reported tokens, and that is at most the hold.
pub settle_locked-within :
    (stamp : Stamp) (account : Account) (request : SettleRequest) (row r : Reservation)
    (db db' : Db) (p q i o i' o' held : ℕ)
    → Priced row.price p q
    → row.state ≡ dispatched
    → row.spec.input_token_limit ≡ pos i'
    → row.spec.output_token_limit ≡ pos o'
    → request.input_tokens ≡ pos i
    → request.output_tokens ≡ pos o
    → usage_cost_microunits row.price (pos i') (pos o') ≡ ok (pos held)
    → settle_locked stamp account row request db ≡ ok (r, db')
    → (r.settled_microunits ≡ some (pos (i * p + o * q))) × (i * p + o * q ≤ held)
unfolding settle_locked settle_row
settle_locked-within stamp account request row r db db' p q i o i' o' held pr st li lo ti to cost
      h =
    let (_, h1) = bind-fail_if-eq-ok (bad_settlement request) (invalid invalid_settlement) _ db h in
    let (fits, h2) =
      bind-fail_if-eq-ok
        (ltb_ℤ row.spec.input_token_limit request.input_tokens
          || ltb_ℤ row.spec.output_token_limit request.output_tokens)
        (conflict exceeds_bounds) _ db (rw st at h1) in
    let (amount, e, h3) =
      bind-lift-eq-ok
        (of_domain (usage_cost_microunits row.price request.input_tokens request.output_tokens)) _
        db h2 in
    let fits' : (ltb_ℤ (pos i') (pos i) || ltb_ℤ (pos o') (pos o)) ≡ false =
      rw (li, lo, ti, to) at fits in
    let (exact, bounded) =
      usage_cost_within_limits row.price p q i o i' o' held pr (ground arith) (ground arith) cost in
    let same : pos (i * p + o * q) ≡ amount = cost_of row.price _ _ _ _ _ amount ti to exact e in
    (
      ap (λ (x : Reservation). x.settled_microunits)
            (sym (charge_row stamp account request row r amount db db' h3))
          ∙ ap some (sym same),
      bounded,
    )

pub found_again :
    (id : Text) (new old : Reservation) (rs : List Reservation)
    → find_reservation id rs ≡ some old
    → text_eq new.id id ≡ true
    → find_reservation id (replace_reservation id new rs) ≡ some new
found_again id new old [] h e = cc
found_again id new old (r ∷ rs) h e = elim (Bool-cases (text_eq r.id id)) [
  | inl q ↦ rw (q, e) refl
  | inr q ↦ rw (q, q) (found_again id new old rs (rw q at h) e)
]

dispatched_again :
    (account : Account) (row r : Reservation) (s : ReservationState) (db db' : Db)
    → row.state ≡ s
    → find_reservation row.id db.reservations ≡ some row
    → dispatch_row account row s db ≡ ok (r, db')
    → (find_reservation row.id db'.reservations ≡ some r)
      × (r.state ≡ dispatched)
      × (r.project_id ≡ row.project_id)
      × (db'.accounts ≡ db.accounts)
unfolding dispatch_row schedule
dispatched_again account row r reserved db db' st f h =
    let new : Reservation = record row { state = dispatched } in
    let x : Db = record db { reservations = replace_reservation row.id new db.reservations } in
    let (_, y, e, g) =
      bind-eq-ok (append_event account.id (codes "reservation.dispatched") row.id) _ x h in
    let (_, _, wrote) = append_event_inv account.id (codes "reservation.dispatched") row.id x y e in
    let (same, stay) = ok_inv new r y db' g in
    (
      ap (λ (d : Db). find_reservation row.id d.reservations) (sym stay ∙ wrote)
          ∙ found_again row.id new row db.reservations f (text_eq_refl row.id)
          ∙ ap some same,
      ap (λ (o : Reservation). o.state) (sym same),
      ap (λ (o : Reservation). o.project_id) (sym same),
      ap (λ (d : Db). d.accounts) (sym stay ∙ wrote),
    )
dispatched_again account row r dispatched db db' st f h =
    let (same, stay) = ok_inv row r db db' h in
    (
      ap (λ (d : Db). find_reservation row.id d.reservations) (sym stay) ∙ f ∙ ap some same,
      ap (λ (o : Reservation). o.state) (sym same) ∙ st,
      ap (λ (o : Reservation). o.project_id) (sym same),
      ap (λ (d : Db). d.accounts) (sym stay),
    )
dispatched_again account row r _ db db' st f h = cc

repeats :
    (project id : Text) (a : Account) (r : Reservation) (db : Db)
    → find_account project db.accounts ≡ some a
    → find_reservation id db.reservations ≡ some r
    → text_eq r.project_id project ≡ true
    → r.state ≡ dispatched
    → dispatch_money project id db ≡ ok (r, db)
unfolding dispatch_money dispatch_row lock_account project_reservation
repeats project id a r db e f p s =
    ap
      (λ o.
        (some_or o not_found >>= λ b.
        project_reservation project id >>= λ row. dispatch_row b row row.state)
          db)
      e
    ∙ ap
        (λ o.
          ((some_or o not_found >>= λ row.
          fail_if (not (text_eq row.project_id project)) not_found >> pure row)
              >>= λ row. dispatch_row a row row.state)
            db)
        f
    ∙ ap (λ t. ((fail_if (not t) not_found >> pure r) >>= λ row. dispatch_row a row row.state) db) p
    ∙ ap (λ t. dispatch_row a r t db) s

-- A dispatch that succeeded can be repeated: the second call gives the same row and changes nothing.
pub dispatch_money-replay :
    (project id : Text) (r : Reservation) (db db' : Db)
    → dispatch_money project id db ≡ ok (r, db')
    → dispatch_money project id db' ≡ ok (r, db')
dispatch_money-replay project id r db db' h =
    let (a, row, e, found, same, at, g) =
      located project id (λ a row. dispatch_row a row row.state) r db db'
        (unfold dispatch_money in h) in
    let (f, s, p, acc) = dispatched_again a row r row.state db db' refl found g in
    repeats project id a r db' (rw acc e)
      (subst (λ i. find_reservation i db'.reservations ≡ some r) at f)
      (subst (λ t. text_eq t project ≡ true) (sym (p ∙ same)) (text_eq_refl project)) s

reads :
    (project id : Text) (r : Reservation) (db : Db)
    → find_reservation id db.reservations ≡ some r
    → text_eq r.project_id project ≡ true
    → money_reservation project id db ≡ ok (r, db)
unfolding money_reservation project_reservation
reads project id r db f p =
    ap
      (λ o.
        (some_or o not_found >>= λ row.
        fail_if (not (text_eq row.project_id project)) not_found >> pure row)
          db)
      f
    ∙ ap (λ t. (fail_if (not t) not_found >> pure r) db) p

-- Behind a successful dispatch, the read of the reservation gives the row that the dispatch answered, and that row
-- is dispatched.
pub dispatch_money-money_reservation :
    (project id : Text) (r : Reservation) (db db' : Db)
    → dispatch_money project id db ≡ ok (r, db')
    → (money_reservation project id db' ≡ ok (r, db')) × (r.state ≡ dispatched)
dispatch_money-money_reservation project id r db db' h =
    let (a, row, e, found, same, at, g) =
      located project id (λ a row. dispatch_row a row row.state) r db db'
        (unfold dispatch_money in h) in
    let (f, s, p, _) = dispatched_again a row r row.state db db' refl found g in
    (
      reads project id r db' (subst (λ i. find_reservation i db'.reservations ≡ some r) at f)
          (subst (λ t. text_eq t project ≡ true) (sym (p ∙ same)) (text_eq_refl project)),
      s,
    )
