-- ===== src/Billing/Consistent/Covered.antt =====
-- Admission against the balance: what the test of a new reservation says of the sums behind its writes.
use xscope.Prelude.{
  ℕ, ◌≡◌, refl, sym, ap, subst, ◌∙◌, true, false, not, ◌||◌, Option, none, some, ◌∷◌, arith, ok,
  find, is_none_or, and_then,
}
use xscope.Prelude.Int.{
  ℤ, pos, ltb_ℤ, ◌≤ℤ◌, ◌+ℤ◌, ◌-ℤ◌, checked_sub, checked_sub-some, int_laws, parts_of_eq,
}
use xscope.Prelude.Text.{codes, text_eq, text_eq_refl}
use xscope.Domain.Money.{Model, usage_cost_microunits}
use xscope.Billing.Types.{
  forbidden, invalid, conflict, invalid_reservation, invalid_price_or_context, request_used,
  Reservation, Account, ApiKey, ReserveRequest, Db,
}
use xscope.Billing.Store.{
  bind-eq-ok, bind-fail_if-eq-ok, bind-some_or-eq-ok, bind-lift-eq-ok, ok_inv, find_reservation,
}
use xscope.Billing.Projection.{booked_sum, held_sum, change_hold, balance_and_held}
use xscope.Billing.Ledger.{append_event, append_event_inv, schedule, lock_account, lock_account_inv}
use xscope.Billing.Reserve.{
  malformed, key_refused, active_model, bad_terms, request_identity_used, of_domain, check_balance,
  check_budget, new_reservation, hold_and_insert, admit, existing_or_admit, reserve_money,
}
use xscope.Billing.Moves.{change_hold-Moved}
use xscope.Billing.Consistent.{find_account, IsConsistent, unmoved}
use xscope.Billing.Consistent.Keeps.{
  balance_and_held-sums, fail_if_inv, check_balance-Keeps, check_budget-Keeps,
}
use xscope.Billing.Consistent.Reserve.{active_model_inv, new_sum, some_injective}

-- The test of an admission, passed.
enough :
    (b h amount : ℤ)
    → is_none_or (and_then (checked_sub b h) λ v. checked_sub v amount) (λ v. ltb_ℤ v (pos 0))
      ≡ false
    → (h +ℤ amount) ≤ℤ b
enough b h amount t = go (checked_sub b h) refl t
  where
    last :
        (v : ℤ)
        → v ≡ b -ℤ h
        → (o : Option ℤ) → checked_sub v amount ≡ o
        → is_none_or o (λ v. ltb_ℤ v (pos 0)) ≡ false
        → (h +ℤ amount) ≤ℤ b
    last v e (some w) q r =
        let e' = checked_sub-some v amount w q in
        let s : pos 0 ≤ℤ w = ground arith in
        omega (int_laws, parts_of_eq v (b -ℤ h) e, parts_of_eq w (v -ℤ amount) e', s)
    last v e none q r = cc

    go :
        (o : Option ℤ)
        → checked_sub b h ≡ o
        → is_none_or (and_then o λ v. checked_sub v amount) (λ v. ltb_ℤ v (pos 0)) ≡ false
        → (h +ℤ amount) ≤ℤ b
    go (some v) q r = last v (checked_sub-some b h v q) (checked_sub v amount) refl r
    go none q r = cc

module _ (month_of : ℕ → ℕ) where
  check_balance-covers :
      (a : Account) (amount : ℤ) (db db' : Db)
      → IsConsistent month_of db
      → a.enforce_balance ≡ true
      → check_balance a amount db ≡ ok (tt, db')
      → (held_sum a.id db.reservations +ℤ amount) ≤ℤ booked_sum a.id db.ledger
  unfolding check_balance
  check_balance-covers a amount db db' c q h =
      let (sums, x, e, g) = bind-eq-ok (balance_and_held a.id) _ db (rw q at h) in
      let (t, _) = fail_if_inv _ _ x db' g in
      let s = balance_and_held-sums month_of db x a.id sums c e in
      rw (ap (λ (p : ℤ × ℤ). p.0) s, ap (λ (p : ℤ × ℤ). p.1) s) at (enough sums.0 sums.1 amount t)

  -- The ledger and the reservations that an admitted request leaves behind.
  hold_and_insert-rows :
      (account : Account) (key : ApiKey) (r : ReserveRequest) (model : Model) (amount : ℤ)
      (row : Reservation) (db db' : Db)
      → IsConsistent month_of db
      → hold_and_insert account key r model amount db ≡ ok (row, db')
      → (db'.ledger ≡ db.ledger)
        × (db'.reservations ≡ new_reservation account r model amount ∷ db.reservations)
  unfolding hold_and_insert schedule
  hold_and_insert-rows account key r model amount row db db' c h =
      let new = new_reservation account r model amount in
      let (_, x, e, g) = bind-eq-ok (change_hold account.id key.id amount) _ db h in
      let x' : Db = record x { reservations = new ∷ x.reservations } in
      let (_, y, e', g') =
        bind-eq-ok (append_event account.id (codes "reservation.created") r.id) _ x' g in
      let (_, _, _, same, _) =
        change_hold-Moved db account.id key.id amount db x refl refl refl (unmoved month_of db c)
          e in
      let (_, _, wrote) = append_event_inv account.id (codes "reservation.created") r.id x' y e' in
      let stay = ok_inv new row y db' g' in
      (
        ap (λ (d : Db). d.ledger) (sym stay.1 ∙ wrote) ∙ ap (λ (d : Db). d.ledger) same,
        ap (λ (d : Db). d.reservations) (sym stay.1 ∙ wrote)
            ∙ ap (λ (d : Db). new ∷ d.reservations) same,
      )

  covered :
      (account : Account) (r : ReserveRequest) (model : Model) (amount : ℤ) (db db' : Db)
      → db'.ledger ≡ db.ledger
      → db'.reservations ≡ new_reservation account r model amount ∷ db.reservations
      → (held_sum account.id db.reservations +ℤ amount) ≤ℤ booked_sum account.id db.ledger
      → held_sum account.id db'.reservations ≤ℤ booked_sum account.id db'.ledger
  covered account r model amount db db' l s h =
      rw
        (
          l,
          s,
          new_sum (λ o. text_eq o.billing_account_id account.id)
              (new_reservation account r model amount) db.reservations refl,
          text_eq_refl account.id,
        )
        h

  admit-covers :
      (now : ℕ) (account : Account) (r : ReserveRequest) (row : Reservation) (db db' : Db)
      → account.enforce_balance ≡ true
      → IsConsistent month_of db
      → admit month_of now account r db ≡ ok (row, db')
      → held_sum account.id db'.reservations ≤ℤ booked_sum account.id db'.ledger
  unfolding admit
  admit-covers now account r row db db' q c h =
      let (_, h1) =
        bind-fail_if-eq-ok
          (not (text_eq account.status (codes "active"))
            || not (text_eq account.currency (codes "CNY")))
          forbidden _ db h in
      let (key, _, h2) =
        bind-some_or-eq-ok (find (λ k. text_eq k.id r.api_key_id) db.keys) forbidden _ db h1 in
      let (_, h3) = bind-fail_if-eq-ok (key_refused now r key) forbidden _ db h2 in
      let (model, x, e4, h4) = bind-eq-ok (active_model r.model_id) _ db h3 in
      let (_, h5) =
        bind-fail_if-eq-ok (bad_terms r model) (invalid invalid_price_or_context) _ x h4 in
      let (_, h6) = bind-fail_if-eq-ok (request_identity_used r x) (conflict request_used) _ x h5 in
      let (amount, _, h7) =
        bind-lift-eq-ok
          (of_domain (usage_cost_microunits model r.input_token_limit r.output_token_limit)) _ x
          h6 in
      let (_, y, e8, h8) = bind-eq-ok (check_balance account amount) _ x h7 in
      let (_, z, e9, h9) = bind-eq-ok (check_budget month_of now key amount) _ y h8 in
      let c0 = subst (IsConsistent month_of) (active_model_inv r.model_id model db x e4) c in
      let (c1, (_, l1, r1)) = check_balance-Keeps month_of account amount x y c0 e8 in
      let (c2, (_, l2, r2)) = check_budget-Keeps month_of now key amount y z c1 e9 in
      let (l3, r3) = hold_and_insert-rows account key r model amount row z db' c2 h9 in
      let new = new_reservation account r model amount in
      covered account r model amount x db' (l3 ∙ l2 ∙ l1) (r3 ∙ ap (λ rs. new ∷ rs) (r2 ∙ r1))
        (check_balance-covers account amount x y c0 q e8)

  -- In a state with consistent projections, an account that enforces its balance has, behind every new
  -- reservation, a booked balance that covers the sum of all its held reservations.
  pub reserve_money-covers :
      (now : ℕ) (account : Account) (r : ReserveRequest) (row : Reservation) (db db' : Db)
      → find_account r.project_id db.accounts ≡ some account
      → account.enforce_balance ≡ true
      → find_reservation r.id db.reservations ≡ none
      → IsConsistent month_of db
      → reserve_money month_of now r db ≡ ok (row, db')
      → held_sum account.id db'.reservations ≤ℤ booked_sum account.id db'.ledger
  unfolding reserve_money
  reserve_money-covers now account r row db db' a q n c h =
      let (_, h1) = bind-fail_if-eq-ok (malformed r) (invalid invalid_reservation) _ db h in
      let (b, x, e, h2) = bind-eq-ok (lock_account r.project_id) _ db h1 in
      let (_, h3) = bind-fail_if-eq-ok (not (text_eq b.tenant_id r.tenant_id)) forbidden _ x h2 in
      let (f, stay) = lock_account_inv r.project_id b db x e in
      let same : b ≡ account = some_injective (sym f ∙ a) in
      let h4 : existing_or_admit month_of now b r (find_reservation r.id db.reservations) db
          ≡ ok (row, db') =
        subst
          (λ (d : Db).
            existing_or_admit month_of now b r (find_reservation r.id d.reservations) d
            ≡ ok (row, db'))
          (sym stay) h3 in
      admit-covers now account r row db db' q c (rw (n, same) at h4)
