-- ===== src/Billing/Consistent/Reserve.antt =====
-- The projections behind a reservation.
use xscope.Prelude.{
  ℕ, ◌≡◌, refl, sym, ap, subst, ◌∙◌, Bool, true, not, ◌||◌, Option, none, some, List, [], ◌∷◌, ok,
  if◌then◌else◌, find, Bool-cases, inl, inr,
}
use xscope.Prelude.Int.{ℤ, ◌+ℤ◌, int_laws}
use xscope.Prelude.Text.{Text, codes, text_eq, text_eq_iff}
use xscope.Domain.Money.{Model, usage_cost_microunits}
use xscope.Billing.Types.{
  forbidden, invalid, conflict, invalid_reservation, invalid_price_or_context, request_used,
  unknown_model, bound_to_other_payload, Reservation, Account, ApiKey, ReserveRequest, Db,
}
use xscope.Billing.Store.{
  bind-eq-ok, bind-fail_if-eq-ok, bind-some_or-eq-ok, bind-lift-eq-ok, ok_inv, is_held,
  find_reservation, sum_where, pure,
}
use xscope.Billing.Projection.{change_hold, account}
use xscope.Billing.Ledger.{append_event, lock_account, lock_account_inv}
use xscope.Billing.Reserve.{
  malformed, key_refused, active_model, bad_terms, request_identity_used, of_domain, check_balance,
  check_budget, new_reservation, hold_and_insert, admit, existing_or_admit, reserve_money,
}
use xscope.Billing.Requests.{reserve_eq}
use xscope.Billing.Moves.{change_hold-Moved}
use xscope.Billing.Moves.Writes.{Moved-reservations}
use xscope.Billing.Sums.{held_by}
use xscope.Billing.Consistent.{
  find_account, IsConsistent, unmoved, settled_move, append_event-IsConsistent,
}
use xscope.Billing.Consistent.Keeps.{check_balance-Keeps, check_budget-Keeps}

-- A new held row adds its amount to the sums of its owner.
pub new_sum :
    (m : Reservation → Bool) (r : Reservation) (rs : List Reservation)
    → is_held r.state ≡ true
    → held_by m (r ∷ rs) ≡ (if m r then held_by m rs +ℤ r.reserved_microunits else held_by m rs)
unfolding sum_where
new_sum m r rs h = elim (Bool-cases (m r)) [
  | inl e ↦ rw (e, h) (omega int_laws)
  | inr e ↦ rw e refl
]

pub some_injective : {A : Type 0} {a b : A} → some a ≡ some b → a ≡ b
some_injective h = cc

pub active_model_inv :
    (id : Text) (m : Model) (db db' : Db) → active_model id db ≡ ok (m, db') → db ≡ db'
unfolding active_model
active_model_inv id m db db' h =
    let (row, _, g) = bind-some_or-eq-ok (db.catalog id) (invalid unknown_model) _ db h in
    let (_, g') =
      bind-fail_if-eq-ok (not row.enabled) (invalid unknown_model) (pure row.model) db g in
    (ok_inv row.model m db db' g').1

pub found_key :
    (id : Text) (key : ApiKey) (keys : List ApiKey)
    → find (λ k. text_eq k.id id) keys ≡ some key
    → key.id ≡ id
found_key id key [] h = cc
found_key id key (k ∷ ks) h = elim (Bool-cases (text_eq k.id id)) [
  | inl e ↦
      subst (λ (x : ApiKey). x.id ≡ id) (some_injective (rw e at h)) ((text_eq_iff k.id id).0 e)
  | inr e ↦ found_key id key ks (rw e at h)
]

module _ (month_of : ℕ → ℕ) where
  pub hold_and_insert-IsConsistent :
      (account : Account) (key : ApiKey) (r : ReserveRequest) (model : Model) (amount : ℤ)
      (row : Reservation) (db db' : Db)
      → find_account r.project_id db.accounts ≡ some account
      → key.id ≡ r.api_key_id
      → IsConsistent month_of db
      → hold_and_insert account key r model amount db ≡ ok (row, db')
      → IsConsistent month_of db'
  unfolding hold_and_insert
  hold_and_insert-IsConsistent account key r model amount row db db' a k c h =
      let new = new_reservation account r model amount in
      let (_, x, e, g) = bind-eq-ok (change_hold account.id key.id amount) _ db h in
      let (_, y, e', g') = bind-eq-ok (append_event account.id _ r.id) _ _ g in
      let mv =
        change_hold-Moved db account.id key.id amount db x refl refl refl (unmoved month_of db c)
          e in
      let c1 =
        settled_move month_of (record db { reservations = new ∷ db.reservations })
          (record x { reservations = new ∷ x.reservations })
          (Moved-reservations (λ rs. new ∷ rs) db x mv) (λ _. refl)
          (λ i. sym (new_sum (λ r. text_eq r.billing_account_id i) new db.reservations refl))
          (λ i. rw k (sym (new_sum (λ r. text_eq r.api_key_id i) new db.reservations refl)))
          (λ _ _. refl)
          ((λ b f. ap (λ (o : Account). o.id) (some_injective (sym a ∙ f))), c.owned) in
      subst (IsConsistent month_of) (ok_inv new row y db' g').1
        (append_event-IsConsistent month_of _ _ _ _ y c1 e')

  admit-IsConsistent :
      (now : ℕ) (account : Account) (r : ReserveRequest) (row : Reservation) (db db' : Db)
      → find_account r.project_id db.accounts ≡ some account
      → IsConsistent month_of db
      → admit month_of now account r db ≡ ok (row, db')
      → IsConsistent month_of db'
  unfolding admit
  admit-IsConsistent now account r row db db' a c h =
      let (_, h1) =
        bind-fail_if-eq-ok
          (not (text_eq account.status (codes "active"))
            || not (text_eq account.currency (codes "CNY")))
          forbidden _ db h in
      let (key, found, h2) =
        bind-some_or-eq-ok (find (λ k. text_eq k.id r.api_key_id) db.keys) forbidden _ db h1 in
      let (_, h3) = bind-fail_if-eq-ok (key_refused now r key) forbidden _ db h2 in
      let (model, x, e4, h4) = bind-eq-ok (active_model r.model_id) _ db h3 in
      let (_, h5) =
        bind-fail_if-eq-ok (bad_terms r model) (invalid invalid_price_or_context) _ x h4 in
      let (_, h6) = bind-fail_if-eq-ok (request_identity_used r x) (conflict request_used) _ x h5 in
      let (amount, _, h7) =
        bind-lift-eq-ok
          (of_domain (usage_cost_microunits model r.input_token_limit r.output_token_limit)) _ x
          h6 in
      let (_, y, e8, h8) = bind-eq-ok (check_balance account amount) _ x h7 in
      let (_, z, e9, h9) = bind-eq-ok (check_budget month_of now key amount) _ y h8 in
      let stay = active_model_inv r.model_id model db x e4 in
      let (c1, (a1, _, _)) =
        check_balance-Keeps month_of account amount x y (subst (IsConsistent month_of) stay c) e8 in
      let (c2, (a2, _, _)) = check_budget-Keeps month_of now key amount y z c1 e9 in
      hold_and_insert-IsConsistent account key r model amount row z db'
        (rw (a2, a1)
          (subst (λ (d : Db). find_account r.project_id d.accounts ≡ some account) stay a))
        (found_key r.api_key_id key db.keys found) c2 h9

  existing_or_admit-IsConsistent :
      (now : ℕ) (account : Account) (r : ReserveRequest) (o : Option Reservation)
      (row : Reservation) (db db' : Db)
      → find_account r.project_id db.accounts ≡ some account
      → IsConsistent month_of db
      → existing_or_admit month_of now account r o db ≡ ok (row, db')
      → IsConsistent month_of db'
  existing_or_admit-IsConsistent now account r (some old) row db db' a c h =
      let (_, g) =
        bind-fail_if-eq-ok (not (reserve_eq old.spec r)) (conflict bound_to_other_payload)
          (pure old) db h in
      subst (IsConsistent month_of) (ok_inv old row db db' g).1 c
  existing_or_admit-IsConsistent now account r none row db db' a c h =
      admit-IsConsistent now account r row db db' a c h

  -- A successful reservation, new or found again, keeps the projections consistent.
  pub reserve_money-IsConsistent :
      (now : ℕ) (r : ReserveRequest) (row : Reservation) (db db' : Db)
      → IsConsistent month_of db
      → reserve_money month_of now r db ≡ ok (row, db')
      → IsConsistent month_of db'
  unfolding reserve_money
  reserve_money-IsConsistent now r row db db' c h =
      let (_, h1) = bind-fail_if-eq-ok (malformed r) (invalid invalid_reservation) _ db h in
      let (account, x, e, h2) = bind-eq-ok (lock_account r.project_id) _ db h1 in
      let (_, h3) =
        bind-fail_if-eq-ok (not (text_eq account.tenant_id r.tenant_id)) forbidden _ x h2 in
      let (a, stay) = lock_account_inv r.project_id account db x e in
      existing_or_admit-IsConsistent now account r (find_reservation r.id x.reservations) row x db'
        (subst (λ (d : Db). find_account r.project_id d.accounts ≡ some account) stay a)
        (subst (IsConsistent month_of) stay c) h3
