-- ===== src/Billing/Inactive.antt =====
-- Reservations with a key that is revoked or expired.
use xscope.Prelude.{◌≢◌}
use xscope.Domain.Keys.{active, key_status}
use xscope.Billing.Types.{ReserveRequest, ApiKey}
use xscope.Billing.Reserve.{key_refused, malformed, admit, existing_or_admit, reserve_money}
use xscope.Billing.Requests.{reserve_eq}
use xscope.Prelude.{Option, none, find}
use xscope.Billing.Types.{forbidden, invalid_reservation, bound_to_other_payload}
use xscope.Billing.Ledger.{lock_account_inv}
use xscope.Prelude.{ℕ, ◌≡◌, sym, ap, subst, ◌∙◌, true, not, ◌||◌, some, arith, ok}
use xscope.Prelude.Text.{codes, text_eq}
use xscope.Billing.Types.{invalid, conflict, Reservation, Account, Db}
use xscope.Billing.Store.{
  bind-eq-ok, bind-fail_if-eq-ok, bind-some_or-eq-ok, ok_inv, find_reservation,
}
use xscope.Billing.Ledger.{lock_account}

inactive-refused :
    (now : ℕ) (r : ReserveRequest) (key : ApiKey)
    → key_status key.revoked_at key.expires_at now ≢ active
    → key_refused now r key ≡ true
unfolding key_status key_refused
inactive-refused now r key h = ground arith

inactive-admit :
    (month_of : ℕ → ℕ) (now : ℕ) (account : Account) (r : ReserveRequest) (key : ApiKey)
    (row : Reservation) (db db' : Db)
    → find (λ k. text_eq k.id r.api_key_id) db.keys ≡ some key
    → key_status key.revoked_at key.expires_at now ≢ active
    → admit month_of now account r db ≢ ok (row, db')
unfolding admit
inactive-admit month_of now account r key row db db' found inactive h =
    let (_, h1) =
      bind-fail_if-eq-ok
        (not (text_eq account.status (codes "active"))
          || not (text_eq account.currency (codes "CNY")))
        forbidden _ db h in
    let (k, e, h2) =
      bind-some_or-eq-ok (find (λ k. text_eq k.id r.api_key_id) db.keys) forbidden _ db h1 in
    let (passed, _) = bind-fail_if-eq-ok (key_refused now r k) forbidden _ db h2 in
    let same : key ≡ k = some_key_inv (sym found ∙ e) in
    let refused : key_refused now r k ≡ true =
      subst {A = ApiKey} (λ v. key_refused now r v ≡ true) same
        (inactive-refused now r key inactive) in
    cc
  where
    some_key_inv : {a b : ApiKey} → some a ≡ some b → a ≡ b
    some_key_inv e = cc

-- Where the request's key is revoked or expired, a reservation succeeds only for an ID that was reserved before: it
-- answers the stored row and writes nothing. Under a new ID it fails, whatever the key's policy.
pub reserve_money-inactive :
    (month_of : ℕ → ℕ) (now : ℕ) (r : ReserveRequest) (key : ApiKey) (row : Reservation)
    (db db' : Db)
    → find (λ k. text_eq k.id r.api_key_id) db.keys ≡ some key
    → key_status key.revoked_at key.expires_at now ≢ active
    → reserve_money month_of now r db ≡ ok (row, db')
    → (find_reservation r.id db.reservations ≡ some row) × (db' ≡ db)
unfolding reserve_money
reserve_money-inactive month_of now r key row db db' found inactive h =
    let (_, h1) = bind-fail_if-eq-ok (malformed r) (invalid invalid_reservation) _ db h in
    let (account, x, e, h2) = bind-eq-ok (lock_account r.project_id) _ db h1 in
    let (_, stay) = lock_account_inv r.project_id account db x e in
    let (_, h3) =
      bind-fail_if-eq-ok (not (text_eq account.tenant_id r.tenant_id)) forbidden _ x h2 in
    let h4 : existing_or_admit month_of now account r (find_reservation r.id db.reservations) db
        ≡ ok (row, db') =
      subst {A = Db}
        (λ d.
          existing_or_admit month_of now account r (find_reservation r.id d.reservations) d
          ≡ ok (row, db'))
        (sym stay) h3 in
    replayed (find_reservation r.id db.reservations) account h4
  where
    replayed :
        (o : Option Reservation) (account : Account)
        → existing_or_admit month_of now account r o db ≡ ok (row, db')
        → (o ≡ some row) × (db' ≡ db)
    replayed none account g =
        absurd (inactive-admit month_of now account r key row db db' found inactive g)
    replayed (some old) account g =
        let (_, g1) =
          bind-fail_if-eq-ok (not (reserve_eq old.spec r)) (conflict bound_to_other_payload) _ db
            g in
        let (p, q) = ok_inv old row db db' g1 in (ap some p, sym q)
