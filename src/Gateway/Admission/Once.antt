-- ===== src/Gateway/Admission/Once.antt =====
-- Two admissions of one request.
use xscope.Prelude.{
  ℕ, ◌≡◌, ◌≢◌, refl, sym, ap, subst, ◌∙◌, Bool, false, not, ◌||◌, Bool-cases, inl, inr, Result, ok,
  err,
}
use xscope.Billing.Types.{ReserveRequest, Reservation, dispatched, Db}
use xscope.Billing.Reserve.{reserve_money}
use xscope.Billing.Lifecycle.{dispatch_money}
use xscope.Gateway.Admission.{
  Wire, call, Decision, go_ahead, attests_no_hold, is_reserved, decide, dispatch_reserved,
  admit_request,
}
use xscope.Gateway.Admission.Stored.{Stored, reserve_money-again, dispatch_money-Stored}
use xscope.Gateway.Admission.Recovery.{call_inv, pair_inv}

decide-Stored :
    (r : ReserveRequest) (wire : Wire) (db db' : Db) (answer : Result ℕ Reservation) (x : Db)
    → call wire (dispatch_money r.project_id r.id) db ≡ (answer, x)
    → decide (answer, x) ≡ (go_ahead, db')
    → (row : Reservation) × Stored r.id row db' × (row.state ≡ dispatched)
decide-Stored r wire db db' (err status) x e h = cc
decide-Stored r wire db db' (ok row) x e h =
    let done = call_inv wire (dispatch_money r.project_id r.id) row db x e in
    let (stored, state) = dispatch_money-Stored r.project_id r.id row db x done in
    let (_, same) = pair_inv h in (row, subst (Stored r.id row) same stored, state)

dispatch_reserved-Stored :
    (r : ReserveRequest) (wire : Wire) (abandoned : Bool) (answer : Result ℕ Reservation)
    (db db' : Db)
    → dispatch_reserved wire abandoned r (answer, db) ≡ (go_ahead, db')
    → (row : Reservation) × Stored r.id row db' × (row.state ≡ dispatched)
dispatch_reserved-Stored r wire abandoned (err status) db db' h =
    elim (Bool-cases (attests_no_hold status)) [
      | inl q ↦ let clash = rw q at h in cc
      | inr q ↦ let clash = rw q at h in cc
    ]
dispatch_reserved-Stored r wire abandoned (ok row) db db' h =
    elim (Bool-cases (not (is_reserved row.state) || abandoned)) [
      | inl q ↦ let clash = rw q at h in cc
      | inr q ↦
          let sent = call wire (dispatch_money r.project_id r.id) db in
          decide-Stored r wire db db' sent.0 sent.1 refl (rw q at h)
    ]

-- A row that is not reserved any more gives no authority.
spent_refused :
    (month_of : ℕ → ℕ) (now : ℕ) (first second : Wire) (abandoned : Bool) (r : ReserveRequest)
    (old : Reservation) (db db' : Db) (answer : Result ℕ Reservation) (x : Db)
    → Stored r.id old db
    → is_reserved old.state ≡ false
    → call first (reserve_money month_of now r) db ≡ (answer, x)
    → dispatch_reserved second abandoned r (answer, x) ≡ (go_ahead, db')
    → ⊥
spent_refused month_of now first second abandoned r old db db' (err status) x stored spent e h =
    elim (Bool-cases (attests_no_hold status)) [
      | inl q ↦ let clash = rw q at h in cc
      | inr q ↦ let clash = rw q at h in cc
    ]
spent_refused month_of now first second abandoned r old db db' (ok row) x stored spent e h =
    let done = call_inv first (reserve_money month_of now r) row db x e in
    let (same, _) = reserve_money-again month_of now r old row db x stored done in
    let still : is_reserved row.state ≡ false =
      subst (λ (v : Reservation). is_reserved v.state ≡ false) (sym same) spent in
    let clash = rw still at h in cc

-- Behind an admission that was told to go ahead, its reservation is dispatched, and a second admission
-- of the same request, directly behind the first, at any time and over any wire, is not told so.
pub admit_request-once :
    (month_of : ℕ → ℕ) (now now' : ℕ) (first second first' second' : Wire)
    (abandoned abandoned' : Bool) (r : ReserveRequest) (decision : Decision) (db db' db'' : Db)
    → admit_request month_of now first second abandoned r db ≡ (go_ahead, db')
    → admit_request month_of now' first' second' abandoned' r db' ≡ (decision, db'')
    → ((row : Reservation) × Stored r.id row db' × (row.state ≡ dispatched)) × (decision ≢ go_ahead)
unfolding admit_request
admit_request-once month_of now now' first second first' second' abandoned abandoned' r decision db
      db' db'' h h' =
    let sent = call first (reserve_money month_of now r) db in
    let (row, stored, state) = dispatch_reserved-Stored r second abandoned sent.0 sent.1 db' h in
    let again = call first' (reserve_money month_of now' r) db' in
    (
      (row, stored, state),
      λ told.
          spent_refused month_of now' first' second' abandoned' r row db' db'' again.0 again.1
            stored (rw state refl) refl (h' ∙ ap {A = Decision} (λ d. (d, db'')) told),
    )
