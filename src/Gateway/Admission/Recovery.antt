-- ===== src/Gateway/Admission/Recovery.antt =====
-- What an admission and a recovery leave at the control plane.
use xscope.Prelude.{
  ℕ, ◌≡◌, refl, sym, subst, ◌∙◌, true, false, Bool-cases, ◌⊎◌, inl, inr, none, some, Result,
  Result-cases, ok, err,
}
use xscope.Prelude.Text.{Text, text_eq}
use xscope.Billing.Types.{
  ServiceError, Account, ReserveRequest, Reservation, ReservationState, reserved, dispatched,
  settled, released, waived, Db,
}
use xscope.Billing.Store.{Tx, find_reservation}
use xscope.Billing.Reserve.{malformed, reserve_money}
use xscope.Billing.Lifecycle.{release_money}
use xscope.Billing.Consistent.{find_account}
use xscope.Gateway.Admission.{
  Wire, request_lost, response_lost, intact, status_of, call, attests_no_hold, is_reserved,
  not_dispatched, confirm_released, release_reserved, recover_reserved, recover_request,
}
use xscope.Gateway.Admission.Stored.{
  Stored, reserve_money-Stored, reserve_money-attests, release_money-Stored,
}

-- An answered call ran its transaction.
pub call_inv :
    (wire : Wire) (m : Tx Reservation) (row : Reservation) (db db' : Db)
    → call wire m db ≡ (ok row, db')
    → m db ≡ ok (row, db')
call_inv request_lost m row db db' h = cc
call_inv response_lost m row db db' h = cc
call_inv intact m row db db' h = elim (Result-cases (m db)) [
  | inl (why, e) ↦ let clash = rw e at h in cc
  | inr ((row', x), e) ↦ let same = rw e at h in e ∙ cc
]

-- A refused call left the state as it was, or it was lost on the wire.
call_err_inv :
    (wire : Wire) (m : Tx Reservation) (status : ℕ) (db db' : Db)
    → call wire m db ≡ (err status, db')
    → (status ≡ 503)
      ⊎ ((why : ServiceError) × (m db ≡ err why) × (status ≡ status_of why) × (db' ≡ db))
call_err_inv request_lost m status db db' h = inl (cc)
call_err_inv response_lost m status db db' h = inl (cc)
call_err_inv intact m status db db' h = elim (Result-cases (m db)) [
  | inl (why, e) ↦ let same = rw e at h in inr (why, e, cc, cc)
  | inr ((row', x), e) ↦ let clash = rw e at h in cc
]

-- No reservation with the ID is reserved any more: there is none, or it went on to another state.
abbrev pub HasNoOpenHold : Text → Db → Type 0
HasNoOpenHold id db =
    (find_reservation id db.reservations ≡ none)
    ⊎ ((row : Reservation) × Stored id row db × (is_reserved row.state ≡ false))

pub pair_inv :
    {A : Type 0} {a b : A} {x y : Db} → ◌≡◌ {A = A × Db} (a, x) (b, y) → (a ≡ b) × (x ≡ y)
pair_inv h = (cc, cc)

confirmed :
    (r : ReserveRequest) (wire : Wire) (db db' : Db) (answer : Result ℕ Reservation) (x : Db)
    → call wire (release_money r.project_id r.id not_dispatched) db ≡ (answer, x)
    → confirm_released (answer, x) ≡ (ok tt, db')
    → HasNoOpenHold r.id db'
confirmed r wire db db' (err status) x e h = cc
confirmed r wire db db' (ok row) x e h =
    let done = call_inv wire (release_money r.project_id r.id not_dispatched) row db x e in
    let (stored, state) = release_money-Stored r.project_id r.id row db x done in
    let (_, same) = pair_inv h in inr (row, subst (Stored r.id row) same stored, rw state refl)

release_reserved-HasNoOpenHold :
    (r : ReserveRequest) (wire : Wire) (row : Reservation) (s : ReservationState) (db db' : Db)
    → row.state ≡ s
    → Stored r.id row db
    → release_reserved wire r row s db ≡ (ok tt, db')
    → HasNoOpenHold r.id db'
release_reserved-HasNoOpenHold r wire row reserved db db' st stored h =
    let sent = call wire (release_money r.project_id r.id not_dispatched) db in
    confirmed r wire db db' sent.0 sent.1 refl h
release_reserved-HasNoOpenHold r wire row dispatched db db' st stored h =
    inr (row, subst (Stored r.id row) (pair_inv h).1 stored, rw st refl)
release_reserved-HasNoOpenHold r wire row settled db db' st stored h =
    inr (row, subst (Stored r.id row) (pair_inv h).1 stored, rw st refl)
release_reserved-HasNoOpenHold r wire row released db db' st stored h =
    inr (row, subst (Stored r.id row) (pair_inv h).1 stored, rw st refl)
release_reserved-HasNoOpenHold r wire row waived db db' st stored h =
    inr (row, subst (Stored r.id row) (pair_inv h).1 stored, rw st refl)

recover_reserved-HasNoOpenHold :
    (month_of : ℕ → ℕ) (now : ℕ) (first second : Wire) (r : ReserveRequest) (a : Account)
    (db db' : Db) (answer : Result ℕ Reservation) (x : Db)
    → malformed r ≡ false
    → find_account r.project_id db.accounts ≡ some a
    → text_eq a.tenant_id r.tenant_id ≡ true
    → call first (reserve_money month_of now r) db ≡ (answer, x)
    → recover_reserved second r (answer, x) ≡ (ok tt, db')
    → HasNoOpenHold r.id db'
recover_reserved-HasNoOpenHold month_of now first second r a db db' (ok row) x sound found tenant e
      h =
    let stored =
      reserve_money-Stored month_of now r row db x
        (call_inv first (reserve_money month_of now r) row db x e) in
    release_reserved-HasNoOpenHold r second row row.state x db' refl stored h
recover_reserved-HasNoOpenHold month_of now first second r a db db' (err status) x sound found
      tenant e h =
    elim (Bool-cases (attests_no_hold status)) [
      | inl q ↦ elim (call_err_inv first (reserve_money month_of now r) status db x e) [
        | inl lost ↦
            let clash : attests_no_hold 503 ≡ true = subst (λ v. attests_no_hold v ≡ true) lost q in
            cc
        | inr (why, refused, code, stays) ↦
            let none_there =
              reserve_money-attests month_of now r a why db sound found tenant
                (subst (λ v. attests_no_hold v ≡ true) code q) refused in
            let (_, same) = pair_inv (rw q at h) in
            inl (
              subst (λ (d : Db). find_reservation r.id d.reservations ≡ none) (sym stays ∙ same)
                none_there)
      ]
      | inr q ↦ let clash = rw q at h in cc
    ]

-- A recovery that answers a success leaves no open hold, whatever was lost on the wire before: for a
-- well-formed request whose project has an account of its tenant, behind it there is no reservation
-- with the request's ID, or that reservation is dispatched, settled, released or waived.
pub recover_request-HasNoOpenHold :
    (month_of : ℕ → ℕ) (now : ℕ) (first second : Wire) (r : ReserveRequest) (a : Account)
    (db db' : Db)
    → malformed r ≡ false
    → find_account r.project_id db.accounts ≡ some a
    → text_eq a.tenant_id r.tenant_id ≡ true
    → recover_request month_of now first second r db ≡ (ok tt, db')
    → HasNoOpenHold r.id db'
unfolding recover_request
recover_request-HasNoOpenHold month_of now first second r a db db' sound found tenant h =
    let sent = call first (reserve_money month_of now r) db in
    recover_reserved-HasNoOpenHold month_of now first second r a db db' sent.0 sent.1 sound found
      tenant refl h
