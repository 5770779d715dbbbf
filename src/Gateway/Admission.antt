-- ===== src/Gateway/Admission.antt =====
-- rust/crates/gateway/src/billing.rs: the admission of a request, which reserves and dispatches money
-- at the control plane, and the recovery of one whose outcome is not known. The control plane is
-- the model of Billing; no other transaction comes between the two calls of one operation.
pub mod Stored
pub mod Recovery
pub mod Once
use xscope.Prelude.{ℕ, Bool, true, false, not, ◌||◌, if◌then◌else◌, Result, ok, err, ◌==◌}
use xscope.Prelude.Text.{Text, codes}
use xscope.Billing.Types.{
  ServiceError, not_found, forbidden, database, invalid, conflict, insufficient_funds, internal,
  ReserveRequest, ReleaseRequest, Reservation, ReservationState, reserved, dispatched, settled,
  released, waived, Db,
}
use xscope.Billing.Store.{Tx}
use xscope.Billing.Reserve.{reserve_money}
use xscope.Billing.Lifecycle.{dispatch_money, release_money}

-- The status of an error's response, in rust/crates/control-plane/src/error.rs
abbrev pub status_of : ServiceError → ℕ
status_of not_found = 404
status_of forbidden = 403
status_of database = 503
status_of (invalid _) = 400
status_of (conflict _) = 409
status_of (insufficient_funds _) = 402
status_of (internal _) = 500

-- What happens to a call on the wire.
pub data Wire : Type 0 where
  request_lost response_lost intact : Wire

-- The state behind a transaction: its own, or the old one where it was refused.
abbrev pub after : {A : Type 0} → Result ServiceError (A × Db) → Db → Db
after (ok (_, db')) db = db'
after (err _) db = db

abbrev pub response : {A : Type 0} → Result ServiceError (A × Db) → Result ℕ A
response (ok (a, _)) = ok a
response (err e) = err (status_of e)

-- `send()`, with `decode`
abbrev pub call : {A : Type 0} → Wire → Tx A → Db → Result ℕ A × Db
call request_lost m db = (err 503, db)
call response_lost m db = (err 503, after (m db) db)
call intact m db = (response (m db), after (m db) db)

pub data Decision : Type 0 where
  go_ahead : Decision
  rejected uncertain : ℕ → Decision

-- A response that attests that there is no hold.
abbrev pub attests_no_hold : ℕ → Bool
attests_no_hold status =
    status == 400 || status == 402 || status == 403 || status == 404 || status == 422

abbrev pub is_reserved : ReservationState → Bool
is_reserved reserved = true
is_reserved _ = false

abbrev pub is_dispatched : ReservationState → Bool
is_dispatched dispatched = true
is_dispatched _ = false

abbrev pub is_released : ReservationState → Bool
is_released released = true
is_released _ = false

abbrev pub decide : Result ℕ Reservation × Db → Decision × Db
decide (ok row, db) = (if is_dispatched row.state then go_ahead else uncertain 503, db)
decide (err _, db) = (uncertain 503, db)

-- `abandoned` is the test, between the calls, that nobody waits for the decision any more.
abbrev pub dispatch_reserved :
    Wire → Bool → ReserveRequest → Result ℕ Reservation × Db → Decision × Db
dispatch_reserved wire abandoned r (err status, db) =
    (if attests_no_hold status then rejected status else uncertain status, db)
dispatch_reserved wire abandoned r (ok row, db) =
    if not (is_reserved row.state) || abandoned
    then (uncertain 503, db)
    else decide (call wire (dispatch_money r.project_id r.id) db)

-- `Protocol::admit`
unfoldable pub admit_request :
    (ℕ → ℕ) → ℕ → Wire → Wire → Bool → ReserveRequest → Db → Decision × Db
admit_request month_of now first second abandoned r db =
    dispatch_reserved second abandoned r (call first (reserve_money month_of now r) db)

abbrev pub not_dispatched : ReleaseRequest
not_dispatched = record { reason = codes "not_dispatched" }

abbrev pub confirm_released : Result ℕ Reservation × Db → Result ℕ (Unit {0}) × Db
confirm_released (err status, db) = (err status, db)
confirm_released (ok row, db) = (if is_released row.state then ok tt else err 503, db)

abbrev pub release_reserved :
    Wire → ReserveRequest → Reservation → ReservationState → Db → Result ℕ (Unit {0}) × Db
release_reserved wire r row reserved db =
    confirm_released (call wire (release_money r.project_id r.id not_dispatched) db)
release_reserved wire r row _ db = (ok tt, db)

abbrev pub recover_reserved :
    Wire → ReserveRequest → Result ℕ Reservation × Db → Result ℕ (Unit {0}) × Db
recover_reserved wire r (ok row, db) = release_reserved wire r row row.state db
recover_reserved wire r (err status, db) =
    (if attests_no_hold status then ok tt else err status, db)

-- `Protocol::recover`
unfoldable pub recover_request :
    (ℕ → ℕ) → ℕ → Wire → Wire → ReserveRequest → Db → Result ℕ (Unit {0}) × Db
recover_request month_of now first second r db =
    recover_reserved second r (call first (reserve_money month_of now r) db)
