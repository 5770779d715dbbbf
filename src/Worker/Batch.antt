-- ===== src/Worker/Batch.antt =====
-- The source side of rust/crates/control-plane/src/event_worker.rs: the query of a batch and what
-- `validate_event` asks of each event.
use xscope.Prelude.{
  ℕ, Bool, not, ◌&&◌, ◌||◌, List, [], ◌∷◌, if◌then◌else◌, ltb, any, find, length, retain, take,
  true,
}
use xscope.Prelude.Int.{ℤ, pos, ltb_ℤ, leb_ℤ, eq_ℤ}
use xscope.Prelude.Text.{Text, codes, text_eq}
use xscope.Billing.Types.{
  invalid, conflict, ledger_integrity, reservation_missing, reservation_account, review_missing,
  review_reservation_missing, review_account, unsupported_kind, Event, LedgerEntry,
}
use xscope.Billing.Store.{
  Tx, ◌>>=◌, pure, fail, fail_if, some_or, gets, sum_where, find_reservation,
}

-- `ORDER BY sequence ASC`
abbrev pub insert_event : Event → List Event → List Event
insert_event e [] = e ∷ []
insert_event e (x ∷ xs) =
    let rest = insert_event e xs in if leb_ℤ e.sequence x.sequence then e ∷ x ∷ xs else x ∷ rest

abbrev pub by_sequence : List Event → List Event
by_sequence [] = []
by_sequence (e ∷ es) = insert_event e (by_sequence es)

-- The account's events behind `after`, up to `through`.
abbrev pub in_batch : Text → ℤ → ℤ → Event → Bool
in_batch id after through e =
    text_eq e.billing_account_id id && ltb_ℤ after e.sequence && leb_ℤ e.sequence through

unfoldable pub batch : Text → ℤ → ℤ → ℕ → List Event → List Event
batch id after through limit events =
    take limit (by_sequence (retain (in_batch id after through) events))

-- The entries of a transaction are all of the account and sum to zero.
unfoldable pub unbalanced : Text → List LedgerEntry → Bool
unbalanced id rows =
    ltb (length rows) 2
    || ltb 100 (length rows)
    || any (λ r. not (text_eq r.billing_account_id id)) rows
    || not (eq_ℤ (sum_where (λ _. true) (λ r. r.amount_microunits) rows) (pos 0))

unfoldable pub validate_posting : Event → Tx (Unit {0})
unfolding unbalanced
validate_posting event = do
  ledger ← gets (λ db. db.ledger)
  let rows = take 101 (retain (λ r. text_eq r.transaction_id event.aggregate_id) ledger)
  fail_if (unbalanced event.billing_account_id rows) (conflict ledger_integrity)

unfoldable pub validate_reservation : Event → Tx (Unit {0})
validate_reservation event = do
  reservations ← gets (λ db. db.reservations)
  row ← some_or (find_reservation event.aggregate_id reservations) (conflict reservation_missing)
  fail_if (not (text_eq row.billing_account_id event.billing_account_id))
      (conflict reservation_account)

unfoldable pub validate_review : Event → Tx (Unit {0})
validate_review event = do
  reviews ← gets (λ db. db.reviews)
  review ← some_or (find (λ v. text_eq v.id event.aggregate_id) reviews) (conflict review_missing)
  reservations ← gets (λ db. db.reservations)
  row ←
      some_or (find_reservation review.reservation_id reservations)
        (conflict review_reservation_missing)
  fail_if (not (text_eq row.billing_account_id event.billing_account_id)) (conflict review_account)

abbrev is_one_of : Text → List Text → Bool
is_one_of kind = any (text_eq kind)

abbrev pub of_reservation : Text → Bool
of_reservation kind = is_one_of kind (
    codes "reservation.created"
    ∷ codes "reservation.dispatched"
    ∷ codes "reservation.released"
    ∷ codes "reservation.unresolved"
    ∷ codes "reservation.waived"
    ∷ codes "reservation.settled"
    ∷ [])

abbrev pub of_review : Text → Bool
of_review kind = is_one_of kind (
    codes "review.submitted"
    ∷ codes "review.settled"
    ∷ codes "review.rejected"
    ∷ codes "review.waived"
    ∷ [])

-- `validate_event(tx, event)`
unfoldable pub validate_event : Event → Tx (Unit {0})
unfolding validate_posting validate_reservation validate_review
validate_event event =
    if text_eq event.kind (codes "ledger.posted")
    then validate_posting event
    else if of_reservation event.kind
    then validate_reservation event
    else if of_review event.kind
    then validate_review event
    else if text_eq event.kind (codes "projection.rebuilt")
    then pure tt
    else fail (invalid unsupported_kind)
