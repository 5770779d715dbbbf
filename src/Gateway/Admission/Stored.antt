-- ===== src/Gateway/Admission/Stored.antt =====
-- The row behind an answered reservation, dispatch or release.
use xscope.Prelude.{
  ℕ, ◌≡◌, refl, sym, ap, subst, ◌∙◌, true, false, not, Bool-cases, inl, inr, Option, none, some,
  List, ◌∷◌, Option-cases, Result, ok, err,
}
use xscope.Prelude.Int.{ℤ, neg}
use xscope.Prelude.Text.{Text, codes, text_eq, text_eq_refl}
use xscope.Domain.Money.{Model}
use xscope.Billing.Types.{
  ServiceError, not_found, invalid, conflict, forbidden, invalid_reservation,
  bound_to_other_payload, only_not_dispatched, Account, ApiKey, ReserveRequest, Reservation,
  ReservationState, reserved, dispatched, released, Db,
}
use xscope.Billing.Store.{
  Tx, ◌>>=◌, ◌>>◌, pure, fail_if, some_or, gets, find_reservation, replace_reservation, bind-eq-ok,
  bind-fail_if-eq-ok, ok_inv,
}
use xscope.Billing.Ledger.{append_event, append_event_inv, lock_account, lock_account_inv, schedule}
use xscope.Billing.Projection.{change_hold}
use xscope.Billing.Requests.{reserve_eq}
use xscope.Billing.Reserve.{
  malformed, new_reservation, hold_and_insert, admit, existing_or_admit, reserve_money,
}
use xscope.Billing.Lifecycle.{
  dispatch_money, release_money, release_row, released_row, money_reservation,
}
use xscope.Billing.Outcomes.{dispatch_money-money_reservation, found_again}
use xscope.Billing.Consistent.{find_account}
use xscope.Billing.Consistent.Lifecycle.{located, project_reservation_inv}
use xscope.Billing.History.Writes.{IsProjectionClosed}
use xscope.Billing.History.Projections.{change_hold-Preserves}
use xscope.Gateway.Admission.{status_of, attests_no_hold, not_dispatched}

-- The answer of an action, with the state behind it.
record Yields {A : Type 0} (Q : A → Db → Type 0) (m : Tx A) : Type 0 where
  from : (db db' : Db) (a : A) → m db ≡ ok (a, db') → Q a db'

bind-Yields :
    {A B : Type 0} {Q : B → Db → Type 0} (m : Tx A) {f : A → Tx B}
    → ((a : A) → Yields Q (f a))
    → Yields Q (m >>= f)
bind-Yields m {f = f} last = record {
  from = λ db db' b h. let (a, x, _, g) = bind-eq-ok m f db h in (last a).from x db' b g;
}

-- The row that a reservation answers is the stored one.
abbrev pub Stored : Text → Reservation → Db → Type 0
Stored id row db = find_reservation id db.reservations ≡ some row

hold_and_insert-Yields :
    (account : Account) (key : ApiKey) (r : ReserveRequest) (m : Model) (amount : ℤ)
    → Yields (Stored r.id) (hold_and_insert account key r m amount)
unfolding hold_and_insert schedule
hold_and_insert-Yields account key r m amount = record {
  from = λ db db' row h.
      let new = new_reservation account r m amount in
      let (_, x, _, g) = bind-eq-ok (change_hold account.id key.id amount) _ db h in
      let y : Db = record x { reservations = new ∷ x.reservations } in
      let (_, z, e, g') =
        bind-eq-ok (append_event account.id (codes "reservation.created") r.id) _ y g in
      let (_, _, wrote) = append_event_inv account.id (codes "reservation.created") r.id y z e in
      let (same, stay) = ok_inv new row z db' g' in
      let here : find_reservation r.id (new ∷ x.reservations) ≡ some new = rw (text_eq_refl r.id) in
      ap (λ (d : Db). find_reservation r.id d.reservations) (sym stay ∙ wrote)
      ∙ here
      ∙ ap some same;
}

admit-Yields :
    (month_of : ℕ → ℕ) (now : ℕ) (account : Account) (r : ReserveRequest)
    → Yields (Stored r.id) (admit month_of now account r)
unfolding admit
admit-Yields month_of now account r = search (bind-Yields, hold_and_insert-Yields) depth 20

existing_or_admit-Stored :
    (month_of : ℕ → ℕ) (now : ℕ) (account : Account) (r : ReserveRequest) (o : Option Reservation)
    (row : Reservation) (db db' : Db)
    → find_reservation r.id db.reservations ≡ o
    → existing_or_admit month_of now account r o db ≡ ok (row, db')
    → Stored r.id row db'
existing_or_admit-Stored month_of now account r none row db db' e h =
    (admit-Yields month_of now account r).from db db' row h
existing_or_admit-Stored month_of now account r (some old) row db db' e h =
    let (_, g) =
      bind-fail_if-eq-ok (not (reserve_eq old.spec r)) (conflict bound_to_other_payload) (pure old)
        db h in
    let (same, stay) = ok_inv old row db db' g in subst (Stored r.id row) stay (e ∙ ap some same)

pub reserve_money-Stored :
    (month_of : ℕ → ℕ) (now : ℕ) (r : ReserveRequest) (row : Reservation) (db db' : Db)
    → reserve_money month_of now r db ≡ ok (row, db')
    → Stored r.id row db'
unfolding reserve_money
reserve_money-Stored month_of now r row db db' h =
    let (_, h1) = bind-fail_if-eq-ok (malformed r) (invalid invalid_reservation) _ db h in
    let (account, x, e, h2) = bind-eq-ok (lock_account r.project_id) _ db h1 in
    let (_, h3) =
      bind-fail_if-eq-ok (not (text_eq account.tenant_id r.tenant_id)) forbidden _ x h2 in
    existing_or_admit-Stored month_of now account r (find_reservation r.id x.reservations) row x db'
      refl h3

-- A stored row is what a later reservation with its ID answers, if it answers one.
pub reserve_money-again :
    (month_of : ℕ → ℕ) (now : ℕ) (r : ReserveRequest) (old row : Reservation) (db db' : Db)
    → Stored r.id old db
    → reserve_money month_of now r db ≡ ok (row, db')
    → (row ≡ old) × (db' ≡ db)
unfolding reserve_money
reserve_money-again month_of now r old row db db' stored h =
    let (_, h1) = bind-fail_if-eq-ok (malformed r) (invalid invalid_reservation) _ db h in
    let (account, x, e, h2) = bind-eq-ok (lock_account r.project_id) _ db h1 in
    let (_, here) = lock_account_inv r.project_id account db x e in
    let (_, h3) =
      bind-fail_if-eq-ok (not (text_eq account.tenant_id r.tenant_id)) forbidden _ x h2 in
    let at_x : Stored r.id old x = subst (Stored r.id old) here stored in
    let h4 = subst (λ o. existing_or_admit month_of now account r o x ≡ ok (row, db')) at_x h3 in
    let (_, g) =
      bind-fail_if-eq-ok (not (reserve_eq old.spec r)) (conflict bound_to_other_payload) (pure old)
        x h4 in
    let (same, stay) = ok_inv old row x db' g in (sym same, sym stay ∙ sym here)

pub dispatch_money-Stored :
    (project id : Text) (row : Reservation) (db db' : Db)
    → dispatch_money project id db ≡ ok (row, db')
    → Stored id row db' × (row.state ≡ dispatched)
dispatch_money-Stored project id row db db' h =
    let (read, state) = dispatch_money-money_reservation project id row db db' h in
    let (found, _, _) =
      project_reservation_inv project id row db' db' (unfold money_reservation in read) in
    (found, state)

-- A move of the holds leaves the reservations.
rows-IsProjectionClosed :
    (rows : List Reservation) → IsProjectionClosed (λ db. db.reservations ≡ rows)
rows-IsProjectionClosed rows = record {
  balances = λ db b p. p;
  holds = λ db h p. p;
  spends = λ db s p. p;
}

release_row-Stored :
    (account : Account) (row r : Reservation) (s : ReservationState) (db db' : Db)
    → row.state ≡ s
    → Stored row.id row db
    → release_row account not_dispatched row s db ≡ ok (r, db')
    → Stored row.id r db' × (r.state ≡ released)
unfolding release_row schedule
release_row-Stored account row r reserved db db' st f h =
    let new = released_row not_dispatched row in
    let (u, x, e, g) =
      bind-eq-ok (change_hold account.id row.api_key_id (neg row.reserved_microunits)) _ db h in
    let kept : x.reservations ≡ db.reservations =
      (change_hold-Preserves (rows-IsProjectionClosed db.reservations) account.id row.api_key_id
          (neg row.reserved_microunits)).after
        db x u refl e in
    let y : Db = record x { reservations = replace_reservation row.id new x.reservations } in
    let (_, z, e', g') =
      bind-eq-ok (append_event account.id (codes "reservation.released") row.id) _ y g in
    let (_, _, wrote) = append_event_inv account.id (codes "reservation.released") row.id y z e' in
    let (same, stay) = ok_inv new r z db' g' in
    (
      ap (λ (d : Db). find_reservation row.id d.reservations) (sym stay ∙ wrote)
          ∙ found_again row.id new row x.reservations (rw kept f) (text_eq_refl row.id)
          ∙ ap some same,
      ap (λ (o : Reservation). o.state) (sym same),
    )
release_row-Stored account row r released db db' st f h =
    let (same, stay) = ok_inv row r db db' h in
    (
      ap (λ (d : Db). find_reservation row.id d.reservations) (sym stay) ∙ f ∙ ap some same,
      ap (λ (o : Reservation). o.state) (sym same) ∙ st,
    )
release_row-Stored account row r _ db db' st f h = cc

pub release_money-Stored :
    (project id : Text) (row : Reservation) (db db' : Db)
    → release_money project id not_dispatched db ≡ ok (row, db')
    → Stored id row db' × (row.state ≡ released)
unfolding release_money
release_money-Stored project id row db db' h =
    let (_, h1) =
      bind-fail_if-eq-ok (not (text_eq not_dispatched.reason (codes "not_dispatched")))
        (invalid only_not_dispatched) _ db h in
    let (a, old, _, found, _, at, g) =
      located project id (λ a row. release_row a not_dispatched row row.state) row db db' h1 in
    let (stored, state) = release_row-Stored a old row old.state db db' refl found g in
    (subst (λ i. Stored i row db') at stored, state)

-- Where the request passes the guards before the search, a row with its ID decides the answer.
reserve_money-existing :
    (month_of : ℕ → ℕ) (now : ℕ) (r : ReserveRequest) (a : Account) (old : Reservation) (db : Db)
    → malformed r ≡ false
    → find_account r.project_id db.accounts ≡ some a
    → text_eq a.tenant_id r.tenant_id ≡ true
    → Stored r.id old db
    → reserve_money month_of now r db ≡ existing_or_admit month_of now a r (some old) db
unfolding reserve_money lock_account
reserve_money-existing month_of now r a old db sound found tenant stored =
    let search_row = λ (account : Account). gets (λ d. d.reservations) >>= λ rows.
    existing_or_admit month_of now account r (find_reservation r.id rows) in
    let behind_lock = λ (account : Account).
      fail_if (not (text_eq account.tenant_id r.tenant_id)) forbidden >> search_row account in
    ap
      (λ t.
        (fail_if t (invalid invalid_reservation)
            >> (lock_account r.project_id >>= λ account. behind_lock account))
          db)
      sound
    ∙ ap (λ o. (some_or o not_found >>= λ account. behind_lock account) db) found
    ∙ ap (λ t. (fail_if (not t) forbidden >> search_row a) db) tenant
    ∙ ap (λ o. existing_or_admit month_of now a r o db) stored

existing-attests :
    (month_of : ℕ → ℕ) (now : ℕ) (r : ReserveRequest) (a : Account) (old : Reservation)
    (why : ServiceError) (db : Db)
    → attests_no_hold (status_of why) ≡ true
    → existing_or_admit month_of now a r (some old) db ≡ err why
    → ⊥
existing-attests month_of now r a old why db attests h = elim (Bool-cases (reserve_eq old.spec r)) [
  | inl q ↦ let clash = rw q at h in cc
  | inr q ↦
      let same = err_inv (rw q at h) in
      let no : attests_no_hold (status_of (conflict bound_to_other_payload)) ≡ true =
        subst (λ w. attests_no_hold (status_of w) ≡ true) (sym same) attests in
      cc
]
  where
    err_inv :
        {e e' : ServiceError}
        → ◌≡◌ {A = Result ServiceError (Reservation × Db)} (err e) (err e')
        → e ≡ e'
    err_inv h = cc

-- A refusal that attests that there is no hold comes only where there is no row with the ID.
pub reserve_money-attests :
    (month_of : ℕ → ℕ) (now : ℕ) (r : ReserveRequest) (a : Account) (why : ServiceError) (db : Db)
    → malformed r ≡ false
    → find_account r.project_id db.accounts ≡ some a
    → text_eq a.tenant_id r.tenant_id ≡ true
    → attests_no_hold (status_of why) ≡ true
    → reserve_money month_of now r db ≡ err why
    → find_reservation r.id db.reservations ≡ none
reserve_money-attests month_of now r a why db sound found tenant attests h =
    elim (Option-cases (find_reservation r.id db.reservations)) [
      | inl e ↦ e
      | inr (old, e) ↦
          let same = reserve_money-existing month_of now r a old db sound found tenant e in
          absurd (existing-attests month_of now r a old why db attests (sym same ∙ h))
    ]
