-- ===== src/Billing/Consistent.antt =====
-- The projection invariant: what the counters hold is what the ledger, the reservations and the
-- usage say, and a reservation belongs to the account of its project.
pub mod Lifecycle
pub mod Release
pub mod Keeps
pub mod Reserve
pub mod Covered
pub mod Settle
pub mod Reachable
use xscope.Prelude.{
  ℕ, ◌≡◌, refl, sym, ap, subst, ◌∙◌, Bool, true, false, Option, none, some, List, [], ◌∷◌, arith,
  ok, if◌then◌else◌, find, All,
}
use xscope.Prelude.Int.{ℤ}
use xscope.Prelude.Text.{Text, text_eq}
use xscope.Billing.Types.{Reservation, Account, LedgerEntry, UsageEvent, Event, Job, Db}
use xscope.Billing.Projection.{booked_sum, held_sum, key_held_sum, spent_sum}
use xscope.Billing.Ledger.{append_event, append_event_inv, schedule}
use xscope.Billing.Tracks.{Tracks, Tracks-same}
use xscope.Billing.Moves.{Moved, with_tables}

abbrev pub find_account : Text → List Account → Option Account
find_account project = find (λ a. text_eq a.project_id project)

abbrev pub IsOwned : List Account → Reservation → Type 0
IsOwned accounts r =
    (a : Account) → find_account r.project_id accounts ≡ some a → r.billing_account_id ≡ a.id

-- Every stored row of the three projection tables is the sum over the ledger, the reservations or
-- the usage that it stands for, and every reservation is with the account of its project.
pub record IsConsistent (month_of : ℕ → ℕ) (db : Db) : Type 0 where
  pub tracks :
      Tracks
        (λ id. booked_sum id db.ledger)
        (λ id. held_sum id db.reservations)
        (λ key. key_held_sum key db.reservations)
        (λ key m. spent_sum month_of key m db.usage)
        db.balances
        db.holds
        db.spends
  pub owned : All (IsOwned db.accounts) db.reservations

-- The state itself, as a move that has done nothing.
pub unmoved :
    (month_of : ℕ → ℕ) (db : Db)
    → IsConsistent month_of db
    → Moved db
        (λ id. booked_sum id db.ledger)
        (λ id. held_sum id db.reservations)
        (λ key. key_held_sum key db.reservations)
        (λ key m. spent_sum month_of key m db.usage)
        db
unmoved month_of db c = (db.balances, db.holds, db.spends, refl, c.tracks)

-- A move whose counters are the sums of the new rows ends consistent.
pub settled_move :
    (month_of : ℕ → ℕ) {B H K : Text → ℤ} {S : Text → ℕ → ℤ} (db db' : Db)
    → Moved db B H K S db'
    → ((id : Text) → B id ≡ booked_sum id db.ledger)
    → ((id : Text) → H id ≡ held_sum id db.reservations)
    → ((key : Text) → K key ≡ key_held_sum key db.reservations)
    → ((key : Text) (m : ℕ) → S key m ≡ spent_sum month_of key m db.usage)
    → All (IsOwned db.accounts) db.reservations
    → IsConsistent month_of db'
settled_move month_of db db' (b, h, s, same, t) p q r u owned =
    subst (IsConsistent month_of) (sym same)
      (record { tracks = Tracks-same t p q r u; owned = owned })

-- An event changes no counter and no row that a counter is derived from.
pub append_event-IsConsistent :
    (month_of : ℕ → ℕ) (id kind aggregate : Text) (db db' : Db)
    → IsConsistent month_of db
    → append_event id kind aggregate db ≡ ok (tt, db')
    → IsConsistent month_of db'
append_event-IsConsistent month_of id kind aggregate db db' c h =
    let (s, _, e) = append_event_inv id kind aggregate db db' h in
    subst (IsConsistent month_of) (sym e)
      (unfold schedule in record { tracks = c.tracks; owned = c.owned })
