-- ===== src/Worker/Acknowledged.antt =====
-- What a job acknowledges: the effects of its events, and a completion that is sent again.
use native.Mathlib.Decide.{dec_le}
use xscope.Prelude.{
  ℕ, ◌+◌, ◌≡◌, refl, sym, ap, subst, ◌∙◌, true, false, inl, inr, Option, none, some, List, ok,
  arith,
}
use xscope.Prelude.Int.{ℤ, pos, ◌≤ℤ◌, ◌+ℤ◌, int_laws, pos_part, neg_part}
use xscope.Prelude.Text.{Text}
use xscope.Domain.Catalog.{CatalogModel}
use xscope.Billing.Types.{Account, ApiKey, Event, Effect, Job, Db}
use xscope.Billing.Store.{upsert_cases}
use xscope.Billing.Ledger.{reschedule, with_event, schedule}
use xscope.Billing.Consistent.Reachable.{fresh}
use xscope.Billing.History.Writes.{IsClosed}
use xscope.Worker.Jobs.{Lease, failed_job}
use xscope.Worker.Complete.{Readings, complete_event_job, already_done, done_job}
use xscope.Worker.Completed.{HasEffect, HasEffect-right}
use xscope.Worker.Changes.{Change, fails, grants, acknowledges, revives, Move, stale_inv}
use xscope.Worker.Rising.{Turns-HasReached, upsert_own}
use xscope.Worker.Moves.{complete_event_job_inv}
use xscope.Worker.Histories.{Setting, Turns, Turns-preserve, AllRows-schedule}

-- Every acknowledged event of an account has its effect.
abbrev pub IsRecorded : Db → Type 0
IsRecorded db =
    (id : Text) (row : Job)
    → db.jobs id ≡ some row
    → (s : ℤ) → pos 1 ≤ℤ s
    → s ≤ℤ row.acknowledged
    → HasEffect id s db.effects

abbrev RecordedRow : List Effect → Text → Job → Type 0
RecordedRow effects id row = (s : ℤ) → pos 1 ≤ℤ s → s ≤ℤ row.acknowledged → HasEffect id s effects

reschedule-recorded :
    (effects : List Effect) (id : Text) (clock : ℕ) (s : ℤ) (o : Option Job)
    → ((row : Job) → o ≡ some row → RecordedRow effects id row)
    → RecordedRow effects id (reschedule clock s o)
reschedule-recorded effects id clock s none h t low high = absurd (omega int_laws)
reschedule-recorded effects id clock s (some row) h t low high = h row refl t low high

Move-IsRecorded : (db db' : Db) → Move db db' → IsRecorded db → IsRecorded db'
Move-IsRecorded db db' m p j row h s low high =
    let grown = λ (k : Text) (e : HasEffect k s db.effects).
      subst (HasEffect k s) (sym m.effects) (HasEffect-right k s m.new db.effects e) in
    elim (upsert_cases m.id j m.row' row db.jobs
      (ap (λ (t : Text → Option Job). t j) (sym m.jobs) ∙ h)) [
        | inl (same, _, e) ↦
            let reached = subst (λ (r : Job). s ≤ℤ r.acknowledged) (sym e) high in
            subst (λ k. HasEffect k s db'.effects) same
              (elim (dec_le (pos_part s + neg_part m.row.acknowledged)
                (pos_part m.row.acknowledged + neg_part s)) [
                  | yes before ↦ grown m.id (p m.id m.row m.found s low before)
                  | no after ↦ m.covers s (omega int_laws) reached
                ])
        | inr (_, e) ↦ grown j (p j row e s low high)
      ]

IsRecorded-IsClosed : IsClosed IsRecorded
unfolding schedule
IsRecorded-IsClosed = record {
  balances = λ db b p. p;
  holds = λ db h p. p;
  spends = λ db s p. p;
  reservations = λ db r p. p;
  usage = λ db u p. p;
  clock = λ db t p. p;
  postings = λ db txn a h delta counter p. p;
  events = λ db id kind aggregate s _ p.
      AllRows-schedule (RecordedRow db.effects) (with_event id kind aggregate s db) id s
        (λ o e. reschedule-recorded db.effects id db.clock s o (λ row q. p id row (e ∙ q))) p;
}

-- At the end of any history of the worker's and the protocol's transactions from a new database,
-- every event up to an account's acknowledged sequence has an effect of the worker.
pub acknowledged-recorded :
    (env : Setting) (accounts : List Account) (keys : List ApiKey)
    (catalog : Text → Option CatalogModel) (db : Db) (id : Text) (row : Job) (s : ℤ)
    → Turns env (fresh accounts keys catalog) db
    → db.jobs id ≡ some row
    → pos 1 ≤ℤ s
    → s ≤ℤ row.acknowledged
    → HasEffect id s db.effects
acknowledged-recorded env accounts keys catalog db id row s history found low high =
    Turns-preserve env IsRecorded-IsClosed Move-IsRecorded (λ id row e. cc) history id row found s
      low high

Change-acknowledged : {row row' : Job} → Change row row' → row.acknowledged ≤ℤ row'.acknowledged
unfolding failed_job
Change-acknowledged (fails time reason row _) = omega arith
Change-acknowledged (grants time seconds lease row _ _) = omega arith
Change-acknowledged (acknowledges time through row _ low _) = omega int_laws
Change-acknowledged (revives time row _) = omega arith

reschedule-acknowledged :
    (clock : ℕ) (s : ℤ) (row : Job)
    → row.acknowledged ≤ℤ (reschedule clock s (some row)).acknowledged
reschedule-acknowledged clock s row = omega arith

-- A row that has acknowledged the lease's batch answers the lease as a duplicate.
answered_again :
    (serialize : Event → Option (List ℕ)) (sha256 : List ℕ → Text) (at : Readings) (lease : Lease)
    (row : Job) (db : Db)
    → db.jobs lease.billing_account_id ≡ some row
    → lease.expected_sequence +ℤ pos 1 ≤ℤ lease.through_sequence
    → lease.through_sequence ≤ℤ row.acknowledged
    → complete_event_job serialize sha256 at lease db ≡ ok ((row.acknowledged, true), db)
unfolding complete_event_job ◌+ℤ◌
answered_again serialize sha256 at lease row db found above reached =
    let done : already_done lease row ≡ true = ground arith in rw (found, done) refl

-- A completion that acknowledged its batch, sent again behind any further history, is answered as a duplicate with
-- the sequence that the job has acknowledged by then, which is at least the first answer, and it writes nothing.
pub complete_event_job-replay :
    (env : Setting) (at at' : Readings) (lease : Lease) (sequence : ℤ) (db db' db'' : Db)
    → complete_event_job env.serialize env.sha256 at lease db ≡ ok ((sequence, false), db')
    → Turns env db' db''
    → (row : Job) × (db''.jobs lease.billing_account_id ≡ some row)
      × (sequence ≤ℤ row.acknowledged)
      × (complete_event_job env.serialize env.sha256 at' lease db''
          ≡ ok ((row.acknowledged, true), db''))
complete_event_job-replay env at at' lease sequence db db' db'' h history =
    elim (complete_event_job_inv env.serialize env.sha256 at lease (sequence, false) db db' h) [
      | inl (_, _, _, clash, _) ↦ cc
      | inr c ↦
          let id = lease.billing_account_id in
          let (_, _, _, above, _) = stale_inv lease at.locked_at c.row c.granted in
          let same : sequence ≡ lease.through_sequence = ap (λ v. v.0) c.answered in
          let last = done_job at.fenced_at lease.through_sequence c.row in
          let stored : db'.jobs id ≡ some last =
            ap {A = Db} (λ d. d.jobs id) c.written ∙ upsert_own id last db.jobs in
          let (row, found, reached) =
            Turns-HasReached (λ (r : Job). r.acknowledged) (λ old new. Change-acknowledged)
              reschedule-acknowledged env id lease.through_sequence db' db'' history
              (last, stored, omega arith) in
          (
            row,
            found,
            subst (λ v. v ≤ℤ row.acknowledged) (sym same) reached,
            answered_again env.serialize env.sha256 at' lease row db'' found above reached,
          )
    ]
