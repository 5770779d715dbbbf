-- ===== src/Worker/Histories.antt =====
-- Histories in which the worker's transactions and the money protocol's interleave.
use xscope.Prelude.{ℕ, ◌≡◌, refl, sym, ap, subst, ◌∙◌, Bool, ◌⊎◌, inl, inr, Option, some, List, ok}
use xscope.Prelude.Int.{ℤ}
use xscope.Prelude.Text.{Text}
use xscope.Billing.Types.{Event, Job, JobState, Db}
use xscope.Billing.Store.{upsert_cases}
use xscope.Billing.Ledger.{schedule, reschedule}
use xscope.Billing.Consistent.Reachable.{Step}
use xscope.Billing.History.Writes.{IsClosed}
use xscope.Billing.History.Lifecycle.{Step-preserves}
use xscope.Worker.Jobs.{
  Lease, FailRequest, ClaimRequest, ClaimAnswer, claim_event_job, fail_event_job, retry_event_job,
}
use xscope.Worker.Complete.{Readings, complete_event_job}
use xscope.Worker.Changes.{Move}
use xscope.Worker.Moves.{
  Settled, complete_event_job-Settled, fail_event_job-Move, retry_event_job-Move,
}
use xscope.Worker.Claims.{claim_event_job-Settled}

-- The surroundings of a history: the months of instants, and the encoding of events.
pub record Setting : Type 0 where
  pub month_of : ℕ → ℕ
  pub serialize : Event → Option (List ℕ)
  pub sha256 : List ℕ → Text

-- One committed transaction of the worker or of the money protocol.
pub data Turn (env : Setting) : Db → Db → Type 0 where
  bills : (db db' : Db) → Step env.month_of db db' → Turn env db db'
  claims :
      (time : ℕ) (token : Text) (pick : Option Text) (request : ClaimRequest) (answer : ClaimAnswer)
      (db db' : Db)
      → claim_event_job time token pick request db ≡ ok (answer, db')
      → Turn env db db'
  completes :
      (at : Readings) (lease : Lease) (answer : ℤ × Bool) (db db' : Db)
      → complete_event_job env.serialize env.sha256 at lease db ≡ ok (answer, db')
      → Turn env db db'
  reports_failure :
      (read_at written_at : ℕ) (request : FailRequest) (answer : JobState × ℕ × ℤ) (db db' : Db)
      → fail_event_job read_at written_at request db ≡ ok (answer, db')
      → Turn env db db'
  retries :
      (time : ℕ) (audit_id account actor reason : Text) (db db' : Db)
      → retry_event_job time audit_id account actor reason db ≡ ok (tt, db')
      → Turn env db db'

pub data Turns (env : Setting) : Db → Db → Type 0 where
  halt : {db : Db} → Turns env db db
  turn : {db db' db'' : Db} → Turn env db db' → Turns env db' db'' → Turns env db db''

Turn-cases :
    (env : Setting) {db db' : Db} → Turn env db db' → Step env.month_of db db' ⊎ Settled db db'
Turn-cases env (bills db db' s) = inl s
Turn-cases env (claims time token pick request answer db db' e) =
    inr (claim_event_job-Settled time token pick request answer db db' e)
Turn-cases env (completes at lease answer db db' e) =
    inr (complete_event_job-Settled env.serialize env.sha256 at lease answer db db' e)
Turn-cases env (reports_failure read_at written_at request answer db db' e) =
    inr (inr (fail_event_job-Move read_at written_at request answer db db' e))
Turn-cases env (retries time audit_id account actor reason db db' e) =
    inr (inr (retry_event_job-Move time audit_id account actor reason db db' e))

module _ {P : Db → Type 0} (env : Setting) (c : IsClosed P)
    (moved : (db db' : Db) → Move db db' → P db → P db') where
  settled-preserves : (db db' : Db) → Settled db db' → P db → P db'
  settled-preserves db db' (inl e) p = subst P (sym e) p
  settled-preserves db db' (inr m) p = moved db db' m p

  pub Turn-preserves : {db db' : Db} → P db → Turn env db db' → P db'
  Turn-preserves {db} {db'} p t = elim (Turn-cases env t) [
    | inl s ↦ Step-preserves c p s
    | inr s ↦ settled-preserves db db' s p
  ]

  pub Turns-preserve : {db db' : Db} → P db → Turns env db db' → P db'
  Turns-preserve p halt = p
  Turns-preserve p (turn t ts) = Turns-preserve (Turn-preserves p t) ts

-- A predicate of every job's row.
abbrev pub AllRows : (Text → Job → Type 0) → Db → Type 0
AllRows Q db = (id : Text) (row : Job) → db.jobs id ≡ some row → Q id row

-- An event that makes or moves a row.
pub AllRows-schedule :
    (Q : Text → Job → Type 0) (db : Db) (id : Text) (s : ℤ)
    → ((o : Option Job) → db.jobs id ≡ o → Q id (reschedule db.clock s o))
    → AllRows Q db
    → AllRows Q (schedule id s db)
unfolding schedule
AllRows-schedule Q db id s new all j row h =
    elim (upsert_cases id j (reschedule db.clock s (db.jobs id)) row db.jobs h) [
      | inl (same, _, e) ↦
          subst (λ r. Q j r) e
            (subst (λ k. Q k (reschedule db.clock s (db.jobs id))) same (new (db.jobs id) refl))
      | inr (_, e) ↦ all j row e
    ]

pub AllRows-Move :
    (Q : Text → Job → Type 0) (db db' : Db) (m : Move db db')
    → Q m.id m.row'
    → AllRows Q db
    → AllRows Q db'
AllRows-Move Q db db' m new all j row h =
    elim (upsert_cases m.id j m.row' row db.jobs
      (ap (λ (t : Text → Option Job). t j) (sym m.jobs) ∙ h)) [
        | inl (same, _, e) ↦ subst (λ r. Q j r) e (subst (λ k. Q k m.row') same new)
        | inr (_, e) ↦ all j row e
      ]
