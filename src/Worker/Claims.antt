-- ===== src/Worker/Claims.antt =====
-- The claim of a job: the row that it locks, and what it makes of it.
use xscope.Prelude.{
  ℕ, ◌≡◌, refl, sym, ap, subst, ◌⊎◌, inl, inr, true, Bool-cases, Option, none, some, List, ok,
  arith, Option-cases, ◌||◌,
}
use xscope.Prelude.Int.{pos, ◌+ℤ◌, checked_add, checked_add-some}
use xscope.Prelude.Text.{Text, codes}
use xscope.Billing.Types.{
  invalid, conflict, invalid_batch, no_source_events, epoch_exhausted, Event, Job, JobState, idle,
  pending, running, dead, Db,
}
use xscope.Billing.Store.{bind-some_or-eq-ok, bind-fail_if-eq-ok, ok_inv}
use xscope.Worker.Batch.{batch}
use xscope.Worker.Jobs.{
  Lease, ClaimRequest, ClaimAnswer, no_work, leased, put_job, is_running, is_pending, claimable,
  picked, failed_job, last_event, leased_job, seconds_of, claim_row, bad_claim, claim_event_job,
}
use xscope.Worker.Changes.{fails, grants, Move}
use xscope.Worker.Moves.{Settled, put_job-Move, failed_job-acknowledged}

-- A claimed row is one that the filter lets through.
picked_inv :
    (time : ℕ) (pick : Option Text) (id : Text) (row : Job) (db : Db)
    → picked time pick db ≡ some (id, row)
    → (db.jobs id ≡ some row) × (claimable time row ≡ true) × (pick ≡ some id)
picked_inv time none id row db h = cc
picked_inv time (some j) id row db h = elim (Option-cases (db.jobs j)) [
  | inl e ↦ let clash = rw e at h in cc
  | inr (old, e) ↦ elim (Bool-cases (claimable time old)) [
    | inl t ↦
        let same = rw (e, t) at h in
        let pair : ◌≡◌ {A = Text × Job} (j, old) (id, row) = ground arith in
        (
          subst {A = Text × Job} (λ v. db.jobs v.0 ≡ some v.1) pair e,
          subst {A = Text × Job} (λ v. claimable time v.1 ≡ true) pair t,
          ap {A = Text × Job} (λ v. some v.0) pair,
        )
    | inr t ↦ let clash = rw (e, t) at h in cc
  ]
]

pub claim_row_running_inv :
    (time : ℕ) (token : Text) (request : ClaimRequest) (id : Text) (row : Job)
    (answer : ClaimAnswer) (db db' : Db)
    → claim_row time token request id row running db ≡ ok (answer, db')
    → (answer ≡ no_work) × (db' ≡ put_job id (failed_job time (codes "worker_crashed") row) db)
unfolding claim_row
claim_row_running_inv time token request id row answer db db' h =
    let crashed = failed_job time (codes "worker_crashed") row in
    let (p, q) = ok_inv no_work answer (put_job id crashed db) db' h in (sym p, sym q)

claim_row_running-Move :
    (time : ℕ) (token : Text) (request : ClaimRequest) (id : Text) (row : Job)
    (answer : ClaimAnswer) (db db' : Db)
    → db.jobs id ≡ some row
    → row.state ≡ running
    → claim_row time token request id row running db ≡ ok (answer, db')
    → Move db db'
claim_row_running-Move time token request id row answer db db' found now h =
    let (_, e) = claim_row_running_inv time token request id row answer db db' h in
    put_job-Move id row (failed_job time (codes "worker_crashed") row) db db' found
      (fails time (codes "worker_crashed") row now)
      (failed_job-acknowledged time (codes "worker_crashed") row) e

-- A grant: the lease that the answer carries is the one that the row holds.
pub claim_row_pending_inv :
    (time : ℕ) (token : Text) (request : ClaimRequest) (id : Text) (row : Job)
    (answer : ClaimAnswer) (db db' : Db)
    → claim_row time token request id row pending db ≡ ok (answer, db')
    → (lease : Lease) × (events : List Event) × (answer ≡ leased lease events)
      × (lease.billing_account_id ≡ id)
      × (lease.lease_epoch ≡ row.lease_epoch +ℤ pos 1)
      × (lease.expected_sequence ≡ row.acknowledged)
      × (db' ≡ put_job id (leased_job time (seconds_of request) lease row) db)
unfolding claim_row
claim_row_pending_inv time token request id row answer db db' h =
    let events = batch id row.acknowledged row.target_sequence request.limit db.events in
    let (last, _, h1) = bind-some_or-eq-ok (last_event events) (conflict no_source_events) _ db h in
    let (epoch, e, h2) =
      bind-some_or-eq-ok (checked_add row.lease_epoch (pos 1)) (invalid epoch_exhausted) _ db h1 in
    let lease : Lease = record {
      billing_account_id = id;
      lease_epoch = epoch;
      lease_token = token;
      expected_sequence = row.acknowledged;
      through_sequence = last.sequence;
    } in
    let (p, q) =
      ok_inv (leased lease events) answer
        (put_job id (leased_job time (seconds_of request) lease row) db) db' h2 in
    (lease, events, sym p, refl, checked_add-some row.lease_epoch (pos 1) epoch e, refl, sym q)

claim_row_pending-Move :
    (time : ℕ) (token : Text) (request : ClaimRequest) (id : Text) (row : Job)
    (answer : ClaimAnswer) (db db' : Db)
    → db.jobs id ≡ some row
    → row.state ≡ pending
    → claim_row time token request id row pending db ≡ ok (answer, db')
    → Move db db'
claim_row_pending-Move time token request id row answer db db' found now h =
    let (lease, _, _, _, epoch, _, e) =
      claim_row_pending_inv time token request id row answer db db' h in
    put_job-Move id row (leased_job time (seconds_of request) lease row) db db' found
      (grants time (seconds_of request) lease row now epoch) refl e

pub claimable_state :
    (time : ℕ) (row : Job)
    → claimable time row ≡ true
    → (row.state ≡ running) ⊎ (row.state ≡ pending)
unfolding claimable
claimable_state time row h = waiting row.state (ground arith)
  where
    waiting : (s : JobState) → (is_pending s || is_running s) ≡ true → (s ≡ running) ⊎ (s ≡ pending)
    waiting running e = inl refl
    waiting pending e = inr refl
    waiting idle e = cc
    waiting dead e = cc

-- The row behind a claim, and the state that it was claimed from.
pub claim_event_job_inv :
    (time : ℕ) (token : Text) (pick : Option Text) (request : ClaimRequest) (answer : ClaimAnswer)
    (db db' : Db)
    → claim_event_job time token pick request db ≡ ok (answer, db')
    → ((answer ≡ no_work) × (db' ≡ db) × (picked time pick db ≡ none))
      ⊎ ((id : Text) × (row : Job) × (db.jobs id ≡ some row)
          × (claimable time row ≡ true)
          × (claim_row time token request id row row.state db ≡ ok (answer, db'))
          × (picked time pick db ≡ some (id, row))
          × (pick ≡ some id))
unfolding claim_event_job
claim_event_job_inv time token pick request answer db db' h =
    let (_, h1) = bind-fail_if-eq-ok (bad_claim request) (invalid invalid_batch) _ db h in
    elim (Option-cases (picked time pick db)) [
      | inl e ↦ let (p, q) = ok_inv no_work answer db db' (rw e at h1) in inl (sym p, sym q, e)
      | inr ((id, row), e) ↦
          let (found, ready, at) = picked_inv time pick id row db e in
          inr (id, row, found, ready, rw e at h1, e, at)
    ]

pub claim_event_job-Settled :
    (time : ℕ) (token : Text) (pick : Option Text) (request : ClaimRequest) (answer : ClaimAnswer)
    (db db' : Db)
    → claim_event_job time token pick request db ≡ ok (answer, db')
    → Settled db db'
claim_event_job-Settled time token pick request answer db db' h =
    elim (claim_event_job_inv time token pick request answer db db' h) [
      | inl (_, stays, _) ↦ inl stays
      | inr (id, row, found, ready, e, _, _) ↦ elim (claimable_state time row ready) [
        | inl now ↦ inr (
            claim_row_running-Move time token request id row answer db db' found now
              (subst (λ s. claim_row time token request id row s db ≡ ok (answer, db')) now e))
        | inr now ↦ inr (
            claim_row_pending-Move time token request id row answer db db' found now
              (subst (λ s. claim_row time token request id row s db ≡ ok (answer, db')) now e))
      ]
    ]
