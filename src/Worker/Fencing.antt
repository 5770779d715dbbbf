-- ===== src/Worker/Fencing.antt =====
-- A lease that was superseded: the epochs of an account's leases over histories, and what its holder
-- can still do.
use xscope.Prelude.{
  ℕ, ◌≡◌, sym, ap, subst, ◌∙◌, inl, inr, Bool, true, Option, some, List, ok, arith,
}
use xscope.Prelude.Int.{ℤ, pos, ◌≤ℤ◌, ◌+ℤ◌, int_laws, parts_of_eq}
use xscope.Prelude.Text.{Text}
use xscope.Billing.Types.{Event, Job, JobState, running, pending, Db}
use xscope.Billing.Ledger.{reschedule}
use xscope.Worker.Jobs.{
  Lease, ClaimRequest, leased, leased_job, seconds_of, claim_row, claim_event_job, fail_event_job,
  failed_job,
}
use xscope.Worker.Complete.{Readings, complete_event_job}
use xscope.Worker.Changes.{Change, fails, grants, acknowledges, revives, stale_inv}
use xscope.Worker.Moves.{complete_event_job_inv, fail_event_job_inv}
use xscope.Worker.Claims.{
  claimable_state, claim_event_job_inv, claim_row_running_inv, claim_row_pending_inv,
}
use xscope.Worker.Histories.{Setting, Turns}
use xscope.Worker.Rising.{HasReached, Turns-HasReached, upsert_own, some_injective}

-- The account's job has had a lease of the epoch or a later one.
abbrev pub HasEpoch : Text → ℤ → Db → Type 0
HasEpoch = HasReached (λ (row : Job). row.lease_epoch)

Change-epoch : {row row' : Job} → Change row row' → row.lease_epoch ≤ℤ row'.lease_epoch
unfolding failed_job
Change-epoch (fails time reason row _) = omega arith
Change-epoch (grants time seconds lease row _ e) =
    let same = parts_of_eq lease.lease_epoch (row.lease_epoch +ℤ pos 1) e in omega int_laws
Change-epoch (acknowledges time through row _ _ _) = omega arith
Change-epoch (revives time row _) = omega arith

pub leased_inv : {l l' : Lease} {e e' : List Event} → leased l e ≡ leased l' e' → l ≡ l'
leased_inv h = ground arith

reschedule-epoch :
    (clock : ℕ) (s : ℤ) (row : Job) → row.lease_epoch ≤ℤ (reschedule clock s (some row)).lease_epoch
reschedule-epoch clock s row = omega arith

history-HasEpoch :
    (env : Setting) (id : Text) (epoch : ℤ) (db db' : Db)
    → Turns env db db'
    → HasEpoch id epoch db
    → HasEpoch id epoch db'
history-HasEpoch =
    Turns-HasReached (λ (row : Job). row.lease_epoch) (λ row row'. Change-epoch) reschedule-epoch

-- The pending row behind a grant, and the row that the grant left.
abbrev pub Grant : ℕ → Option Text → ClaimRequest → Db → Db → Lease → Type 0
Grant time pick request db db' lease =
    (row : Job) × (pick ≡ some lease.billing_account_id)
    × (db.jobs lease.billing_account_id ≡ some row)
    × (lease.lease_epoch ≡ row.lease_epoch +ℤ pos 1)
    × (lease.expected_sequence ≡ row.acknowledged)
    × (db'.jobs lease.billing_account_id ≡ some (leased_job time (seconds_of request) lease row))

pub claim_event_job-Grant :
    (time : ℕ) (token : Text) (pick : Option Text) (request : ClaimRequest) (lease : Lease)
    (events : List Event) (db db' : Db)
    → claim_event_job time token pick request db ≡ ok (leased lease events, db')
    → Grant time pick request db db' lease
claim_event_job-Grant time token pick request lease events db db' h =
    elim (claim_event_job_inv time token pick request (leased lease events) db db' h) [
      | inl (clash, _, _) ↦ cc
      | inr (id, row, found, ready, e, _, at) ↦
          let from = λ (s : JobState) (now : row.state ≡ s).
            subst (λ s. claim_row time token request id row s db ≡ ok (leased lease events, db'))
              now e in
          elim (claimable_state time row ready) [
            | inl now ↦
                let (clash, _) =
                  claim_row_running_inv time token request id row (leased lease events) db db'
                    (from running now) in
                cc
            | inr now ↦
                let (given, _, same, account, epoch, expected, w) =
                  claim_row_pending_inv time token request id row (leased lease events) db db'
                    (from pending now) in
                let there = leased_job time (seconds_of request) given row in
                let put : db'.jobs id ≡ some there =
                  ap {A = Db} (λ d. d.jobs id) w ∙ upsert_own id there db.jobs in
                subst (Grant time pick request db db') (sym (leased_inv same)) (
                  row,
                  subst (λ k. pick ≡ some k) (sym account) at,
                  subst (λ k. db.jobs k ≡ some row) (sym account) found,
                  epoch,
                  expected,
                  subst (λ k. db'.jobs k ≡ some there) (sym account) put,
                )
          ]
    ]

-- The row of a superseded lease is of a later epoch than the lease.
passed :
    (env : Setting) (time time' : ℕ) (token token' : Text) (pick pick' : Option Text)
    (request request' : ClaimRequest) (lease lease' : Lease) (events events' : List Event)
    (db0 db1 db2 db3 db4 : Db) (now : Job)
    → claim_event_job time token pick request db0 ≡ ok (leased lease events, db1)
    → Turns env db1 db2
    → claim_event_job time' token' pick' request' db2 ≡ ok (leased lease' events', db3)
    → lease'.billing_account_id ≡ lease.billing_account_id
    → Turns env db3 db4
    → db4.jobs lease.billing_account_id ≡ some now
    → lease.lease_epoch +ℤ pos 1 ≤ℤ now.lease_epoch
passed env time time' token token' pick pick' request request' lease lease' events events' db0 db1
      db2 db3 db4 now first history second same later found =
    let (row1, _, _, _, _, at1) =
      claim_event_job-Grant time token pick request lease events db0 db1 first in
    let start : HasEpoch lease.billing_account_id lease.lease_epoch db1 =
      (leased_job time (seconds_of request) lease row1, at1, omega arith) in
    let id = lease.billing_account_id in
    let (row, at_row, low) = history-HasEpoch env id lease.lease_epoch db1 db2 history start in
    let (row2, _, at_row2, next, _, at3) =
      claim_event_job-Grant time' token' pick' request' lease' events' db2 db3 second in
    let there : HasEpoch lease'.billing_account_id lease'.lease_epoch db3 =
      (leased_job time' (seconds_of request') lease' row2, at3, omega arith) in
    let (end, at_end, high) =
      history-HasEpoch env lease'.billing_account_id lease'.lease_epoch db3 db4 later there in
    let rows : row ≡ row2 =
      some_injective (sym at_row ∙ subst (λ k. db2.jobs k ≡ some row2) same at_row2) in
    let ends : end ≡ now =
      some_injective (sym (subst (λ k. db4.jobs k ≡ some end) same at_end) ∙ found) in
    let a = parts_of_eq row.lease_epoch row2.lease_epoch (ap (λ (r : Job). r.lease_epoch) rows) in
    let b = parts_of_eq end.lease_epoch now.lease_epoch (ap (λ (r : Job). r.lease_epoch) ends) in
    let c = parts_of_eq lease'.lease_epoch (row2.lease_epoch +ℤ pos 1) next in omega int_laws

-- Once a later claim was granted a lease on the account, a completion of the earlier lease is
-- refused, or it is answered as a duplicate and writes nothing.
pub superseded_complete :
    (env : Setting) (time time' : ℕ) (token token' : Text) (pick pick' : Option Text)
    (request request' : ClaimRequest) (lease lease' : Lease) (events events' : List Event)
    (at : Readings) (answer : ℤ × Bool) (db0 db1 db2 db3 db4 db5 : Db)
    → claim_event_job time token pick request db0 ≡ ok (leased lease events, db1)
    → Turns env db1 db2
    → claim_event_job time' token' pick' request' db2 ≡ ok (leased lease' events', db3)
    → lease'.billing_account_id ≡ lease.billing_account_id
    → Turns env db3 db4
    → complete_event_job env.serialize env.sha256 at lease db4 ≡ ok (answer, db5)
    → (answer.1 ≡ true) × (db5 ≡ db4)
superseded_complete env time time' token token' pick pick' request request' lease lease' events
      events' at answer db0 db1 db2 db3 db4 db5 first history second same later h =
    elim (complete_event_job_inv env.serialize env.sha256 at lease answer db4 db5 h) [
      | inl (_, _, _, duplicate, stays) ↦ (duplicate, stays)
      | inr c ↦
          let (_, epoch, _, _, _) = stale_inv lease at.locked_at c.row c.granted in
          let e = parts_of_eq c.row.lease_epoch lease.lease_epoch epoch in
          let up =
            passed env time time' token token' pick pick' request request' lease lease' events
              events' db0 db1 db2 db3 db4 c.row first history second same later c.found in
          absurd (omega int_laws)
    ]

-- Once a later claim was granted a lease on the account, a failure reported with the earlier lease
-- is refused.
pub superseded_fail :
    (env : Setting) (time time' : ℕ) (token token' : Text) (pick pick' : Option Text)
    (request request' : ClaimRequest) (lease lease' : Lease) (events events' : List Event)
    (read_at written_at : ℕ) (reason : Text) (answer : JobState × ℕ × ℤ)
    (db0 db1 db2 db3 db4 db5 : Db)
    → claim_event_job time token pick request db0 ≡ ok (leased lease events, db1)
    → Turns env db1 db2
    → claim_event_job time' token' pick' request' db2 ≡ ok (leased lease' events', db3)
    → lease'.billing_account_id ≡ lease.billing_account_id
    → Turns env db3 db4
    → ¬ (
        fail_event_job read_at written_at (record { lease = lease; reason = reason }) db4
        ≡ ok (answer, db5))
superseded_fail env time time' token token' pick pick' request request' lease lease' events events'
      read_at written_at reason answer db0 db1 db2 db3 db4 db5 first history second same later h =
    let (row, found, granted, _) =
      fail_event_job_inv read_at written_at (record { lease = lease; reason = reason }) answer db4
        db5 h in
    let (_, epoch, _, _, _) = stale_inv lease read_at row granted in
    let e = parts_of_eq row.lease_epoch lease.lease_epoch epoch in
    let up =
      passed env time time' token token' pick pick' request request' lease lease' events events' db0
        db1 db2 db3 db4 row first history second same later found in
    omega int_laws
