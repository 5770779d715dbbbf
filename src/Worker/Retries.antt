-- ===== src/Worker/Retries.antt =====
-- The attempts of a job and its failures, over histories.
use xscope.Prelude.{
  sym, ap, subst, ◌↔◌, if◌then◌else◌, ℕ, ◌+◌, ◌≤◌, ◌≡◌, refl, ◌⊎◌, inl, inr, Bool, false, not, ◌&&◌,
  Option, some, List, arith, ok,
}
use xscope.Prelude.Int.{ℤ, pos}
use xscope.Prelude.Text.{Text, codes, text_eq}
use xscope.Domain.Catalog.{CatalogModel}
use xscope.Billing.Types.{Account, ApiKey, Job, JobState, pending, running, dead, Db}
use xscope.Billing.Consistent.Reachable.{fresh}
use xscope.Billing.History.Lifecycle.{Step-preserves}
use xscope.Worker.Jobs.{
  Lease, FailRequest, ClaimRequest, ClaimAnswer, is_dead, picked, failed_job, leased_job,
  seconds_of, retried_job, claim_row, claim_event_job, fail_event_job,
}
use xscope.Worker.Complete.{Readings, done_job, complete_event_job}
use xscope.Worker.Changes.{stale_inv}
use xscope.Worker.Moves.{complete_event_job_inv, fail_event_job_inv, retry_event_job_inv}
use xscope.Worker.Claims.{
  claimable_state, claim_event_job_inv, claim_row_running_inv, claim_row_pending_inv,
}
use xscope.Worker.Histories.{
  Setting, Turn, bills, claims, completes, reports_failure, retries, Turns, halt, turn,
}
use xscope.Worker.Failures.{
  locked_running, failures_behind, failures, Tallied, IsTallied, failed_job-IsCounted,
  leased_job-IsCounted, done_job-IsCounted, retried_job-IsCounted, either, put-Tallied,
  Tallied-IsClosed,
}

claim-Tallied :
    (time : ℕ) (token : Text) (pick : Option Text) (request : ClaimRequest) (answer : ClaimAnswer)
    (id : Text) (n : ℕ) (db db' : Db)
    → claim_event_job time token pick request db ≡ ok (answer, db')
    → Tallied id n db
    → Tallied id (if locked_running id (picked time pick db) then n + 1 else n) db'
claim-Tallied time token pick request answer id n db db' h p =
    elim (claim_event_job_inv time token pick request answer db db' h) [
      | inl (_, stays, nothing) ↦ rw nothing (subst (Tallied id n) (sym stays) p)
      | inr (j, row, found, ready, e, at, _) ↦
          let from = λ (s : JobState) (now : row.state ≡ s).
            subst (λ s. claim_row time token request j row s db ≡ ok (answer, db')) now e in
          elim (claimable_state time row ready) [
            | inl now ↦
                let (_, w) =
                  claim_row_running_inv time token request j row answer db db' (from running now) in
                let failed = failed_job time (codes "worker_crashed") row in
                let done =
                  put-Tallied id j row failed n (n + 1) db db' found
                    (failed_job-IsCounted time (codes "worker_crashed") row n now)
                    (ap {A = Db} (λ d. d.jobs) w) p in
                rw (at, now) done
            | inr now ↦
                let (lease, _, _, _, _, _, w) =
                  claim_row_pending_inv time token request j row answer db db' (from pending now) in
                let there = leased_job time (seconds_of request) lease row in
                let done =
                  put-Tallied id j row there n n db db' found
                    (leased_job-IsCounted time (seconds_of request) lease row n now)
                    (ap {A = Db} (λ d. d.jobs) w) p in
                rw (at, now) (subst (λ v. Tallied id v db') (either (text_eq j id) n) done)
          ]
    ]

module _ (env : Setting) where
  complete-Tallied :
      (at : Readings) (lease : Lease) (answer : ℤ × Bool) (id : Text) (n : ℕ) (db db' : Db)
      → complete_event_job env.serialize env.sha256 at lease db ≡ ok (answer, db')
      → Tallied id n db
      → Tallied id (if not answer.1 && text_eq lease.billing_account_id id then 0 else n) db'
  complete-Tallied at lease answer id n db db' h p =
      elim (complete_event_job_inv env.serialize env.sha256 at lease answer db db' h) [
        | inl (_, _, _, again, stays) ↦ rw again (subst (Tallied id n) (sym stays) p)
        | inr c ↦
            let done =
              put-Tallied id lease.billing_account_id c.row
                (done_job at.fenced_at lease.through_sequence c.row) n 0 db db' c.found
                (λ _. done_job-IsCounted at.fenced_at lease.through_sequence c.row)
                (ap {A = Db} (λ d. d.jobs) c.written) p in
            let first : answer.1 ≡ false = ap (λ v. v.1) c.answered in rw first done
      ]

  fail-Tallied :
      (read_at written_at : ℕ) (request : FailRequest) (answer : JobState × ℕ × ℤ) (id : Text)
      (n : ℕ) (db db' : Db)
      → fail_event_job read_at written_at request db ≡ ok (answer, db')
      → Tallied id n db
      → Tallied id (if text_eq request.lease.billing_account_id id then n + 1 else n) db'
  fail-Tallied read_at written_at request answer id n db db' h p =
      let (row, found, granted, e) =
        fail_event_job_inv read_at written_at request answer db db' h in
      let (busy, _, _, _, _) = stale_inv request.lease read_at row granted in
      put-Tallied id request.lease.billing_account_id row (failed_job written_at request.reason row)
        n (n + 1) db db' found (failed_job-IsCounted written_at request.reason row n busy)
        (ap {A = Db} (λ d. d.jobs) e) p

  Turn-Tallied :
      {db db' : Db} (id : Text) (n : ℕ) (t : Turn env db db')
      → Tallied id n db
      → Tallied id (failures_behind id t n) db'
  Turn-Tallied id n (bills db db' s) p = Step-preserves (Tallied-IsClosed id n) p s
  Turn-Tallied id n (claims time token pick request answer db db' h) p =
      claim-Tallied time token pick request answer id n db db' h p
  Turn-Tallied id n (completes at lease answer db db' h) p =
      complete-Tallied at lease answer id n db db' h p
  Turn-Tallied id n (reports_failure read_at written_at request answer db db' h) p =
      fail-Tallied read_at written_at request answer id n db db' h p
  Turn-Tallied id n (retries time audit_id account actor reason db db' h) p =
      let (row, found, _, e, _, _) =
        retry_event_job_inv time audit_id account actor reason db db' h in
      put-Tallied id account row (retried_job time row) n 0 db db' found
        (λ _. retried_job-IsCounted time row) e p

  Turns-Tallied :
      {db db' : Db} (id : Text) (n : ℕ) (ts : Turns env db db')
      → Tallied id n db
      → Tallied id (failures id ts n) db'
  Turns-Tallied id n halt p = p
  Turns-Tallied id n (turn t ts) p =
      Turns-Tallied id (failures_behind id t n) ts (Turn-Tallied id n t p)

dead_iff :
    (s : JobState) (n : ℕ)
    → ((s ≡ dead) × (n ≡ 8)) ⊎ ((is_dead s ≡ false) × (n ≤ 7))
    → (n ≤ 8) × ((s ≡ dead) ↔ (n ≡ 8))
dead_iff s n (inl (d, e)) = (rw e (omega arith), ((λ _. e), λ _. d))
dead_iff s n (inr (a, few)) =
    (omega arith, ((λ d. let clash = rw d at a in cc), λ e. absurd (omega arith)))

-- At the end of any history of the worker's and the protocol's transactions from a new database, the attempts of an
-- account's job are its failures since its last acknowledged batch or retry by an operator, counted from the history:
-- the failures that were reported and the leases that a claim found run out. They are at most eight, and the job is
-- dead exactly at eight.
pub attempts-failures :
    (env : Setting) (accounts : List Account) (keys : List ApiKey)
    (catalog : Text → Option CatalogModel) (db : Db) (id : Text) (row : Job)
    (history : Turns env (fresh accounts keys catalog) db)
    → db.jobs id ≡ some row
    → (row.attempts ≡ pos (failures id history 0))
      × (failures id history 0 ≤ 8)
      × ((row.state ≡ dead) ↔ (failures id history 0 ≡ 8))
attempts-failures env accounts keys catalog db id row history found =
    let (e, b) =
      subst (λ (o : Option Job). IsTallied o (failures id history 0)) found
        (Turns-Tallied env id 0 history refl) in
    let (few, last) = dead_iff row.state (failures id history 0) b in (e, few, last)
