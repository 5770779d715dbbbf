-- ===== src/Worker/Moves.antt =====
-- The transactions of the worker as moves of one row.
use xscope.Prelude.{
  ℕ, ◌≡◌, refl, sym, ap, subst, ◌∙◌, ◌⊎◌, inl, inr, Bool, true, false, not, Bool-cases, Option,
  some, List, [], ok, arith, ◌||◌, ltb, length,
}
use xscope.Prelude.Int.{ℤ, pos, ◌≤ℤ◌, ◌+ℤ◌}
use xscope.Prelude.Text.{Text, text_mem, is_blank}
use xscope.Billing.Types.{
  not_found, invalid, conflict, stale_lease, invalid_failure_code, unbounded_retry_reason,
  only_dead_retried, Event, Job, JobState, dead, Db,
}
use xscope.Billing.Store.{upsert, bind-eq-ok, bind-some_or-eq-ok, bind-fail_if-eq-ok, ok_inv}
use xscope.Worker.Backoff.{backoff}
use xscope.Worker.Jobs.{
  Lease, FailRequest, put_job, is_dead, stale, locked, failed_job, failure_codes, fail_event_job,
  retried_job, retry_event_job,
}
use xscope.Worker.Complete.{Readings, done_job, already_done, complete_locked, complete_event_job}
use xscope.Worker.Completed.{HasEffect, Completed, complete_locked-Completed}
use xscope.Worker.Changes.{
  Change, fails, acknowledges, revives, Move, is_dead_inv, stale_inv, nothing_new,
}

abbrev pub Settled : Db → Db → Type 0
Settled db db' = (db' ≡ db) ⊎ Move db db'

pub put_job-Move :
    (id : Text) (row row' : Job) (db db' : Db)
    → db.jobs id ≡ some row
    → Change row row'
    → row'.acknowledged ≡ row.acknowledged
    → db' ≡ put_job id row' db
    → Move db db'
put_job-Move id row row' db db' found change same e = record {
  id = id;
  row = row;
  row' = row';
  new = [];
  found = found;
  change = change;
  jobs = ap {A = Db} (λ d. d.jobs) e;
  effects = ap {A = Db} (λ d. d.effects) e;
  events = ap {A = Db} (λ d. d.events) e;
  covers = λ s low high.
      nothing_new id row.acknowledged s db'.effects low (subst (λ v. s ≤ℤ v) same high);
}

pub failed_job-acknowledged :
    (time : ℕ) (reason : Text) (row : Job)
    → (failed_job time reason row).acknowledged ≡ row.acknowledged
unfolding failed_job
failed_job-acknowledged time reason row = refl

locked_inv :
    (time : ℕ) (lease : Lease) (row : Job) (db db' : Db)
    → locked time lease db ≡ ok (row, db')
    → (db.jobs lease.billing_account_id ≡ some row) × (stale lease time row ≡ false) × (db' ≡ db)
unfolding locked
locked_inv time lease row db db' h =
    let (found, e, h1) = bind-some_or-eq-ok (db.jobs lease.billing_account_id) not_found _ db h in
    let (t, h2) = bind-fail_if-eq-ok (stale lease time found) (conflict stale_lease) _ db h1 in
    let (p, q) = ok_inv found row db db' h2 in
    (e ∙ ap some p, subst (λ r. stale lease time r ≡ false) p t, sym q)

pub fail_event_job_inv :
    (read_at written_at : ℕ) (request : FailRequest) (answer : JobState × ℕ × ℤ) (db db' : Db)
    → fail_event_job read_at written_at request db ≡ ok (answer, db')
    → (row : Job) × (db.jobs request.lease.billing_account_id ≡ some row)
      × (stale request.lease read_at row ≡ false)
      × (db'
          ≡ put_job request.lease.billing_account_id (failed_job written_at request.reason row) db)
unfolding fail_event_job
fail_event_job_inv read_at written_at request answer db db' h =
    let (_, h1) =
      bind-fail_if-eq-ok (not (text_mem request.reason failure_codes))
        (invalid invalid_failure_code) _ db h in
    let (row, x, e, h2) = bind-eq-ok (locked read_at request.lease) _ db h1 in
    let (found, granted, stays) = locked_inv read_at request.lease row db x e in
    let failed = failed_job written_at request.reason row in
    let (_, q) =
      ok_inv (failed.state, backoff failed.attempts, failed.attempts) answer
        (put_job request.lease.billing_account_id failed x) db' h2 in
    (
      row,
      found,
      granted,
      sym q ∙ ap {A = Db} (λ d. put_job request.lease.billing_account_id failed d) stays,
    )

pub fail_event_job-Move :
    (read_at written_at : ℕ) (request : FailRequest) (answer : JobState × ℕ × ℤ) (db db' : Db)
    → fail_event_job read_at written_at request db ≡ ok (answer, db')
    → Move db db'
fail_event_job-Move read_at written_at request answer db db' h =
    let (row, found, granted, e) = fail_event_job_inv read_at written_at request answer db db' h in
    let (busy, _, _, _, _) = stale_inv request.lease read_at row granted in
    put_job-Move request.lease.billing_account_id row (failed_job written_at request.reason row) db
      db' found (fails written_at request.reason row busy)
      (failed_job-acknowledged written_at request.reason row) e

pub retry_event_job_inv :
    (time : ℕ) (audit_id account actor reason : Text) (db db' : Db)
    → retry_event_job time audit_id account actor reason db ≡ ok (tt, db')
    → (row : Job) × (db.jobs account ≡ some row)
      × (row.state ≡ dead)
      × (db'.jobs ≡ upsert account (retried_job time row) db.jobs)
      × (db'.effects ≡ db.effects)
      × (db'.events ≡ db.events)
unfolding retry_event_job
retry_event_job_inv time audit_id account actor reason db db' h =
    let (_, h1) =
      bind-fail_if-eq-ok (is_blank reason || ltb 256 (length reason))
        (invalid unbounded_retry_reason) _ db h in
    let (row, found, h2) = bind-some_or-eq-ok (db.jobs account) not_found _ db h1 in
    let (t, h3) =
      bind-fail_if-eq-ok (not (is_dead row.state)) (conflict only_dead_retried) _ db h2 in
    let (_, q) = ok_inv tt tt _ db' h3 in
    (
      row,
      found,
      is_dead_inv row.state (ground arith),
      ap (λ (d : Db). d.jobs) (sym q),
      ap (λ (d : Db). d.effects) (sym q),
      ap (λ (d : Db). d.events) (sym q),
    )

pub retry_event_job-Move :
    (time : ℕ) (audit_id account actor reason : Text) (db db' : Db)
    → retry_event_job time audit_id account actor reason db ≡ ok (tt, db')
    → Move db db'
retry_event_job-Move time audit_id account actor reason db db' h =
    let (row, found, died, jobs, effects, events) =
      retry_event_job_inv time audit_id account actor reason db db' h in
    record {
      id = account;
      row = row;
      row' = retried_job time row;
      new = [];
      found = found;
      change = revives time row died;
      jobs = jobs;
      effects = effects;
      events = events;
      covers = λ s low high. nothing_new account row.acknowledged s db'.effects low high;
    }

module _ (serialize : Event → Option (List ℕ)) (sha256 : List ℕ → Text) where
  -- A completion answers for what was acknowledged before, or acknowledges its batch.
  pub complete_event_job_inv :
      (at : Readings) (lease : Lease) (answer : ℤ × Bool) (db db' : Db)
      → complete_event_job serialize sha256 at lease db ≡ ok (answer, db')
      → ((row : Job) × (db.jobs lease.billing_account_id ≡ some row)
          × (already_done lease row ≡ true)
          × (answer.1 ≡ true)
          × (db' ≡ db))
        ⊎ Completed serialize sha256 at lease answer db db'
  unfolding complete_event_job
  complete_event_job_inv at lease answer db db' h =
      let (row, e, h1) = bind-some_or-eq-ok (db.jobs lease.billing_account_id) not_found _ db h in
      elim (Bool-cases (already_done lease row)) [
        | inl t ↦
            let (p, q) = ok_inv (row.acknowledged, true) answer db db' (rw t at h1) in
            inl (row, e, t, ap (λ v. v.1) (sym p), sym q)
        | inr t ↦
            let (held, x, l, h2) = bind-eq-ok (locked at.locked_at lease) _ db (rw t at h1) in
            let (found, granted, stays) = locked_inv at.locked_at lease held db x l in
            inr (
              complete_locked-Completed serialize sha256 at lease held answer db db' found granted (
                subst {A = Db}
                  (λ d. complete_locked serialize sha256 at lease held d ≡ ok (answer, db')) stays
                  h2))
      ]

  pub Completed-Move :
      (at : Readings) (lease : Lease) (answer : ℤ × Bool) (db db' : Db)
      → Completed serialize sha256 at lease answer db db'
      → Move db db'
  Completed-Move at lease answer db db' c =
      let (busy, _, expected, above, below) = stale_inv lease at.locked_at c.row c.granted in
      let advance = subst (λ v. v +ℤ pos 1 ≤ℤ lease.through_sequence) (sym expected) above in
      record {
        id = lease.billing_account_id;
        row = c.row;
        row' = done_job at.fenced_at lease.through_sequence c.row;
        new = c.new;
        found = c.found;
        change = acknowledges at.fenced_at lease.through_sequence c.row busy advance below;
        jobs = ap {A = Db} (λ d. d.jobs) c.written;
        effects = ap {A = Db} (λ d. d.effects) c.written;
        events = ap {A = Db} (λ d. d.events) c.written;
        covers = λ s low high.
            subst (HasEffect lease.billing_account_id s)
              (ap {A = Db} (λ d. d.effects) (sym c.written)) (c.covers s low high);
      }

  pub complete_event_job-Settled :
      (at : Readings) (lease : Lease) (answer : ℤ × Bool) (db db' : Db)
      → complete_event_job serialize sha256 at lease db ≡ ok (answer, db')
      → Settled db db'
  complete_event_job-Settled at lease answer db db' h =
      elim (complete_event_job_inv at lease answer db db' h) [
        | inl (_, _, _, _, stays) ↦ inl stays
        | inr c ↦ inr (Completed-Move at lease answer db db' c)
      ]
