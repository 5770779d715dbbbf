-- ===== src/Worker/Progress.antt =====
-- Progress of the worker: what a busy round does to the job that it claimed.
use xscope.Prelude.{
  ℕ, ◌≡◌, refl, sym, ap, subst, ◌∙◌, ◌⊎◌, inl, inr, Bool, true, Option, some, List, Result,
  Result-cases, ok, arith,
}
use xscope.Prelude.Int.{pos, ◌≤ℤ◌, ◌+ℤ◌, parts_of_eq}
use xscope.Prelude.Text.{Text, codes}
use xscope.Billing.Types.{ServiceError, Event, Job, Db}
use xscope.Worker.Backoff.{next_attempt}
use xscope.Worker.Jobs.{
  Lease, FailRequest, ClaimAnswer, no_work, leased, claim_event_job, fail_event_job, failed_job,
  leased_job,
}
use xscope.Worker.Complete.{complete_event_job, done_job, already_done}
use xscope.Worker.Changes.{stale_inv}
use xscope.Worker.Moves.{complete_event_job_inv, fail_event_job_inv}
use xscope.Worker.Fencing.{claim_event_job-Grant}
use xscope.Worker.Rising.{upsert_own, some_injective}
use xscope.Worker.Round.{RoundInput, run_request, reported, completed, claimed, round}

-- The job went on: it acknowledged more of its events, or one more attempt is counted.
abbrev pub WentOn : Job → Job → Type 0
WentOn row row' =
    (row.acknowledged +ℤ pos 1 ≤ℤ row'.acknowledged)
    ⊎ ((row'.acknowledged ≡ row.acknowledged) × (row'.attempts ≡ next_attempt row.attempts))

-- The job of the account that the claim's query picked went on.
abbrev pub Progress : Option Text → Db → Db → Type 0
Progress pick db db' =
    (id : Text) × (row : Job) × (row' : Job) × (pick ≡ some id)
    × (db.jobs id ≡ some row)
    × (db'.jobs id ≡ some row')
    × (row'.target_sequence ≡ row.target_sequence)
    × WentOn row row'

failed_job-WentOn :
    (time : ℕ) (reason : Text) (row held : Job)
    → held.acknowledged ≡ row.acknowledged
    → held.attempts ≡ row.attempts
    → WentOn row (failed_job time reason held)
unfolding failed_job
failed_job-WentOn time reason row held p q = inr (p, ap next_attempt q)

failed_job-target :
    (time : ℕ) (reason : Text) (row : Job)
    → (failed_job time reason row).target_sequence ≡ row.target_sequence
unfolding failed_job
failed_job-target time reason row = refl

ok_busy_inv :
    {a b : Bool} {db db' : Db}
    → ◌≡◌ {A = Result ServiceError (Bool × Db)} (ok (a, db)) (ok (b, db'))
    → db ≡ db'
ok_busy_inv h = cc

-- A reported failure counts one attempt.
reported-Progress :
    (input : RoundInput) (row : Job) (lease : Lease) (db db1 db' : Db) (busy : Bool)
    → input.pick ≡ some lease.billing_account_id
    → db.jobs lease.billing_account_id ≡ some row
    → db1.jobs lease.billing_account_id ≡ some (leased_job input.claimed_at 30 lease row)
    → reported db1 (
        fail_event_job input.failed_read_at input.failed_at
          (record { lease = lease; reason = codes "handler_failed" })
          db1)
      ≡ ok (busy, db')
    → Progress input.pick db db'
reported-Progress input row lease db db1 db' busy at found held h =
    let request : FailRequest = record { lease = lease; reason = codes "handler_failed" } in
    let id = lease.billing_account_id in
    elim (Result-cases (fail_event_job input.failed_read_at input.failed_at request db1)) [
      | inl (why, e) ↦ let clash = rw e at h in cc
      | inr ((answer, db2), e) ↦
          let (old, at_old, _, w) =
            fail_event_job_inv input.failed_read_at input.failed_at request answer db1 db2 e in
          let same : leased_job input.claimed_at 30 lease row ≡ old =
            some_injective (sym held ∙ at_old) in
          let there = failed_job input.failed_at request.reason old in
          let stored : db'.jobs id ≡ some there =
            ap {A = Db} (λ d. d.jobs id) (sym (ok_busy_inv (rw e at h)) ∙ w)
            ∙ upsert_own id there db1.jobs in
          (
            id,
            row,
            there,
            at,
            found,
            stored,
            failed_job-target input.failed_at request.reason old
                ∙ ap (λ (r : Job). r.target_sequence) (sym same),
            failed_job-WentOn input.failed_at request.reason row old
                (ap (λ (r : Job). r.acknowledged) (sym same))
                (ap (λ (r : Job). r.attempts) (sym same)),
          )
    ]

not_done_yet :
    (lease : Lease) (row old : Job)
    → lease.expected_sequence ≡ row.acknowledged
    → row.acknowledged ≡ old.acknowledged
    → already_done lease old ≡ true
    → ⊥
not_done_yet lease row old p q done =
    let a = parts_of_eq lease.expected_sequence row.acknowledged p in
    let b = parts_of_eq row.acknowledged old.acknowledged q in ground arith

module _ (serialize : Event → Option (List ℕ)) (sha256 : List ℕ → Text) where
  -- From a granted row on.
  completed-Progress :
      (input : RoundInput) (row : Job) (lease : Lease) (db db1 db' : Db) (busy : Bool)
      → lease.expected_sequence ≡ row.acknowledged
      → input.pick ≡ some lease.billing_account_id
      → db.jobs lease.billing_account_id ≡ some row
      → db1.jobs lease.billing_account_id ≡ some (leased_job input.claimed_at 30 lease row)
      → completed input lease db1 (complete_event_job serialize sha256 input.completion lease db1)
        ≡ ok (busy, db')
      → Progress input.pick db db'
  completed-Progress input row lease db db1 db' busy expected at found held h =
      let id = lease.billing_account_id in
      elim (Result-cases (complete_event_job serialize sha256 input.completion lease db1)) [
        | inl (why, e) ↦ reported-Progress input row lease db db1 db' busy at found held (rw e at h)
        | inr ((answer, db2), e) ↦
            let there = ok_busy_inv (rw e at h) in
            elim (complete_event_job_inv serialize sha256 input.completion lease answer db1 db2 e) [
              | inl (old, at_old, done, _, _) ↦
                  let same = some_injective (sym held ∙ at_old) in
                  absurd (
                    not_done_yet lease row old expected (ap (λ (r : Job). r.acknowledged) same)
                      done)
              | inr c ↦
                  let same = some_injective (sym held ∙ c.found) in
                  let (_, _, _, above, _) =
                    stale_inv lease input.completion.locked_at c.row c.granted in
                  let last = done_job input.completion.fenced_at lease.through_sequence c.row in
                  let stored : db'.jobs id ≡ some last =
                    ap {A = Db} (λ d. d.jobs id) (sym there ∙ c.written)
                    ∙ upsert_own id last db1.jobs in
                  (
                    id,
                    row,
                    last,
                    at,
                    found,
                    stored,
                    ap (λ (r : Job). r.target_sequence) (sym same),
                    inl (subst (λ v. v +ℤ pos 1 ≤ℤ lease.through_sequence) expected above),
                  )
            ]
      ]

  claimed-Progress :
      (input : RoundInput) (db db1 db' : Db) (answer : ClaimAnswer)
      → claim_event_job input.claimed_at input.token input.pick run_request db ≡ ok (answer, db1)
      → claimed serialize sha256 input (ok (answer, db1)) ≡ ok (true, db')
      → Progress input.pick db db'
  claimed-Progress input db db1 db' no_work e h = cc
  claimed-Progress input db db1 db' (leased lease events) e h =
      let (row, at, found, _, expected, held) =
        claim_event_job-Grant input.claimed_at input.token input.pick run_request lease events db
          db1 e in
      completed-Progress input row lease db db1 db' true expected at found held h

  -- In a busy round, in which no other transaction comes between its own, the claim's query picked an account's job,
  -- and the round acknowledges more events of that job, or it counts one more attempt of that job and acknowledges
  -- nothing; the job's target stays.
  pub round-Progress :
      (input : RoundInput) (db db' : Db)
      → round serialize sha256 input db ≡ ok (true, db')
      → Progress input.pick db db'
  unfolding round
  round-Progress input db db' h =
      elim (Result-cases (claim_event_job input.claimed_at input.token input.pick run_request db)) [
        | inl (why, e) ↦ let clash = rw e at h in cc
        | inr ((answer, db1), e) ↦ claimed-Progress input db db1 db' answer e (rw e at h)
      ]
