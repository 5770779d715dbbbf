-- ===== src/Worker/Jobs.antt =====
-- The transactions on a job of rust/crates/control-plane/src/event_worker.rs. The clock that
-- a transaction reads is an argument for each reading, in microseconds. `pick` is the account of
-- the row that the query of a claim locks, where other transactions leave it one. The random
-- identifiers are arguments. `serialize` stands for serde_json on an event's whole row, its
-- payload included, and `sha256` for the hexadecimal digest; the row of an event is found by its
-- account and its sequence, and is never updated.
use xscope.Prelude.{
  ℕ, Bool, true, false, not, ◌&&◌, ◌||◌, ◌+◌, ◌*◌, Option, none, some, List, [], ◌∷◌, if◌then◌else◌,
  ltb, leb, length, is_none_or, is_some_and,
}
use xscope.Prelude.Int.{ℤ, pos, negsuc, ltb_ℤ, leb_ℤ, eq_ℤ, checked_add, ◌-ℤ◌, wrap_i64}
use xscope.Prelude.Text.{Text, codes, text_eq, text_mem, is_blank}
use xscope.Billing.Types.{
  not_found, invalid, conflict, invalid_batch, no_source_events, epoch_exhausted, stale_lease,
  invalid_failure_code, unbounded_retry_reason, only_dead_retried, Event, Job, JobState, pending,
  running, dead, Db,
}
use xscope.Billing.Store.{Tx, ◌>>=◌, ◌>>◌, pure, fail_if, some_or, gets, modify, upsert}
use xscope.Worker.Batch.{batch}
use xscope.Worker.Backoff.{next_attempt, backoff}

pub record ClaimRequest : Type 0 where
  pub limit : ℕ
  pub lease_seconds : ℤ

pub record Lease : Type 0 where
  pub billing_account_id : Text
  pub lease_epoch : ℤ
  pub lease_token : Text
  pub expected_sequence : ℤ
  pub through_sequence : ℤ

pub record FailRequest : Type 0 where
  pub lease : Lease
  pub reason : Text

abbrev pub after_seconds : ℕ → ℕ → ℕ
after_seconds time seconds = time + seconds * 1000000

abbrev pub put_job : Text → Job → Db → Db
put_job id job db = record db { jobs = upsert id job db.jobs }

abbrev pub is_running : JobState → Bool
is_running running = true
is_running _ = false

abbrev pub is_dead : JobState → Bool
is_dead dead = true
is_dead _ = false

abbrev pub is_pending : JobState → Bool
is_pending pending = true
is_pending _ = false

-- The lease is not, or is no longer, the one that the row grants at `time`.
unfoldable pub stale : Lease → ℕ → Job → Bool
stale lease time row =
    not (is_running row.state)
    || not (eq_ℤ row.lease_epoch lease.lease_epoch)
    || not (is_some_and row.lease_token (λ t. text_eq t lease.lease_token))
    || is_none_or row.lease_until (λ until. leb until time)
    || not (eq_ℤ row.acknowledged lease.expected_sequence)
    || leb_ℤ lease.through_sequence lease.expected_sequence
    || not (eq_ℤ row.lease_through lease.through_sequence)
    || ltb_ℤ row.target_sequence lease.through_sequence

-- `locked(tx, lease)`
unfoldable pub locked : ℕ → Lease → Tx Job
unfolding stale
locked time lease = do
  jobs ← gets (λ db. db.jobs)
  row ← some_or (jobs lease.billing_account_id) not_found
  fail_if (stale lease time row) (conflict stale_lease)
  pure row

-- `event_job_status`: the row without its lease.
pub record JobStatus : Type 0 where
  pub state : JobState
  pub acknowledged : ℤ
  pub target_sequence : ℤ
  pub backlog : ℤ
  pub attempts : ℤ
  pub last_error : Option Text
  pub available_at : ℕ

unfoldable pub event_job_status : Text → Tx JobStatus
event_job_status account = do
  jobs ← gets (λ db. db.jobs)
  row ← some_or (jobs account) not_found
  pure (record {
    state = row.state;
    acknowledged = row.acknowledged;
    target_sequence = row.target_sequence;
    backlog = wrap_i64 (row.target_sequence -ℤ row.acknowledged);
    attempts = row.attempts;
    last_error = row.last_error;
    available_at = row.available_at;
  })

-- The filter of the claim's query.
unfoldable pub claimable : ℕ → Job → Bool
claimable time row =
    ltb_ℤ row.acknowledged row.target_sequence
    && leb row.available_at time
    && (is_pending row.state
        || (is_running row.state && is_some_and row.lease_until (λ until. leb until time)))

-- The locked row, where one was picked and the filter lets it through.
abbrev pub claimed_row : ℕ → Text → Option Job → Option (Text × Job)
claimed_row time id none = none
claimed_row time id (some row) = if claimable time row then some (id, row) else none

abbrev pub picked : ℕ → Option Text → Db → Option (Text × Job)
picked time none db = none
picked time (some id) db = claimed_row time id (db.jobs id)

pub data ClaimAnswer : Type 0 where
  no_work : ClaimAnswer
  leased : Lease → List Event → ClaimAnswer

-- What a failure, reported or found out, makes of the row.
unfoldable pub failed_job : ℕ → Text → Job → Job
failed_job time reason row =
    let attempts = next_attempt row.attempts in
    record row {
      state = if leb_ℤ (pos 8) attempts then dead else pending;
      attempts = attempts;
      last_error = some reason;
      lease_token = none;
      lease_until = none;
      available_at = after_seconds time (backoff attempts);
    }

abbrev pub last_event : List Event → Option Event
last_event [] = none
last_event (e ∷ []) = some e
last_event (e ∷ f ∷ es) = last_event (f ∷ es)

abbrev pub leased_job : ℕ → ℕ → Lease → Job → Job
leased_job time seconds lease row = record row {
  state = running;
  lease_epoch = lease.lease_epoch;
  lease_through = lease.through_sequence;
  lease_token = some lease.lease_token;
  lease_until = some (after_seconds time seconds);
}

abbrev pub seconds_of : ClaimRequest → ℕ
seconds_of request = elim request.lease_seconds [ pos s ↦ s | negsuc _ ↦ 0 ]

unfoldable pub claim_row : ℕ → Text → ClaimRequest → Text → Job → JobState → Tx ClaimAnswer
unfolding failed_job batch
claim_row time token request id row running = do
  modify (put_job id (failed_job time (codes "worker_crashed") row))
  pure no_work
claim_row time token request id row _ = do
  all_events ← gets (λ db. db.events)
  let events = batch id row.acknowledged row.target_sequence request.limit all_events
  last ← some_or (last_event events) (conflict no_source_events)
  epoch ← some_or (checked_add row.lease_epoch (pos 1)) (invalid epoch_exhausted)
  let lease : Lease = record {
    billing_account_id = id;
    lease_epoch = epoch;
    lease_token = token;
    expected_sequence = row.acknowledged;
    through_sequence = last.sequence;
  }
  modify (put_job id (leased_job time (seconds_of request) lease row))
  pure (leased lease events)

abbrev pub claim_picked : ℕ → Text → ClaimRequest → Option (Text × Job) → Tx ClaimAnswer
claim_picked time token request none = pure no_work
claim_picked time token request (some (id, row)) = claim_row time token request id row row.state

abbrev pub bad_claim : ClaimRequest → Bool
bad_claim request =
    not (leb 1 request.limit && leb request.limit 100)
    || not (leb_ℤ (pos 1) request.lease_seconds && leb_ℤ request.lease_seconds (pos 60))

unfoldable pub claim_event_job : ℕ → Text → Option Text → ClaimRequest → Tx ClaimAnswer
unfolding claim_row
claim_event_job time token pick request = do
  fail_if (bad_claim request) (invalid invalid_batch)
  row ← gets (picked time pick)
  claim_picked time token request row

abbrev pub failure_codes : List Text
failure_codes =
    codes "handler_failed" ∷ codes "source_invalid" ∷ codes "dependency_unavailable" ∷ []

-- `fail_event_job`, with the new state, the delay in seconds and the attempts as its answer. The
-- lease is read at the first time, the row is written with the second.
unfoldable pub fail_event_job : ℕ → ℕ → FailRequest → Tx (JobState × ℕ × ℤ)
unfolding locked failed_job
fail_event_job read_at written_at request = do
  fail_if (not (text_mem request.reason failure_codes)) (invalid invalid_failure_code)
  row ← locked read_at request.lease
  let failed = failed_job written_at request.reason row
  modify (put_job request.lease.billing_account_id failed)
  pure (failed.state, backoff failed.attempts, failed.attempts)

abbrev pub retried_job : ℕ → Job → Job
retried_job time row = record row { state = pending; available_at = time; attempts = pos 0 }

unfoldable pub retry_event_job : ℕ → Text → Text → Text → Text → Tx (Unit {0})
retry_event_job time audit_id account actor reason = do
  fail_if (is_blank reason || ltb 256 (length reason)) (invalid unbounded_retry_reason)
  jobs ← gets (λ db. db.jobs)
  row ← some_or (jobs account) not_found
  fail_if (not (is_dead row.state)) (conflict only_dead_retried)
  modify (put_job account (retried_job time row))
  modify (λ db. record db {
    audits =
        record {
          id = audit_id;
          actor_id = actor;
          action = codes "event_job.retry";
          resource_id = account;
          reason = reason;
          created_at = time;
        }
        ∷ db.audits;
  })
