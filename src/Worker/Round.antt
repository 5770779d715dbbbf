-- ===== src/Worker/Round.antt =====
-- One round of `run` of rust/crates/control-plane/src/event_worker.rs, in which no other transaction
-- comes between its own: a claim, the completion, and the report where the completion failed.
use xscope.Prelude.{ℕ, Bool, true, false, Option, List, Result, ok, err}
use xscope.Prelude.Int.{ℤ, pos}
use xscope.Prelude.Text.{Text, codes}
use xscope.Billing.Types.{ServiceError, Event, JobState, Db}
use xscope.Worker.Jobs.{
  Lease, ClaimRequest, ClaimAnswer, no_work, leased, claim_event_job, fail_event_job,
}
use xscope.Worker.Complete.{Readings, complete_event_job}

-- The readings of the clock and the random token of a round.
pub record RoundInput : Type 0 where
  pub claimed_at : ℕ
  pub token : Text
  pub pick : Option Text
  pub completion : Readings
  pub failed_read_at : ℕ
  pub failed_at : ℕ

abbrev pub run_request : ClaimRequest
run_request = record { limit = 100; lease_seconds = pos 30 }

abbrev pub reported :
    Db → Result ServiceError ((JobState × ℕ × ℤ) × Db) → Result ServiceError (Bool × Db)
reported db (ok (_, db')) = ok (true, db')
reported db (err e) = err e

-- A completion that failed has written nothing, and is reported.
abbrev pub completed :
    RoundInput
    → Lease
    → Db
    → Result ServiceError ((ℤ × Bool) × Db)
    → Result ServiceError (Bool × Db)
completed input lease db (ok (_, db')) = ok (true, db')
completed input lease db (err _) = reported db (
    fail_event_job input.failed_read_at input.failed_at
      (record { lease = lease; reason = codes "handler_failed" }) db)

module _ (serialize : Event → Option (List ℕ)) (sha256 : List ℕ → Text) where
  abbrev pub claimed :
      RoundInput → Result ServiceError (ClaimAnswer × Db) → Result ServiceError (Bool × Db)
  claimed input (err e) = err e
  claimed input (ok (no_work, db)) = ok (false, db)
  claimed input (ok (leased lease events, db)) =
      completed input lease db (complete_event_job serialize sha256 input.completion lease db)

  -- Whether the round was busy.
  unfoldable pub round : RoundInput → Db → Result ServiceError (Bool × Db)
  round input db =
      claimed input (claim_event_job input.claimed_at input.token input.pick run_request db)
