-- ===== src/Worker/Tests.antt =====
-- The worker run on the account of one reservation: a first lease expires, a second one completes.
use xscope.Prelude.{
  ℕ, Bool, ◌≡◌, ◌≤◌, ◌↔◌, refl, true, false, Option, some, List, [], ◌∷◌, ok, arith,
}
use xscope.Prelude.Int.{ℤ, pos, ◌+ℤ◌, ◌≤ℤ◌, checked_add}
use xscope.Prelude.Text.{Text, codes, text_eq}
use xscope.Billing.Types.{Event, Job, dead, Db}
use xscope.Billing.Tests.{reserved_call, start, month_of, call, acme, acme_key, catalog}
use xscope.Billing.Consistent.Reachable.{reserves}
use xscope.Worker.Batch.{batch, validate_event, validate_reservation}
use xscope.Worker.Backoff.{next_attempt, backoff, backoff-bounds}
use xscope.Worker.Jobs.{
  Lease, ClaimRequest, ClaimAnswer, leased, stale, locked, claimable, claim_row, claim_event_job,
  failed_job,
}
use xscope.Worker.Complete.{Readings, process, finish, complete_locked, complete_event_job}
use xscope.Worker.Completed.{HasEffect}
use xscope.Worker.Histories.{Setting, Turns, halt, turn, bills, claims, completes}
use xscope.Worker.Failures.{failures}
use xscope.Worker.Retries.{attempts-failures}
use xscope.Worker.Acknowledged.{acknowledged-recorded, complete_event_job-replay}
use xscope.Worker.Fencing.{superseded_complete}
use xscope.Worker.Round.{RoundInput, round}
use xscope.Worker.Progress.{Progress, round-Progress}

abbrev serialize : Event → Option (List ℕ)
serialize e = some e.kind

abbrev sha256 : List ℕ → Text
sha256 bytes = bytes

abbrev env : Setting
env = record { month_of = month_of; serialize = serialize; sha256 = sha256 }

abbrev request : ClaimRequest
request = record { limit = 10; lease_seconds = pos 30 }

abbrev Claimed : ℕ → Text → Db → Type 0
Claimed time token db =
    (lease : Lease) × (events : List Event) × (db' : Db) × (claim_event_job time token
        (some (codes "acc-1")) request db
      ≡ ok (leased lease events, db'))

abbrev Completes : Readings → Lease → Db → Type 0
Completes at lease db =
    (answer : ℤ × Bool) × (db' : Db) × (complete_event_job serialize sha256 at lease db
      ≡ ok (answer, db'))

unfoldable first_claim : Claimed 5 (codes "one") reserved_call.1
unfolding reserved_call claim_event_job claim_row claimable batch text_eq checked_add ◌+ℤ◌
first_claim = (_, _, _, refl)

unfoldable expired :
    (answer : ClaimAnswer) × (db : Db) × (claim_event_job 40000000
        (codes "x")
        (some (codes "acc-1"))
        request
        first_claim.2
      ≡ ok (answer, db))
unfolding reserved_call first_claim claim_event_job claim_row claimable failed_job next_attempt
    backoff text_eq ◌+ℤ◌
expired = (_, _, refl)

unfoldable second_claim : Claimed 50000000 (codes "two") expired.1
unfolding reserved_call first_claim expired claim_event_job claim_row claimable failed_job
    next_attempt backoff batch text_eq checked_add ◌+ℤ◌
second_claim = (_, _, _, refl)

abbrev at : Readings
at = record { locked_at = 50000001; processed_at = 50000002; fenced_at = 50000003 }

unfoldable completion : Completes at second_claim.0 second_claim.2
unfolding reserved_call first_claim expired second_claim complete_event_job complete_locked locked
    stale process finish validate_event validate_reservation batch text_eq checked_add ◌+ℤ◌
completion = (_, _, refl)

acknowledges_one :
    complete_event_job serialize sha256 at second_claim.0 second_claim.2
    ≡ ok ((pos 1, false), completion.1)
unfolding completion
acknowledges_one = completion.2

-- The lost first lease is answered as a duplicate once the second one has completed.
unfoldable late_completion : Completes at first_claim.0 completion.1
unfolding reserved_call first_claim expired second_claim completion complete_event_job text_eq
late_completion = (_, _, refl)

abbrev later_completion : Turns env second_claim.2 completion.1
later_completion =
    turn (completes at second_claim.0 completion.0 second_claim.2 completion.1 completion.2) halt

-- The reservation, the claims and the completion, in their order.
history_of_completion : Turns env start completion.1
history_of_completion =
    turn
      (bills start reserved_call.1
        (reserves 7 call reserved_call.0 start reserved_call.1 reserved_call.2))
      (turn
        (claims 5 (codes "one") (some (codes "acc-1")) request (leased first_claim.0 first_claim.1)
          reserved_call.1 first_claim.2 first_claim.3)
        (turn
          (claims 40000000 (codes "x") (some (codes "acc-1")) request expired.0 first_claim.2
            expired.1 expired.2)
          (turn
            (claims 50000000 (codes "two") (some (codes "acc-1")) request
              (leased second_claim.0 second_claim.1) expired.1 second_claim.2 second_claim.3)
            later_completion)))

unfoldable expired_row : (row : Job) × (expired.1.jobs (codes "acc-1") ≡ some row)
unfolding reserved_call first_claim expired text_eq
expired_row = (_, refl)

unfoldable completed_row : (row : Job) × (completion.1.jobs (codes "acc-1") ≡ some row)
unfolding reserved_call first_claim expired second_claim completion text_eq
completed_row = (_, refl)

completed_row-acknowledged : completed_row.0.acknowledged ≡ pos 1
unfolding completed_row
completed_row-acknowledged = refl

-- The reservation, the first claim and the one that finds its lease run out.
history_of_crash : Turns env start expired.1
history_of_crash =
    turn
      (bills start reserved_call.1
        (reserves 7 call reserved_call.0 start reserved_call.1 reserved_call.2))
      (turn
        (claims 5 (codes "one") (some (codes "acc-1")) request (leased first_claim.0 first_claim.1)
          reserved_call.1 first_claim.2 first_claim.3)
        (turn
          (claims 40000000 (codes "x") (some (codes "acc-1")) request expired.0 first_claim.2
            expired.1 expired.2)
          halt))

attempts-failures_example :
    (expired_row.0.attempts ≡ pos (failures (codes "acc-1") history_of_crash 0))
    × (failures (codes "acc-1") history_of_crash 0 ≤ 8)
    × ((expired_row.0.state ≡ dead) ↔ (failures (codes "acc-1") history_of_crash 0 ≡ 8))
attempts-failures_example =
    attempts-failures env (acme ∷ []) (acme_key ∷ []) catalog expired.1 (codes "acc-1")
      expired_row.0 history_of_crash expired_row.1

failures_test :
    (failures (codes "acc-1") history_of_crash 0 ≡ 1)
    × (failures (codes "acc-1") history_of_completion 0 ≡ 0)
unfolding reserved_call first_claim expired second_claim completion claimable text_eq
    history_of_crash history_of_completion
failures_test = (refl, refl)

reached : pos 1 ≤ℤ completed_row.0.acknowledged
unfolding completed_row
reached = omega arith

acknowledged-recorded_example : HasEffect (codes "acc-1") (pos 1) completion.1.effects
acknowledged-recorded_example =
    acknowledged-recorded env (acme ∷ []) (acme_key ∷ []) catalog completion.1 (codes "acc-1")
      completed_row.0 (pos 1) history_of_completion completed_row.1 (omega arith) reached

complete_event_job-replay_example :
    (row : Job) × (completion.1.jobs second_claim.0.billing_account_id ≡ some row)
    × (pos 1 ≤ℤ row.acknowledged)
    × (complete_event_job serialize sha256 at second_claim.0 completion.1
        ≡ ok ((row.acknowledged, true), completion.1))
complete_event_job-replay_example =
    complete_event_job-replay env at at second_claim.0 (pos 1) second_claim.2 completion.1
      completion.1 acknowledges_one halt

abbrev crash : Turns env first_claim.2 expired.1
crash =
    turn
      (claims 40000000 (codes "x") (some (codes "acc-1")) request expired.0 first_claim.2 expired.1
        expired.2)
      halt

same_account : second_claim.0.billing_account_id ≡ first_claim.0.billing_account_id
unfolding first_claim second_claim expired
same_account = refl

superseded_complete_example : (late_completion.0.1 ≡ true) × (late_completion.1 ≡ completion.1)
superseded_complete_example =
    superseded_complete env 5 50000000 (codes "one") (codes "two") (some (codes "acc-1"))
      (some (codes "acc-1")) request request first_claim.0 second_claim.0 first_claim.1
      second_claim.1 at late_completion.0 reserved_call.1 first_claim.2 expired.1 second_claim.2
      completion.1 late_completion.1 first_claim.3 crash second_claim.3 same_account
      later_completion late_completion.2

abbrev input : RoundInput
input = record {
  claimed_at = 5;
  token = codes "one";
  pick = some (codes "acc-1");
  completion = record { locked_at = 6; processed_at = 7; fenced_at = 8 };
  failed_read_at = 9;
  failed_at = 10;
}

unfoldable busy_round : (db : Db) × (round serialize sha256 input reserved_call.1 ≡ ok (true, db))
unfolding reserved_call round claim_event_job claim_row claimable complete_event_job complete_locked
    locked stale process finish validate_event validate_reservation batch text_eq checked_add ◌+ℤ◌
busy_round = (_, refl)

round-Progress_example : Progress input.pick reserved_call.1 busy_round.0
round-Progress_example =
    round-Progress serialize sha256 input reserved_call.1 busy_round.0 busy_round.1

backoff-bounds_example :
    (2 ≤ backoff (pos 1)) × (backoff (pos 1) ≤ backoff (pos 8)) × (backoff (pos 8) ≤ 256)
backoff-bounds_example = backoff-bounds (pos 1) (pos 8) (omega arith)
