-- ===== src/Gateway/Tests.antt =====
-- The outbox, a delivery, an admission and a recovery on concrete data.
use xscope.Prelude.{
  [], ◌∷◌, none, Option, List, Bool, ◌++◌, ℕ, ◌≤◌, ◌≡◌, ◌≢◌, refl, true, false, ◌⊎◌, some, ok, err,
  length,
}
use xscope.Prelude.Int.{pos, neg, ◌+ℤ◌, ◌*ℤ◌, checked_add, checked_sub, checked_mul}
use xscope.Prelude.Text.{Text, codes, text_eq, text_mem, starts_with, is_blank}
use xscope.Billing.Types.{Reservation, dispatched, Db}
use xscope.Billing.Store.{sum_where}
use xscope.Billing.Projection.{
  add, historical_balance_and_held, account, key_hold, monthly, change_hold,
}
use xscope.Billing.Ledger.{lock_account, last_sequence, next_sequence, schedule, append_event}
use xscope.Billing.Requests.{identifier, reserve_eq}
use xscope.Billing.Reserve.{
  malformed, key_refused, active_model, bad_terms, request_identity_used, check_balance,
  check_budget, hold_and_insert, admit, reserve_money,
}
use xscope.Billing.Lifecycle.{
  project_reservation, dispatch_row, dispatch_money, release_row, release_money,
}
use xscope.Billing.Tests.{start, month_of, call, acme}
use xscope.Domain.Money.{usage_cost_microunits}
use xscope.Gateway.Outbox.{Settings, State, retry, reserve, ready, submit, pick, delivered, empty}
use xscope.Gateway.Outbox.Turns.{Turns, reserves, submits, picks, delivers, halt, turn}
use xscope.Gateway.Outbox.Bounds.{Rising, outbox-IsBounded}
use xscope.Gateway.Outbox.Kept.{Holds, DisposedIn, submit_kept}
use xscope.Gateway.Traffic.{
  managed, TrafficSnapshot, Gate, TrafficReport, bad_grant, bad_pools, rewinds, enroll, install,
  enter, leave, report, new_gate,
}
use xscope.Gateway.Traffic.Active.{
  drop_one, IsCounted, installs, enters, leaves, halts, serve, report-IsCounted,
}
use xscope.Gateway.Usage.{Ticket, UsageEvent, Posting, billed_posting, settlement}
use xscope.Gateway.Usage.Accepted.{IsAccepted, billed_posting-IsAccepted}
use xscope.Gateway.Stream.{Payload, Frame, message, observe, decode, take_frame, fresh_meter}
use xscope.Gateway.Stream.Chunks.{observe-append}
use xscope.Gateway.Admission.{intact, Decision, go_ahead, admit_request, recover_request}
use xscope.Gateway.Admission.Stored.{Stored}
use xscope.Gateway.Admission.Recovery.{HasNoOpenHold, recover_request-HasNoOpenHold}
use xscope.Gateway.Admission.Once.{admit_request-once}

abbrev settings : Settings
settings = record { capacity = 2; workers = 1; max_age = 30000; drain = 10000; grace_seconds = 20 }

abbrev Queue : Type 0
Queue = State Text

abbrev done : Text
done = codes "done"

unfoldable reserved_slot : (id : ℕ) × (s : Queue) × (reserve settings 10 empty ≡ ok (id, s))
unfolding reserve ready
reserved_slot = (_, _, refl)

unfoldable submitted : (s : Queue) × (submit true 100 11 1 done reserved_slot.1 ≡ ok s)
unfolding reserved_slot submit
submitted = (_, refl)

abbrev delivery :
    Turns settings submitted.0 (delivered 13 1 (err (retry 503)) (pick 12 submitted.0).1)
delivery =
    turn (picks 12 submitted.0)
      (turn (delivers 13 1 (err (retry 503)) (pick 12 submitted.0).1) halt)

abbrev final : Queue
final = delivered 13 1 (err (retry 503)) (pick 12 submitted.0).1

outbox-IsBounded_example : (length final.entries ≤ 2) × Rising 0 final.sequence final.entries
outbox-IsBounded_example = outbox-IsBounded Text settings final (
    turn (reserves 10 reserved_slot.0 empty reserved_slot.1 reserved_slot.2)
      (turn (submits true 100 11 1 done reserved_slot.1 submitted.0 submitted.1) delivery))

submit_kept_example : Holds 1 done final ⊎ DisposedIn 1 delivery
submit_kept_example =
    submit_kept Text settings true 100 11 1 done reserved_slot.1 submitted.0 final submitted.1
      delivery

abbrev ticket : Ticket
ticket = record {
  id = codes "r-1";
  project_id = codes "p-1";
  input_token_limit = pos 10;
  output_token_limit = pos 20;
}

abbrev event : UsageEvent
event = record {
  billing = some ticket;
  usage_known = true;
  schema_version = codes "v2";
  event_id = codes "evt-1";
  request_id = codes "q-1";
  occurred_at = 8;
  tenant_id = codes "t-1";
  project_id = codes "p-1";
  api_key_id = codes "key-1";
  model_id = codes "m";
  model_revision = codes "a";
  endpoint_id = codes "e-1";
  region = codes "cn";
  price_version = codes "v1";
  input_tokens = 4;
  output_tokens = 6;
  cached_input_tokens = 0;
  latency_ms = 9;
  status = codes "succeeded";
}

unfoldable posted : (p : Posting) × (billed_posting true event ticket ≡ ok p)
unfolding billed_posting settlement text_eq
posted = (_, refl)

endpoint_named : identifier event.endpoint_id ≡ true
unfolding identifier
endpoint_named = refl

region_named : identifier event.region ≡ true
unfolding identifier
region_named = refl

event_named : identifier event.event_id ≡ true
unfolding identifier
event_named = refl

billed_posting-IsAccepted_example : IsAccepted ticket posted.0
billed_posting-IsAccepted_example =
    billed_posting-IsAccepted true event ticket posted.0 10 20 refl refl endpoint_named region_named
      event_named posted.1

unfoldable admitted :
    (db : Db) × (admit_request month_of 7 intact intact false call start ≡ (go_ahead, db))
unfolding admit_request reserve_money malformed key_refused active_model bad_terms
    request_identity_used check_balance check_budget hold_and_insert admit identifier lock_account
    usage_cost_microunits checked_add checked_sub checked_mul monthly key_hold change_hold account
    add historical_balance_and_held append_event next_sequence last_sequence schedule sum_where
    text_eq text_mem neg ◌+ℤ◌ ◌*ℤ◌ dispatch_money dispatch_row project_reservation
admitted = (_, refl)

unfoldable admitted_again :
    (d : Decision) × (db : Db) × (admit_request month_of 9 intact intact false call admitted.0
      ≡ (d, db))
unfolding admit_request reserve_money malformed identifier lock_account reserve_eq text_eq admitted
admitted_again = (_, _, refl)

admit_request-once_example :
    ((row : Reservation) × Stored (codes "r-1") row admitted.0 × (row.state ≡ dispatched))
    × (admitted_again.0 ≢ go_ahead)
admit_request-once_example =
    admit_request-once month_of 7 9 intact intact intact intact false false call admitted_again.0
      start admitted.0 admitted_again.1 admitted.1 admitted_again.2

unfoldable recovered :
    (db : Db) × (recover_request month_of 7 intact intact call start ≡ (ok tt, db))
unfolding recover_request reserve_money malformed key_refused active_model bad_terms
    request_identity_used check_balance check_budget hold_and_insert admit identifier lock_account
    usage_cost_microunits checked_add checked_sub checked_mul monthly key_hold change_hold account
    add historical_balance_and_held append_event next_sequence last_sequence schedule sum_where
    text_eq text_mem neg ◌+ℤ◌ ◌*ℤ◌ release_money release_row project_reservation
recovered = (_, refl)

well_formed : malformed call ≡ false
unfolding malformed identifier
well_formed = refl

recover_request-HasNoOpenHold_example : HasNoOpenHold (codes "r-1") recovered.0
recover_request-HasNoOpenHold_example =
    recover_request-HasNoOpenHold month_of 7 intact intact call acme start recovered.0 well_formed
      (unfold text_eq in refl) (unfold text_eq in refl) recovered.1

abbrev read_usage : Text → Option Payload
read_usage text = some (record {
  has_error = false;
  usage = some (some (record { prompt_tokens = 4; completion_tokens = 6 }));
})

abbrev first_chunk : List Frame
first_chunk = message (codes "{}") ∷ []

abbrev last_chunk : List Frame
last_chunk = message (codes " [DONE]") ∷ message (codes "late") ∷ []

observe-append_example :
    (observe read_usage (first_chunk ++ last_chunk) fresh_meter).1
    ≡ (observe read_usage last_chunk (observe read_usage first_chunk fresh_meter).1).1
observe-append_example = observe-append read_usage first_chunk last_chunk fresh_meter

-- A frame behind the end makes the meter invalid, and its usage is forgotten.
fails_closed :
    (observe read_usage (first_chunk ++ last_chunk) fresh_meter).1
    ≡ record { usage = none; done = true; invalid = true }
unfolding observe decode take_frame is_blank
fails_closed = refl

abbrev grant : TrafficSnapshot
grant = record {
  admission_token = codes "t";
  session_id = codes "s-1";
  sequence = pos 1;
  nonce = codes "n-1";
  lease_seconds = 15;
  pools = record { id = codes "managed-a"; generation = pos 1; accepting = true } ∷ [];
}

abbrev any_uuid : Text → Bool
any_uuid text = true

unfoldable granted : (g : Gate) × (install any_uuid (codes "s-1") grant 100 new_gate ≡ ok g)
unfolding install bad_grant bad_pools managed rewinds enroll text_eq text_mem starts_with
granted = (_, refl)

unfoldable entered : (g : Gate) × (enter (codes "managed-a") (pos 1) 110 granted.0 ≡ ok g)
unfolding enter text_eq granted
entered = (_, refl)

unfoldable entered_twice : (g : Gate) × (enter (codes "managed-a") (pos 1) 111 entered.0 ≡ ok g)
unfolding enter text_eq granted entered
entered_twice = (_, refl)

unfoldable drain_report :
    (r : TrafficReport) × (report (codes "s-1") (leave (codes "managed-a") entered_twice.0)
      ≡ some r)
unfolding report leave granted entered entered_twice
drain_report = (_, refl)

report-IsCounted_example :
    IsCounted drain_report.0.active
      (drop_one (codes "managed-a") (codes "managed-a" ∷ codes "managed-a" ∷ []))
report-IsCounted_example =
    report-IsCounted any_uuid (codes "s-1") (leave (codes "managed-a") entered_twice.0)
      (drop_one (codes "managed-a") (codes "managed-a" ∷ codes "managed-a" ∷ [])) drain_report.0
      (serve (installs grant 100 new_gate granted.0 [] granted.1) (
        serve (enters (codes "managed-a") (pos 1) 110 granted.0 entered.0 [] entered.1) (
          serve
            (enters (codes "managed-a") (pos 1) 111 entered.0 entered_twice.0
              (codes "managed-a" ∷ []) entered_twice.1)
            (serve
              (leaves (codes "managed-a") entered_twice.0
                (codes "managed-a" ∷ codes "managed-a" ∷ []))
              halts))))
      drain_report.1
