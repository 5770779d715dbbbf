-- ===== src/Billing/Lifecycle.antt =====
-- `dispatch_money`, `release_money`, `unresolved_money`, `settle_money` and `settle_locked` of
-- rust/crates/control-plane/src/billing.rs.
use xscope.Prelude.{
  ℕ, Bool, false, not, ◌&&◌, ◌||◌, Option, none, some, [], ◌∷◌, ◌++◌, if◌then◌else◌, any, is_some,
}
use xscope.Prelude.Int.{ℤ, pos, neg, ltb_ℤ}
use xscope.Prelude.Text.{Text, codes, text_eq}
use xscope.Domain.Money.{usage_cost_microunits, ceil_minor_units}
use xscope.Billing.Types.{
  not_found, database, invalid, conflict, only_not_dispatched, cannot_release,
  only_reserved_dispatch, invalid_report, requires_dispatched, evidence_changed, invalid_settlement,
  settlement_changed, settlement_undispatched, exceeds_bounds, SettleRequest, UnresolvedRequest,
  ReleaseRequest, Completion, of_settle, of_unresolved, of_release, ReservationState, reserved,
  dispatched, settled, released, waived, Reservation, Account, UsageEvent, LedgerTransaction,
}
use xscope.Billing.Store.{
  Tx, ◌>>=◌, ◌>>◌, pure, fail, fail_if, lift, some_or, gets, modify, find_reservation,
  replace_reservation,
}
use xscope.Billing.Projection.{monthly, change_hold, change_spend}
use xscope.Billing.Ledger.{lock_account, append_event, insert_balanced_entries}
use xscope.Billing.Requests.{identifier, completion_eq}
use xscope.Billing.Reserve.{of_domain}

-- `find_by_id(id).filter(ProjectId.eq(project))`
unfoldable pub project_reservation : Text → Text → Tx Reservation
project_reservation project id = do
  reservations ← gets (λ db. db.reservations)
  row ← some_or (find_reservation id reservations) not_found
  fail_if (not (text_eq row.project_id project)) not_found
  pure row

-- The read of one reservation, outside of a write.
unfoldable pub money_reservation : Text → Text → Tx Reservation
unfolding project_reservation
money_reservation project id = project_reservation project id

abbrev pub store : Text → Reservation → Tx (Unit {0})
store id row =
    modify (λ db. record db { reservations = replace_reservation id row db.reservations })

unfoldable pub dispatch_row : Account → Reservation → ReservationState → Tx Reservation
dispatch_row account row dispatched = pure row
dispatch_row account row reserved = do
  store row.id (record row { state = dispatched })
  append_event account.id (codes "reservation.dispatched") row.id
  pure (record row { state = dispatched })
dispatch_row account row _ = fail (conflict only_reserved_dispatch)

unfoldable pub dispatch_money : Text → Text → Tx Reservation
unfolding lock_account project_reservation dispatch_row
dispatch_money project id = do
  account ← lock_account project
  row ← project_reservation project id
  dispatch_row account row row.state

abbrev pub released_row : ReleaseRequest → Reservation → Reservation
released_row request row = record row {
  state = released;
  completion = some (of_release request.reason);
}

unfoldable pub release_row :
    Account → ReleaseRequest → Reservation → ReservationState → Tx Reservation
release_row account request row released = pure row
release_row account request row reserved = do
  change_hold account.id row.api_key_id (neg row.reserved_microunits)
  store row.id (released_row request row)
  append_event account.id (codes "reservation.released") row.id
  pure (released_row request row)
release_row account request row _ = fail (conflict cannot_release)

unfoldable pub release_money : Text → Text → ReleaseRequest → Tx Reservation
unfolding lock_account project_reservation release_row
release_money project id request = do
  fail_if (not (text_eq request.reason (codes "not_dispatched"))) (invalid only_not_dispatched)
  account ← lock_account project
  row ← project_reservation project id
  release_row account request row row.state

unfoldable pub bad_report : UnresolvedRequest → Bool
bad_report r =
    not (identifier r.event_id)
    || not (text_eq r.reason (codes "usage_missing") || text_eq r.reason (codes "usage_over_limit"))
    || (text_eq r.reason (codes "usage_missing")
        && (is_some r.input_tokens || is_some r.output_tokens))
    || (text_eq r.reason (codes "usage_over_limit")
        && (not (is_some r.input_tokens) || not (is_some r.output_tokens)))

-- A first report is stored on the row; a repeated one must carry the same evidence.
unfoldable pub record_evidence :
    Account → UnresolvedRequest → Reservation → Option Completion → Tx Reservation
record_evidence account request row (some previous) = do
  fail_if (not (completion_eq previous (of_unresolved request))) (conflict evidence_changed)
  pure row
record_evidence account request row none = do
  store row.id (record row { completion = some (of_unresolved request) })
  append_event account.id (codes "reservation.unresolved") row.id
  pure (record row { completion = some (of_unresolved request) })

unfoldable pub unresolved_row :
    Account → UnresolvedRequest → Reservation → ReservationState → Tx Reservation
unfolding record_evidence
unresolved_row account request row settled = pure row
unresolved_row account request row waived = pure row
unresolved_row account request row dispatched = record_evidence account request row row.completion
unresolved_row account request row _ = fail (conflict requires_dispatched)

unfoldable pub unresolved_money : Text → Text → UnresolvedRequest → Tx Reservation
unfolding lock_account project_reservation unresolved_row
unresolved_money project id request = do
  fail_if (bad_report request) (invalid invalid_report)
  account ← lock_account project
  row ← project_reservation project id
  unresolved_row account request row row.state

abbrev final_status : Text → Bool
final_status s =
    text_eq s (codes "succeeded")
    || text_eq s (codes "cancelled")
    || text_eq s (codes "provider_error")

unfoldable pub bad_settlement : SettleRequest → Bool
bad_settlement r =
    ltb_ℤ r.input_tokens (pos 0)
    || ltb_ℤ r.output_tokens (pos 0)
    || ltb_ℤ r.latency_ms (pos 0)
    || not (identifier r.endpoint_id)
    || not (identifier r.region)
    || not (final_status r.status)

-- The clock of a settlement: the instant, the months of instants, and the fresh transaction ID.
pub record Stamp : Type 0 where
  pub now : ℕ
  pub month_of : ℕ → ℕ
  pub txn : Text

-- `format!("evt-reservation-{id}")`
abbrev pub usage_id : Reservation → Text
usage_id row = codes "evt-reservation-" ++ row.id

abbrev pub usage_of : Stamp → Account → SettleRequest → Reservation → ℤ → UsageEvent
usage_of stamp account request row amount = record {
  event_id = usage_id row;
  request_id = row.request_id;
  occurred_at = stamp.now;
  tenant_id = row.tenant_id;
  project_id = row.project_id;
  api_key_id = row.api_key_id;
  model_id = row.spec.model_id;
  model_revision = row.spec.model_revision;
  endpoint_id = request.endpoint_id;
  region = request.region;
  price_version = row.price.price_version;
  input_tokens = request.input_tokens;
  output_tokens = request.output_tokens;
  cached_input_tokens = pos 0;
  latency_ms = request.latency_ms;
  status = request.status;
  cost_amount = ceil_minor_units amount;
  cost_microunits = amount;
  currency = account.currency;
}

-- The primary key of the usage table refuses a second event with the same ID.
unfoldable pub insert_usage : UsageEvent → Tx (Unit {0})
insert_usage event = do
  usage ← gets (λ db. db.usage)
  fail_if (any (λ u. text_eq u.event_id event.event_id) usage) database
  modify (λ db. record db { usage = event ∷ db.usage })

abbrev pub settled_row : SettleRequest → ℤ → Reservation → Reservation
settled_row request amount row = record row {
  state = settled;
  settled_microunits = some amount;
  completion = some (of_settle request);
}

abbrev pub usage_header : Reservation → LedgerTransaction
usage_header row = record {
  id = [];
  tenant_id = row.tenant_id;
  kind = codes "usage";
  reference_type = codes "usage_event";
  reference_id = usage_id row;
  idempotency_key = codes "reservation:" ++ row.id;
  currency = [];
  description = codes "Reserved model inference usage";
}

-- A charge is posted to the ledger, and nothing is where the cost is 0.
unfoldable pub post_charge : Stamp → Account → Reservation → ℤ → Tx (Unit {0})
post_charge stamp account row amount =
    if ltb_ℤ (pos 0) amount
    then insert_balanced_entries stamp.txn account (usage_header row) (neg amount)
        (codes "usage_revenue")
    else pure tt

-- The writes of a settlement whose cost is `amount`.
unfoldable pub charge : Stamp → Account → SettleRequest → Reservation → ℤ → Tx Reservation
unfolding post_charge insert_usage
charge stamp account request row amount = do
  spent ← monthly stamp.month_of row.api_key_id (stamp.month_of stamp.now)
  change_hold account.id row.api_key_id (neg row.reserved_microunits)
  insert_usage (usage_of stamp account request row amount)
  change_spend row.api_key_id (stamp.month_of stamp.now) spent amount
  store row.id (settled_row request amount row)
  post_charge stamp account row amount
  append_event account.id (codes "reservation.settled") row.id
  pure (settled_row request amount row)

abbrev pub same_settlement : SettleRequest → Option Completion → Bool
same_settlement request none = false
same_settlement request (some previous) = completion_eq previous (of_settle request)

unfoldable pub settle_row :
    Stamp → Account → SettleRequest → Reservation → ReservationState → Tx Reservation
unfolding charge
settle_row stamp account request row settled = do
  fail_if (not (same_settlement request row.completion)) (conflict settlement_changed)
  pure row
settle_row stamp account request row dispatched = do
  fail_if
      (ltb_ℤ row.spec.input_token_limit request.input_tokens
        || ltb_ℤ row.spec.output_token_limit request.output_tokens)
      (conflict exceeds_bounds)
  amount ←
      lift (of_domain (usage_cost_microunits row.price request.input_tokens request.output_tokens))
  charge stamp account request row amount
settle_row stamp account request row _ = fail (conflict settlement_undispatched)

unfoldable pub settle_locked : Stamp → Account → Reservation → SettleRequest → Tx Reservation
unfolding settle_row
settle_locked stamp account row request = do
  fail_if (bad_settlement request) (invalid invalid_settlement)
  settle_row stamp account request row row.state

unfoldable pub settle_money : Stamp → Text → Text → SettleRequest → Tx Reservation
unfolding lock_account project_reservation settle_locked
settle_money stamp project id request = do
  account ← lock_account project
  row ← project_reservation project id
  settle_locked stamp account row request
