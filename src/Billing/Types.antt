-- ===== src/Billing/Types.antt =====
-- The tables that the money protocol reads and writes, one record for each entity of
-- rust/crates/entities, and the wire requests of rust/crates/domain/src/billing.rs.
-- Timestamps that no code reads back (`updated_at`, `received_at`, ...) have no field.
use xscope.Prelude.{ℕ, Bool, Option, List}
use xscope.Prelude.Int.{ℤ}
use xscope.Prelude.Text.{Text}
use xscope.Domain.Money.{Model, DomainError}
use xscope.Domain.Catalog.{CatalogModel}

-- The messages of `Invalid`, `Conflict`, `InsufficientFunds` and `Internal`.
pub data Reason : Type 0 where
  invalid_report invalid_reservation invalid_price_or_context budget_overflow : Reason
  sequence_exhausted only_not_dispatched invalid_settlement ledger_too_large : Reason
  unknown_model invalid_month_start invalid_ack stale_ack invalid_consumer : Reason
  requires_dispatched evidence_changed bound_to_other_payload request_used : Reason
  only_reserved_dispatch cannot_release settlement_changed settlement_undispatched : Reason
  exceeds_bounds resource_exists balance_short budget_short reserved_balance : Reason
  projection_range : Reason
  invalid_batch no_source_events epoch_exhausted stale_lease invalid_worker_batch : Reason
  event_sequence_exhausted sequence_gap serialization_failed processed_event_changed : Reason
  boundary_missed lease_expired invalid_failure_code unbounded_retry_reason : Reason
  only_dead_retried ledger_integrity reservation_missing reservation_account : Reason
  review_missing review_reservation_missing review_account unsupported_kind : Reason
  domain : DomainError → Reason

pub data ServiceError : Type 0 where
  not_found forbidden database : ServiceError
  invalid conflict insufficient_funds internal : Reason → ServiceError

pub data ReservationState : Type 0 where
  reserved dispatched settled released waived : ReservationState

pub record ReserveRequest : Type 0 where
  pub id : Text
  pub tenant_id : Text
  pub project_id : Text
  pub api_key_id : Text
  pub request_id : Text
  pub model_id : Text
  pub model_revision : Text
  pub price_version : Text
  pub input_token_limit : ℤ
  pub output_token_limit : ℤ

pub record SettleRequest : Type 0 where
  pub input_tokens : ℤ
  pub output_tokens : ℤ
  pub latency_ms : ℤ
  pub endpoint_id : Text
  pub region : Text
  pub status : Text

pub record UnresolvedRequest : Type 0 where
  pub event_id : Text
  pub reason : Text
  pub input_tokens : Option ℕ
  pub output_tokens : Option ℕ

pub record ReleaseRequest : Type 0 where
  pub reason : Text

-- The JSON of `completion`, by the request that it encodes.
pub data Completion : Type 0 where
  of_settle : SettleRequest → Completion
  of_unresolved : UnresolvedRequest → Completion
  of_release : Text → Completion

-- `spec` and `price` hold the request and the model that their JSON encodes.
pub record Reservation : Type 0 where
  pub id : Text
  pub billing_account_id : Text
  pub project_id : Text
  pub tenant_id : Text
  pub api_key_id : Text
  pub request_id : Text
  pub spec : ReserveRequest
  pub price : Model
  pub reserved_microunits : ℤ
  pub settled_microunits : Option ℤ
  pub state : ReservationState
  pub completion : Option Completion

pub record Account : Type 0 where
  pub id : Text
  pub tenant_id : Text
  pub project_id : Text
  pub currency : Text
  pub enforce_balance : Bool
  pub status : Text

pub record ApiKey : Type 0 where
  pub id : Text
  pub tenant_id : Text
  pub project_id : Text
  pub name : Text
  pub secret_hash : List ℕ
  pub scopes : List Text
  pub allowed_models : List Text
  pub expires_at : Option ℕ
  pub rate_limit_rpm : ℤ
  pub rate_limit_tpm : ℤ
  pub monthly_budget_amount : ℤ
  pub currency : Text
  pub revoked_at : Option ℕ

pub record UsageEvent : Type 0 where
  pub event_id : Text
  pub request_id : Text
  pub occurred_at : ℕ
  pub tenant_id : Text
  pub project_id : Text
  pub api_key_id : Text
  pub model_id : Text
  pub model_revision : Text
  pub endpoint_id : Text
  pub region : Text
  pub price_version : Text
  pub input_tokens : ℤ
  pub output_tokens : ℤ
  pub cached_input_tokens : ℤ
  pub latency_ms : ℤ
  pub status : Text
  pub cost_amount : ℤ
  pub cost_microunits : ℤ
  pub currency : Text

pub record LedgerTransaction : Type 0 where
  pub id : Text
  pub tenant_id : Text
  pub kind : Text
  pub reference_type : Text
  pub reference_id : Text
  pub idempotency_key : Text
  pub currency : Text
  pub description : Text

-- The random `id` of an entry is never read.
pub record LedgerEntry : Type 0 where
  pub transaction_id : Text
  pub billing_account_id : Text
  pub ledger_account : Text
  pub amount_microunits : ℤ
  pub currency : Text

-- The payload, which this part of the program only writes, has no field.
pub record Event : Type 0 where
  pub billing_account_id : Text
  pub sequence : ℤ
  pub kind : Text
  pub aggregate_id : Text

pub data JobState : Type 0 where
  idle pending running dead : JobState

-- The row of the one consumer, the event worker, by the account.
pub record Job : Type 0 where
  pub acknowledged : ℤ
  pub target_sequence : ℤ
  pub lease_epoch : ℤ
  pub lease_through : ℤ
  pub lease_token : Option Text
  pub lease_until : Option ℕ
  pub available_at : ℕ
  pub state : JobState
  pub attempts : ℤ
  pub last_error : Option Text

-- What the worker has recorded of an event, for its one consumer.
pub record Effect : Type 0 where
  pub billing_account_id : Text
  pub sequence : ℤ
  pub kind : Text
  pub payload_sha256 : Text
  pub processed_at : ℕ

-- The columns of a review that lead to its reservation.
pub record Review : Type 0 where
  pub id : Text
  pub reservation_id : Text

-- A row of `operation_audit`; the payload is the reason that its JSON holds.
pub record OperationAudit : Type 0 where
  pub id : Text
  pub actor_id : Text
  pub action : Text
  pub resource_id : Text
  pub reason : Text
  pub created_at : ℕ

pub record Balance : Type 0 where
  pub balance_microunits : ℤ
  pub held_microunits : ℤ

-- `clock` is the time that a transaction reads when it makes a worker's job available.
-- Tables that are only read by their primary key are functions from it; the others are lists.
pub record Db : Type 0 where
  pub clock : ℕ
  pub accounts : List Account
  pub keys : List ApiKey
  pub catalog : Text → Option CatalogModel
  pub reservations : List Reservation
  pub usage : List UsageEvent
  pub ledger : List LedgerEntry
  pub transactions : List LedgerTransaction
  pub events : List Event
  pub jobs : Text → Option Job
  pub effects : List Effect
  pub reviews : List Review
  pub audits : List OperationAudit
  pub balances : Text → Option Balance
  pub holds : Text → Option ℤ
  pub spends : Text → ℕ → Option ℤ
