-- ===== src/Lib.antt =====
-- XScope: a gateway for model inference with a control plane that holds its money.
--
-- The gateway asks the control plane to reserve money for a request, dispatches it, and reports
-- the usage that settles it. The control plane keeps reservations, a double-entry ledger, usage
-- events, projections of the three (counters that spare a sum over the history), an outbox of
-- account events, and the job row that wakes the outbox's worker. Payments arrive as postings.
--
-- Files, by the code that they model:
--   * Domain/Money: rust/crates/domain/src/lib.rs (money, models, usage cost, rounding);
--     Domain/Keys: the same file (API key requests and key status);
--     Domain/Catalog: rust/crates/domain/src/catalog.rs (validation of models and endpoints).
--     Domain/Routing: rust/crates/domain/src/routing.rs (policies, selection, pause, promotion).
--   * Payments/Amount: rust/crates/payments/src/lib.rs (provider amounts as text).
--   * Billing/Types: the rows of rust/crates/entities/src and the requests of
--     rust/crates/domain/src/billing.rs; Billing/Store: transactions and queries.
--   * Billing/Projection: rust/crates/control-plane/src/billing_projection.rs and the historical
--     sums of billing.rs. Billing/Ledger: `append_event` and `lock_account` of billing.rs,
--     `schedule` of event_worker.rs, `insert_balanced_entries` of repository.rs.
--   * Billing/Requests, Billing/Reserve, Billing/Lifecycle: `reserve_money`, `dispatch_money`,
--     `release_money`, `unresolved_money`, `settle_money` and `settle_locked` of billing.rs, each
--     with the function of its name.
--   * Billing/Tracks, Billing/Moves, Billing/Sums: lemmas on the counters. Billing/Consistent: the
--     invariant, with a file for each operation. Billing/Outcomes: what the operations answer. Billing/Inactive: reservations with a key
--     that is not active.
--     Billing/Audit: `projected_spend` and `projection_check` of billing_projection.rs, whose test for a
--     month's first day is a parameter `first_day`; Exact below it is on the verdict of the check, Rebuild on its
--     repair. The modules called Tests hold runs on concrete data.
--
--   * Billing/History: the lemmas that lift what the single writes preserve to histories, and two uses of
--     them. Worker: rust/crates/control-plane/src/event_worker.rs; Worker/Batch has the query of a batch and
--     `validate_event`, Worker/Jobs the claim, failure, retry and status, Worker/Complete the
--     completion, Worker/Round the body of `run`; Worker/Completed, Worker/Changes, Worker/Moves and Worker/Claims say what
--     each did to the job's row, Worker/Histories mixes them with the protocol's transactions; Worker/Rising has
--     lemmas on the numbers of a row, Worker/Failures and Worker/Retries count the failures of a history, Worker/Acknowledged,
--     Worker/Fencing and Worker/Progress are on completions, superseded leases and rounds.
--   * Gateway/Outbox: rust/crates/gateway/src/delivery.rs; Gateway/Usage: usage.rs there, with the guards of
--     the control plane in Gateway/Usage/Accepted; Gateway/Admission: `Protocol` of billing.rs there, run
--     against the model of the control plane; Gateway/Stream: streaming.rs there, with the SSE codec's
--     frames as its input; Gateway/Traffic: traffic.rs there, with the permits in Gateway/Traffic/Active.
--
-- The model of a transaction is a function from the tables to an error, or an answer and the new
-- tables: an error discards every write, as the rollback does. The account's row lock makes the
-- transactions of one account a sequence, so a history is a list of committed transactions; no
-- interleaving of two transactions of one account is modelled. A transaction of the worker takes
-- each reading of the clock as an argument, and the row that the claim's query locks as its pick. Texts are lists of UTF-8 bytes.
-- An `i64` is an integer whose checked operations answer nothing out of range and whose plain
-- operations wrap around. `SUM` cast to `bigint` fails out of range. JSON columns hold the records
-- that they encode. Timestamps are numbers, and the first day of a month, which chrono computes,
-- is a parameter `month_of`. Every loop is structural recursion on a list; no fuel is used but for
-- the digits of a number n, which have fuel n + 1.
-- The order and the locks of the claim's query are left out: it may pick any row that its filter lets
-- through. A month's usage is the usage whose instant has that first day, which is the interval of the
-- query where the month is a first day; the error of a month without a next one, and that of a catalog
-- row that does not decode, have no case.
--
-- Not modelled: HTTP, configuration, telemetry, the SQL of migrations, random identifiers (the ID
-- of a ledger transaction is an argument), event payloads, and columns of instants that no code
-- here reads. The gateway's quota and proxy, the
-- operator and the managed pools are not modelled either.
pub mod Prelude
pub mod Domain
pub mod Payments
pub mod Billing
pub mod Worker
pub mod Gateway
