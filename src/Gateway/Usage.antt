-- ===== src/Gateway/Usage.antt =====
-- rust/crates/gateway/src/usage.rs: the event of a request and what its delivery sends to the
-- control plane. `send` is reqwest's answer to a posting: the status of its error, if it has one, or
-- the status of a response that `error_for_status` let through.
pub mod Accepted
use xscope.Prelude.{
  ℕ, ◌-◌, Bool, true, false, ◌&&◌, ◌||◌, Option, none, some, if◌then◌else◌, Result, ok, err, ◌>>=◌,
  ◌>>◌, leb, ◌==◌, is_some, refuse, is_empty, not,
}
use xscope.Prelude.Int.{ℤ, pos, negsuc, max_i64}
use xscope.Prelude.Text.{Text, codes, text_eq}
use xscope.Billing.Types.{SettleRequest, UnresolvedRequest}
use xscope.Gateway.Outbox.{DeliveryError, retry, permanent}

pub record Ticket : Type 0 where
  pub id : Text
  pub project_id : Text
  pub input_token_limit : ℤ
  pub output_token_limit : ℤ

-- The headers of the trace are left out.
pub record UsageEvent : Type 0 where
  pub billing : Option Ticket
  pub usage_known : Bool
  pub schema_version : Text
  pub event_id : Text
  pub request_id : Text
  pub occurred_at : ℕ
  pub tenant_id : Text
  pub project_id : Text
  pub api_key_id : Text
  pub model_id : Text
  pub model_revision : Text
  pub endpoint_id : Text
  pub region : Text
  pub price_version : Text
  pub input_tokens : ℕ
  pub output_tokens : ℕ
  pub cached_input_tokens : ℕ
  pub latency_ms : ℕ
  pub status : Text

pub record Principal : Type 0 where
  pub tenant_id : Text
  pub project_id : Text
  pub api_key_id : Text

pub record UsageRecord : Type 0 where
  pub price_version : Option Text
  pub request_id : Text
  pub principal : Principal
  pub endpoint_id : Text
  pub model_id : Text
  pub model_revision : Text
  pub input_tokens : ℕ
  pub output_tokens : ℕ
  pub latency_ms : ℕ
  pub status : Text
  pub billing : Option Ticket
  pub usage_known : Bool

pub record UsageSink : Type 0 where
  pub region : Text
  pub model_revision : Text
  pub price_version : Text

abbrev or_default : Option Text → Text → Text
or_default none default = default
or_default (some text) default = text

-- The event that `record` submits; `event_id` and `now` are its random ID and its clock.
unfoldable pub event_of : UsageSink → Text → ℕ → UsageRecord → UsageEvent
event_of sink event_id now r = record {
  billing = r.billing;
  usage_known = r.usage_known;
  schema_version = if is_some r.billing then codes "v2" else codes "v1";
  event_id = event_id;
  request_id = r.request_id;
  occurred_at = now;
  tenant_id = r.principal.tenant_id;
  project_id = r.principal.project_id;
  api_key_id = r.principal.api_key_id;
  model_id = r.model_id;
  model_revision = if is_empty r.model_revision then sink.model_revision else r.model_revision;
  endpoint_id = r.endpoint_id;
  region = sink.region;
  price_version = or_default r.price_version sink.price_version;
  input_tokens = r.input_tokens;
  output_tokens = r.output_tokens;
  cached_input_tokens = 0;
  latency_ms = r.latency_ms;
  status = r.status;
}

-- What a delivery posts: the event, or a settlement or a report on the ticket's reservation.
pub data Posting : Type 0 where
  post_event : UsageEvent → Posting
  post_settle : Ticket → SettleRequest → Posting
  post_unresolved : Ticket → UnresolvedRequest → Posting

-- `limit as u64`
abbrev pub as_u64 : ℤ → ℕ
as_u64 (pos n) = n
as_u64 (negsuc n) = 18446744073709551615 - n

-- `i64::try_from(n)`
abbrev pub try_i64 : ℕ → Result DeliveryError ℤ
try_i64 n = if leb n max_i64 then ok (pos n) else err (permanent 400)

abbrev pub final_status_of : Text → Text
final_status_of status =
    if text_eq status (codes "succeeded")
    then codes "succeeded"
    else if text_eq status (codes "cancelled")
    then codes "cancelled"
    else codes "provider_error"

abbrev pub within_limits : UsageEvent → Ticket → Bool
within_limits event ticket =
    event.usage_known
    && leb event.input_tokens (as_u64 ticket.input_token_limit)
    && leb event.output_tokens (as_u64 ticket.output_token_limit)

unfoldable pub settlement : UsageEvent → Result DeliveryError SettleRequest
settlement event = do
  input ← try_i64 event.input_tokens
  output ← try_i64 event.output_tokens
  latency ← try_i64 event.latency_ms
  ok (record {
    input_tokens = input;
    output_tokens = output;
    latency_ms = latency;
    endpoint_id = event.endpoint_id;
    region = event.region;
    status = final_status_of event.status;
  })

unfoldable pub unresolved : UsageEvent → UnresolvedRequest
unresolved event = record {
  event_id = event.event_id;
  reason = if event.usage_known then codes "usage_over_limit" else codes "usage_missing";
  input_tokens = if event.usage_known then some event.input_tokens else none;
  output_tokens = if event.usage_known then some event.output_tokens else none;
}

-- `has_suffix` is the test that the report URL ends in `/usage-events`.
unfoldable pub billed_posting : Bool → UsageEvent → Ticket → Result DeliveryError Posting
unfolding settlement unresolved
billed_posting has_suffix event ticket =
    refuse (not has_suffix) (permanent 0)
    >> (if within_limits event ticket
        then (settlement event >>= λ request. ok (post_settle ticket request))
        else ok (post_unresolved ticket (unresolved event)))

abbrev pub posting_of : Bool → UsageEvent → Option Ticket → Result DeliveryError Posting
posting_of has_suffix event none =
    if text_eq event.schema_version (codes "v1") then ok (post_event event) else err (permanent 400)
posting_of has_suffix event (some ticket) =
    if text_eq event.schema_version (codes "v2")
    then billed_posting has_suffix event ticket
    else err (permanent 400)

-- `http_failure(error)`, by the status of the error
unfoldable pub http_failure : Option ℕ → DeliveryError
http_failure none = retry 0
http_failure (some status) =
    if status == 408 || status == 425 || status == 429 || (leb 500 status && leb status 599)
    then retry status
    else permanent status

abbrev pub answered : Result (Option ℕ) ℕ → Result DeliveryError (Unit {0})
answered (err status) = err (http_failure status)
answered (ok status) = if leb 200 status && leb status 299 then ok tt else err (permanent status)

-- `deliver(client, report_url, token, event)`
unfoldable pub deliver :
    Bool → (Posting → Result (Option ℕ) ℕ) → UsageEvent → Result DeliveryError (Unit {0})
unfolding billed_posting http_failure
deliver has_suffix send event =
    posting_of has_suffix event event.billing >>= λ posting. answered (send posting)
