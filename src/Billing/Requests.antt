-- ===== src/Billing/Requests.antt =====
-- Tests on the requests and rows of the money protocol: `identifier` of billing.rs, and the
-- comparison of JSON payloads by the fields of the records that they encode.
use xscope.Prelude.{
  ℕ, Bool, true, false, not, ◌&&◌, ◌||◌, Option, none, some, leb, ◌==◌, length, all, is_empty,
}
use xscope.Prelude.Int.{eq_ℤ}
use xscope.Prelude.Text.{Text, codes, text_eq, is_alphanumeric, contains_byte}
use xscope.Billing.Types.{
  ReserveRequest, SettleRequest, UnresolvedRequest, Completion, of_settle, of_unresolved,
  of_release,
}

unfoldable pub identifier : Text → Bool
identifier value =
    not (is_empty value)
    && leb (length value) 128
    && all (λ b. is_alphanumeric b || contains_byte b (codes "-_.:")) value

unfoldable pub reserve_eq : ReserveRequest → ReserveRequest → Bool
reserve_eq a b =
    text_eq a.id b.id
    && text_eq a.tenant_id b.tenant_id
    && text_eq a.project_id b.project_id
    && text_eq a.api_key_id b.api_key_id
    && text_eq a.request_id b.request_id
    && text_eq a.model_id b.model_id
    && text_eq a.model_revision b.model_revision
    && text_eq a.price_version b.price_version
    && eq_ℤ a.input_token_limit b.input_token_limit
    && eq_ℤ a.output_token_limit b.output_token_limit

unfoldable pub settle_eq : SettleRequest → SettleRequest → Bool
settle_eq a b =
    eq_ℤ a.input_tokens b.input_tokens
    && eq_ℤ a.output_tokens b.output_tokens
    && eq_ℤ a.latency_ms b.latency_ms
    && text_eq a.endpoint_id b.endpoint_id
    && text_eq a.region b.region
    && text_eq a.status b.status

abbrev option_eq : Option ℕ → Option ℕ → Bool
option_eq none none = true
option_eq (some a) (some b) = a == b
option_eq _ _ = false

unfoldable pub unresolved_eq : UnresolvedRequest → UnresolvedRequest → Bool
unresolved_eq a b =
    text_eq a.event_id b.event_id
    && text_eq a.reason b.reason
    && option_eq a.input_tokens b.input_tokens
    && option_eq a.output_tokens b.output_tokens

unfoldable pub completion_eq : Completion → Completion → Bool
unfolding settle_eq unresolved_eq
completion_eq (of_settle a) (of_settle b) = settle_eq a b
completion_eq (of_unresolved a) (of_unresolved b) = unresolved_eq a b
completion_eq (of_release a) (of_release b) = text_eq a b
completion_eq _ _ = false
