-- ===== src/Gateway/Usage/Accepted.antt =====
-- The gateway's reports and the control plane's guards on them.
use xscope.Prelude.{
  ℕ, ◌≡◌, refl, subst, Bool, true, false, not, ◌||◌, Bool-cases, inl, inr, Result, ok, ◌>>=◌,
  >>=-eq-ok, refuse-eq-ok, arith, if◌then◌else◌,
}
use xscope.Prelude.Int.{ℤ, pos, ltb_ℤ}
use xscope.Prelude.Text.{Text, codes, text_eq}
use xscope.Billing.Types.{SettleRequest}
use xscope.Billing.Requests.{identifier}
use xscope.Billing.Lifecycle.{bad_report, bad_settlement}
use xscope.Gateway.Outbox.{DeliveryError, permanent}
use xscope.Gateway.Usage.{
  Ticket, UsageEvent, Posting, post_event, post_settle, post_unresolved, try_i64, final_status_of,
  within_limits, settlement, unresolved, billed_posting,
}

-- The control plane's guards on a report do not refuse what is posted on the ticket's reservation.
abbrev pub IsAccepted : Ticket → Posting → Type 0
IsAccepted ticket (post_event event) = ⊥
IsAccepted ticket (post_settle own request) =
    (own ≡ ticket)
    × (bad_settlement request ≡ false)
    × (ltb_ℤ ticket.input_token_limit request.input_tokens ≡ false)
    × (ltb_ℤ ticket.output_token_limit request.output_tokens ≡ false)
IsAccepted ticket (post_unresolved own request) = (own ≡ ticket) × (bad_report request ≡ false)

try_i64_inv : (n : ℕ) (v : ℤ) → try_i64 n ≡ ok v → v ≡ pos n
try_i64_inv n v h = ground arith

settlement_inv :
    (event : UsageEvent) (request : SettleRequest)
    → settlement event ≡ ok request
    → request ≡ record {
      input_tokens = pos event.input_tokens;
      output_tokens = pos event.output_tokens;
      latency_ms = pos event.latency_ms;
      endpoint_id = event.endpoint_id;
      region = event.region;
      status = final_status_of event.status;
    }
unfolding settlement
settlement_inv event request h =
    let (a, p, h1) = >>=-eq-ok (try_i64 event.input_tokens) _ h in
    let (b, q, h2) = >>=-eq-ok (try_i64 event.output_tokens) _ h1 in
    let (c, r, h3) = >>=-eq-ok (try_i64 event.latency_ms) _ h2 in
    let x = try_i64_inv event.input_tokens a p in
    let y = try_i64_inv event.output_tokens b q in let z = try_i64_inv event.latency_ms c r in cc

final_status_of_accepted :
    (s : Text)
    → (text_eq (final_status_of s) (codes "succeeded")
        || text_eq (final_status_of s) (codes "cancelled")
        || text_eq (final_status_of s) (codes "provider_error"))
      ≡ true
unfolding text_eq
final_status_of_accepted s = elim (Bool-cases (text_eq s (codes "succeeded"))) [
  | inl e ↦ rw e refl
  | inr e ↦ elim (Bool-cases (text_eq s (codes "cancelled"))) [
    | inl f ↦ rw (e, f) refl
    | inr f ↦ rw (e, f) refl
  ]
]

unresolved_accepted :
    (event : UsageEvent) → identifier event.event_id ≡ true → bad_report (unresolved event) ≡ false
unfolding unresolved bad_report text_eq
unresolved_accepted event named = elim (Bool-cases event.usage_known) [
  | inl e ↦ rw (e, named) refl
  | inr e ↦ rw (e, named) refl
]

settle-IsAccepted :
    (event : UsageEvent) (ticket : Ticket) (request : SettleRequest) (input output : ℕ)
    → ticket.input_token_limit ≡ pos input
    → ticket.output_token_limit ≡ pos output
    → identifier event.endpoint_id ≡ true
    → identifier event.region ≡ true
    → within_limits event ticket ≡ true
    → settlement event ≡ ok request
    → IsAccepted ticket (post_settle ticket request)
unfolding bad_settlement
settle-IsAccepted event ticket request input output p q endpoint region within h =
    let e = settlement_inv event request h in
    let within' = rw (p, q) at within in
    rw (e, p, q)
      (
        refl,
        rw (endpoint, region, final_status_of_accepted event.status) (ground arith),
        ground arith,
        ground arith,
      )

posting-IsAccepted :
    (event : UsageEvent) (ticket : Ticket) (posting : Posting) (input output : ℕ)
    → ticket.input_token_limit ≡ pos input
    → ticket.output_token_limit ≡ pos output
    → identifier event.endpoint_id ≡ true
    → identifier event.region ≡ true
    → identifier event.event_id ≡ true
    → (if within_limits event ticket
        then (settlement event >>= λ request. ok (post_settle ticket request))
        else ok (post_unresolved ticket (unresolved event)))
      ≡ ok posting
    → IsAccepted ticket posting
posting-IsAccepted event ticket posting input output p q endpoint region named h =
    elim (Bool-cases (within_limits event ticket)) [
      | inl e ↦
          let (request, s, w) = >>=-eq-ok (settlement event) _ (rw e at h) in
          let same : post_settle ticket request ≡ posting = ok_posting_inv w in
          subst (IsAccepted ticket) same
            (settle-IsAccepted event ticket request input output p q endpoint region e s)
      | inr e ↦
          let same : post_unresolved ticket (unresolved event) ≡ posting =
            ok_posting_inv (rw e at h) in
          subst (IsAccepted ticket) same (refl, unresolved_accepted event named)
    ]
  where
    ok_posting_inv : {a b : Posting} → ◌≡◌ {A = Result DeliveryError Posting} (ok a) (ok b) → a ≡ b
    ok_posting_inv h = cc

-- What is posted for an event with a ticket, whose limits are not negative and whose endpoint,
-- region and event ID are identifiers, is on the ticket's reservation, and the guards of the control
-- plane do not refuse it: a settlement is well formed and within the ticket's limits, and a report
-- names its reason with the token counts that belong to it.
pub billed_posting-IsAccepted :
    (has_suffix : Bool) (event : UsageEvent) (ticket : Ticket) (posting : Posting)
    (input output : ℕ)
    → ticket.input_token_limit ≡ pos input
    → ticket.output_token_limit ≡ pos output
    → identifier event.endpoint_id ≡ true
    → identifier event.region ≡ true
    → identifier event.event_id ≡ true
    → billed_posting has_suffix event ticket ≡ ok posting
    → IsAccepted ticket posting
unfolding billed_posting
billed_posting-IsAccepted has_suffix event ticket posting input output p q endpoint region named h =
    let (_, h1) = refuse-eq-ok (not has_suffix) (permanent 0) _ h in
    posting-IsAccepted event ticket posting input output p q endpoint region named h1
