-- ===== src/Billing/Reserve.antt =====
-- `reserve_money` of rust/crates/control-plane/src/billing.rs. Its reads and guards are split into
-- the steps of the method; `now` and `month_of` are its clock.
use xscope.Prelude.{
  ℕ, Bool, not, ◌&&◌, ◌||◌, Option, none, some, [], ◌∷◌, if◌then◌else◌, Result, ok, err, leb, any,
  is_none_or, is_some_and, is_some, and_then, find,
}
use xscope.Prelude.Int.{ℤ, pos, ltb_ℤ, eq_ℤ, checked_add, checked_sub, checked_mul}
use xscope.Prelude.Text.{Text, codes, text_eq, text_mem}
use xscope.Domain.Money.{Model, DomainError, micros_per_minor_unit, usage_cost_microunits}
use xscope.Billing.Types.{
  ServiceError, forbidden, invalid, conflict, insufficient_funds, invalid_reservation,
  bound_to_other_payload, unknown_model, invalid_price_or_context, request_used, budget_overflow,
  balance_short, budget_short, domain, ReserveRequest, Reservation, reserved, Account, ApiKey, Db,
}
use xscope.Billing.Store.{
  Tx, ◌>>=◌, ◌>>◌, pure, fail_if, lift, some_or, gets, modify, find_reservation,
}
use xscope.Billing.Projection.{balance_and_held, monthly, key_hold, change_hold}
use xscope.Billing.Ledger.{lock_account, append_event}
use xscope.Billing.Requests.{identifier, reserve_eq}

unfoldable pub malformed : ReserveRequest → Bool
malformed r =
    any (λ s. not (identifier s))
      (r.id ∷ r.tenant_id ∷ r.project_id ∷ r.api_key_id ∷ r.request_id ∷ r.model_id
        ∷ r.model_revision ∷ r.price_version ∷ [])
    || ltb_ℤ r.input_token_limit (pos 0)
    || ltb_ℤ r.output_token_limit (pos 0)

-- The key may not spend for this request.
unfoldable pub key_refused : ℕ → ReserveRequest → ApiKey → Bool
key_refused now r key =
    not (text_eq key.project_id r.project_id)
    || not (text_eq key.tenant_id r.tenant_id)
    || is_some key.revoked_at
    || is_some_and key.expires_at (λ t. leb t now)
    || not (
        any (λ s. text_eq s (codes "chat.completions") || text_eq s (codes "completions"))
          key.scopes)
    || not (text_mem r.model_id key.allowed_models)

-- `active_model` of catalog.rs
unfoldable pub active_model : Text → Tx Model
active_model id = do
  catalog ← gets (λ db. db.catalog)
  row ← some_or (catalog id) (invalid unknown_model)
  fail_if (not row.enabled) (invalid unknown_model)
  pure row.model

unfoldable pub bad_terms : ReserveRequest → Model → Bool
bad_terms r model =
    not (text_eq r.price_version model.price_version)
    || is_none_or (checked_add r.input_token_limit r.output_token_limit)
        (λ v. eq_ℤ v (pos 0) || ltb_ℤ model.max_context_tokens v)

unfoldable pub request_identity_used : ReserveRequest → Db → Bool
request_identity_used r db =
    any (λ row. text_eq row.project_id r.project_id && text_eq row.request_id r.request_id)
      db.reservations
    || any (λ u. text_eq u.project_id r.project_id && text_eq u.request_id r.request_id) db.usage

abbrev pub of_domain : {A : Type 0} → Result DomainError A → Result ServiceError A
of_domain (ok a) = ok a
of_domain (err e) = err (invalid (domain e))

-- The available balance covers the amount, where the account enforces it.
unfoldable pub check_balance : Account → ℤ → Tx (Unit {0})
check_balance account amount =
    if account.enforce_balance
    then (do
      sums ← balance_and_held account.id
      fail_if
          (is_none_or (and_then (checked_sub sums.0 sums.1) λ v. checked_sub v amount)
            (λ v. ltb_ℤ v (pos 0)))
          (insufficient_funds balance_short))
    else pure tt

-- The key's monthly budget covers what it has spent and holds, where it has one.
unfoldable pub check_budget : (ℕ → ℕ) → ℕ → ApiKey → ℤ → Tx (Unit {0})
check_budget month_of now key amount =
    if ltb_ℤ (pos 0) key.monthly_budget_amount
    then (do
      spent ← monthly month_of key.id (month_of now)
      key_held ← key_hold key.id
      budget ←
          some_or (checked_mul key.monthly_budget_amount (pos micros_per_minor_unit))
            (invalid budget_overflow)
      fail_if
          (is_none_or (and_then (checked_add spent key_held) λ v. checked_add v amount)
            (λ v. ltb_ℤ budget v))
          (insufficient_funds budget_short))
    else pure tt

abbrev pub new_reservation : Account → ReserveRequest → Model → ℤ → Reservation
new_reservation account r model amount = record {
  id = r.id;
  billing_account_id = account.id;
  project_id = r.project_id;
  tenant_id = r.tenant_id;
  api_key_id = r.api_key_id;
  request_id = r.request_id;
  spec = r;
  price = model;
  reserved_microunits = amount;
  settled_microunits = none;
  state = reserved;
  completion = none;
}

-- The writes of an admitted reservation.
unfoldable pub hold_and_insert : Account → ApiKey → ReserveRequest → Model → ℤ → Tx Reservation
hold_and_insert account key r model amount = do
  change_hold account.id key.id amount
  modify
      (λ db. record db { reservations = new_reservation account r model amount ∷ db.reservations })
  append_event account.id (codes "reservation.created") r.id
  pure (new_reservation account r model amount)

-- The part behind the search for an earlier reservation with the same ID.
unfoldable pub admit : (ℕ → ℕ) → ℕ → Account → ReserveRequest → Tx Reservation
unfolding active_model check_balance check_budget hold_and_insert
admit month_of now account r = do
  fail_if
      (not (text_eq account.status (codes "active"))
        || not (text_eq account.currency (codes "CNY")))
      forbidden
  keys ← gets (λ db. db.keys)
  key ← some_or (find (λ k. text_eq k.id r.api_key_id) keys) forbidden
  fail_if (key_refused now r key) forbidden
  model ← active_model r.model_id
  fail_if (bad_terms r model) (invalid invalid_price_or_context)
  used ← gets (request_identity_used r)
  fail_if used (conflict request_used)
  amount ← lift (of_domain (usage_cost_microunits model r.input_token_limit r.output_token_limit))
  check_balance account amount
  check_budget month_of now key amount
  hold_and_insert account key r model amount

-- An ID that is there already returns its row if the payload is the same.
abbrev pub existing_or_admit :
    (ℕ → ℕ) → ℕ → Account → ReserveRequest → Option Reservation → Tx Reservation
existing_or_admit month_of now account r (some existing) = do
  fail_if (not (reserve_eq existing.spec r)) (conflict bound_to_other_payload)
  pure existing
existing_or_admit month_of now account r none = admit month_of now account r

unfoldable pub reserve_money : (ℕ → ℕ) → ℕ → ReserveRequest → Tx Reservation
unfolding lock_account
reserve_money month_of now r = do
  fail_if (malformed r) (invalid invalid_reservation)
  account ← lock_account r.project_id
  fail_if (not (text_eq account.tenant_id r.tenant_id)) forbidden
  reservations ← gets (λ db. db.reservations)
  existing_or_admit month_of now account r (find_reservation r.id reservations)
