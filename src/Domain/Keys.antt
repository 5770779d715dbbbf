-- ===== src/Domain/Keys.antt =====
-- rust/crates/domain/src/lib.rs: the request of an API key, its defaults and its validation, and the
-- status of a key.
pub mod Issue
use xscope.Prelude.{
  ℕ, Bool, true, false, not, ◌&&◌, ◌||◌, Option, none, some, List, [], ◌∷◌, leb, if◌then◌else◌,
  Result, ok, err, ◌>>=◌, ◌>>◌, refuse, is_some_and, is_some, any, is_empty,
}
use xscope.Prelude.Int.{ℤ, pos, leb_ℤ, eq_ℤ}
use xscope.Prelude.Text.{Text, codes, text_mem, is_blank}
use xscope.Domain.Money.{
  Money, DomainError, required, invalid_rpm, invalid_tpm, invalid_expiry, invalid_scope,
  missing_model, validate_money,
}

pub data KeyStatus : Type 0 where
  active expired revoked : KeyStatus

pub record ApiKeyRequest : Type 0 where
  pub id : Text
  pub tenant_id : Text
  pub project_id : Text
  pub name : Text
  pub scopes : List Text
  pub allowed_models : List Text
  pub expires_at : Option ℕ
  pub rate_limit_rpm : ℤ
  pub rate_limit_tpm : ℤ
  pub monthly_budget : Money

abbrev pub default_model_id : Text
default_model_id = codes "xscope-demo"

-- A list gets one entry where it is empty, a number its default where it is 0.
abbrev pub filled : Text → List Text → List Text
filled entry [] = entry ∷ []
filled entry (t ∷ ts) = t ∷ ts

abbrev pub nonzero : ℤ → ℤ → ℤ
nonzero default value = if eq_ℤ value (pos 0) then default else value

abbrev pub named_currency : Text → Text
named_currency currency = if is_empty currency then codes "CNY" else currency

unfoldable pub with_defaults : ApiKeyRequest → ApiKeyRequest
with_defaults r = record r {
  scopes = filled (codes "chat.completions") r.scopes;
  allowed_models = filled default_model_id r.allowed_models;
  rate_limit_rpm = nonzero (pos 60) r.rate_limit_rpm;
  rate_limit_tpm = nonzero (pos 60000) r.rate_limit_tpm;
  monthly_budget = record r.monthly_budget { currency = named_currency r.monthly_budget.currency };
}

unfoldable pub require_all : List (Text × Text) → Result DomainError (Unit {0})
require_all [] = ok tt
require_all ((value, name) ∷ rest) = do refuse (is_blank value) (required name); require_all rest

unfoldable pub validate_request : ℕ → ApiKeyRequest → Result DomainError (Unit {0})
validate_request now r = do
  require_all (
      (r.id, codes "id")
      ∷ (r.tenant_id, codes "tenant_id")
      ∷ (r.project_id, codes "project_id")
      ∷ (r.name, codes "name")
      ∷ [])
  refuse (not (leb_ℤ (pos 1) r.rate_limit_rpm && leb_ℤ r.rate_limit_rpm (pos 1000000))) invalid_rpm
  refuse (not (leb_ℤ (pos 1) r.rate_limit_tpm && leb_ℤ r.rate_limit_tpm (pos 10000000000)))
      invalid_tpm
  validate_money r.monthly_budget
  refuse (is_some_and r.expires_at (λ t. leb t now)) invalid_expiry
  refuse
      (is_empty r.scopes
        || any (λ s. not (text_mem s (codes "chat.completions" ∷ codes "completions" ∷ [])))
            r.scopes)
      invalid_scope
  refuse (is_empty r.allowed_models) missing_model

unfoldable pub key_status : Option ℕ → Option ℕ → ℕ → KeyStatus
key_status revoked_at expires_at now =
    if is_some revoked_at
    then revoked
    else if is_some_and expires_at (λ t. leb t now)
    then expired
    else active
