-- ===== src/Domain/Catalog.antt =====
-- rust/crates/domain/src/catalog.rs: the model catalog and its serving endpoints.
pub mod Admission
pub mod Snapshot
use xscope.Prelude.{
  ℕ, ◌≤◌, ◌<◌, ◌≡◌, refl, Bool, true, false, not, ◌&&◌, ◌||◌, Option, none, some, List, [], ◌∷◌,
  arith, ltb, leb, ◌==◌, if◌then◌else◌, Result, ok, err, ◌>>=◌, ◌>>◌, refuse, ok_or, is_some_and,
  length, all, any, is_empty, is_some,
}
use xscope.Prelude.Int.{ℤ, pos, ltb_ℤ, leb_ℤ, checked_mul}
use xscope.Prelude.Text.{
  Text, codes, text_eq, text_mem, is_alphanumeric, is_blank, contains_byte, rsplit_once,
  parse_unsigned,
}
use xscope.Domain.Money.{Money, Model}

pub record CatalogModel : Type 0 where
  pub revision : ℤ
  pub enabled : Bool
  pub default_pool : Option Text
  pub model : Model

pub record ServingEndpoint : Type 0 where
  pub id : Text
  pub model : Text
  pub revision : Text
  pub address : Text
  pub tls : Bool
  pub server_name : Text

pub record CatalogSnapshot : Type 0 where
  pub models : List CatalogModel
  pub endpoints : List ServingEndpoint

-- The messages of the four refusals of a model or an endpoint, and the two of a snapshot.
pub data CatalogError : Type 0 where
  invalid_model_identity invalid_model_price model_price_range : CatalogError
  invalid_endpoint_identity entry_address_form invalid_service_address : CatalogError
  duplicate_catalog_model unregistered_endpoint : CatalogError

abbrev ascii_name : Text → ℕ → Bool
ascii_name extra b = is_alphanumeric b || contains_byte b extra

unfoldable pub identifier : Text → Bool
identifier value =
    not (is_empty value) && leb (length value) 128 && all (ascii_name (codes "._-")) value

-- `a.max(b)` on `i64`
abbrev pub max_ℤ : ℤ → ℤ → ℤ
max_ℤ a b = if leb_ℤ a b then b else a

unfoldable pub validate_price : ℤ → Money → Result CatalogError (Unit {0})
validate_price max_context_tokens price =
    refuse
      (not (text_eq price.currency (codes "CNY"))
        || ltb_ℤ price.amount (pos 0)
        || not (is_some (checked_mul price.amount max_context_tokens)))
      invalid_model_price

unfoldable pub validate_model : Model → Result CatalogError (Unit {0})
validate_model m = do
  refuse
      (not (identifier m.id)
        || not (identifier m.price_version)
        || is_blank m.display_name
        || ltb 256 (length m.display_name)
        || not (leb_ℤ (pos 1) m.max_context_tokens && leb_ℤ m.max_context_tokens (pos 16777216)))
      invalid_model_identity
  validate_price m.max_context_tokens m.input_per_million_tokens
  validate_price m.max_context_tokens m.output_per_million_tokens
  ok_or
      (checked_mul m.max_context_tokens
        (max_ℤ m.input_per_million_tokens.amount m.output_per_million_tokens.amount))
      model_price_range
  ok tt

-- The host, port and TLS name of an endpoint, behind `rsplit_once`.
unfoldable pub validate_address : ServingEndpoint → Text × Text → Result CatalogError (Unit {0})
validate_address e (host, port) =
    refuse
      (is_empty host
        || ltb 253 (length host)
        || not (all (ascii_name (codes ".-[]:")) host)
        || not (is_some_and (parse_unsigned 65535 port) (λ p. ltb 0 p))
        || ltb 253 (length e.server_name)
        || not (all (ascii_name (codes ".-")) e.server_name)
        || (e.tls && is_empty e.server_name))
      invalid_service_address

unfoldable pub validate_endpoint : ServingEndpoint → Result CatalogError (Unit {0})
validate_endpoint e = do
  refuse (not (identifier e.id) || not (identifier e.model) || not (identifier e.revision))
      invalid_endpoint_identity
  parts ← ok_or (rsplit_once b':' e.address) entry_address_form
  validate_address e parts

unfoldable pub validate_models : List Text → List CatalogModel → Result CatalogError (List Text)
validate_models seen [] = ok seen
validate_models seen (entry ∷ rest) = do
  validate_model entry.model
  refuse
      (not (ltb_ℤ (pos 0) entry.revision)
        || text_mem entry.model.id seen
        || is_some_and entry.default_pool (λ id. not (identifier id)))
      duplicate_catalog_model
  validate_models (entry.model.id ∷ seen) rest

unfoldable pub validate_endpoints :
    List Text → List Text → List ServingEndpoint → Result CatalogError (Unit {0})
validate_endpoints models seen [] = ok tt
validate_endpoints models seen (e ∷ rest) = do
  validate_endpoint e
  refuse (not (text_mem e.model models) || text_mem e.id seen) unregistered_endpoint
  validate_endpoints models (e.id ∷ seen) rest

unfoldable pub validate_snapshot : CatalogSnapshot → Result CatalogError (Unit {0})
validate_snapshot s = do
  models ← validate_models [] s.models
  validate_endpoints models [] s.endpoints
