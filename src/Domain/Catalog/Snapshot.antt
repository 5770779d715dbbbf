-- ===== src/Domain/Catalog/Snapshot.antt =====
-- The models and the endpoints of a validated snapshot.
use xscope.Prelude.{
  ◌≡◌, ◌≢◌, true, false, List, [], ◌∷◌, arith, ok, sym, ◌⊎◌, inl, inr, All, All-map, In, Distinct,
  >>=-eq-ok,
}
use xscope.Prelude.Int.{pos, ltb_ℤ}
use xscope.Prelude.Text.{Text, text_mem, text_mem_iff, not_text_mem}
use xscope.Domain.Catalog.{
  CatalogModel, ServingEndpoint, CatalogSnapshot, validate_model, validate_endpoint,
  validate_models, validate_endpoints, validate_snapshot,
}

abbrev pub model_ids : List CatalogModel → List Text
model_ids [] = []
model_ids (m ∷ ms) = m.model.id ∷ model_ids ms

abbrev pub endpoint_ids : List ServingEndpoint → List Text
endpoint_ids [] = []
endpoint_ids (e ∷ es) = e.id ∷ endpoint_ids es

pub record IsSound (s : CatalogSnapshot) : Type 0 where
  pub models_valid : All (λ m. validate_model m.model ≡ ok tt) s.models
  pub revisions_positive : All (λ m. ltb_ℤ (pos 0) m.revision ≡ true) s.models
  pub models_distinct : Distinct (model_ids s.models)
  pub endpoints_valid : All (λ e. validate_endpoint e ≡ ok tt) s.endpoints
  pub endpoints_registered : All (λ e. In e.model (model_ids s.models)) s.endpoints
  pub endpoints_distinct : Distinct (endpoint_ids s.endpoints)

-- Nothing of the second list is in the first, and the second repeats nothing.
abbrev Fresh : List Text → List Text → Type 0
Fresh seen ids = All (λ i. All (λ s. s ≢ i) seen) ids × Distinct ids

Fresh-cons :
    (seen ids : List Text) (i : Text)
    → All (λ s. s ≢ i) seen
    → Fresh (i ∷ seen) ids
    → Fresh seen (i ∷ ids)
Fresh-cons seen ids i h f =
    ((h, All-map ids (λ a p. p.1) f.0), (All-map ids (λ a p e. p.0 (sym e)) f.0, f.1))

models_step :
    (seen : List Text) (m : CatalogModel) (ms : List CatalogModel) (r : List Text)
    → validate_models seen (m ∷ ms) ≡ ok r
    → (validate_model m.model ≡ ok tt)
      × (ltb_ℤ (pos 0) m.revision ≡ true)
      × (text_mem m.model.id seen ≡ false)
      × (validate_models (m.model.id ∷ seen) ms ≡ ok r)
unfolding validate_models
models_step seen m ms r h = (ground arith, ground arith, ground arith, ground arith)

models_checked :
    (seen : List Text) (ms : List CatalogModel) (r : List Text)
    → validate_models seen ms ≡ ok r
    → All (λ m. validate_model m.model ≡ ok tt) ms
      × All (λ m. ltb_ℤ (pos 0) m.revision ≡ true) ms
      × Fresh seen (model_ids ms)
models_checked seen [] r h = (tt, tt, (tt, tt))
models_checked seen (m ∷ ms) r h =
    let s = models_step seen m ms r h in
    let (valid, positive, fresh) = models_checked (m.model.id ∷ seen) ms r s.3 in
    (
      (s.0, valid),
      (s.1, positive),
      Fresh-cons seen (model_ids ms) m.model.id (not_text_mem _ seen s.2) fresh,
    )

-- The set that the models leave behind holds no other identifier than theirs.
models_seen :
    (seen : List Text) (ms : List CatalogModel) (r : List Text) (i : Text)
    → validate_models seen ms ≡ ok r
    → In i r
    → In i (model_ids ms) ⊎ In i seen
models_seen seen [] r i h m = inr (unfold validate_models in ground arith)
models_seen seen (m ∷ ms) r i h k =
    elim (models_seen (m.model.id ∷ seen) ms r i (models_step seen m ms r h).3 k) [
      | inl a ↦ inl (inr a)
      | inr (inl e) ↦ inl (inl e)
      | inr (inr b) ↦ inr b
    ]

endpoints_step :
    (models seen : List Text) (e : ServingEndpoint) (es : List ServingEndpoint)
    → validate_endpoints models seen (e ∷ es) ≡ ok tt
    → (validate_endpoint e ≡ ok tt)
      × (text_mem e.model models ≡ true)
      × (text_mem e.id seen ≡ false)
      × (validate_endpoints models (e.id ∷ seen) es ≡ ok tt)
unfolding validate_endpoints
endpoints_step models seen e es h = (ground arith, ground arith, ground arith, ground arith)

endpoints_checked :
    (models seen : List Text) (es : List ServingEndpoint)
    → validate_endpoints models seen es ≡ ok tt
    → All (λ e. validate_endpoint e ≡ ok tt) es
      × All (λ e. In e.model models) es
      × Fresh seen (endpoint_ids es)
endpoints_checked models seen [] h = (tt, tt, (tt, tt))
endpoints_checked models seen (e ∷ es) h =
    let s = endpoints_step models seen e es h in
    let (valid, known, fresh) = endpoints_checked models (e.id ∷ seen) es s.3 in
    (
      (s.0, valid),
      ((text_mem_iff _ models).0 s.1, known),
      Fresh-cons seen (endpoint_ids es) e.id (not_text_mem _ seen s.2) fresh,
    )

In-nil_right : {A : Type 0} (a : A) (xs : List A) → In a xs ⊎ ⊥ → In a xs
In-nil_right a xs (inl m) = m
In-nil_right a xs (inr f) = absurd f

-- A snapshot that validates has valid models with positive revisions and distinct identifiers,
-- and valid endpoints with distinct identifiers, each registered for one of those models.
pub validate-IsSound : (s : CatalogSnapshot) → validate_snapshot s ≡ ok tt → IsSound s
unfolding validate_snapshot
validate-IsSound s h =
    let (r, first, second) = >>=-eq-ok (validate_models [] s.models) _ h in
    let (valid, positive, fresh) = models_checked [] s.models r first in
    let (ends, known, apart) = endpoints_checked r [] s.endpoints second in
    record {
      models_valid = valid;
      revisions_positive = positive;
      models_distinct = fresh.1;
      endpoints_valid = ends;
      endpoints_registered =
          All-map s.endpoints
            (λ e m. In-nil_right e.model _ (models_seen [] s.models r e.model first m)) known;
      endpoints_distinct = apart.1;
    }
