-- ===== src/Gateway/Stream/Chunks.antt =====
-- The meter over the chunks of a stream that are cut between frames.
use xscope.Prelude.{
  ◌≡◌, refl, sym, ap, ◌∙◌, false, not, Bool-cases, inl, inr, Option, none, some, List, [], ◌∷◌,
  ◌++◌, Result, Result-cases, ok, is_some_and,
}
use xscope.Prelude.Text.{Text, codes}
use xscope.Gateway.Stream.{
  StreamMeter, Frame, broken, other, message, MeterError, Payload, CompletionUsage, keep_usage,
  take_payload, take_frame, decode, fail_closed, observe, trims_to, usage_eq,
}

ok_meter_inv : {a b : StreamMeter} → ◌≡◌ {A = Result MeterError StreamMeter} (ok a) (ok b) → a ≡ b
ok_meter_inv h = cc

module _ (read : Text → Option Payload) where
  keep_usage-invalid :
      (m n : StreamMeter) (u : Option (Option CompletionUsage))
      → keep_usage read m u ≡ ok n
      → n.invalid ≡ m.invalid
  keep_usage-invalid m n none h = ap (λ (v : StreamMeter). v.invalid) (sym (ok_meter_inv h))
  keep_usage-invalid m n (some none) h = cc
  keep_usage-invalid m n (some (some u)) h =
      elim (Bool-cases (is_some_and m.usage (λ p. not (usage_eq p u)))) [
        | inl e ↦ let clash = rw e at h in cc
        | inr e ↦ ap (λ (v : StreamMeter). v.invalid) (sym (ok_meter_inv (rw e at h)))
      ]

  take_payload-invalid :
      (m n : StreamMeter) (p : Option Payload)
      → take_payload read m p ≡ ok n
      → n.invalid ≡ m.invalid
  take_payload-invalid m n none h = cc
  take_payload-invalid m n (some p) h = elim (Bool-cases p.has_error) [
    | inl e ↦ let clash = rw e at h in cc
    | inr e ↦ keep_usage-invalid m n p.usage (rw e at h)
  ]

  -- A frame that is accepted does not make the meter invalid.
  take_frame-invalid :
      (m n : StreamMeter) (frame : Frame) → take_frame read m frame ≡ ok n → n.invalid ≡ m.invalid
  unfolding take_frame
  take_frame-invalid m n broken h = cc
  take_frame-invalid m n other h = ap (λ (v : StreamMeter). v.invalid) (sym (ok_meter_inv h))
  take_frame-invalid m n (message text) h = elim (Bool-cases m.done) [
    | inl e ↦ let clash = rw e at h in cc
    | inr e ↦ elim (Bool-cases (trims_to (codes "[DONE]") [] text)) [
      | inl t ↦ ap (λ (v : StreamMeter). v.invalid) (sym (ok_meter_inv (rw (e, t) at h)))
      | inr t ↦ take_payload-invalid m n (read text) (simp (e, t) at h)
    ]
  ]

  decode-append :
      (a b : List Frame) (m : StreamMeter)
      → m.invalid ≡ false
      → (fail_closed read (decode read (a ++ b) m)).1
        ≡ (observe read b (fail_closed read (decode read a m)).1).1
  unfolding observe decode
  decode-append [] b m valid = rw valid
  decode-append (frame ∷ a) b m valid = elim (Result-cases (take_frame read m frame)) [
    | inl (why, e) ↦ rw e refl
    | inr (n, e) ↦ rw e (decode-append a b n (take_frame-invalid m n frame e ∙ valid))
  ]

  -- The meter is the same whether frames are observed at once or in two chunks, at any cut, also
  -- where a chunk fails.
  pub observe-append :
      (a b : List Frame) (m : StreamMeter)
      → (observe read (a ++ b) m).1 ≡ (observe read b (observe read a m).1).1
  unfolding observe
  observe-append a b m = elim (Bool-cases m.invalid) [
    | inl e ↦ simp e refl
    | inr e ↦ simp e (decode-append a b m e)
  ]
