-- ===== src/Gateway/Stream.antt =====
-- rust/crates/gateway/src/streaming.rs: the meter that observes a streamed response. The SSE codec
-- yields the frames of the bytes; `read` is what serde_json reads of a message's data: whether it
-- has an error that is not null, and its usage, where it has one that is not null, which may fail to
-- be a usage.
pub mod Chunks
use xscope.Prelude.{
  ℕ, Bool, true, false, not, ◌&&◌, ◌||◌, Option, none, some, List, [], ◌∷◌, ◌++◌, if◌then◌else◌,
  Result, ok, err, ◌==◌, is_some_and,
}
use xscope.Prelude.Text.{Text, codes, is_blank}

pub record CompletionUsage : Type 0 where
  pub prompt_tokens : ℕ
  pub completion_tokens : ℕ

abbrev pub usage_eq : CompletionUsage → CompletionUsage → Bool
usage_eq a b = a.prompt_tokens == b.prompt_tokens && a.completion_tokens == b.completion_tokens

pub record Payload : Type 0 where
  pub has_error : Bool
  pub usage : Option (Option CompletionUsage)

-- What the codec yields: an error, an event that is no message, or a message's data.
pub data Frame : Type 0 where
  broken other : Frame
  message : Text → Frame

pub data MeterError : Type 0 where
  already_failed codec_failed after_done invalid_json provider_error : MeterError
  invalid_usage conflicting_usage : MeterError

pub record StreamMeter : Type 0 where
  pub usage : Option CompletionUsage
  pub done : Bool
  pub invalid : Bool

abbrev pub fresh_meter : StreamMeter
fresh_meter = record { usage = none; done = false; invalid = false }

abbrev pub after_prefix : Text → Text → Option Text
after_prefix [] s = some s
after_prefix (p ∷ prefix) [] = none
after_prefix (p ∷ prefix) (b ∷ s) =
    let rest = after_prefix prefix s in if p == b then rest else none

-- `s.trim() == word` of a word without spaces: blanks, the word, and blanks; `front` was read.
abbrev pub trims_to : Text → Text → Text → Bool
trims_to word front [] = is_blank front && is_some_and (after_prefix word []) is_blank
trims_to word front (b ∷ s) =
    let later = trims_to word (front ++ b ∷ []) s in
    (is_blank front && is_some_and (after_prefix word (b ∷ s)) is_blank) || later

module _ (read : Text → Option Payload) where
  abbrev pub keep_usage :
      StreamMeter → Option (Option CompletionUsage) → Result MeterError StreamMeter
  keep_usage meter none = ok meter
  keep_usage meter (some none) = err invalid_usage
  keep_usage meter (some (some usage)) =
      if is_some_and meter.usage (λ previous. not (usage_eq previous usage))
      then err conflicting_usage
      else ok (record meter { usage = some usage })

  abbrev pub take_payload : StreamMeter → Option Payload → Result MeterError StreamMeter
  take_payload meter none = err invalid_json
  take_payload meter (some payload) =
      if payload.has_error then err provider_error else keep_usage meter payload.usage

  -- One turn of the loop of `decode`.
  unfoldable pub take_frame : StreamMeter → Frame → Result MeterError StreamMeter
  take_frame meter broken = err codec_failed
  take_frame meter other = ok meter
  take_frame meter (message text) =
      if meter.done
      then err after_done
      else if trims_to (codes "[DONE]") [] text
      then ok (record meter { done = true })
      else take_payload meter (read text)

  abbrev pub proceed :
      StreamMeter
      → Result MeterError StreamMeter
      → (StreamMeter → Result MeterError (Unit {0}) × StreamMeter)
      → Result MeterError (Unit {0}) × StreamMeter
  proceed meter (err e) rest = (err e, meter)
  proceed meter (ok next) rest = rest next

  -- `decode`: a failure leaves the meter as the frames before it did.
  unfoldable pub decode : List Frame → StreamMeter → Result MeterError (Unit {0}) × StreamMeter
  unfolding take_frame
  decode [] meter = (ok tt, meter)
  decode (frame ∷ frames) meter = proceed meter (take_frame meter frame) (decode frames)

  abbrev pub fail_closed :
      Result MeterError (Unit {0}) × StreamMeter → Result MeterError (Unit {0}) × StreamMeter
  fail_closed (ok done, meter) = (ok done, meter)
  fail_closed (err e, meter) = (err e, record meter { invalid = true; usage = none })

  -- `observe`
  unfoldable pub observe : List Frame → StreamMeter → Result MeterError (Unit {0}) × StreamMeter
  unfolding decode
  observe frames meter =
      if meter.invalid then (err already_failed, meter) else fail_closed (decode frames meter)
