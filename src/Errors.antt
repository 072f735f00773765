-- ===== src/Errors.antt =====
-- src/inference_x/api/errors.py: the HTTP answer to an exception. The messages are left out.
pub mod Causes
use inference_x.Prelude.{
  ℕ, ◌≡◌, ◌⊎◌, ◌≢◌, refl, inl, inr, max, String, Option, none, some, List, [], ◌∷◌, All,
}
use inference_x.Admission.{
  AdmitError, AdmissionResult, Config, context_too_long, engine_saturated, strict_mode_violation,
  cancelled_error, released_too_often,
}
use inference_x.Admission.Gates.{Verdict, pass, reject}
use inference_x.Admission.System.{Event, boot, run}
use inference_x.Admission.System.Books.{Clean}
use inference_x.Admission.System.Safety.{no_over_release}

pub record ErrorResponse : Type 0 where
  pub status_code : ℕ
  pub kind : String
  pub retry_after : Option ℕ

unfoldable pub runtime_error_handler : ErrorResponse
runtime_error_handler = record { status_code = 500; kind = "internal_error"; retry_after = none }

unfoldable pub value_error_handler : ErrorResponse
value_error_handler = record {
  status_code = 400;
  kind = "invalid_request_error";
  retry_after = none;
}

unfoldable pub engine_saturated_error_handler : ℕ → ErrorResponse
engine_saturated_error_handler retry_after_s = record {
  status_code = 429;
  kind = "rate_limit_error";
  retry_after = some (max 1 retry_after_s);
}

-- The handler of an exception of `admit` by its class: two of them, and the semaphore's, are
-- ValueErrors. A cancelled request is not answered.
unfoldable pub answer : AdmitError → Option ErrorResponse
unfolding value_error_handler engine_saturated_error_handler
answer context_too_long = some value_error_handler
answer strict_mode_violation = some value_error_handler
answer released_too_often = some value_error_handler
answer (engine_saturated retry_after_s) = some (engine_saturated_error_handler retry_after_s)
answer cancelled_error = none
