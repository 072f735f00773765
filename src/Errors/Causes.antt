-- ===== src/Errors/Causes.antt =====
-- Why a request gets the answer that it gets when gates 2 and 3 refuse it.
use inference_x.Prelude.{ℕ, ◌+◌, ◌*◌, ◌<◌, ◌≡◌, ◌⊎◌, Bool, true, Option, none, some}
use inference_x.Schemas.{Fraction, Priority, batch}
use inference_x.Admission.{AdmitError, min_clamped_output_tokens}
use inference_x.Errors.{ErrorResponse, answer}

abbrev pub bad_request : ErrorResponse
bad_request = record { status_code = 400; kind = "invalid_request_error"; retry_after = none }

abbrev pub too_many_requests : ErrorResponse
too_many_requests = record { status_code = 429; kind = "rate_limit_error"; retry_after = some 1 }

-- The prompt and the requested output do not fit the context, and the output may not be clamped: for a
-- batch or a strict request, or because fewer than the least clamped tokens would be left.
abbrev pub ContextRefusal : ℕ → ℕ → ℕ → Priority → Bool → AdmitError → Type 0
ContextRefusal ceiling prompt requested p s e =
    (ceiling < prompt + requested)
    × (answer e ≡ some bad_request)
    × ((p ≡ batch) ⊎ ((ceiling < prompt + min_clamped_output_tokens) ⊎ (s ≡ true)))

-- Prompt and output do not fit what is left of the KV budget, and the output may not be clamped: a
-- strict interactive request is bad then, and for others the engine is saturated.
abbrev pub KvRefusal : Option ℕ → Fraction → ℕ → ℕ → ℕ → Priority → Bool → AdmitError → Type 0
KvRefusal kv margin now prompt output p s e =
    (capacity : ℕ) × (kv ≡ some capacity)
    × (capacity * margin.num < (now + prompt) * margin.den + output * margin.den)
    × (((answer e ≡ some too_many_requests)
          × ((p ≡ batch)
              ⊎ (capacity * margin.num
                  < (now + prompt) * margin.den + min_clamped_output_tokens * margin.den)))
        ⊎ ((answer e ≡ some bad_request) × (s ≡ true)))
