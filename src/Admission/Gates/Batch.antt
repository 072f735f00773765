-- ===== src/Admission/Gates/Batch.antt =====
-- A batch request is never given less than it asked for.
use inference_x.Prelude.{ℕ, ◌≡◌, ◌∙◌, String, Bool, Option, none, some, List, arith}
use inference_x.Schemas.{ChatCompletionRequest, Fraction, batch, ResponseWarning}
use inference_x.Admission.{AdmissionResult, Config, Engine}
use inference_x.Admission.Gates.{pass, gates, context_gate, kv_gate, requested_output}
use inference_x.Admission.Gates.Bounds.{gates-Passed}

context_gate_batch :
    (ceiling prompt requested : ℕ) (s : Bool) (ws : List ResponseWarning)
    (r : ℕ × List ResponseWarning)
    → context_gate ceiling prompt requested batch s ws ≡ pass r
    → (r.0 ≡ requested) × (r.1 ≡ ws)
unfolding context_gate
context_gate_batch ceiling prompt requested s ws r e = ground (arith, e)

kv_gate_batch :
    (k : Option ℕ) (m : Fraction) (now prompt output : ℕ) (s : Bool) (ws : List ResponseWarning)
    (r : ℕ × List ResponseWarning)
    → kv_gate k m now prompt output batch s ws ≡ pass r
    → r.0 ≡ output
unfolding kv_gate
kv_gate_batch none m now prompt output s ws r e = ground (arith, e)
kv_gate_batch (some kv) m now prompt output s ws r e = ground (arith, e)

-- A batch request that passes the gates gets all of the output that it asked for: under pressure it is
-- rejected, never clamped.
pub gates-batch :
    (c : Config) (now : ℕ) (model : String) (engine : Engine) (ws : List ResponseWarning)
    (request : ChatCompletionRequest) (a : AdmissionResult)
    → gates c now model (record request { priority = batch }) engine ws ≡ pass a
    → a.effective_max_tokens ≡ requested_output request
unfolding requested_output
gates-batch c now model engine ws request a e =
    let q = record request { priority = batch } in
    let g = gates-Passed c now model q engine ws a e in
    kv_gate_batch _ _ _ _ _ _ _ _ g.by_budget ∙ (context_gate_batch _ _ _ _ _ _ g.by_context).0
