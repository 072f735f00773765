-- ===== src/Tests/Admitting.antt =====
-- Admission: two requests of a model with one slot, the second of them waiting for it.
use inference_x.Prelude.{
  ℕ, ◌≡◌, ◌≤◌, ◌*◌, ◌+◌, ◌↔◌, refl, true, false, some, List, [], ◌∷◌, arith, ltb,
}
use inference_x.Prelude.Dict
use inference_x.Registry
use inference_x.Admission.Counter
use inference_x.Admission.{
  context_ceiling, get_semaphore, AdmissionResult, effective_max_num_seqs, prompt_tokens,
  max_tokens_clamped_to_kv_budget,
}
use inference_x.Admission.Counter.{current}
use inference_x.Admission.Semaphore
use inference_x.Admission.Semaphore.Permits.{at_hand}
use inference_x.Admission.Admit.{start, gate_1, after_gate_1, release, release_permit}
use inference_x.Admission.Gates.{
  pass, gates, context_gate, kv_gate, requested_output, request_ceiling,
}
use inference_x.Admission.Gates.Bounds.{gates-fits, gates-budget}
use inference_x.Schemas.{batch, ChatCompletionRequest}
use inference_x.Admission.Gates.Batch.{gates-batch}
use inference_x.Admission.Gates.Strict.{gates-warns, strict_iff, any_substituted}
use inference_x.Admission.System.{
  step, take, settle, finish_task, Event, arrive, resume, finish, boot, run, held, reserved, queued,
  of_model,
}
use inference_x.Admission.System.Books.{Clean}
use inference_x.Admission.System.Safety.{
  running-le-ceiling, counters_exact, nothing_leaks, no_over_release,
}
use inference_x.Admission.System.Budget.{kv_budget_kept}
use inference_x.Admission.Semaphore.{woken, pending}
use inference_x.Admission.System.Tasks.{WaitsFor}
use inference_x.Admission.System.Liveness.{EndsWait, waiters_progress}
use inference_x.Admission.System.Limits.{batch_queue_bounded}
use inference_x.Tests.{config, engine, modest, patient, greedy, as_asked, asking}

abbrev busy : List Event
busy = arrive 0 "small" modest engine ∷ arrive 1 "small" patient engine ∷ []

abbrev handed_on : List Event
handed_on =
    arrive 0 "small" modest engine ∷ arrive 1 "small" patient engine ∷ finish 0 ∷ resume 1 ∷ []

abbrev over : List Event
over = arrive 0 "small" modest engine ∷ finish 0 ∷ []

-- The model's own limit of one sequence, below the tier's.
ceiling : effective_max_num_seqs config "small" ≡ some 1
unfolding effective_max_num_seqs Registry.get Registry.contains Dict.get Dict.has
ceiling = refl

running-le-ceiling_example : held (run config boot handed_on).tasks "small" ≤ 1
running-le-ceiling_example = running-le-ceiling config handed_on "small" 1 ceiling

counters_exact_example :
    (current (run config boot busy).controller.tracker "small"
      ≡ reserved (run config boot busy).tasks "small")
    × (current (run config boot busy).controller.batch_waiters "small"
        ≡ queued (run config boot busy).tasks "small")
counters_exact_example = counters_exact config busy "small"

batch_queue_bounded_example : queued (run config boot busy).tasks "small" ≤ 2 * 1
batch_queue_bounded_example = batch_queue_bounded config busy "small" 1 ceiling

no_over_release_example : Clean (run config boot over).log
no_over_release_example = no_over_release config over

kv_budget_kept_example : reserved (run config boot handed_on).tasks "small" * 10 ≤ 1000 * 9
kv_budget_kept_example =
    kv_budget_kept config (λ m. 1000) handed_on "small" (omega arith) (refl, (refl, (tt, (tt, tt))))

abbrev freed : Semaphore.Semaphore
freed = record { bound = 1; value = 1; queue = [] }

idle : of_model (λ x. 1) (run config boot over).tasks "small" ≡ 0
unfolding run step take settle finish_task start gate_1 after_gate_1 release release_permit
    effective_max_num_seqs get_semaphore gates context_gate kv_gate requested_output request_ceiling
    context_ceiling prompt_tokens Counter.add Counter.current Counter.empty Semaphore.create
    Semaphore.acquire Semaphore.locked Semaphore.release Registry.get Registry.contains Dict.get
    Dict.has Dict.put Semaphore.wake_first
idle = refl

freed_after : Dict.get (run config boot over).controller.semaphores "small" ≡ some freed
unfolding run step take settle finish_task start gate_1 after_gate_1 release release_permit
    effective_max_num_seqs get_semaphore gates context_gate kv_gate requested_output request_ceiling
    context_ceiling prompt_tokens Counter.add Counter.current Counter.empty Semaphore.create
    Semaphore.acquire Semaphore.locked Semaphore.release Registry.get Registry.contains Dict.get
    Dict.has Dict.put Semaphore.wake_first
freed_after = refl

nothing_leaks_example :
    (current (run config boot over).controller.tracker "small" ≡ 0)
    × (current (run config boot over).controller.batch_waiters "small" ≡ 0)
    × (at_hand freed ≡ 1)
nothing_leaks_example = nothing_leaks config over "small" freed idle freed_after

-- The engine is asked for 1000 tokens, and gives 800.
abbrev clamped : AdmissionResult
clamped = record {
  effective_max_tokens = 800;
  reserved_tokens = 900;
  warnings = max_tokens_clamped_to_kv_budget ∷ [];
}

greedy-clamped : gates config 0 "small" greedy engine [] ≡ pass clamped
unfolding gates context_gate kv_gate requested_output request_ceiling context_ceiling prompt_tokens
    Registry.get Registry.contains Dict.get Dict.has
greedy-clamped = refl

gates-warns_example : any_substituted clamped.warnings ≡ ltb 800 (requested_output greedy)
gates-warns_example =
    gates-warns config 0 "small" engine [] greedy clamped (omega arith) refl greedy-clamped

gates-fits_example :
    ((prompt_tokens engine greedy).0 + 800 ≤ request_ceiling config "small" greedy)
    × (800 ≤ requested_output greedy)
    × (900 ≡ (prompt_tokens engine greedy).0 + 800)
    × ((own : ℕ)
        → greedy.max_context_tokens ≡ some own
        → (prompt_tokens engine greedy).0 + 800 ≤ own)
gates-fits_example =
    gates-fits config 0 "small" greedy engine [] clamped (omega arith) greedy-clamped

gates-budget_example : (0 + 900) * 10 ≤ 1000 * 9
gates-budget_example =
    gates-budget config 0 "small" greedy engine [] clamped 1000 (omega arith) refl greedy-clamped

strict_iff_example :
    (gates config 0 "small" (record modest { strict = true }) engine [] ≡ pass as_asked) ↔ (
      (gates config 0 "small" (record modest { strict = false }) engine [] ≡ pass as_asked)
      × (300 ≡ requested_output modest))
strict_iff_example = strict_iff config 0 "small" engine [] modest as_asked (omega arith) refl

patient-passes :
    gates config 0 "small" (record patient { priority = batch }) engine [] ≡ pass as_asked
unfolding gates context_gate kv_gate requested_output request_ceiling context_ceiling prompt_tokens
    Registry.get Registry.contains Dict.get Dict.has
patient-passes = refl

gates-batch_example : 300 ≡ requested_output patient
gates-batch_example = gates-batch config 0 "small" engine [] patient as_asked patient-passes

-- As many tokens as `greedy`, in batch.
abbrev greedy_batch : ChatCompletionRequest
greedy_batch = asking (some 1000) batch

-- One request has left, the next is handed its permit, and a third still waits.
abbrev handing_on : List Event
handing_on =
    arrive 0 "small" modest engine
    ∷ arrive 1 "small" modest engine
    ∷ arrive 2 "small" modest engine
    ∷ finish 0
    ∷ []

abbrev two_waiting : Semaphore.Semaphore
two_waiting = record {
  bound = 1;
  value = 0;
  queue = record { ticket = 1; future = woken } ∷ record { ticket = 2; future = pending } ∷ [];
}

two_wait : Dict.get (run config boot handing_on).controller.semaphores "small" ≡ some two_waiting
unfolding run step take settle finish_task start gate_1 after_gate_1 release release_permit
    effective_max_num_seqs get_semaphore gates context_gate kv_gate requested_output request_ceiling
    context_ceiling prompt_tokens Counter.add Counter.current Counter.empty Semaphore.create
    Semaphore.acquire Semaphore.locked Semaphore.release Registry.get Registry.contains Dict.get
    Dict.has Dict.put Semaphore.wake_first
two_wait = refl

none_runs : held (run config boot handing_on).tasks "small" ≡ 0
unfolding run step take settle finish_task start gate_1 after_gate_1 release release_permit
    effective_max_num_seqs get_semaphore gates context_gate kv_gate requested_output request_ceiling
    context_ceiling prompt_tokens Counter.add Counter.current Counter.empty Semaphore.create
    Semaphore.acquire Semaphore.locked Semaphore.release Registry.get Registry.contains Dict.get
    Dict.has Dict.put Semaphore.wake_first
none_runs = refl

waiters_progress_example :
    (t : ℕ) × WaitsFor (run config boot handing_on).tasks "small" t
    × EndsWait config (run config boot handing_on) t
waiters_progress_example =
    waiters_progress config handing_on "small" 1 two_waiting ceiling (omega arith) two_wait
      (omega arith) none_runs
