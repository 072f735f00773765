-- ===== src/Admission/Admit.antt =====
-- `AdmissionController.admit` and `release`, cut at the one suspension: the wait for a sequence slot
-- in gate 1. `start` runs up to there, `resume` from there; both go on to gates 2 and 3 and the
-- commit without another suspension. A request is known by a ticket. The waits are positive: a
-- timeout of zero, which asyncio treats apart, is not modelled.
pub mod Books
pub mod Balance
pub mod Later
pub mod Limits
pub mod Lines
pub mod Queues
use inference_x.Prelude.{
  ℕ, ◌*◌, String, Bool, true, false, Option, none, some, List, [], ◌∷◌, leb, if◌then◌else◌,
}
use inference_x.Prelude.Dict
use inference_x.Prelude.Int.{pos, negsuc}
use inference_x.Schemas.{ChatCompletionRequest, ResponseWarning, Priority, interactive, batch}
use inference_x.Admission.{
  AdmitError, engine_saturated, cancelled_error, released_too_often, AdmissionResult, Engine,
  Config, Controller, effective_max_num_seqs, get_semaphore, set_semaphore, sequence_gate_skipped,
}
use inference_x.Admission.Semaphore
use inference_x.Admission.Semaphore.{
  Attempt, acquired, suspended, Resumption, asleep, granted, refused,
}
use inference_x.Admission.Counter
use inference_x.Admission.Counter.{current, add, minus}
use inference_x.Admission.Gates.{Verdict, pass, reject, gates, is_batch}

-- Where a run of `admit` stands when it returns, raises or suspends.
pub data Progress : Type 0 where
  admitted : AdmissionResult → Controller → Progress
  turned_away : AdmitError → Controller → Progress
  parked : Controller → Progress

-- `sem.release()`; `none` is the ValueError of a semaphore that is released too often.
unfoldable pub release_permit : Controller → String → Option Controller
release_permit ctl model = elim (Dict.get ctl.semaphores model) [
  | none ↦ some ctl
  | some s ↦ elim (Semaphore.release s) [
    | none ↦ none
    | some s' ↦ some (set_semaphore ctl model s')
  ]
]

-- Gates 2 and 3 and the commit; a rejection gives the permit back, if one was acquired.
unfoldable pub after_gate_1 :
    Config
    → Controller
    → String
    → ChatCompletionRequest
    → Engine
    → Bool
    → List ResponseWarning
    → Progress
unfolding release_permit
after_gate_1 c ctl model request engine gated warnings =
    elim (gates c (current ctl.tracker model) model request engine warnings) [
      | pass a ↦ admitted a (record ctl { tracker = add ctl.tracker model (pos a.reserved_tokens) })
      | reject e ↦
          if gated
          then elim (release_permit ctl model) [
            | none ↦ turned_away released_too_often ctl
            | some ctl' ↦ turned_away e ctl'
          ]
          else turned_away e ctl
    ]

abbrev pub count_waiter : Controller → String → Controller
count_waiter ctl model = record ctl { batch_waiters = add ctl.batch_waiters model (pos 1) }

abbrev pub uncount_waiter : Controller → String → Controller
uncount_waiter ctl model = record ctl { batch_waiters = add ctl.batch_waiters model (minus 1) }

-- The batch branch of gate 1 counts its waiter in a `try`/`finally`; interactive counts none.
abbrev pub enter_queue : Priority → Controller → String → Controller
enter_queue batch ctl model = count_waiter ctl model
enter_queue interactive ctl model = ctl

abbrev pub leave_queue : Priority → Controller → String → Controller
leave_queue batch ctl model = uncount_waiter ctl model
leave_queue interactive ctl model = ctl

-- The bounded wait queue of batch requests.
abbrev pub queue_full : Config → Controller → String → ℕ → Priority → Bool
queue_full c ctl model n batch =
    leb (c.batch_waiter_multiplier * n) (current ctl.batch_waiters model)
queue_full c ctl model n interactive = false

unfoldable pub gate_1 :
    Config → Controller → ℕ → String → ChatCompletionRequest → Engine → ℕ → Progress
unfolding after_gate_1
gate_1 c ctl ticket model request engine n =
    let entered = enter_queue request.priority ctl model in
    if queue_full c ctl model n request.priority
    then turned_away (engine_saturated 1) ctl
    else elim (Semaphore.acquire (get_semaphore ctl model n) ticket) [
      | acquired s ↦
          after_gate_1 c (leave_queue request.priority (set_semaphore entered model s) model) model
            request engine true []
      | suspended s ↦ parked (set_semaphore entered model s)
    ]

-- `admit` up to its result or its suspension.
unfoldable pub start : Config → Controller → ℕ → String → ChatCompletionRequest → Engine → Progress
unfolding gate_1
start c ctl ticket model request engine = elim (effective_max_num_seqs c model) [
  | none ↦ after_gate_1 c ctl model request engine false (sequence_gate_skipped ∷ [])
  | some n ↦ gate_1 c ctl ticket model request engine n
]

-- Why a wait ends without a slot.
pub data Interrupt : Type 0 where
  timed_out cancelled_outside : Interrupt

abbrev pub interrupt_error : Option Interrupt → AdmitError
interrupt_error (some timed_out) = engine_saturated 1
interrupt_error _ = cancelled_error

-- The task of a suspended request runs again.
unfoldable pub resume :
    Config → Controller → ℕ → String → ChatCompletionRequest → Engine → Option Interrupt → Progress
unfolding after_gate_1
resume c ctl ticket model request engine why = elim (Dict.get ctl.semaphores model) [
  | none ↦ parked ctl
  | some s ↦ elim (Semaphore.resume s ticket) [
    | asleep ↦ parked ctl
    | granted s' ↦
        after_gate_1 c (leave_queue request.priority (set_semaphore ctl model s') model) model
          request engine true []
    | refused s' ↦
        turned_away (interrupt_error why)
          (leave_queue request.priority (set_semaphore ctl model s') model)
  ]
]

-- The timeout, or a cancellation from outside, reaches the future of a suspended request.
unfoldable pub interrupt : Controller → ℕ → String → Controller
interrupt ctl ticket model = elim (Dict.get ctl.semaphores model) [
  | none ↦ ctl
  | some s ↦ set_semaphore ctl model (record s { queue = Semaphore.cancel ticket s.queue })
]

-- `release(routed_model, reserved_tokens)`
unfoldable pub release : Controller → String → ℕ → Option Controller
unfolding release_permit
release ctl model reserved_tokens =
    release_permit (record ctl { tracker = add ctl.tracker model (minus reserved_tokens) }) model
