-- ===== src/Admission/System.antt =====
-- Requests that share one admission controller. Between two suspensions a request runs alone, so the
-- interleavings are the lists of events: a request arrives, its wait is interrupted, its task runs
-- again, its engine call ends (with a response, an exception, a timeout or a disconnect alike:
-- services/chat_service.py calls `release` in a `finally`).
pub mod Books
pub mod Safety
pub mod Limits
pub mod Budget
pub mod Lines
pub mod Tasks
pub mod Liveness
use inference_x.Prelude.{
  ℕ, ◌+◌, String, ◌≡◌, Bool, true, false, Option, none, some, List, [], ◌∷◌, total, ◌==◌, str_eq,
  if◌then◌else◌,
}
use inference_x.Schemas.{ChatCompletionRequest, Priority, interactive, batch}
use inference_x.Admission.{
  AdmitError, released_too_often, AdmissionResult, Engine, Config, Controller, initial,
}
use inference_x.Admission.Gates.{Verdict, pass, reject}
use inference_x.Admission.Admit
use inference_x.Admission.Admit.{
  Progress, admitted, turned_away, parked, Interrupt, timed_out, cancelled_outside,
}

pub data Stage : Type 0 where
  waiting : Option Interrupt → Stage
  running : AdmissionResult → Stage

pub record Task : Type 0 where
  pub ticket : ℕ
  pub model : String
  pub request : ChatCompletionRequest
  pub engine : Engine
  pub stage : Stage

-- The log says how each call of `admit` ended.
pub record System : Type 0 where
  pub controller : Controller
  pub tasks : List Task
  pub log : List (ℕ × Verdict AdmissionResult)

pub data Event : Type 0 where
  arrive : ℕ → String → ChatCompletionRequest → Engine → Event
  interrupt : ℕ → Interrupt → Event
  resume : ℕ → Event
  finish : ℕ → Event

abbrev pub boot : System
boot = record { controller = initial; tasks = []; log = [] }

-- The task of a ticket, and the others.
unfoldable pub take : ℕ → List Task → Option (Task × List Task)
take t [] = none
take t (x ∷ xs) =
    let rest = take t xs in
    if x.ticket == t
    then some (x, xs)
    else elim rest [ none ↦ none | some (y, ys) ↦ some (y, x ∷ ys) ]

-- A timeout and a cancellation from outside together are a cancellation.
abbrev pub merge : Option Interrupt → Interrupt → Interrupt
merge (some cancelled_outside) why = cancelled_outside
merge _ why = why

-- Where a run of `admit` leaves its task `x` beside the other tasks.
unfoldable pub settle : System → Task → List Task → Progress → System
settle s x others (admitted a ctl) = record {
  controller = ctl;
  tasks = record x { stage = running a } ∷ others;
  log = (x.ticket, pass a) ∷ s.log;
}
settle s x others (turned_away e ctl) = record {
  controller = ctl;
  tasks = others;
  log = (x.ticket, reject e) ∷ s.log;
}
settle s x others (parked ctl) = record { controller = ctl; tasks = x ∷ others; log = s.log }

abbrev pub fresh : ℕ → String → ChatCompletionRequest → Engine → Task
fresh t m r e = record { ticket = t; model = m; request = r; engine = e; stage = waiting none }

-- An event of a task, by its stage: only a waiting task is interrupted or runs again, and only a
-- running one finishes.
unfoldable pub interrupt_task : System → Task → List Task → Stage → Interrupt → System
interrupt_task s x others (waiting w) why = record s {
  controller = Admit.interrupt s.controller x.ticket x.model;
  tasks = record x { stage = waiting (some (merge w why)) } ∷ others;
}
interrupt_task s x others (running a) why = s

unfoldable pub resume_task : Config → System → Task → List Task → Stage → System
unfolding settle
resume_task c s x others (waiting w) =
    settle s x others (Admit.resume c s.controller x.ticket x.model x.request x.engine w)
resume_task c s x others (running a) = s

unfoldable pub finish_task : System → Task → List Task → Stage → System
finish_task s x others (waiting w) = s
finish_task s x others (running a) = elim (Admit.release s.controller x.model a.reserved_tokens) [
  | none ↦ record s { tasks = others; log = (x.ticket, reject released_too_often) ∷ s.log }
  | some ctl ↦ record s { controller = ctl; tasks = others }
]

unfoldable pub step : Config → System → Event → System
unfolding settle interrupt_task resume_task finish_task
step c s (arrive t m r e) = elim (take t s.tasks) [
  | some _ ↦ s
  | none ↦ settle s (fresh t m r e) s.tasks (Admit.start c s.controller t m r e)
]
step c s (interrupt t why) = elim (take t s.tasks) [
  | none ↦ s
  | some (x, others) ↦ interrupt_task s x others x.stage why
]
step c s (resume t) = elim (take t s.tasks) [
  | none ↦ s
  | some (x, others) ↦ resume_task c s x others x.stage
]
step c s (finish t) = elim (take t s.tasks) [
  | none ↦ s
  | some (x, others) ↦ finish_task s x others x.stage
]

unfoldable pub run : Config → System → List Event → System
run c s [] = s
run c s (e ∷ es) = run c (step c s e) es

-- What the tasks of a model hold: permits, reserved tokens, places among the batch waiters.
abbrev pub stage_holds : Stage → ℕ
stage_holds (waiting w) = 0
stage_holds (running a) = 1

abbrev pub stage_reserves : Stage → ℕ
stage_reserves (waiting w) = 0
stage_reserves (running a) = a.reserved_tokens

abbrev pub stage_queues : Priority → Stage → ℕ
stage_queues batch (waiting w) = 1
stage_queues _ _ = 0

abbrev pub of_model : (Task → ℕ) → List Task → String → ℕ
of_model w ts m = total (λ x. if str_eq x.model m then w x else 0) ts

abbrev pub held : List Task → String → ℕ
held = of_model (λ x. stage_holds x.stage)

abbrev pub reserved : List Task → String → ℕ
reserved = of_model (λ x. stage_reserves x.stage)

abbrev pub queued : List Task → String → ℕ
queued = of_model (λ x. stage_queues x.request.priority x.stage)
