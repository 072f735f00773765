-- ===== src/Admission/System/Liveness.antt =====
-- The admission controller does not stall: while requests of a model wait and none runs, the next turn
-- of one of them ends its wait.
use inference_x.Prelude.{ℕ, ◌+◌, ◌<◌, String, ◌≡◌, refl, ap, ◌∙◌, Option, some, List, ◌∷◌, arith}
use inference_x.Prelude.Dict
use inference_x.Admission.{AdmissionResult, Config, effective_max_num_seqs}
use inference_x.Admission.Semaphore
use inference_x.Admission.Semaphore.Order.{Attended, pendings}
use inference_x.Admission.Semaphore.Permits.{permits, at_hand}
use inference_x.Admission.Semaphore.Tickets.{holder, Awake, resume-Awake}
use inference_x.Admission.Gates.{Verdict, pass, reject}
use inference_x.Admission.Admit
use inference_x.Admission.Admit.{Progress, admitted, turned_away, parked, Interrupt}
use inference_x.Admission.Admit.Books.{there}
use inference_x.Admission.Admit.Lines.{line_of}
use inference_x.Admission.Admit.Queues.{Ended, resume-Ended}
use inference_x.Admission.System.{
  waiting, Task, System, Event, resume, boot, take, settle, resume_task, step, run, held,
}
use inference_x.Admission.System.Books.{reachable-Inv}
use inference_x.Admission.System.Lines.Steps.{reachable-Lined}
use inference_x.Admission.System.Tasks.{WaitsFor, take-ticket}

-- The call of `admit` of a ticket ends at an event: its verdict is new in the log.
abbrev pub EndsWait : Config → System → ℕ → Type 0
EndsWait c s t = (v : Verdict AdmissionResult) × ((step c s (resume t)).log ≡ (t, v) ∷ s.log)

settle-log :
    (s : System) (x : Task) (others : List Task) (p : Progress)
    → Ended p
    → (v : Verdict AdmissionResult) × ((settle s x others p).log ≡ (x.ticket, v) ∷ s.log)
unfolding settle
settle-log s x others (admitted a ctl) e = (pass a, refl)
settle-log s x others (turned_away r ctl) e = (reject r, refl)
settle-log s x others (parked ctl) e = absurd e

-- Where no permit is held and there is one, a waiter has it, if somebody waits.
some_permit :
    (s : Semaphore.Semaphore) (n h : ℕ)
    → s.bound ≡ n
    → 0 < n
    → at_hand s + h ≡ s.bound
    → h ≡ 0
    → Attended s
    → 0 < pendings s.queue
    → 0 < permits s.queue
some_permit s n h b pos_n sum zero_h attended waits =
    ground (arith, attended waits, b, pos_n, sum, zero_h)

step-resume :
    (c : Config) (s : System) (t : ℕ) (x : Task) (others : List Task) (why : Option Interrupt)
    → take t s.tasks ≡ some (x, others)
    → x.stage ≡ waiting why
    → step c s (resume t)
      ≡ settle s x others (Admit.resume c s.controller x.ticket x.model x.request x.engine why)
unfolding step resume_task
step-resume c s t x others why found stage = rw (found, step) (ap (resume_task c s x others) stage)

resume-EndsWait :
    (c : Config) (s : System) (m : String) (sem : Semaphore.Semaphore) (t : ℕ)
    → Dict.get s.controller.semaphores m ≡ some sem
    → Awake (Semaphore.resume sem t)
    → WaitsFor s.tasks m t
    → EndsWait c s t
resume-EndsWait c s m sem t e awake (x, others, why, found, of_m, stage) =
    let here = take-ticket t s.tasks x others found in
    let p = Admit.resume c s.controller x.ticket x.model x.request x.engine why in
    let ended : Ended p =
      resume-Ended c x.model x.request x.engine s.controller x.ticket why sem (rw of_m e)
        (rw here awake) in
    let (v, l) = settle-log s x others p ended in
    (
      v,
      ap (λ z. z.log) (step-resume c s t x others why found stage)
          ∙ l
          ∙ ap (λ k. (k, v) ∷ s.log) here,
    )

-- In every state that a history of events reaches: when a model has a ceiling of at least one, none of
-- its requests runs and one of them waits for a permit, then some waiting request of the model is such
-- that its next turn ends its call of `admit`, with a result or an error.
pub waiters_progress :
    (c : Config) (es : List Event) (m : String) (n : ℕ) (sem : Semaphore.Semaphore)
    → effective_max_num_seqs c m ≡ some n
    → 0 < n
    → Dict.get (run c boot es).controller.semaphores m ≡ some sem
    → 0 < pendings sem.queue
    → held (run c boot es).tasks m ≡ 0
    → (t : ℕ) × WaitsFor (run c boot es).tasks m t × EndsWait c (run c boot es) t
waiters_progress c es m n sem ceiling pos_n e waits idle =
    let s = run c boot es in
    let ok = there c m _ _ sem ((reachable-Inv c es).books.sems m) e in
    let lined = reachable-Lined c es in
    let line = line_of _ (lined.line m) sem (lined.lines m) e in
    let bound_n : sem.bound ≡ n = ground (arith, ok.0, ceiling) in
    let (t, f, rest, w, r, awake) =
      holder (WaitsFor s.tasks m) sem.queue (rw line.1 (lined.distinct m))
        (rw line.1 (lined.owned m))
        (some_permit sem n (held s.tasks m) bound_n pos_n ok.1 idle line.0 waits) in
    (t, w, resume-EndsWait c s m sem t e (resume-Awake sem t f rest r awake) w)
