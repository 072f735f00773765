-- ===== src/Admission/System/Books.antt =====
-- The books balance in every reachable state of the system.
use inference_x.Prelude.{
  ℕ, ◌+◌, String, ◌≡◌, refl, sym, ◌≢◌, inl, inr, Option, none, some, List, [], ◌∷◌, total, arith,
  Option-cases, All,
}
use inference_x.Prelude.Dict
use inference_x.Admission.{released_too_often, AdmissionResult, Config, Controller}
use inference_x.Admission.Counter.{current-empty}
use inference_x.Admission.Gates.{Verdict, reject}
use inference_x.Admission.Admit.{Progress, admitted, turned_away, parked, Interrupt}
use inference_x.Admission.Admit.Books.{bump, waits, Balanced}
use inference_x.Admission.Admit.Balance.{After, start-After}
use inference_x.Admission.Admit.Later.{resume-After, interrupt-Balanced, release-Balanced}
use inference_x.Admission.System.{
  Stage, waiting, running, Task, System, Event, arrive, interrupt, resume, finish, boot, take,
  settle, fresh, interrupt_task, resume_task, finish_task, step, run, merge, held, reserved, queued,
}

pub Balanced-ext :
    (c : Config) (ctl : Controller) {h h' r r' q q' : String → ℕ}
    → ((m : String) → h m ≡ h' m)
    → ((m : String) → r m ≡ r' m)
    → ((m : String) → q m ≡ q' m)
    → Balanced c ctl h r q
    → Balanced c ctl h' r' q'
Balanced-ext c ctl eh er eq b = record {
  sems = λ m. rw (← eh m) (b.sems m);
  tokens = λ m. rw (← er m) (b.tokens m);
  waiters = λ m. rw (← eq m) (b.waiters m);
}

-- A call of `admit` never ends with the error of a semaphore that is released too often.
abbrev pub Clean : List (ℕ × Verdict AdmissionResult) → Type 0
Clean = All (λ e. e.1 ≢ reject released_too_often)

pub record Inv (c : Config) (s : System) : Type 0 where
  pub books : Balanced c s.controller (held s.tasks) (reserved s.tasks) (queued s.tasks)
  pub clean : Clean s.log

pub total-take :
    (w : Task → ℕ) (t : ℕ) (ts : List Task) {x : Task} {others : List Task}
    → take t ts ≡ some (x, others)
    → total w ts ≡ w x + total w others
unfolding take
total-take w t [] e = cc
total-take w t (y ∷ ys) e = elim (Option-cases (take t ys)) [
  | inl n ↦ ground (arith, n)
  | inr ((z, zs), h) ↦ ground (arith, h, total-take w t ys h)
]

module _ (c : Config) (x : Task) (others : List Task) where
  waiting_held :
      (w : Option Interrupt)
      → x.stage ≡ waiting w
      → (m : String) → held (x ∷ others) m ≡ held others m
  waiting_held w e m = ground (arith, e)

  pub waiting_reserved :
      (w : Option Interrupt)
      → x.stage ≡ waiting w
      → (m : String) → reserved (x ∷ others) m ≡ reserved others m
  waiting_reserved w e m = ground (arith, e)

  pub waiting_queued :
      (w : Option Interrupt)
      → x.stage ≡ waiting w
      → (m : String)
      → queued (x ∷ others) m ≡ bump x.model (waits x.request.priority) (queued others) m
  waiting_queued w e m = ground (arith, e)

  running_held :
      (a : AdmissionResult)
      → x.stage ≡ running a
      → (m : String) → held (x ∷ others) m ≡ bump x.model 1 (held others) m
  running_held a e m = ground (arith, e)

  pub running_reserved :
      (a : AdmissionResult)
      → x.stage ≡ running a
      → (m : String) → reserved (x ∷ others) m ≡ bump x.model a.reserved_tokens (reserved others) m
  running_reserved a e m = ground (arith, e)

  pub running_queued :
      (a : AdmissionResult)
      → x.stage ≡ running a
      → (m : String) → queued (x ∷ others) m ≡ queued others m
  running_queued a e m = ground (arith, e)

settle-Inv :
    (c : Config) (s : System) (x : Task) (others : List Task) (w : Option Interrupt)
    → x.stage ≡ waiting w
    → Clean s.log
    → (p : Progress)
    → After c (held others) (reserved others) (queued others) x.model x.request.priority p
    → Inv c (settle s x others p)
unfolding settle
settle-Inv c s x others w e log (admitted a ctl) b =
    let y : Task = record x { stage = running a } in
    record {
      books =
          Balanced-ext c ctl (λ m. sym (running_held c y others a refl m))
            (λ m. sym (running_reserved c y others a refl m))
            (λ m. sym (running_queued c y others a refl m)) b;
      clean = (λ h. cc, log);
    }
settle-Inv c s x others w e log (turned_away r ctl) b = record {
  books = b.0;
  clean = (λ h. b.1 (cc), log);
}
settle-Inv c s x others w e log (parked ctl) b = record {
  books =
      Balanced-ext c ctl (λ m. sym (waiting_held c x others w e m))
        (λ m. sym (waiting_reserved c x others w e m)) (λ m. sym (waiting_queued c x others w e m))
        b;
  clean = log;
}

module _ (c : Config) (s : System) (t : ℕ) (x : Task) (others : List Task)
    (found : take t s.tasks ≡ some (x, others)) (inv : Inv c s) where
  -- The books with the task moved to the front.
  front : Balanced c s.controller (held (x ∷ others)) (reserved (x ∷ others)) (queued (x ∷ others))
  front =
      Balanced-ext c s.controller (λ m. total-take _ t s.tasks found)
        (λ m. total-take _ t s.tasks found) (λ m. total-take _ t s.tasks found) inv.books

  waiting_front :
      (w : Option Interrupt)
      → x.stage ≡ waiting w
      → Balanced c s.controller
          (held others)
          (reserved others)
          (bump x.model (waits x.request.priority) (queued others))
  waiting_front w e =
      Balanced-ext c s.controller (waiting_held c x others w e) (waiting_reserved c x others w e)
        (waiting_queued c x others w e) front

  interrupt_task-Inv :
      (why : Interrupt) (st : Stage) → x.stage ≡ st → Inv c (interrupt_task s x others st why)
  unfolding interrupt_task
  interrupt_task-Inv why (running a) e = inv
  interrupt_task-Inv why (waiting w) e =
      let y : Task = record x { stage = waiting (some (merge w why)) } in
      record {
        books = interrupt-Balanced c s.controller x.ticket x.model _ _ _ (
            Balanced-ext c s.controller (λ m. sym (waiting_held c y others _ refl m))
              (λ m. sym (waiting_reserved c y others _ refl m))
              (λ m. sym (waiting_queued c y others _ refl m)) (waiting_front w e));
        clean = inv.clean;
      }

  resume_task-Inv : (st : Stage) → x.stage ≡ st → Inv c (resume_task c s x others st)
  unfolding resume_task
  resume_task-Inv (running a) e = inv
  resume_task-Inv (waiting w) e = settle-Inv c s x others w e inv.clean _ (
      resume-After c x.model x.request x.engine (held others) (reserved others) (queued others)
        s.controller x.ticket w (waiting_front w e))

  finish_task-Inv : (st : Stage) → x.stage ≡ st → Inv c (finish_task s x others st)
  unfolding finish_task
  finish_task-Inv (waiting w) e = inv
  finish_task-Inv (running a) e =
      let (ctl, r, b) =
        release-Balanced c s.controller x.model a.reserved_tokens (held others) (reserved others)
          (queued others)
          (Balanced-ext c s.controller (running_held c x others a e)
            (running_reserved c x others a e) (running_queued c x others a e) front) in
      rw (r, finish_task) (record { books = b; clean = inv.clean })

-- Every event keeps the books, whichever requests are in flight and however their waits end.
pub step-Inv : (c : Config) (s : System) (e : Event) → Inv c s → Inv c (step c s e)
unfolding step
step-Inv c s (arrive t m r e) inv = elim (Option-cases (take t s.tasks)) [
  | inr (_, h) ↦ rw (h, step) inv
  | inl h ↦
      rw (h, step)
        (settle-Inv c s (fresh t m r e) s.tasks none refl inv.clean _
          (start-After c m r e _ _ _ s.controller t inv.books))
]
step-Inv c s (interrupt t why) inv = elim (Option-cases (take t s.tasks)) [
  | inl h ↦ rw (h, step) inv
  | inr ((x, others), h) ↦ rw (h, step) (interrupt_task-Inv c s t x others h inv why x.stage refl)
]
step-Inv c s (resume t) inv = elim (Option-cases (take t s.tasks)) [
  | inl h ↦ rw (h, step) inv
  | inr ((x, others), h) ↦ rw (h, step) (resume_task-Inv c s t x others h inv x.stage refl)
]
step-Inv c s (finish t) inv = elim (Option-cases (take t s.tasks)) [
  | inl h ↦ rw (h, step) inv
  | inr ((x, others), h) ↦ rw (h, step) (finish_task-Inv c s t x others h inv x.stage refl)
]

pub boot-Inv : (c : Config) → Inv c boot
unfolding Dict.get
boot-Inv c = record {
  books = record {
    sems = λ m. inr refl;
    tokens = λ m. current-empty m;
    waiters = λ m. current-empty m;
  };
  clean = tt;
}

pub run-Inv : (c : Config) (s : System) (es : List Event) → Inv c s → Inv c (run c s es)
unfolding run
run-Inv c s [] inv = inv
run-Inv c s (e ∷ es) inv = run-Inv c (step c s e) es (step-Inv c s e inv)

-- After any history of events from the start, the books balance and no release has failed.
pub reachable-Inv : (c : Config) (es : List Event) → Inv c (run c boot es)
reachable-Inv c es = run-Inv c boot es (boot-Inv c)
