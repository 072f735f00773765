-- ===== src/Admission/System/Limits.antt =====
-- The bounded batch queue and the KV budget hold in every reachable state.
use inference_x.Prelude.{
  ℕ, ◌+◌, ◌*◌, ◌≤◌, String, ◌≡◌, refl, subst, eq_iff, inl, inr, Option, none, some, List, [], ◌∷◌,
  str_eq, arith, if◌then◌else◌, Bool-cases, Option-cases,
}
use inference_x.Schemas.{Priority, interactive, batch}
use inference_x.Admission.{Config}
use inference_x.Admission.Admit.{Progress, admitted, turned_away, parked, Interrupt}
use inference_x.Admission.Admit.Books.{waits}
use inference_x.Admission.System.{
  Stage, waiting, running, Task, System, Event, arrive, interrupt, resume, finish, boot, take,
  settle, fresh, interrupt_task, resume_task, finish_task, step, run, stage_queues, queued,
}
use inference_x.Admission.Counter.{current}
use inference_x.Admission.{effective_max_num_seqs}
use inference_x.Admission.System.Books.{Inv}
use inference_x.Admission.Admit.Limits.{Limited, start-Fine}
use inference_x.Admission.System.Books.{
  total-take, waiting_queued, running_queued, step-Inv, boot-Inv,
}

-- At most `batch_waiter_multiplier * max_num_seqs` batch requests of each model wait.
abbrev QueueBounded : Config → List Task → Type 0
QueueBounded c ts =
    (m : String) (n : ℕ)
    → effective_max_num_seqs c m ≡ some n
    → queued ts m ≤ c.batch_waiter_multiplier * n

waits-le : (p : Priority) → waits p ≤ 1
waits-le batch = omega arith
waits-le interactive = omega arith

settle-queued-le :
    (c : Config) (s : System) (x : Task) (others : List Task) (w : Option Interrupt) (p : Progress)
    (m : String)
    → x.stage ≡ waiting w
    → queued (settle s x others p).tasks m ≤ queued (x ∷ others) m
unfolding settle
settle-queued-le c s x others w (admitted a ctl) m e =
    omega (arith, running_queued c (record x { stage = running a }) others a refl m)
settle-queued-le c s x others w (turned_away r ctl) m e = omega arith
settle-queued-le c s x others w (parked ctl) m e = omega arith

arrive-QueueBounded :
    (c : Config) (s : System) (x : Task) (p : Progress)
    → x.stage ≡ waiting none
    → Inv c s
    → QueueBounded c s.tasks
    → Limited c x.engine s.controller x.model x.request.priority p
    → QueueBounded c (settle s x s.tasks p).tasks
unfolding settle
arrive-QueueBounded c s x (admitted a ctl) e inv q l m n h =
    omega (arith, running_queued c (record x { stage = running a }) s.tasks a refl m, q m n h)
arrive-QueueBounded c s x (turned_away r ctl) e inv q l m n h = q m n h
arrive-QueueBounded c s x (parked ctl) e inv q l m n h =
    rw (waiting_queued c x s.tasks none e m) (elim l [
      | inl i ↦ ground (arith, i, q m n h)
      | inr room ↦ elim (Bool-cases (str_eq x.model m)) [
        | inr f ↦ ground (arith, f, q m n h)
        | inl t ↦
            let here : current s.controller.batch_waiters m + 1 ≤ c.batch_waiter_multiplier * n =
              subst
                (λ k.
                  effective_max_num_seqs c k ≡ some n
                  → current s.controller.batch_waiters k + 1 ≤ c.batch_waiter_multiplier * n)
                ((eq_iff x.model m).0 t) (room n) h in
            ground (arith, t, here, inv.books.waiters m, waits-le x.request.priority)
      ]
    ])

task-QueueBounded :
    (c : Config) (s : System) (t : ℕ) (x : Task) (others : List Task) (ts : List Task)
    → take t s.tasks ≡ some (x, others)
    → ((m : String) → queued ts m ≤ queued (x ∷ others) m)
    → QueueBounded c s.tasks
    → QueueBounded c ts
task-QueueBounded c s t x others ts found le q m n h = omega (
  arith,
  le m,
  total-take (λ y. if str_eq y.model m then stage_queues y.request.priority y.stage else 0) t
      s.tasks found,
  q m n h,
)

interrupted-le :
    (s : System) (x : Task) (others : List Task) (why : Interrupt) (st : Stage) (m : String)
    → x.stage ≡ st
    → queued s.tasks m ≡ queued (x ∷ others) m
    → queued (interrupt_task s x others st why).tasks m ≤ queued (x ∷ others) m
unfolding interrupt_task
interrupted-le s x others why (running a) m e same = omega (arith, same)
interrupted-le s x others why (waiting w) m e same = ground (arith, e)

resumed-le :
    (c : Config) (s : System) (x : Task) (others : List Task) (st : Stage) (m : String)
    → x.stage ≡ st
    → queued s.tasks m ≡ queued (x ∷ others) m
    → queued (resume_task c s x others st).tasks m ≤ queued (x ∷ others) m
unfolding resume_task
resumed-le c s x others (running a) m e same = omega (arith, same)
resumed-le c s x others (waiting w) m e same = settle-queued-le c s x others w _ m e

finished-le :
    (s : System) (x : Task) (others : List Task) (st : Stage) (m : String)
    → x.stage ≡ st
    → queued s.tasks m ≡ queued (x ∷ others) m
    → queued (finish_task s x others st).tasks m ≤ queued (x ∷ others) m
unfolding finish_task
finished-le s x others (waiting w) m e same = omega (arith, same)
finished-le s x others (running a) m e same = ground arith

step-QueueBounded :
    (c : Config) (s : System) (e : Event)
    → Inv c s
    → QueueBounded c s.tasks
    → QueueBounded c (step c s e).tasks
unfolding step
step-QueueBounded c s (arrive t m r e) inv q = elim (Option-cases (take t s.tasks)) [
  | inr (_, h) ↦ rw (h, step) q
  | inl h ↦
      rw (h, step)
        (arrive-QueueBounded c s (fresh t m r e) _ refl inv q (start-Fine c m r e s.controller t))
]
step-QueueBounded c s (interrupt t why) inv q = elim (Option-cases (take t s.tasks)) [
  | inl h ↦ rw (h, step) q
  | inr ((x, others), h) ↦
      rw (h, step)
        (task-QueueBounded c s t x others _ h
          (λ m. interrupted-le s x others why x.stage m refl (total-take _ t s.tasks h)) q)
]
step-QueueBounded c s (resume t) inv q = elim (Option-cases (take t s.tasks)) [
  | inl h ↦ rw (h, step) q
  | inr ((x, others), h) ↦
      rw (h, step)
        (task-QueueBounded c s t x others _ h
          (λ m. resumed-le c s x others x.stage m refl (total-take _ t s.tasks h)) q)
]
step-QueueBounded c s (finish t) inv q = elim (Option-cases (take t s.tasks)) [
  | inl h ↦ rw (h, step) q
  | inr ((x, others), h) ↦
      rw (h, step)
        (task-QueueBounded c s t x others _ h
          (λ m. finished-le s x others x.stage m refl (total-take _ t s.tasks h)) q)
]

run-QueueBounded :
    (c : Config) (s : System) (es : List Event)
    → Inv c s
    → QueueBounded c s.tasks
    → QueueBounded c (run c s es).tasks
unfolding run
run-QueueBounded c s [] inv q = q
run-QueueBounded c s (e ∷ es) inv q =
    run-QueueBounded c (step c s e) es (step-Inv c s e inv) (step-QueueBounded c s e inv q)

-- When the model has a sequence ceiling, at every moment at most `batch_waiter_multiplier` times as many batch requests of a model
-- wait for a slot.
pub batch_queue_bounded :
    (c : Config) (es : List Event) (m : String) (n : ℕ)
    → effective_max_num_seqs c m ≡ some n
    → queued (run c boot es).tasks m ≤ c.batch_waiter_multiplier * n
batch_queue_bounded c es m n h =
    run-QueueBounded c boot es (boot-Inv c) (λ k j g. omega arith) m n h
