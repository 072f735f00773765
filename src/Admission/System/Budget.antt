-- ===== src/Admission/System/Budget.antt =====
-- The KV budget holds in every reachable state.
use inference_x.Prelude.{
  ℕ, ◌+◌, ◌*◌, ◌<◌, ◌≤◌, String, ◌≡◌, refl, ◌∙◌, subst, eq_iff, inl, inr, Option, none, some, List,
  [], ◌∷◌, ◌==◌, str_eq, arith, if◌then◌else◌, Bool-cases, Option-cases, All,
}
use inference_x.Admission.{Config}
use inference_x.Admission.Admit
use inference_x.Admission.Admit.{Progress, admitted, turned_away, parked, Interrupt}
use inference_x.Admission.Admit.Books.{there}
use inference_x.Admission.System.{
  Stage, waiting, running, Task, System, Event, arrive, interrupt, resume, finish, boot, take,
  settle, fresh, interrupt_task, resume_task, finish_task, step, run, merge, stage_reserves,
  reserved,
}
use inference_x.Admission.Counter.{current}
use inference_x.Admission.System.Books.{Inv}
use inference_x.Admission.Admit.Limits.{Budgeted, Fine-Budgeted, start-Fine, resume-Budgeted}
use inference_x.Admission.System.Books.{
  total-take, waiting_reserved, running_reserved, step-Inv, boot-Inv,
}

-- What the engines of the models report is constant.
abbrev pub Reports : (String → ℕ) → Event → Type 0
Reports kv (arrive t m r e) = e.kv_capacity_tokens ≡ some (kv m)
Reports kv _ = Unit

abbrev ReportsTask : (String → ℕ) → Task → Type 0
ReportsTask kv x = x.engine.kv_capacity_tokens ≡ some (kv x.model)

All-take :
    (kv : String → ℕ) (t : ℕ) (ts : List Task) {x : Task} {others : List Task}
    → take t ts ≡ some (x, others)
    → All (ReportsTask kv) ts
    → ReportsTask kv x × All (ReportsTask kv) others
unfolding take
All-take kv t [] e h = cc
All-take kv t (y ∷ ys) {x} {others} e h = elim (Bool-cases (y.ticket == t)) [
  | inl here ↦
      let same : y ≡ x = ground (arith, here) in
      let rest : ys ≡ others = ground (arith, here) in
      (subst (ReportsTask kv) same h.0, subst (All (ReportsTask kv)) rest h.1)
  | inr there ↦ elim (Option-cases (take t ys)) [
    | inl n ↦ absurd (ground (arith, there, n))
    | inr ((z, zs), f) ↦
        let ih = All-take kv t ys f h.1 in
        let same : z ≡ x = ground (arith, there, f) in
        let rest : y ∷ zs ≡ others = ground (arith, there, f) in
        (subst (ReportsTask kv) same ih.0, subst (All (ReportsTask kv)) rest (h.0, ih.1))
  ]
]

module _ (c : Config) (kv : String → ℕ) (d : 0 < c.kv_safety_margin.den) where
  abbrev Kept : List Task → Type 0
  Kept ts =
      All (ReportsTask kv) ts
      × ((m : String) → reserved ts m * c.kv_safety_margin.den ≤ kv m * c.kv_safety_margin.num)

  settle-Kept :
      (s : System) (x : Task) (others : List Task) (w : Option Interrupt) (p : Progress)
      → x.stage ≡ waiting w
      → Inv c s
      → ReportsTask kv x
      → ((m : String) → reserved s.tasks m ≡ reserved others m)
      → Kept others
      → Budgeted c x.model x.request x.engine s.controller p
      → Kept (settle s x others p).tasks
  unfolding settle
  settle-Kept s x others w (turned_away r ctl) e inv rep same k b = k
  settle-Kept s x others w (parked ctl) e inv rep same k b =
      ((rep, k.0), λ m. rw (waiting_reserved c x others w e m) (k.1 m))
  settle-Kept s x others w (admitted a ctl) e inv rep same k b = (
    (rep, k.0),
    λ m.
        rw (running_reserved c (record x { stage = running a }) others a refl m)
          (elim (Bool-cases (str_eq x.model m)) [
            | inr f ↦ rw f (k.1 m)
            | inl t ↦
                let within = b (kv x.model) rep d in
                let now : current s.controller.tracker x.model ≡ reserved others x.model =
                  inv.books.tokens x.model ∙ same x.model in
                rw t (
                  subst
                    (λ j.
                      (reserved others j + a.reserved_tokens) * c.kv_safety_margin.den
                      ≤ kv j * c.kv_safety_margin.num)
                    ((eq_iff x.model m).0 t) (rw now at within))
          ]),
  )

  task-Kept :
      (s : System) (t : ℕ) (x : Task) (others : List Task)
      → take t s.tasks ≡ some (x, others)
      → Kept s.tasks
      → Kept (x ∷ others)
  task-Kept s t x others h k = (
    All-take kv t s.tasks h k.0,
    λ m.
        rw
          (← (total-take (λ y. if str_eq y.model m then stage_reserves y.stage else 0) t s.tasks h))
          (k.1 m),
  )

  drop-Kept : (x : Task) (others : List Task) → Kept (x ∷ others) → Kept others
  drop-Kept x others k = (k.0.1, λ m. omega (arith, k.1 m))

  module _ (s : System) (t : ℕ) (x : Task) (others : List Task)
      (found : take t s.tasks ≡ some (x, others)) (inv : Inv c s) (k : Kept s.tasks) where
    interrupted-Kept :
        (why : Interrupt) (st : Stage)
        → x.stage ≡ st
        → Kept (interrupt_task s x others st why).tasks
    unfolding interrupt_task
    interrupted-Kept why (running a) e = k
    interrupted-Kept why (waiting w) e =
        let f = task-Kept s t x others found k in
        (
          f.0,
          λ m.
              rw
                (waiting_reserved c (record x { stage = waiting (some (merge w why)) }) others _
                  refl m)
                ((drop-Kept x others f).1 m),
        )

    resumed-Kept : (st : Stage) → x.stage ≡ st → Kept (resume_task c s x others st).tasks
    unfolding resume_task
    resumed-Kept (running a) e = k
    resumed-Kept (waiting w) e =
        let f = task-Kept s t x others found k in
        settle-Kept s x others w _ e inv f.0.0
          (λ m.
            total-take (λ y. if str_eq y.model m then stage_reserves y.stage else 0) t s.tasks found
            ∙ waiting_reserved c x others w e m)
          (drop-Kept x others f)
          (resume-Budgeted c x.model x.request x.engine s.controller x.ticket w)

    finished-Kept : (st : Stage) → x.stage ≡ st → Kept (finish_task s x others st).tasks
    unfolding finish_task
    finished-Kept (waiting w) e = k
    finished-Kept (running a) e =
        let f = drop-Kept x others (task-Kept s t x others found k) in
        elim (Option-cases (Admit.release s.controller x.model a.reserved_tokens)) [
          | inl n ↦ rw (n, finish_task) f
          | inr (ctl, r) ↦ rw (r, finish_task) f
        ]

  step-Kept :
      (s : System) (e : Event) → Inv c s → Reports kv e → Kept s.tasks → Kept (step c s e).tasks
  unfolding step
  step-Kept s (arrive t m r e) inv rep k = elim (Option-cases (take t s.tasks)) [
    | inr (_, h) ↦ rw (h, step) k
    | inl h ↦
        rw (h, step)
          (settle-Kept s (fresh t m r e) s.tasks none _ refl inv rep (λ j. refl) k
            (Fine-Budgeted c m r e s.controller _ (start-Fine c m r e s.controller t)))
  ]
  step-Kept s (interrupt t why) inv rep k = elim (Option-cases (take t s.tasks)) [
    | inl h ↦ rw (h, step) k
    | inr ((x, others), h) ↦ rw (h, step) (interrupted-Kept s t x others h inv k why x.stage refl)
  ]
  step-Kept s (resume t) inv rep k = elim (Option-cases (take t s.tasks)) [
    | inl h ↦ rw (h, step) k
    | inr ((x, others), h) ↦ rw (h, step) (resumed-Kept s t x others h inv k x.stage refl)
  ]
  step-Kept s (finish t) inv rep k = elim (Option-cases (take t s.tasks)) [
    | inl h ↦ rw (h, step) k
    | inr ((x, others), h) ↦ rw (h, step) (finished-Kept s t x others h inv k x.stage refl)
  ]

  run-Kept :
      (s : System) (es : List Event)
      → Inv c s
      → All (Reports kv) es
      → Kept s.tasks
      → Kept (run c s es).tasks
  unfolding run
  run-Kept s [] inv rep k = k
  run-Kept s (e ∷ es) inv rep k =
      run-Kept (step c s e) es (step-Inv c s e inv) rep.1 (step-Kept s e inv rep.0 k)

-- If the engines report constant capacities and the margin has a positive denominator, at every moment the tokens that a model's admitted
-- requests have reserved are at most its capacity times the safety margin.
pub kv_budget_kept :
    (c : Config) (kv : String → ℕ) (es : List Event) (m : String)
    → 0 < c.kv_safety_margin.den
    → All (Reports kv) es
    → reserved (run c boot es).tasks m * c.kv_safety_margin.den ≤ kv m * c.kv_safety_margin.num
kv_budget_kept c kv es m d rep =
    (run-Kept c kv d boot es (boot-Inv c) rep (tt, λ j. omega arith)).1 m
