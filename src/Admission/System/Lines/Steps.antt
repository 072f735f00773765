-- ===== src/Admission/System/Lines/Steps.antt =====
-- Every event keeps the lines.
use inference_x.Prelude.{
  ℕ, String, ◌≡◌, refl, ap, ◌∙◌, subst, ◌≢◌, inl, inr, false, Option, some, List, [], ◌∷◌,
  Option-cases, Bool-cases, All, eq_iff, str_eq,
}
use inference_x.Prelude.Dict
use inference_x.Admission.{Config}
use inference_x.Admission.Semaphore.Tickets.{
  Distinct, erase, both, weaken, All-erase, Distinct-erase, erase-gone,
}
use inference_x.Admission.Admit
use inference_x.Admission.Admit.{Progress, admitted, turned_away, parked, Interrupt}
use inference_x.Admission.Admit.Lines.{change}
use inference_x.Admission.Admit.Queues.{Leaves, resume-Leaves, interrupt-Lines, release-Lines}
use inference_x.Admission.System.Lines.{Lined, settle-Lined, arrive-Lined}
use inference_x.Admission.System.Tasks.{
  WaitsFor, take-ticket, take-same, WaitsFor-moved, WaitsFor-others,
}
use inference_x.Admission.System.{
  Stage, waiting, running, Task, System, Event, arrive, interrupt, resume, finish, boot, take,
  interrupt_task, resume_task, finish_task, step, run, merge,
}

module _ (s : System) (lined : Lined s) (t : ℕ) (x : Task) (others : List Task)
    (found : take t s.tasks ≡ some (x, others)) where
  moved-owned :
      (z : Task) (why : Option Interrupt) (j : String)
      → z.ticket ≡ t
      → z.model ≡ x.model
      → z.stage ≡ waiting why
      → All (WaitsFor (z ∷ others) j) (lined.line j)
  moved-owned z why j same model st =
      weaken (WaitsFor s.tasks j) (WaitsFor (z ∷ others) j) (lined.line j)
        (λ i w. WaitsFor-moved i t s.tasks j x z others why found same model st w) (lined.owned j)

  interrupt_task-Lined :
      (why : Interrupt) (st : Stage) → x.stage ≡ st → Lined (interrupt_task s x others st why)
  unfolding interrupt_task
  interrupt_task-Lined why (running a) e = lined
  interrupt_task-Lined why (waiting w) e = record {
    line = lined.line;
    lines = interrupt-Lines s.controller x.ticket x.model lined.line lined.lines;
    distinct = lined.distinct;
    owned = λ j.
        moved-owned (record x { stage = waiting (some (merge w why)) }) (some (merge w why)) j
          (take-ticket t s.tasks x others found) refl refl;
  }

  -- In the line of another model, or of a running request's own, the ticket does not stand.
  apart :
      (j : String)
      → ((i : ℕ) → WaitsFor s.tasks j i → i ≢ t)
      → All (λ i. WaitsFor others j i × (i ≢ t)) (lined.line j)
  apart j n =
      weaken (WaitsFor s.tasks j) (λ i. WaitsFor others j i × (i ≢ t)) (lined.line j)
        (λ i w. (WaitsFor-others i t s.tasks j x others found w (n i w), n i w)) (lined.owned j)

  finish_task-Lined : (st : Stage) → x.stage ≡ st → Lined (finish_task s x others st)
  unfolding finish_task
  finish_task-Lined (waiting w) e = lined
  finish_task-Lined (running a) e =
      elim (Option-cases (Admit.release s.controller x.model a.reserved_tokens)) [
        | inl n ↦
            rw (n, finish_task)
              (record {
                line = lined.line;
                lines = lined.lines;
                distinct = lined.distinct;
                owned = gone;
              })
        | inr (ctl, r) ↦
            rw (r, finish_task)
              (record {
                line = lined.line;
                lines =
                    release-Lines s.controller ctl x.model a.reserved_tokens lined.line r
                      lined.lines;
                distinct = lined.distinct;
                owned = gone;
              })
      ]
    where
      runs : (j : String) (i : ℕ) → WaitsFor s.tasks j i → i ≢ t
      runs j i (y, ys, why, f, _, st) same = absurd (
          cc (
            st,
            e,
            take-same t s.tasks x y others ys found
                (subst (λ k. take k s.tasks ≡ some (y, ys)) same f),
          ))

      gone : (j : String) → All (WaitsFor others j) (lined.line j)
      gone j =
          weaken (λ i. WaitsFor others j i × (i ≢ t)) (WaitsFor others j) (lined.line j)
            (λ i w. w.0) (apart j (runs j))

  -- The lines when the ticket has left that of its model.
  left-owned :
      (j : String)
      → All (λ i. WaitsFor others j i × (i ≢ t)) (change x.model (erase t) lined.line j)
  left-owned j = elim (Bool-cases (str_eq x.model j)) [
    | inl e ↦ rw e (
        weaken (λ i. WaitsFor s.tasks j i × (i ≢ t)) (λ i. WaitsFor others j i × (i ≢ t))
          (erase t (lined.line j))
          (λ i w. (WaitsFor-others i t s.tasks j x others found w.0 w.1, w.1))
          (both (WaitsFor s.tasks j) (λ i. i ≢ t) (erase t (lined.line j))
            (All-erase (WaitsFor s.tasks j) t (lined.line j) (lined.owned j))
            (erase-gone t (lined.line j) (lined.distinct j))))
    | inr e ↦ rw e (apart j (elsewhere e))
  ]
    where
      elsewhere : str_eq x.model j ≡ false → (i : ℕ) → WaitsFor s.tasks j i → i ≢ t
      elsewhere f i (y, ys, why, g, of_j, _) same =
          let x≡y =
            take-same t s.tasks x y others ys found
              (subst (λ k. take k s.tasks ≡ some (y, ys)) same g) in
          absurd (cc (f, (eq_iff x.model j).1 (ap (λ k. k.model) x≡y ∙ of_j)))

  left-Distinct : (j : String) → Distinct (change x.model (erase t) lined.line j)
  left-Distinct j = elim (Bool-cases (str_eq x.model j)) [
    | inl e ↦ rw e (Distinct-erase t (lined.line j) (lined.distinct j))
    | inr e ↦ rw e (lined.distinct j)
  ]

  resume_task-Lined : (c : Config) (st : Stage) → x.stage ≡ st → Lined (resume_task c s x others st)
  unfolding resume_task
  resume_task-Lined c (running a) e = lined
  resume_task-Lined c (waiting w) e =
      let here = take-ticket t s.tasks x others found in
      let ended = change x.model (erase t) lined.line in
      let p = Admit.resume c s.controller x.ticket x.model x.request x.engine w in
      settle-Lined s x others p ended lined.line left-Distinct
        (λ j.
          weaken (λ i. WaitsFor others j i × (i ≢ t)) (WaitsFor others j) (ended j) (λ i v. v.0)
            (left-owned j))
        (λ j.
          weaken (λ i. WaitsFor others j i × (i ≢ t)) (λ i. i ≢ x.ticket) (ended j)
            (λ i v. rw here v.1) (left-owned j))
        lined.distinct (λ j. moved-owned x w j here refl e)
        (subst (λ k. Leaves (change x.model (erase k) lined.line) lined.line p) here
          (resume-Leaves c x.model x.request x.engine s.controller x.ticket w lined.line
            lined.lines))

step-Lined : (c : Config) (s : System) (e : Event) → Lined s → Lined (step c s e)
unfolding step
step-Lined c s (arrive t m r e) l = elim (Option-cases (take t s.tasks)) [
  | inr (_, h) ↦ rw (h, step) l
  | inl h ↦ rw (h, step) (arrive-Lined s l c t m r e h)
]
step-Lined c s (interrupt t why) l = elim (Option-cases (take t s.tasks)) [
  | inl h ↦ rw (h, step) l
  | inr ((x, others), h) ↦ rw (h, step) (interrupt_task-Lined s l t x others h why x.stage refl)
]
step-Lined c s (resume t) l = elim (Option-cases (take t s.tasks)) [
  | inl h ↦ rw (h, step) l
  | inr ((x, others), h) ↦ rw (h, step) (resume_task-Lined s l t x others h c x.stage refl)
]
step-Lined c s (finish t) l = elim (Option-cases (take t s.tasks)) [
  | inl h ↦ rw (h, step) l
  | inr ((x, others), h) ↦ rw (h, step) (finish_task-Lined s l t x others h x.stage refl)
]

run-Lined : (c : Config) (s : System) (es : List Event) → Lined s → Lined (run c s es)
unfolding run
run-Lined c s [] l = l
run-Lined c s (e ∷ es) l = run-Lined c (step c s e) es (step-Lined c s e l)

pub reachable-Lined : (c : Config) (es : List Event) → Lined (run c boot es)
unfolding Dict.get
reachable-Lined c es =
    run-Lined c boot es
      (record { line = λ m. []; lines = λ m. refl; distinct = λ m. tt; owned = λ m. tt })
