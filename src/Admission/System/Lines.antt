-- ===== src/Admission/System/Lines.antt =====
-- In every reachable state the queue of a model's semaphore lists waiting requests of that model,
-- each once, and no wake-up is lost in it.
pub mod Steps
use inference_x.Prelude.{
  ℕ, String, ◌≡◌, refl, sym, ap, ◌∙◌, subst, ◌≢◌, inl, inr, false, Option, none, some, List, [],
  ◌∷◌, ◌++◌, arith, ◌⊎◌, Option-cases, Bool-cases, All, ◌==◌, eq_iff, str_eq, if◌then◌else◌,
}
use inference_x.Prelude.Dict
use inference_x.Schemas.{ChatCompletionRequest}
use inference_x.Admission.{AdmissionResult, Engine, Config, Controller}
use inference_x.Admission.Semaphore.Tickets.{
  Distinct, erase, both, weaken, All-erase, Distinct-erase, erase-gone, All-append, Distinct-append,
}
use inference_x.Admission.Admit
use inference_x.Admission.Admit.{Progress, admitted, turned_away, parked, Interrupt}
use inference_x.Admission.Admit.Lines.{Lines, change}
use inference_x.Admission.Admit.Queues.{
  Leaves, start-Leaves, resume-Leaves, interrupt-Lines, release-Lines,
}
use inference_x.Admission.System.Tasks.{
  WaitsFor, take-ticket, take-same, WaitsFor-moved, WaitsFor-others, WaitsFor-front, here-WaitsFor,
}
use inference_x.Admission.System.{
  Stage, waiting, running, Task, System, Event, arrive, interrupt, resume, finish, boot, take,
  settle, fresh, interrupt_task, resume_task, finish_task, step, run, merge,
}

pub record Lined (s : System) : Type 0 where
  pub line : String → List ℕ
  pub lines : Lines s.controller line
  pub distinct : (m : String) → Distinct (line m)
  pub owned : (m : String) → All (WaitsFor s.tasks m) (line m)

-- Where a run of `admit` leaves the lines: the one of an end, and the one of a task that is parked.
pub settle-Lined :
    (s : System) (x : Task) (others : List Task) (p : Progress)
    (ended parked_line : String → List ℕ)
    → ((m : String) → Distinct (ended m))
    → ((m : String) → All (WaitsFor others m) (ended m))
    → ((m : String) → All (λ t. t ≢ x.ticket) (ended m))
    → ((m : String) → Distinct (parked_line m))
    → ((m : String) → All (WaitsFor (x ∷ others) m) (parked_line m))
    → Leaves ended parked_line p
    → Lined (settle s x others p)
unfolding settle
settle-Lined s x others (admitted a ctl) ended parked_line de oe ne dp op l = record {
  line = ended;
  lines = l;
  distinct = de;
  owned = λ m.
      weaken (λ t. WaitsFor others m t × (t ≢ x.ticket))
        (WaitsFor (record x { stage = running a } ∷ others) m) (ended m)
        (λ t w. WaitsFor-front t (record x { stage = running a }) others m w.0 w.1)
        (both (WaitsFor others m) (λ t. t ≢ x.ticket) (ended m) (oe m) (ne m));
}
settle-Lined s x others (turned_away e ctl) ended parked_line de oe ne dp op l = record {
  line = ended;
  lines = l;
  distinct = de;
  owned = oe;
}
settle-Lined s x others (parked ctl) ended parked_line de oe ne dp op l = record {
  line = parked_line;
  lines = l;
  distinct = dp;
  owned = op;
}

module _ (s : System) (lined : Lined s) where
  -- A ticket that no request has stands in no line.
  fresh-apart : (t : ℕ) → take t s.tasks ≡ none → (m : String) → All (λ i. i ≢ t) (lined.line m)
  fresh-apart t n m =
      weaken (WaitsFor s.tasks m) (λ i. i ≢ t) (lined.line m)
        (λ i w same. absent i w.0 w.1 same w.3) (lined.owned m)
    where
      absent : (i : ℕ) (x : Task) (xs : List Task) → i ≡ t → take i s.tasks ≢ some (x, xs)
      absent i x xs same e = cc (e, n, ap (λ k. take k s.tasks) same)

  joined-Distinct :
      (t : ℕ) (m j : String)
      → take t s.tasks ≡ none
      → Distinct (change m (λ l. l ++ (t ∷ [])) lined.line j)
  joined-Distinct t m j n = elim (Bool-cases (str_eq m j)) [
    | inl e ↦ rw e (Distinct-append (lined.line j) t (lined.distinct j) (fresh-apart t n j))
    | inr e ↦ rw e (lined.distinct j)
  ]

  front-owned :
      (x : Task) (j : String)
      → take x.ticket s.tasks ≡ none
      → All (WaitsFor (x ∷ s.tasks) j) (lined.line j)
  front-owned x j n =
      weaken (λ i. WaitsFor s.tasks j i × (i ≢ x.ticket)) (WaitsFor (x ∷ s.tasks) j) (lined.line j)
        (λ i w. WaitsFor-front i x s.tasks j w.0 w.1)
        (both (WaitsFor s.tasks j) (λ i. i ≢ x.ticket) (lined.line j) (lined.owned j)
          (fresh-apart x.ticket n j))

  joined-owned :
      (x : Task) (why : Option Interrupt) (j : String)
      → take x.ticket s.tasks ≡ none
      → x.stage ≡ waiting why
      → All (WaitsFor (x ∷ s.tasks) j) (change x.model (λ l. l ++ (x.ticket ∷ [])) lined.line j)
  joined-owned x why j n st = elim (Bool-cases (str_eq x.model j)) [
    | inl e ↦
        let same : x.model ≡ j = (eq_iff x.model j).0 e in
        rw e (
          All-append (WaitsFor (x ∷ s.tasks) j) (lined.line j) x.ticket (front-owned x j n)
            (subst (λ k. WaitsFor (x ∷ s.tasks) k x.ticket) same (here-WaitsFor x s.tasks why st)))
    | inr e ↦ rw e (front-owned x j n)
  ]

  pub arrive-Lined :
      (c : Config) (t : ℕ) (m : String) (r : ChatCompletionRequest) (e : Engine)
      → take t s.tasks ≡ none
      → Lined (settle s (fresh t m r e) s.tasks (Admit.start c s.controller t m r e))
  arrive-Lined c t m r e n =
      settle-Lined s (fresh t m r e) s.tasks _ lined.line (change m (λ l. l ++ (t ∷ [])) lined.line)
        lined.distinct lined.owned (fresh-apart t n) (λ j. joined-Distinct t m j n)
        (λ j. joined-owned (fresh t m r e) none j n refl)
        (start-Leaves c m r e s.controller t lined.line lined.lines)
