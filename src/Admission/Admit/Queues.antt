-- ===== src/Admission/Admit/Queues.antt =====
-- The lines of the models through `start`, `resume`, `interrupt` and `release`.
use inference_x.Prelude.{
  ℕ, String, ◌≡◌, sym, ap, ◌∙◌, inl, inr, Bool, true, false, Option, none, some, List, [], ◌∷◌,
  ◌++◌, arith, Bool-cases, Option-cases,
}
use inference_x.Prelude.Dict
use inference_x.Prelude.Dict.{Dict, get-put, get-put_self}
use inference_x.Schemas.{ChatCompletionRequest, ResponseWarning, Priority, interactive, batch}
use inference_x.Admission.{
  Engine, Config, Controller, effective_max_num_seqs, get_semaphore, set_semaphore,
  sequence_gate_skipped,
}
use inference_x.Admission.Semaphore
use inference_x.Admission.Semaphore.{
  Future, pending, woken, cancelled, revoked, Waiter, Attempt, acquired, suspended, Resumption,
  asleep, granted, refused, wake_first, wake_all, remove, locked,
}
use inference_x.Admission.Semaphore.Order.{AttendedAttempt, AttendedResumption, no_lost_wakeup}
use inference_x.Admission.Semaphore.Tickets.{
  erase, tickets-cancel, QueuedBy, LeftBy, acquire-QueuedBy, resume-LeftBy, Awake,
}
use inference_x.Admission.Counter.{current, add, minus}
use inference_x.Admission.Admit.Balance.{Verdict-cases}
use inference_x.Admission.Admit.Lines.{
  LineOk, Lines, change, keep-Lines, change-Lines, line_of, release_permit-Lines,
}
use inference_x.Admission.Gates.{gates}
use inference_x.Admission.Admit.{
  Progress, admitted, turned_away, parked, release_permit, after_gate_1, gate_1, start, enter_queue,
  leave_queue, queue_full, Interrupt, resume, interrupt, release, interrupt_error,
}

leave-Lines :
    (p : Priority) (ctl : Controller) (m : String) (qs : String → List ℕ)
    → Lines ctl qs
    → Lines (leave_queue p ctl m) qs
leave-Lines batch ctl m qs h = h
leave-Lines interactive ctl m qs h = h

enter-Lines :
    (p : Priority) (ctl : Controller) (m : String) (qs : String → List ℕ)
    → Lines ctl qs
    → Lines (enter_queue p ctl m) qs
enter-Lines batch ctl m qs h = h
enter-Lines interactive ctl m qs h = h

-- A run of `admit` that ends, with these lines; and one that may be parked, with those.
abbrev pub Leaves : (ended waiting : String → List ℕ) → Progress → Type 0
Leaves ended waiting (admitted a ctl) = Lines ctl ended
Leaves ended waiting (turned_away e ctl) = Lines ctl ended
Leaves ended waiting (parked ctl) = Lines ctl waiting

abbrev pub Ended : Progress → Type 0
Ended (parked ctl) = ⊥
Ended _ = Unit

module _ (c : Config) (m : String) (request : ChatCompletionRequest) (engine : Engine) where
  after_gate_1-Leaves :
      (ctl : Controller) (gated : Bool) (ws : List ResponseWarning) (qs ws' : String → List ℕ)
      → Lines ctl qs
      → Leaves qs ws' (after_gate_1 c ctl m request engine gated ws)
  unfolding after_gate_1
  after_gate_1-Leaves ctl gated ws qs ws' h =
      elim (Verdict-cases (gates c (current ctl.tracker m) m request engine ws)) [
        | inl (a, e) ↦ rw (e, after_gate_1) h
        | inr (x, e) ↦ elim (Bool-cases gated) [
          | inr f ↦ rw (e, f, after_gate_1) h
          | inl g ↦ elim (Option-cases (release_permit ctl m)) [
            | inl n ↦ rw (e, g, n, after_gate_1) h
            | inr (ctl', r) ↦ rw (e, g, r, after_gate_1) (release_permit-Lines ctl ctl' m qs r h)
          ]
        ]
      ]

  pub after_gate_1-Ended :
      (ctl : Controller) (gated : Bool) (ws : List ResponseWarning)
      → Ended (after_gate_1 c ctl m request engine gated ws)
  unfolding after_gate_1
  after_gate_1-Ended ctl gated ws =
      elim (Verdict-cases (gates c (current ctl.tracker m) m request engine ws)) [
        | inl (a, e) ↦ rw (e, after_gate_1) tt
        | inr (x, e) ↦ elim (Bool-cases gated) [
          | inr f ↦ rw (e, f, after_gate_1) tt
          | inl g ↦ elim (Option-cases (release_permit ctl m)) [
            | inl n ↦ rw (e, g, n, after_gate_1) tt
            | inr (ctl', r) ↦ rw (e, g, r, after_gate_1) tt
          ]
        ]
      ]

  get_semaphore-LineOk :
      (ctl : Controller) (n : ℕ) (qs : String → List ℕ)
      → Lines ctl qs
      → LineOk (some (get_semaphore ctl m n)) (qs m)
  unfolding get_semaphore Semaphore.create
  get_semaphore-LineOk ctl n qs h = found (Dict.get ctl.semaphores m) (h m)
    where
      found :
          (o : Option Semaphore.Semaphore)
          → LineOk o (qs m)
          → LineOk (some (elim o [ none ↦ Semaphore.create n | some s ↦ s ])) (qs m)
      found none e = ((λ p. absurd (omega (arith, p))), sym e)
      found (some s) ok = ok

  abbrev joined : ℕ → (String → List ℕ) → String → List ℕ
  joined t = change m (λ l. l ++ (t ∷ []))

  attempt-Leaves :
      (ctl : Controller) (s : Semaphore.Semaphore) (t : ℕ) (qs : String → List ℕ)
      → Lines ctl qs
      → LineOk (some s) (qs m)
      → (r : Attempt) → AttendedAttempt r
      → QueuedBy s t r
      → Leaves qs (joined t qs) (elim r [
        | acquired s' ↦
            after_gate_1 c
              (leave_queue request.priority
                (set_semaphore (enter_queue request.priority ctl m) m s')
                m)
              m
              request
              engine
              true
              []
        | suspended s' ↦ parked (set_semaphore (enter_queue request.priority ctl m) m s')
      ])
  attempt-Leaves ctl s t qs h ok (acquired s') a q =
      after_gate_1-Leaves _ true [] qs (joined t qs) (
        leave-Lines request.priority _ m qs (
          keep-Lines (enter_queue request.priority ctl m) m s' qs
            (enter-Lines request.priority ctl m qs h) (a, q ∙ ok.1)))
  attempt-Leaves ctl s t qs h ok (suspended s') a q =
      change-Lines (enter_queue request.priority ctl m) m s' (λ l. l ++ (t ∷ [])) qs
        (enter-Lines request.priority ctl m qs h) (a, q ∙ ap (λ l. l ++ (t ∷ [])) ok.1)

  gate_1-Leaves :
      (ctl : Controller) (t n : ℕ) (qs : String → List ℕ)
      → Lines ctl qs
      → Leaves qs (joined t qs) (gate_1 c ctl t m request engine n)
  unfolding gate_1
  gate_1-Leaves ctl t n qs h = elim (Bool-cases (queue_full c ctl m n request.priority)) [
    | inl f ↦ rw (f, gate_1) h
    | inr g ↦
        let s = get_semaphore ctl m n in
        let ok = get_semaphore-LineOk ctl n qs h in
        rw (g, gate_1)
          (attempt-Leaves ctl s t qs h ok (Semaphore.acquire s t) (no_lost_wakeup s t ok.0).0
            (acquire-QueuedBy s t))
  ]

  -- A request that arrives joins the line of its model, if it has to wait.
  pub start-Leaves :
      (ctl : Controller) (t : ℕ) (qs : String → List ℕ)
      → Lines ctl qs
      → Leaves qs (joined t qs) (start c ctl t m request engine)
  unfolding start
  start-Leaves ctl t qs h = elim (Option-cases (effective_max_num_seqs c m)) [
    | inl off ↦
        rw (off, start)
          (after_gate_1-Leaves ctl false (sequence_gate_skipped ∷ []) qs (joined t qs) h)
    | inr (n, e) ↦ rw (e, start) (gate_1-Leaves ctl t n qs h)
  ]

  Resumed-Leaves :
      (ctl : Controller) (s : Semaphore.Semaphore) (t : ℕ) (why : Option Interrupt)
      (qs : String → List ℕ)
      → Lines ctl qs
      → LineOk (some s) (qs m)
      → (r : Resumption) → AttendedResumption r
      → LeftBy s t r
      → Leaves (change m (erase t) qs) qs (elim r [
        | asleep ↦ parked ctl
        | granted s' ↦
            after_gate_1 c
              (leave_queue request.priority (set_semaphore ctl m s') m)
              m
              request
              engine
              true
              []
        | refused s' ↦
            turned_away
              (interrupt_error why)
              (leave_queue request.priority (set_semaphore ctl m s') m)
      ])
  Resumed-Leaves ctl s t why qs h ok asleep a q = h
  Resumed-Leaves ctl s t why qs h ok (granted s') a q =
      after_gate_1-Leaves _ true [] (change m (erase t) qs) qs (
        leave-Lines request.priority _ m (change m (erase t) qs)
          (change-Lines ctl m s' (erase t) qs h (a, q ∙ ap (erase t) ok.1)))
  Resumed-Leaves ctl s t why qs h ok (refused s') a q =
      leave-Lines request.priority _ m (change m (erase t) qs)
        (change-Lines ctl m s' (erase t) qs h (a, q ∙ ap (erase t) ok.1))

  -- A request that resumes leaves the line, unless it still sleeps.
  pub resume-Leaves :
      (ctl : Controller) (t : ℕ) (why : Option Interrupt) (qs : String → List ℕ)
      → Lines ctl qs
      → Leaves (change m (erase t) qs) qs (resume c ctl t m request engine why)
  unfolding resume
  resume-Leaves ctl t why qs h = elim (Option-cases (Dict.get ctl.semaphores m)) [
    | inl n ↦ rw (n, resume) h
    | inr (s, e) ↦
        let ok = line_of _ (qs m) s (h m) e in
        rw (e, resume)
          (Resumed-Leaves ctl s t why qs h ok (Semaphore.resume s t) (no_lost_wakeup s t ok.0).3
            (resume-LeftBy s t))
  ]

  Awake-Ended :
      (ctl : Controller) (why : Option Interrupt) (r : Resumption)
      → Awake r
      → Ended (elim r [
        | asleep ↦ parked ctl
        | granted s' ↦
            after_gate_1 c
              (leave_queue request.priority (set_semaphore ctl m s') m)
              m
              request
              engine
              true
              []
        | refused s' ↦
            turned_away
              (interrupt_error why)
              (leave_queue request.priority (set_semaphore ctl m s') m)
      ])
  Awake-Ended ctl why asleep a = a
  Awake-Ended ctl why (granted s') a = after_gate_1-Ended _ true []
  Awake-Ended ctl why (refused s') a = tt

  -- A request whose future is set ends its call of `admit` when it resumes.
  pub resume-Ended :
      (ctl : Controller) (t : ℕ) (why : Option Interrupt) (s : Semaphore.Semaphore)
      → Dict.get ctl.semaphores m ≡ some s
      → Awake (Semaphore.resume s t)
      → Ended (resume c ctl t m request engine why)
  unfolding resume
  resume-Ended ctl t why s e a = rw (e, resume) (Awake-Ended ctl why (Semaphore.resume s t) a)

pub interrupt-Lines :
    (ctl : Controller) (t : ℕ) (m : String) (qs : String → List ℕ)
    → Lines ctl qs
    → Lines (interrupt ctl t m) qs
unfolding interrupt
interrupt-Lines ctl t m qs h = elim (Option-cases (Dict.get ctl.semaphores m)) [
  | inl n ↦ rw (n, interrupt) h
  | inr (s, e) ↦
      let ok = line_of _ (qs m) s (h m) e in
      rw (e, interrupt)
        (keep-Lines ctl m _ qs h ((no_lost_wakeup s t ok.0).2, tickets-cancel t s.queue ∙ ok.1))
]

pub release-Lines :
    (ctl ctl' : Controller) (m : String) (n : ℕ) (qs : String → List ℕ)
    → release ctl m n ≡ some ctl'
    → Lines ctl qs
    → Lines ctl' qs
unfolding release
release-Lines ctl ctl' m n qs e h =
    release_permit-Lines (record ctl { tracker = add ctl.tracker m (minus n) }) ctl' m qs e h
