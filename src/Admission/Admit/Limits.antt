-- ===== src/Admission/Admit/Limits.antt =====
-- A run of `admit` respects the KV budget and the bound on waiting batch requests.
use inference_x.Prelude.{
  ℕ, ◌+◌, ◌*◌, ◌<◌, ◌≤◌, String, ◌≡◌, refl, ◌∙◌, subst, ◌⊎◌, inl, inr, Bool, true, false, Option,
  none, some, List, [], ◌∷◌, arith, if◌then◌else◌, Bool-cases, Option-cases,
}
use inference_x.Prelude.Dict
use inference_x.Schemas.{ChatCompletionRequest, Priority, interactive, batch}
use inference_x.Admission.{AdmitError, released_too_often, Engine, Config, Controller}
use inference_x.Admission.Admit
use inference_x.Admission.Semaphore
use inference_x.Admission.Semaphore.{
  Attempt, acquired, suspended, Resumption, asleep, granted, refused,
}
use inference_x.Admission.Admit.{
  Progress, admitted, turned_away, parked, Interrupt, interrupt_error,
}
use inference_x.Admission.Admit.Balance.{Verdict-cases}
use inference_x.Admission.Counter.{current}
use inference_x.Admission.{effective_max_num_seqs}
use inference_x.Admission.Admit.{
  release_permit, after_gate_1, gate_1, start, queue_full, enter_queue, leave_queue,
}
use inference_x.Admission.Gates.{gates}
use inference_x.Admission.Gates.Bounds.{gates-budget}
use inference_x.Admission.{get_semaphore, set_semaphore, sequence_gate_skipped}
use inference_x.Schemas.{ResponseWarning}

-- A run of `admit` admits a request only within the KV budget that its engine reports, and parks a
-- batch request only while there is room in the queue.
abbrev pub Limited : Config → Engine → Controller → String → Priority → Progress → Type 0
Limited c e ctl m p (admitted a _) =
    (kv : ℕ)
    → e.kv_capacity_tokens ≡ some kv
    → 0 < c.kv_safety_margin.den
    → (current ctl.tracker m + a.reserved_tokens) * c.kv_safety_margin.den
      ≤ kv * c.kv_safety_margin.num
Limited c e ctl m p (parked _) =
    (p ≡ interactive)
    ⊎ ((n : ℕ)
        → effective_max_num_seqs c m ≡ some n
        → current ctl.batch_waiters m + 1 ≤ c.batch_waiter_multiplier * n)
Limited c e ctl m p (turned_away _ _) = Unit {0}

module _ (c : Config) (m : String) (r : ChatCompletionRequest) (e : Engine) (ctl : Controller) where
  abbrev pub Fine : Progress → Type 0
  Fine = Limited c e ctl m r.priority

  rejected-Fine :
      (err : AdmitError) (ctl' : Controller) (g : Bool) (o : Option Controller)
      → Fine (
          if g
          then elim o [
            | none ↦ turned_away released_too_often ctl'
            | some ctl'' ↦ turned_away err ctl''
          ]
          else turned_away err ctl')
  rejected-Fine err ctl' false o = tt
  rejected-Fine err ctl' true none = tt
  rejected-Fine err ctl' true (some x) = tt

  after_gate_1-Fine :
      (ctl' : Controller) (g : Bool) (ws : List ResponseWarning)
      → ctl'.tracker ≡ ctl.tracker
      → Fine (after_gate_1 c ctl' m r e g ws)
  unfolding after_gate_1
  after_gate_1-Fine ctl' g ws same =
      elim (Verdict-cases (gates c (current ctl'.tracker m) m r e ws)) [
        | inl (a, h) ↦
            rw (h, after_gate_1)
              λ kv k d.
                subst
                  (λ t.
                    (current t m + a.reserved_tokens) * c.kv_safety_margin.den
                    ≤ kv * c.kv_safety_margin.num)
                  same (gates-budget c (current ctl'.tracker m) m r e ws a kv d k h)
        | inr (err, h) ↦ rw (h, after_gate_1) (rejected-Fine err ctl' g (release_permit ctl' m))
      ]

  entered_tracker : (p : Priority) (x : Controller) → (enter_queue p x m).tracker ≡ x.tracker
  entered_tracker batch x = refl
  entered_tracker interactive x = refl

  left_tracker : (p : Priority) (x : Controller) → (leave_queue p x m).tracker ≡ x.tracker
  left_tracker batch x = refl
  left_tracker interactive x = refl

  room_left :
      (p : Priority) (n : ℕ)
      → effective_max_num_seqs c m ≡ some n
      → queue_full c ctl m n p ≡ false
      → (p ≡ interactive)
        ⊎ ((k : ℕ)
            → effective_max_num_seqs c m ≡ some k
            → current ctl.batch_waiters m + 1 ≤ c.batch_waiter_multiplier * k)
  room_left interactive n h f = inl refl
  room_left batch n h f = inr λ k g. let same : n ≡ k = cc in rw (← same) (ground (arith, f))

  attempt-Fine :
      ((r.priority ≡ interactive)
        ⊎ ((k : ℕ)
            → effective_max_num_seqs c m ≡ some k
            → current ctl.batch_waiters m + 1 ≤ c.batch_waiter_multiplier * k))
      → (a : Attempt)
      → Fine (elim a [
        | acquired s ↦
            after_gate_1 c
              (leave_queue r.priority (set_semaphore (enter_queue r.priority ctl m) m s) m)
              m
              r
              e
              true
              []
        | suspended s ↦ parked (set_semaphore (enter_queue r.priority ctl m) m s)
      ])
  attempt-Fine room (acquired s) = after_gate_1-Fine _ true [] (
      left_tracker r.priority (set_semaphore (enter_queue r.priority ctl m) m s)
      ∙ entered_tracker r.priority ctl)
  attempt-Fine room (suspended s) = room

  gate_1-Fine : (t n : ℕ) → effective_max_num_seqs c m ≡ some n → Fine (gate_1 c ctl t m r e n)
  unfolding gate_1
  gate_1-Fine t n h = elim (Bool-cases (queue_full c ctl m n r.priority)) [
    | inl f ↦ rw (f, gate_1) tt
    | inr g ↦
        rw (g, gate_1)
          (attempt-Fine (room_left r.priority n h g) (Semaphore.acquire (get_semaphore ctl m n) t))
  ]

  pub start-Fine : (t : ℕ) → Fine (start c ctl t m r e)
  unfolding start
  start-Fine t = elim (Option-cases (effective_max_num_seqs c m)) [
    | inl off ↦ rw (off, start) (after_gate_1-Fine ctl false (sequence_gate_skipped ∷ []) refl)
    | inr (n, h) ↦ rw (h, start) (gate_1-Fine t n h)
  ]

  abbrev pub Budgeted : Progress → Type 0
  Budgeted (admitted a x) = Fine (admitted a x)
  Budgeted _ = Unit {0}

  pub Fine-Budgeted : (p : Progress) → Fine p → Budgeted p
  Fine-Budgeted (admitted a x) f = f
  Fine-Budgeted (turned_away err x) f = tt
  Fine-Budgeted (parked x) f = tt

  resumed-Budgeted :
      (why : Option Interrupt) (x : Resumption)
      → Budgeted (elim x [
        | asleep ↦ parked ctl
        | granted s ↦
            after_gate_1 c (leave_queue r.priority (set_semaphore ctl m s) m) m r e true []
        | refused s ↦
            turned_away (interrupt_error why) (leave_queue r.priority (set_semaphore ctl m s) m)
      ])
  resumed-Budgeted why asleep = tt
  resumed-Budgeted why (granted s) =
      Fine-Budgeted _
        (after_gate_1-Fine _ true [] (left_tracker r.priority (set_semaphore ctl m s)))
  resumed-Budgeted why (refused s) = tt

  pub resume-Budgeted : (t : ℕ) (why : Option Interrupt) → Budgeted (Admit.resume c ctl t m r e why)
  unfolding Admit.resume
  resume-Budgeted t why = elim (Option-cases (Dict.get ctl.semaphores m)) [
    | inl n ↦ rw (n, Admit.resume) tt
    | inr (s, h) ↦ rw (h, Admit.resume) (resumed-Budgeted why (Semaphore.resume s t))
  ]
