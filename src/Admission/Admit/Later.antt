-- ===== src/Admission/Admit/Later.antt =====
-- The books balance through `resume`, `interrupt` and `release`, on every branch: what the controller counts is what the
-- requests hold.
use inference_x.Prelude.{
  ℕ, ◌+◌, String, ◌≡◌, refl, ◌∙◌, inl, inr, true, Option, some, [], arith, eq_iff, Option-cases,
}
use inference_x.Prelude.Dict
use inference_x.Prelude.Dict.{Dict, get-put, get-put_self}
use inference_x.Schemas.{ChatCompletionRequest}
use inference_x.Admission.{Engine, Config, Controller, set_semaphore}
use inference_x.Admission.Semaphore
use inference_x.Admission.Semaphore.{
  Attempt, acquired, suspended, Resumption, asleep, granted, refused,
}
use inference_x.Admission.Semaphore.Permits.{resume-Resumed, Resumed, permits-cancel}
use inference_x.Admission.Counter.{current, add, minus, current-add-minus}
use inference_x.Admission.Admit.{
  turned_away, parked, after_gate_1, resume, interrupt, release, leave_queue, Interrupt,
  interrupt_error,
}
use inference_x.Admission.Admit.Books.{
  bump, waits, SemOk, Balanced, release_permit-Balanced, bump_self, there, set-Balanced,
  leave-Balanced,
}
use inference_x.Admission.Admit.Balance.{After, after_gate_1-After}

module _ (c : Config) (m : String) (request : ChatCompletionRequest) (engine : Engine)
    (held reserved queued : String → ℕ) where
  abbrev Suspended : Controller → Type 0
  Suspended ctl = Balanced c ctl held reserved (bump m (waits request.priority) queued)

  Resumed-After :
      (ctl : Controller) (s : Semaphore.Semaphore) (why : Option Interrupt)
      → Suspended ctl
      → SemOk c m (some s) (held m)
      → (r : Resumption) → Resumed s r
      → After c held reserved queued m request.priority (elim r [
        | asleep ↦ parked ctl
        | granted s' ↦
            after_gate_1 c
              (leave_queue request.priority (set_semaphore ctl m s') m)
              m
              request
              engine
              true
              []
        | refused s' ↦
            turned_away
              (interrupt_error why)
              (leave_queue request.priority (set_semaphore ctl m s') m)
      ])
  Resumed-After ctl s why b ok asleep r = b
  Resumed-After ctl s why b ok (granted s') r =
      after_gate_1-After c m request engine held reserved queued _ [] (
        leave-Balanced request.priority c _ m (bump m 1 held) reserved queued (
          set-Balanced c _ m s' held (bump m 1 held) reserved _ b
            (rw r.1 ok.0, omega (arith, r.0, r.1, ok.1, bump_self m 1 held)) (λ j f. rw f)))
  Resumed-After ctl s why b ok (refused s') r = (
    leave-Balanced request.priority c _ m held reserved queued (
        set-Balanced c _ m s' held held reserved _ b (rw r.1 ok.0, omega (arith, r.0, r.1, ok.1))
          (λ j f. refl)),
    ground arith,
  )

  -- The same when a suspended request runs again: granted, refused, or not yet woken.
  pub resume-After :
      (ctl : Controller) (ticket : ℕ) (why : Option Interrupt)
      → Suspended ctl
      → After c held reserved queued m request.priority (resume c ctl ticket m request engine why)
  unfolding resume
  resume-After ctl ticket why b = elim (Option-cases (Dict.get ctl.semaphores m)) [
    | inl n ↦ rw (n, resume) b
    | inr (s, e) ↦
        rw (e, resume)
          (Resumed-After ctl s why b (there c m _ _ s (b.sems m) e) (Semaphore.resume s ticket)
            (resume-Resumed s ticket))
  ]

pub interrupt-Balanced :
    (c : Config) (ctl : Controller) (ticket : ℕ) (m : String) (held reserved queued : String → ℕ)
    → Balanced c ctl held reserved queued
    → Balanced c (interrupt ctl ticket m) held reserved queued
unfolding interrupt
interrupt-Balanced c ctl ticket m held reserved queued b =
    elim (Option-cases (Dict.get ctl.semaphores m)) [
      | inl n ↦ rw (n, interrupt) b
      | inr (s, e) ↦
          let ok = there c m _ _ s (b.sems m) e in
          rw (e, interrupt)
            (set-Balanced c ctl m _ held held reserved queued b (ok.0, rw permits-cancel ok.1)
              (λ j f. refl))
    ]

-- `release` by an admitted request, with the amount that it reserved, never raises, and gives back
-- its permit and its tokens and nothing else.
pub release-Balanced :
    (c : Config) (ctl : Controller) (m : String) (n : ℕ) (held reserved queued : String → ℕ)
    → Balanced c ctl (bump m 1 held) (bump m n reserved) queued
    → (ctl' : Controller) × (release ctl m n ≡ some ctl') × Balanced c ctl' held reserved queued
unfolding release
release-Balanced c ctl m n held reserved queued b =
    let here : current ctl.tracker m ≡ reserved m + n = b.tokens m ∙ bump_self m n reserved in
    release_permit-Balanced c (record ctl { tracker = add ctl.tracker m (minus n) }) m held reserved
      queued
      (record {
        sems = b.sems;
        tokens = λ j.
            ground (
              arith,
              current-add-minus ctl.tracker m j n (reserved m) here,
              b.tokens j,
              eq_iff m j,
            );
        waiters = b.waiters;
      })
