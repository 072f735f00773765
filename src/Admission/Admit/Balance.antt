-- ===== src/Admission/Admit/Balance.antt =====
-- The books balance through `start`, on every branch: what the controller counts is what the
-- requests hold.
use inference_x.Prelude.{
  ℕ, String, ◌≡◌, refl, ◌⊎◌, inl, inr, ◌≢◌, Bool, true, false, Option, none, some, List, [], ◌∷◌,
  arith, eq_iff, Bool-cases, Option-cases,
}
use inference_x.Prelude.Int.{pos}
use inference_x.Schemas.{ChatCompletionRequest, Fraction, ResponseWarning, Priority}
use inference_x.Admission.{
  AdmitError, released_too_often, Engine, Config, Controller, effective_max_num_seqs, get_semaphore,
  set_semaphore, sequence_gate_skipped,
}
use inference_x.Admission.Semaphore
use inference_x.Admission.Semaphore.{
  Attempt, acquired, suspended, Resumption, asleep, granted, refused,
}
use inference_x.Admission.Semaphore.Permits.{acquire-Attempted, Attempted}
use inference_x.Admission.Counter
use inference_x.Admission.Counter.{current, add, minus, current-add_pos, current-add-minus}
use inference_x.Admission.Gates.{Verdict, pass, reject, gates, context_gate, kv_gate}
use inference_x.Admission.Admit.{
  Progress, admitted, turned_away, parked, after_gate_1, gate_1, start, enter_queue, leave_queue,
  queue_full,
}
use inference_x.Admission.Admit.Books.{
  bump, waits, SemOk, Balanced, release_permit-Balanced, bump_self, SemOk-none, no_semaphore,
  set-Balanced, enter-Balanced, leave-Balanced, get_semaphore-Ok,
}

-- What the books show after a run of `admit`.
abbrev pub After :
    Config → (held reserved queued : String → ℕ) → String → Priority → Progress → Type 0
After c held reserved queued m p (admitted a ctl) =
    Balanced c ctl (bump m 1 held) (bump m a.reserved_tokens reserved) queued
After c held reserved queued m p (turned_away e ctl) =
    Balanced c ctl held reserved queued × (e ≢ released_too_often)
After c held reserved queued m p (parked ctl) =
    Balanced c ctl held reserved (bump m (waits p) queued)

context_gate-error :
    (ceiling prompt requested : ℕ) (p : Priority) (s : Bool) (ws : List ResponseWarning)
    {e : AdmitError}
    → context_gate ceiling prompt requested p s ws ≡ reject e
    → e ≢ released_too_often
unfolding context_gate
context_gate-error ceiling prompt requested p s ws h = ground arith

kv_gate-error :
    (k : Option ℕ) (m : Fraction) (now prompt output : ℕ) (p : Priority) (s : Bool)
    (ws : List ResponseWarning) {e : AdmitError}
    → kv_gate k m now prompt output p s ws ≡ reject e
    → e ≢ released_too_often
unfolding kv_gate
kv_gate-error none m now prompt output p s ws h = cc
kv_gate-error (some kv) m now prompt output p s ws h = ground arith

gates-error :
    (c : Config) (now : ℕ) (model : String) (request : ChatCompletionRequest) (engine : Engine)
    (ws : List ResponseWarning) (e : AdmitError)
    → gates c now model request engine ws ≡ reject e
    → e ≢ released_too_often
unfolding gates
gates-error c now model request engine ws e h = grind (arith, context_gate-error, kv_gate-error)

pub Verdict-cases {ℓ} :
    {A : Type ℓ} (v : Verdict A) → ((a : A) × (v ≡ pass a)) ⊎ ((e : AdmitError) × (v ≡ reject e))
Verdict-cases (pass a) = inl (a, refl)
Verdict-cases (reject e) = inr (e, refl)

module _ (c : Config) (m : String) (request : ChatCompletionRequest) (engine : Engine)
    (held reserved queued : String → ℕ) where
  tokens-admitted :
      (t : Counter.PerModelCounter) (n : ℕ)
      → ((j : String) → current t j ≡ reserved j)
      → (j : String) → current (add t m (pos n)) j ≡ bump m n reserved j
  tokens-admitted t n b j = rw (current-add_pos t m j n) (ground (arith, b j, b m, eq_iff m j))

  -- Gates 2 and 3 with a permit in hand.
  pub after_gate_1-After :
      (ctl : Controller) (ws : List ResponseWarning)
      → Balanced c ctl (bump m 1 held) reserved queued
      → After c held reserved queued m request.priority
          (after_gate_1 c ctl m request engine true ws)
  unfolding after_gate_1
  after_gate_1-After ctl ws b =
      elim (Verdict-cases (gates c (current ctl.tracker m) m request engine ws)) [
        | inl (a, e) ↦
            rw (e, after_gate_1)
              (record {
                sems = b.sems;
                tokens = tokens-admitted ctl.tracker a.reserved_tokens b.tokens;
                waiters = b.waiters;
              })
        | inr (err, e) ↦
            let (ctl', r, b') = release_permit-Balanced c ctl m held reserved queued b in
            rw (e, after_gate_1) (rw (r, after_gate_1) (b', gates-error _ _ _ _ _ _ err e))
      ]

  -- The same with gate 1 skipped.
  ungated-After :
      (ctl : Controller) (ws : List ResponseWarning)
      → effective_max_num_seqs c m ≡ none
      → Balanced c ctl held reserved queued
      → After c held reserved queued m request.priority
          (after_gate_1 c ctl m request engine false ws)
  unfolding after_gate_1
  ungated-After ctl ws off b =
      elim (Verdict-cases (gates c (current ctl.tracker m) m request engine ws)) [
        | inl (a, e) ↦
            rw (e, after_gate_1)
              (record {
                sems =
                    SemOk-none c ctl.semaphores held (bump m 1 held) m
                      (no_semaphore c m _ _ (b.sems m) off) off b.sems (λ j f. rw f);
                tokens = tokens-admitted ctl.tracker a.reserved_tokens b.tokens;
                waiters = b.waiters;
              })
        | inr (err, e) ↦ rw (e, after_gate_1) (b, gates-error _ _ _ _ _ _ err e)
      ]

  attempt-After :
      (ctl : Controller) (n : ℕ) (s : Semaphore.Semaphore) (ticket : ℕ)
      → effective_max_num_seqs c m ≡ some n
      → Balanced c ctl held reserved queued
      → SemOk c m (some s) (held m)
      → (r : Attempt) → Attempted s r
      → After c held reserved queued m request.priority (elim r [
        | acquired s' ↦
            after_gate_1 c
              (leave_queue request.priority
                (set_semaphore (enter_queue request.priority ctl m) m s')
                m)
              m
              request
              engine
              true
              []
        | suspended s' ↦ parked (set_semaphore (enter_queue request.priority ctl m) m s')
      ])
  attempt-After ctl n s ticket e b ok (acquired s') a = after_gate_1-After _ [] (
      leave-Balanced request.priority c _ m (bump m 1 held) reserved queued (
        set-Balanced c _ m s' held (bump m 1 held) reserved _
          (enter-Balanced request.priority c ctl m held reserved queued b)
          (rw a.1 ok.0, omega (arith, a.0, a.1, ok.1, bump_self m 1 held)) (λ j f. rw f)))
  attempt-After ctl n s ticket e b ok (suspended s') a =
      set-Balanced c _ m s' held held reserved _
        (enter-Balanced request.priority c ctl m held reserved queued b)
        (rw a.1 ok.0, omega (arith, a.0, a.1, ok.1)) (λ j f. refl)

  gate_1-After :
      (ctl : Controller) (ticket n : ℕ)
      → effective_max_num_seqs c m ≡ some n
      → Balanced c ctl held reserved queued
      → After c held reserved queued m request.priority (gate_1 c ctl ticket m request engine n)
  unfolding gate_1
  gate_1-After ctl ticket n e b = elim (Bool-cases (queue_full c ctl m n request.priority)) [
    | inl f ↦ rw (f, gate_1) (b, λ h. cc)
    | inr g ↦
        let s = get_semaphore ctl m n in
        rw (g, gate_1)
          (attempt-After ctl n s ticket e b (get_semaphore-Ok c ctl m n (held m) e (b.sems m))
            (Semaphore.acquire s ticket) (acquire-Attempted s ticket))
  ]

  -- Whatever `admit` does before it returns, raises or suspends, the books balance.
  pub start-After :
      (ctl : Controller) (ticket : ℕ)
      → Balanced c ctl held reserved queued
      → After c held reserved queued m request.priority (start c ctl ticket m request engine)
  unfolding start
  start-After ctl ticket b = elim (Option-cases (effective_max_num_seqs c m)) [
    | inl off ↦ rw (off, start) (ungated-After ctl (sequence_gate_skipped ∷ []) off b)
    | inr (n, e) ↦ rw (e, start) (gate_1-After ctl ticket n e b)
  ]
