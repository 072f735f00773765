-- ===== src/Admission/Semaphore/Permits.antt =====
-- Permits of the semaphore are neither lost nor made up.
use inference_x.Prelude.{
  ℕ, zero, suc, ◌+◌, ◌<◌, ◌≡◌, refl, inl, inr, some, List, [], ◌∷◌, arith, total, total-append,
  Option-cases, Bool-cases,
}
use inference_x.Admission.Semaphore.{
  Future, pending, woken, cancelled, revoked, Waiter, Semaphore, locked, wake_first, wake_all,
  release, Attempt, acquired, suspended, acquire, cancel, remove, resume, resume_as, Resumption,
  asleep, granted, refused,
}

-- A future that was woken holds a permit until its task runs.
abbrev pub held : Future → ℕ
held woken = 1
held revoked = 1
held _ = 0

abbrev pub holds : Waiter → ℕ
holds w = held w.future

abbrev pub permits : List Waiter → ℕ
permits = total holds

-- The permits that are free, and those that are with a waiter.
abbrev pub at_hand : Semaphore → ℕ
at_hand s = s.value + permits s.queue

pub permits-wake_first :
    (ws ws' : List Waiter) → wake_first ws ≡ some ws' → permits ws' ≡ permits ws + 1
unfolding wake_first
permits-wake_first [] ws' e = ground arith
permits-wake_first (w ∷ ws) ws' e = elim (Option-cases (wake_first ws)) [
  | inl n ↦ ground (arith, n)
  | inr (vs, h) ↦ ground (arith, h, permits-wake_first ws vs h)
]

pub permits-wake_all :
    (v : ℕ) (ws : List Waiter) → (wake_all v ws).0 + permits (wake_all v ws).1 ≡ v + permits ws
unfolding wake_all
permits-wake_all zero ws = refl
permits-wake_all (suc v) ws = elim (Option-cases (wake_first ws)) [
  | inl n ↦ rw (n, wake_all) refl
  | inr (vs, h) ↦
      rw (h, wake_all) (omega (arith, permits-wake_all v vs, permits-wake_first ws vs h))
]

-- `release` raises exactly at the bound, and otherwise puts one permit back.
pub release-at_hand :
    (s : Semaphore)
    → s.value < s.bound
    → (t : Semaphore) × (release s ≡ some t) × (at_hand t ≡ at_hand s + 1) × (t.bound ≡ s.bound)
unfolding release
release-at_hand s h = elim (Option-cases (wake_first s.queue)) [
  | inl n ↦ (record s { value = s.value + 1 }, ground (arith, n), omega arith, refl)
  | inr (vs, e) ↦ (
    record s { queue = vs },
    ground (arith, e),
    omega (arith, permits-wake_first s.queue vs e),
    refl,
  )
]

pub permits-cancel : (t : ℕ) (ws : List Waiter) → permits (cancel t ws) ≡ permits ws
unfolding cancel
permits-cancel t [] = refl
permits-cancel t (w ∷ ws) = ground (arith, permits-cancel t ws)

pub permits-remove :
    (t : ℕ) (ws : List Waiter) {f : Future} {ws' : List Waiter}
    → remove t ws ≡ some (f, ws')
    → permits ws ≡ held f + permits ws'
unfolding remove
permits-remove t [] e = cc
permits-remove t (w ∷ ws) {f} {ws'} e = elim (Option-cases (remove t ws)) [
  | inl n ↦ ground (arith, n)
  | inr ((g, vs), h) ↦ ground (arith, h, permits-remove t ws h)
]

-- What `acquire` and `resume` do to the permits: the task has one, or nothing moved.
abbrev pub Attempted : Semaphore → Attempt → Type 0
Attempted s (acquired u) = (at_hand u + 1 ≡ at_hand s) × (u.bound ≡ s.bound)
Attempted s (suspended u) = (at_hand u ≡ at_hand s) × (u.bound ≡ s.bound)

abbrev pub Resumed : Semaphore → Resumption → Type 0
Resumed s asleep = Unit {0}
Resumed s (granted u) = (at_hand u + 1 ≡ at_hand s) × (u.bound ≡ s.bound)
Resumed s (refused u) = (at_hand u ≡ at_hand s) × (u.bound ≡ s.bound)

pub acquire-Attempted : (s : Semaphore) (t : ℕ) → Attempted s (acquire s t)
unfolding acquire
acquire-Attempted s t = elim (Bool-cases (locked s)) [
  | inl l ↦ rw (l, acquire) (omega (arith, total-append {0} holds s.queue), refl)
  | inr l ↦ rw (l, acquire) (ground (arith, l), refl)
]

resume_as-Resumed :
    (s : Semaphore) (f : Future) (ws : List Waiter)
    → permits s.queue ≡ held f + permits ws
    → Resumed s (resume_as s f ws)
resume_as-Resumed s pending ws e = tt
resume_as-Resumed s woken ws e = (omega (arith, permits-wake_all s.value ws), refl)
resume_as-Resumed s cancelled ws e = (omega (arith, permits-wake_all s.value ws), refl)
resume_as-Resumed s revoked ws e = (omega (arith, permits-wake_all (s.value + 1) ws), refl)

pub resume-Resumed : (s : Semaphore) (t : ℕ) → Resumed s (resume s t)
unfolding resume
resume-Resumed s t = elim (Option-cases (remove t s.queue)) [
  | inl n ↦ rw (n, resume) tt
  | inr ((f, ws), h) ↦ rw (h, resume) (resume_as-Resumed s f ws (permits-remove t s.queue h))
]
