-- ===== src/Admission/Semaphore/Order.antt =====
-- The order in which the semaphore serves its waiters, and that it loses no wake-up.
use inference_x.Prelude.{
  ℕ, zero, suc, ◌+◌, ◌<◌, ◌≤◌, ◌≡◌, refl, ap, ◌⊎◌, inl, inr, true, false, none, some, List, [], ◌∷◌,
  ◌++◌, arith, total, total-append, Option-cases, Bool-cases, All, any, ◌≢◌,
}
use inference_x.Admission.Semaphore.{
  Future, pending, woken, cancelled, revoked, Waiter, Semaphore, locked, wake_first, wake_all,
  release, Attempt, acquired, suspended, acquire, cancel, remove, resume, resume_as, Resumption,
  asleep, granted, refused, not_cancelled,
}
use inference_x.Admission.Semaphore.Permits.{holds, permits, permits-wake_first, permits-cancel}

pub Future-cases : (f : Future) → (f ≡ pending) ⊎ (f ≢ pending)
Future-cases pending = inl refl
Future-cases woken = inr (λ e. cc)
Future-cases cancelled = inr (λ e. cc)
Future-cases revoked = inr (λ e. cc)

-- What `wake_first` does: the earliest waiter that is pending is woken, and no other waiter changes.
pub wakes_earliest :
    (ws : List Waiter) {ws' : List Waiter}
    → wake_first ws ≡ some ws'
    → (before : List Waiter) × (w : Waiter) × (after : List Waiter) × (ws ≡ before ++ (w ∷ after))
      × (w.future ≡ pending)
      × All (λ v. v.future ≢ pending) before
      × (ws' ≡ before ++ (record w { future = woken } ∷ after))
unfolding wake_first
wakes_earliest [] e = cc
wakes_earliest (w ∷ ws) {ws'} e = elim (Future-cases w.future) [
  | inl p ↦ ([], w, ws, refl, p, tt, ground (arith, p))
  | inr q ↦ elim (Option-cases (wake_first ws)) [
    | inl n ↦ absurd (ground (arith, n, q))
    | inr (vs, h) ↦
        let (b, x, a, split, is_pending, none_before, done) = wakes_earliest ws h in
        (w ∷ b, x, a, ap (◌∷◌ w) split, is_pending, (q, none_before), ground (arith, h, q, done))
  ]
]

abbrev awaits : Waiter → ℕ
awaits w = elim w.future [ pending ↦ 1 | _ ↦ 0 ]

abbrev pub pendings : List Waiter → ℕ
pendings = total awaits

-- While somebody waits, there is no free permit, or a woken waiter is about to run.
abbrev pub Attended : Semaphore → Type 0
Attended s = 0 < pendings s.queue → (s.value ≡ 0) ⊎ (0 < permits s.queue)

pendings-wake_first : (ws : List Waiter) → wake_first ws ≡ none → pendings ws ≡ 0
unfolding wake_first
pendings-wake_first [] e = refl
pendings-wake_first (w ∷ ws) e = elim (Option-cases (wake_first ws)) [
  | inl n ↦ ground (arith, n, pendings-wake_first ws n)
  | inr (vs, h) ↦ absurd (ground (arith, h))
]

wake_all-attended :
    (v : ℕ) (ws : List Waiter) → ((wake_all v ws).0 ≡ 0) ⊎ (pendings (wake_all v ws).1 ≡ 0)
unfolding wake_all
wake_all-attended zero ws = inl refl
wake_all-attended (suc v) ws = elim (Option-cases (wake_first ws)) [
  | inl n ↦ rw (n, wake_all) (inr (pendings-wake_first ws n))
  | inr (vs, h) ↦ rw (h, wake_all) (wake_all-attended v vs)
]

busy : (ws : List Waiter) → any not_cancelled ws ≡ true → 0 < pendings ws + permits ws
busy [] e = cc
busy (w ∷ ws) e = ground (arith, busy ws)

idle : (ws : List Waiter) → any not_cancelled ws ≡ false → pendings ws ≡ 0
idle [] e = refl
idle (w ∷ ws) e = ground (arith, idle ws)

pendings-cancel : (t : ℕ) (ws : List Waiter) → pendings (cancel t ws) ≤ pendings ws
unfolding cancel
pendings-cancel t [] = omega arith
pendings-cancel t (w ∷ ws) = ground (arith, pendings-cancel t ws)

abbrev pub AttendedAttempt : Attempt → Type 0
AttendedAttempt (acquired u) = Attended u
AttendedAttempt (suspended u) = Attended u

abbrev pub AttendedResumption : Resumption → Type 0
AttendedResumption asleep = Unit {0}
AttendedResumption (granted u) = Attended u
AttendedResumption (refused u) = Attended u

acquire-Attended : (s : Semaphore) (t : ℕ) → Attended s → AttendedAttempt (acquire s t)
unfolding acquire
acquire-Attended s t h = elim (Bool-cases (locked s)) [
  | inl l ↦
      rw (l, acquire)
        (λ p.
          let more =
            total-append {0} holds s.queue (record { ticket = t; future = pending } ∷ []) in
          elim (Bool-cases (any not_cancelled s.queue)) [
            | inl b ↦ grind (arith, busy s.queue b, more, h)
            | inr i ↦ inl (ground (arith, l, i))
          ])
  | inr l ↦
      let i : any not_cancelled s.queue ≡ false = ground (arith, l) in
      rw (l, acquire) (λ p. absurd (omega (arith, idle s.queue i)))
]

release-Attended : (s u : Semaphore) → release s ≡ some u → Attended s → Attended u
unfolding release
release-Attended s u e h = elim (Option-cases (wake_first s.queue)) [
  | inl n ↦ λ p. absurd (ground (arith, n, pendings-wake_first s.queue n))
  | inr (ws, w) ↦
      let q : u.queue ≡ ws = ground (arith, w) in
      λ p. inr (rw q (omega (arith, permits-wake_first s.queue ws w)))
]

resume-Attended : (s : Semaphore) (t : ℕ) → AttendedResumption (resume s t)
unfolding resume
resume-Attended s t = elim (Option-cases (remove t s.queue)) [
  | inl n ↦ rw (n, resume) tt
  | inr ((f, ws), e) ↦ rw (e, resume) (settled s f ws)
]
  where
    settled :
        (s : Semaphore) (f : Future) (ws : List Waiter) → AttendedResumption (resume_as s f ws)
    settled s pending ws = tt
    settled s woken ws = λ p. ground (arith, wake_all-attended s.value ws)
    settled s cancelled ws = λ p. ground (arith, wake_all-attended s.value ws)
    settled s revoked ws = λ p. ground (arith, wake_all-attended (s.value + 1) ws)

-- No operation of the semaphore loses a wake-up: if, while somebody waits, there is no free permit
-- or a woken waiter is about to run, the same holds after a release, an acquisition, a cancellation
-- and a resumption, whatever its result.
pub no_lost_wakeup :
    (s : Semaphore) (t : ℕ)
    → Attended s
    → AttendedAttempt (acquire s t)
      × ((u : Semaphore) → release s ≡ some u → Attended u)
      × Attended (record s { queue = cancel t s.queue })
      × AttendedResumption (resume s t)
no_lost_wakeup s t h = (
  acquire-Attended s t h,
  λ u e. release-Attended s u e h,
  λ p. rw permits-cancel (h (omega (arith, pendings-cancel t s.queue))),
  resume-Attended s t,
)
