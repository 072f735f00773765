-- ===== src/Admission/Semaphore/Tickets.antt =====
-- Whose futures stand in the queue of a semaphore, in order.
use inference_x.Prelude.{
  ℕ, zero, suc, ◌+◌, ◌<◌, ◌≡◌, refl, ap, sym, ◌∙◌, ◌≢◌, inl, inr, some, List, [], ◌∷◌, ◌++◌, map,
  arith, ◌==◌, if◌then◌else◌, Option-cases, Bool-cases, All,
}
use inference_x.Admission.Semaphore.{
  Future, pending, woken, cancelled, revoked, Waiter, Semaphore, wake_first, wake_all, cancel,
  remove, locked, Attempt, acquired, suspended, acquire, Resumption, asleep, granted, refused,
  resume, resume_as,
}
use inference_x.Admission.Semaphore.Order.{Future-cases}
use inference_x.Admission.Semaphore.Permits.{permits}

abbrev pub tickets : List Waiter → List ℕ
tickets = map (λ w. w.ticket)

-- Without its first entry of a ticket.
abbrev pub erase : ℕ → List ℕ → List ℕ
erase t [] = []
erase t (i ∷ l) = if i == t then l else i ∷ erase t l

abbrev pub Distinct : List ℕ → Type 0
Distinct [] = Unit
Distinct (t ∷ l) = All (λ i. i ≢ t) l × Distinct l

pub tickets-wake_first :
    (ws : List Waiter) (ws' : List Waiter) → wake_first ws ≡ some ws' → tickets ws' ≡ tickets ws
unfolding wake_first
tickets-wake_first [] ws' e = cc
tickets-wake_first (w ∷ ws) ws' e = elim (Option-cases (wake_first ws)) [
  | inl n ↦ ground (arith, n)
  | inr (vs, h) ↦ ground (arith, h, tickets-wake_first ws vs h)
]

pub tickets-wake_all : (v : ℕ) (ws : List Waiter) → tickets (wake_all v ws).1 ≡ tickets ws
unfolding wake_all
tickets-wake_all zero ws = refl
tickets-wake_all (suc v) ws = elim (Option-cases (wake_first ws)) [
  | inl n ↦ rw (n, wake_all) refl
  | inr (vs, h) ↦ rw (h, wake_all) (tickets-wake_all v vs ∙ tickets-wake_first ws vs h)
]

pub tickets-cancel : (t : ℕ) (ws : List Waiter) → tickets (cancel t ws) ≡ tickets ws
unfolding cancel
tickets-cancel t [] = refl
tickets-cancel t (w ∷ ws) = ground (arith, tickets-cancel t ws)

pub tickets-remove :
    (t : ℕ) (ws ws' : List Waiter) (f : Future)
    → remove t ws ≡ some (f, ws')
    → tickets ws' ≡ erase t (tickets ws)
unfolding remove
tickets-remove t [] ws' f e = cc
tickets-remove t (w ∷ ws) ws' f e = elim (Option-cases (remove t ws)) [
  | inl n ↦ ground (arith, n)
  | inr ((g, vs), h) ↦ ground (arith, h, tickets-remove t ws vs g h)
]

pub both {ℓ κ} :
    (P : ℕ → Type ℓ) (Q : ℕ → Type κ) (l : List ℕ) → All P l → All Q l → All (λ t. P t × Q t) l
both P Q [] p q = tt
both P Q (t ∷ l) p q = ((p.0, q.0), both P Q l p.1 q.1)

pub weaken {ℓ κ} :
    (P : ℕ → Type ℓ) (Q : ℕ → Type κ) (l : List ℕ) → ((t : ℕ) → P t → Q t) → All P l → All Q l
weaken P Q [] f p = tt
weaken P Q (t ∷ l) f p = (f t p.0, weaken P Q l f p.1)

pub All-erase {ℓ} : (P : ℕ → Type ℓ) (t : ℕ) (l : List ℕ) → All P l → All P (erase t l)
All-erase P t [] p = tt
All-erase P t (i ∷ l) p = elim (Bool-cases (i == t)) [
  | inl e ↦ rw e (p.1)
  | inr e ↦ rw e (p.0, All-erase P t l p.1)
]

pub Distinct-erase : (t : ℕ) (l : List ℕ) → Distinct l → Distinct (erase t l)
Distinct-erase t [] d = tt
Distinct-erase t (i ∷ l) d = elim (Bool-cases (i == t)) [
  | inl e ↦ rw e (d.1)
  | inr e ↦ rw e (All-erase (λ j. j ≢ i) t l d.0, Distinct-erase t l d.1)
]

-- What is erased from distinct tickets is gone.
pub erase-gone : (t : ℕ) (l : List ℕ) → Distinct l → All (λ i. i ≢ t) (erase t l)
erase-gone t [] d = tt
erase-gone t (i ∷ l) d = elim (Bool-cases (i == t)) [
  | inl e ↦ rw e (let same : i ≡ t = ground (arith, e) in rw (← same) d.0)
  | inr e ↦ rw e (λ h. ground (arith, e, h), erase-gone t l d.1)
]

pub All-append {ℓ} : (P : ℕ → Type ℓ) (l : List ℕ) (t : ℕ) → All P l → P t → All P (l ++ (t ∷ []))
All-append P [] t p q = (q, tt)
All-append P (i ∷ l) t p q = (p.0, All-append P l t p.1 q)

pub Distinct-append :
    (l : List ℕ) (t : ℕ) → Distinct l → All (λ i. i ≢ t) l → Distinct (l ++ (t ∷ []))
Distinct-append [] t d n = (tt, tt)
Distinct-append (i ∷ l) t d n =
    (All-append (λ j. j ≢ i) l t d.0 (λ h. n.0 (sym h)), Distinct-append l t d.1 n.1)

-- Where a permit is with a waiter, the waiter's future is set.
pub holder {ℓ} :
    (P : ℕ → Type ℓ) (ws : List Waiter)
    → Distinct (tickets ws)
    → All P (tickets ws)
    → 0 < permits ws
    → (t : ℕ) × (f : Future) × (rest : List Waiter) × P t
      × (remove t ws ≡ some (f, rest))
      × (f ≢ pending)
unfolding remove
holder P [] d p h = absurd (omega (arith, h))
holder P (w ∷ ws) d p h = elim (Future-cases w.future) [
  | inl e ↦
      let more : 0 < permits ws = ground (arith, e, h) in
      let (t, f, rest, q, r, n) =
        holder (λ t. P t × (t ≢ w.ticket)) ws d.1 (both P (λ t. t ≢ w.ticket) (tickets ws) p.1 d.0)
          more in
      (t, f, w ∷ rest, q.0, ground (arith, r, q.1), n)
  | inr e ↦ (w.ticket, w.future, ws, p.0, ground arith, e)
]

-- The queue after an attempt to acquire, and after a resumption.
abbrev pub QueuedBy : Semaphore → ℕ → Attempt → Type 0
QueuedBy s t (acquired u) = tickets u.queue ≡ tickets s.queue
QueuedBy s t (suspended u) = tickets u.queue ≡ tickets s.queue ++ (t ∷ [])

abbrev pub LeftBy : Semaphore → ℕ → Resumption → Type 0
LeftBy s t asleep = Unit
LeftBy s t (granted u) = tickets u.queue ≡ erase t (tickets s.queue)
LeftBy s t (refused u) = tickets u.queue ≡ erase t (tickets s.queue)

tickets-append : (a b : List Waiter) → tickets (a ++ b) ≡ tickets a ++ tickets b
tickets-append [] b = refl
tickets-append (w ∷ a) b = ap (◌∷◌ w.ticket) (tickets-append a b)

pub acquire-QueuedBy : (s : Semaphore) (t : ℕ) → QueuedBy s t (acquire s t)
unfolding acquire
acquire-QueuedBy s t = elim (Bool-cases (locked s)) [
  | inl l ↦ rw (l, acquire) (tickets-append s.queue (record { ticket = t; future = pending } ∷ []))
  | inr l ↦ rw (l, acquire) refl
]

pub resume-LeftBy : (s : Semaphore) (t : ℕ) → LeftBy s t (resume s t)
unfolding resume
resume-LeftBy s t = elim (Option-cases (remove t s.queue)) [
  | inl n ↦ rw (n, resume) tt
  | inr ((f, ws), e) ↦ rw (e, resume) (left f ws (tickets-remove t s.queue ws f e))
]
  where
    left :
        (f : Future) (ws : List Waiter)
        → tickets ws ≡ erase t (tickets s.queue)
        → LeftBy s t (resume_as s f ws)
    left pending ws e = tt
    left woken ws e = tickets-wake_all s.value ws ∙ e
    left cancelled ws e = tickets-wake_all s.value ws ∙ e
    left revoked ws e = tickets-wake_all (s.value + 1) ws ∙ e

-- A task whose future is set is not asleep when it resumes.
abbrev pub Awake : Resumption → Type 0
Awake asleep = ⊥
Awake _ = Unit

pub resume-Awake :
    (s : Semaphore) (t : ℕ) (f : Future) (ws : List Waiter)
    → remove t s.queue ≡ some (f, ws)
    → f ≢ pending
    → Awake (resume s t)
unfolding resume
resume-Awake s t f ws e n = rw (e, resume) (awake f n)
  where
    awake : (g : Future) → g ≢ pending → Awake (resume_as s g ws)
    awake pending h = h refl
    awake woken h = tt
    awake cancelled h = tt
    awake revoked h = tt
