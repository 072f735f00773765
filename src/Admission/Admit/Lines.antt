-- ===== src/Admission/Admit/Lines.antt =====
-- The line of each model: who stands in the queue of its semaphore, with no wake-up lost.
use inference_x.Prelude.{
  ℕ, String, ◌≡◌, refl, subst, inl, inr, false, Option, none, some, List, [], arith, eq_iff, str_eq,
  if◌then◌else◌, Bool-cases, Option-cases,
}
use inference_x.Prelude.Dict
use inference_x.Prelude.Dict.{Dict, get-put, get-put_self}
use inference_x.Admission.{Controller, set_semaphore}
use inference_x.Admission.Semaphore
use inference_x.Admission.Semaphore.{
  Future, pending, woken, cancelled, revoked, Waiter, Attempt, acquired, suspended, Resumption,
  asleep, granted, refused, wake_first, wake_all, remove, locked,
}
use inference_x.Admission.Semaphore.Order.{Attended, no_lost_wakeup}
use inference_x.Admission.Semaphore.Tickets.{tickets, tickets-wake_first}
use inference_x.Admission.Admit.{release_permit}

-- The queue of a semaphore is the line of its model, and no wake-up is lost in it.
abbrev pub LineOk : Option Semaphore.Semaphore → List ℕ → Type 0
LineOk none l = l ≡ []
LineOk (some s) l = Attended s × (tickets s.queue ≡ l)

abbrev pub Lines : Controller → (String → List ℕ) → Type 0
Lines ctl qs = (m : String) → LineOk (Dict.get ctl.semaphores m) (qs m)

-- The line of one model changed.
abbrev pub change : String → (List ℕ → List ℕ) → (String → List ℕ) → String → List ℕ
change m f qs j = if str_eq m j then f (qs j) else qs j

change_self : (m : String) (f : List ℕ → List ℕ) (qs : String → List ℕ) → change m f qs m ≡ f (qs m)
change_self m f qs = ground (arith, eq_iff m m)

put-Lines :
    (ctl : Controller) (m : String) (s : Semaphore.Semaphore) (qs qs' : String → List ℕ)
    → Lines ctl qs
    → LineOk (some s) (qs' m)
    → ((j : String) → str_eq m j ≡ false → qs' j ≡ qs j)
    → Lines (set_semaphore ctl m s) qs'
put-Lines ctl m s qs qs' old new rest j =
    let d = ctl.semaphores in
    elim (Bool-cases (str_eq m j)) [
      | inl t ↦
          subst (λ k. LineOk (Dict.get (Dict.put d m s) k) (qs' k)) ((eq_iff m j).0 t)
            (rw (get-put_self d m s) new)
      | inr f ↦
          let e : Dict.get (Dict.put d m s) j ≡ Dict.get d j = rw (get-put d m j s, f) in
          rw (e, rest j f) (old j)
    ]

-- The same line, in another state of the semaphore.
pub keep-Lines :
    (ctl : Controller) (m : String) (s : Semaphore.Semaphore) (qs : String → List ℕ)
    → Lines ctl qs
    → LineOk (some s) (qs m)
    → Lines (set_semaphore ctl m s) qs
keep-Lines ctl m s qs old new = put-Lines ctl m s qs qs old new (λ j f. refl)

pub change-Lines :
    (ctl : Controller) (m : String) (s : Semaphore.Semaphore) (f : List ℕ → List ℕ)
    (qs : String → List ℕ)
    → Lines ctl qs
    → LineOk (some s) (f (qs m))
    → Lines (set_semaphore ctl m s) (change m f qs)
change-Lines ctl m s f qs old new =
    put-Lines ctl m s qs (change m f qs) old (rw (change_self m f qs) new) (λ j e. rw e refl)

-- The model's semaphore, where the dict has one.
pub line_of :
    (o : Option Semaphore.Semaphore) (l : List ℕ) (s : Semaphore.Semaphore)
    → LineOk o l
    → o ≡ some s
    → LineOk (some s) l
line_of none l s ok e = cc
line_of (some x) l s ok e = let same : x ≡ s = cc in subst (λ y. LineOk (some y) l) same ok

release-LineOk :
    (s s' : Semaphore.Semaphore) (l : List ℕ)
    → Semaphore.release s ≡ some s'
    → LineOk (some s) l
    → LineOk (some s') l
unfolding Semaphore.release
release-LineOk s s' l e ok = (
  (no_lost_wakeup s 0 ok.0).1 s' e,
  elim (Option-cases (wake_first s.queue)) [
    | inl n ↦ ground (arith, n, ok.1)
    | inr (ws, w) ↦ ground (arith, w, ok.1, tickets-wake_first s.queue ws w)
  ],
)

pub release_permit-Lines :
    (ctl ctl' : Controller) (m : String) (qs : String → List ℕ)
    → release_permit ctl m ≡ some ctl'
    → Lines ctl qs
    → Lines ctl' qs
unfolding release_permit
release_permit-Lines ctl ctl' m qs e h = elim (Option-cases (Dict.get ctl.semaphores m)) [
  | inl n ↦ let same : ctl ≡ ctl' = ground (arith, n, e) in subst (λ k. Lines k qs) same h
  | inr (s, d) ↦ elim (Option-cases (Semaphore.release s)) [
    | inl n ↦ absurd (ground (arith, d, n, e))
    | inr (s', r) ↦
        let same : set_semaphore ctl m s' ≡ ctl' = ground (arith, d, r, e) in
        subst (λ k. Lines k qs) same
          (keep-Lines ctl m s' qs h (release-LineOk s s' (qs m) r (line_of _ (qs m) s (h m) d)))
  ]
]
