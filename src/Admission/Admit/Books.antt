-- ===== src/Admission/Admit/Books.antt =====
-- The books of the admission controller: permits, reserved tokens and batch waiters, per model.
use inference_x.Prelude.{
  ℕ, ◌+◌, ◌<◌, String, ◌≡◌, refl, ◌∙◌, subst, ◌⊎◌, inl, inr, false, Option, none, some, arith,
  eq_iff, str_eq, if◌then◌else◌, Bool-cases, Option-cases,
}
use inference_x.Prelude.Dict
use inference_x.Prelude.Dict.{Dict, get-put, get-put_self}
use inference_x.Schemas.{Priority, interactive, batch}
use inference_x.Admission.{Config, Controller, effective_max_num_seqs, get_semaphore, set_semaphore}
use inference_x.Admission.Semaphore
use inference_x.Admission.Semaphore.{
  Attempt, acquired, suspended, Resumption, asleep, granted, refused,
}
use inference_x.Admission.Semaphore.Permits.{at_hand, release-at_hand}
use inference_x.Admission.Counter.{current, current-add_pos, current-add-minus}
use inference_x.Admission.Admit.{release_permit, enter_queue, leave_queue}

-- A count for each model, with `n` more for one of them.
abbrev pub bump : String → ℕ → (String → ℕ) → String → ℕ
bump m n f j = if str_eq m j then f j + n else f j

abbrev pub waits : Priority → ℕ
waits batch = 1
waits interactive = 0

-- A semaphore has the model's ceiling for its bound, and its permits are free, with a woken waiter,
-- or held. Without one, no request of the model holds a permit, or the gate is off.
abbrev pub SemOk : Config → String → Option Semaphore.Semaphore → ℕ → Type 0
SemOk c m none held = (effective_max_num_seqs c m ≡ none) ⊎ (held ≡ 0)
SemOk c m (some s) held = (effective_max_num_seqs c m ≡ some s.bound) × (at_hand s + held ≡ s.bound)

pub record Balanced (c : Config) (ctl : Controller) (held reserved queued : String → ℕ)
    : Type 0 where
  pub sems : (m : String) → SemOk c m (Dict.get ctl.semaphores m) (held m)
  pub tokens : (m : String) → current ctl.tracker m ≡ reserved m
  pub waiters : (m : String) → current ctl.batch_waiters m ≡ queued m

pub bump_self : (m : String) (n : ℕ) (f : String → ℕ) → bump m n f m ≡ f m + n
bump_self m n f = ground (arith, eq_iff m m)

-- One semaphore is replaced; the others, and what is held of them, stay.
pub SemOk-put :
    (c : Config) (d : Dict Semaphore.Semaphore) (held held' : String → ℕ) (m : String)
    (s : Semaphore.Semaphore)
    → ((j : String) → SemOk c j (Dict.get d j) (held j))
    → SemOk c m (some s) (held' m)
    → ((j : String) → str_eq m j ≡ false → held' j ≡ held j)
    → (j : String) → SemOk c j (Dict.get (Dict.put d m s) j) (held' j)
SemOk-put c d held held' m s old new rest j = elim (Bool-cases (str_eq m j)) [
  | inl t ↦
      subst (λ k. SemOk c k (Dict.get (Dict.put d m s) k) (held' k)) ((eq_iff m j).0 t)
        (rw (get-put_self d m s) new)
  | inr f ↦
      let e : Dict.get (Dict.put d m s) j ≡ Dict.get d j = rw (get-put d m j s, f) in
      rw (e, rest j f) (old j)
]

-- The same where there is no semaphore: what one request holds does not matter.
pub SemOk-none :
    (c : Config) (d : Dict Semaphore.Semaphore) (held held' : String → ℕ) (m : String)
    → Dict.get d m ≡ none
    → effective_max_num_seqs c m ≡ none
    → ((j : String) → SemOk c j (Dict.get d j) (held j))
    → ((j : String) → str_eq m j ≡ false → held' j ≡ held j)
    → (j : String) → SemOk c j (Dict.get d j) (held' j)
SemOk-none c d held held' m n e old rest j = elim (Bool-cases (str_eq m j)) [
  | inl t ↦ subst (λ k. SemOk c k (Dict.get d k) (held' k)) ((eq_iff m j).0 t) (rw n (inl e))
  | inr f ↦ rw (rest j f) (old j)
]

-- With the gate off there is no semaphore of the model.
pub no_semaphore :
    (c : Config) (m : String) (o : Option Semaphore.Semaphore) (h : ℕ)
    → SemOk c m o h
    → effective_max_num_seqs c m ≡ none
    → o ≡ none
no_semaphore c m none h ok e = refl
no_semaphore c m (some s) h ok e = cc (ok.0)

pub gate_off :
    (c : Config) (m : String) (o : Option Semaphore.Semaphore) (h : ℕ)
    → SemOk c m o h
    → o ≡ none
    → 0 < h
    → effective_max_num_seqs c m ≡ none
gate_off c m none h ok n p = ground (arith, ok)
gate_off c m (some s) h ok n p = cc

-- Of a semaphore that is there: its bound is the ceiling, and its permits add up.
pub there :
    (c : Config) (m : String) (o : Option Semaphore.Semaphore) (h : ℕ) (s : Semaphore.Semaphore)
    → SemOk c m o h
    → o ≡ some s
    → (effective_max_num_seqs c m ≡ some s.bound) × (at_hand s + h ≡ s.bound)
there c m none h s ok e = cc
there c m (some x) h s ok e =
    let same : x ≡ s = cc in
    subst (λ y. (effective_max_num_seqs c m ≡ some y.bound) × (at_hand y + h ≡ y.bound)) same ok

-- `sem.release()` by a request that has a permit never raises, and gives the permit back.
pub release_permit-Balanced :
    (c : Config) (ctl : Controller) (m : String) (held reserved queued : String → ℕ)
    → Balanced c ctl (bump m 1 held) reserved queued
    → (ctl' : Controller) × (release_permit ctl m ≡ some ctl')
      × Balanced c ctl' held reserved queued
unfolding release_permit
release_permit-Balanced c ctl m held reserved queued b =
    let one = bump_self m 1 held in
    elim (Option-cases (Dict.get ctl.semaphores m)) [
      | inl n ↦
          let off = gate_off c m _ _ (b.sems m) n (omega (arith, one)) in
          (
            ctl,
            ground (arith, n),
            record {
              sems = SemOk-none c ctl.semaphores (bump m 1 held) held m n off b.sems (λ j f. rw f);
              tokens = b.tokens;
              waiters = b.waiters;
            },
          )
      | inr (s, e) ↦
          let ok = there c m _ _ s (b.sems m) e in
          let (s', r, more, same) = release-at_hand s (omega (arith, ok.1, one)) in
          (
            set_semaphore ctl m s',
            ground (arith, e, r),
            record {
              sems =
                  SemOk-put c ctl.semaphores (bump m 1 held) held m s' b.sems
                    (rw same ok.0, omega (arith, more, same, ok.1, one)) (λ j f. rw f);
              tokens = b.tokens;
              waiters = b.waiters;
            },
          )
    ]

-- Replacing the model's semaphore, and counting a batch waiter in and out.
pub set-Balanced :
    (c : Config) (ctl : Controller) (m : String) (s : Semaphore.Semaphore)
    (held held' reserved queued : String → ℕ)
    → Balanced c ctl held reserved queued
    → SemOk c m (some s) (held' m)
    → ((j : String) → str_eq m j ≡ false → held' j ≡ held j)
    → Balanced c (set_semaphore ctl m s) held' reserved queued
set-Balanced c ctl m s held held' reserved queued b ok rest = record {
  sems = SemOk-put c ctl.semaphores held held' m s b.sems ok rest;
  tokens = b.tokens;
  waiters = b.waiters;
}

pub enter-Balanced :
    (p : Priority) (c : Config) (ctl : Controller) (m : String) (held reserved queued : String → ℕ)
    → Balanced c ctl held reserved queued
    → Balanced c (enter_queue p ctl m) held reserved (bump m (waits p) queued)
enter-Balanced batch c ctl m held reserved queued b = record {
  sems = b.sems;
  tokens = b.tokens;
  waiters = λ j.
      ground (arith, current-add_pos ctl.batch_waiters m j 1, b.waiters j, b.waiters m, eq_iff m j);
}
enter-Balanced interactive c ctl m held reserved queued b = record {
  sems = b.sems;
  tokens = b.tokens;
  waiters = λ j. ground (arith, b.waiters j);
}

pub leave-Balanced :
    (p : Priority) (c : Config) (ctl : Controller) (m : String) (held reserved queued : String → ℕ)
    → Balanced c ctl held reserved (bump m (waits p) queued)
    → Balanced c (leave_queue p ctl m) held reserved queued
leave-Balanced batch c ctl m held reserved queued b =
    let here : current ctl.batch_waiters m ≡ queued m + 1 = b.waiters m ∙ bump_self m 1 queued in
    record {
      sems = b.sems;
      tokens = b.tokens;
      waiters = λ j. ground (
        arith,
        current-add-minus ctl.batch_waiters m j 1 (queued m) here,
        b.waiters j,
        eq_iff m j,
      );
    }
leave-Balanced interactive c ctl m held reserved queued b = record {
  sems = b.sems;
  tokens = b.tokens;
  waiters = λ j. ground (arith, b.waiters j);
}

found_or_created :
    (c : Config) (m : String) (n h : ℕ) (o : Option Semaphore.Semaphore)
    → effective_max_num_seqs c m ≡ some n
    → SemOk c m o h
    → SemOk c m (some (elim o [ none ↦ Semaphore.create n | some s ↦ s ])) h
unfolding Semaphore.create
found_or_created c m n h none e ok = (e, ground (arith, ok, e))
found_or_created c m n h (some s) e ok = ok

pub get_semaphore-Ok :
    (c : Config) (ctl : Controller) (m : String) (n h : ℕ)
    → effective_max_num_seqs c m ≡ some n
    → SemOk c m (Dict.get ctl.semaphores m) h
    → SemOk c m (some (get_semaphore ctl m n)) h
unfolding get_semaphore
get_semaphore-Ok c ctl m n h e ok = found_or_created c m n h (Dict.get ctl.semaphores m) e ok
