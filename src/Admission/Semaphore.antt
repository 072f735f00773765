-- ===== src/Admission/Semaphore.antt =====
-- `asyncio.BoundedSemaphore` of the standard library, as routing/admission.py uses it: a counter,
-- and a first-in first-out queue of futures, one to each suspended `acquire()`. A future is pending,
-- is woken (its result is set: the permit is taken for it), is cancelled, or is revoked (woken, and
-- its task cancelled before it ran). What runs between two suspensions is one operation here.
pub mod Permits
pub mod Order
pub mod Tickets
use inference_x.Prelude.{
  ℕ, zero, suc, ◌+◌, ◌-◌, Bool, true, false, ◌||◌, Option, none, some, List, [], ◌∷◌, ◌++◌, any,
  leb, ◌==◌, if◌then◌else◌,
}

pub data Future : Type 0 where
  pending woken cancelled revoked : Future

pub record Waiter : Type 0 where
  pub ticket : ℕ
  pub future : Future

pub record Semaphore : Type 0 where
  pub bound : ℕ
  pub value : ℕ
  pub queue : List Waiter

unfoldable pub create : ℕ → Semaphore
create n = record { bound = n; value = n; queue = [] }

abbrev pub not_cancelled : Waiter → Bool
not_cancelled w = elim w.future [ cancelled ↦ false | _ ↦ true ]

-- `self._value == 0 or any(not w.cancelled() for w in self._waiters)`
unfoldable pub locked : Semaphore → Bool
locked s = s.value == 0 || any not_cancelled s.queue

-- The first pending future gets its result; `none` if there is none.
unfoldable pub wake_first : List Waiter → Option (List Waiter)
wake_first [] = none
wake_first (w ∷ ws) =
    let rest = wake_first ws in
    elim w.future [
      | pending ↦ some (record w { future = woken } ∷ ws)
      | _ ↦ elim rest [ none ↦ none | some ws' ↦ some (w ∷ ws') ]
    ]

-- `while self._value > 0: if not self._wake_up_next(): break`
unfoldable pub wake_all : ℕ → List Waiter → ℕ × List Waiter
wake_all zero ws = (0, ws)
wake_all (suc v) ws = elim (wake_first ws) [ none ↦ (suc v, ws) | some ws' ↦ wake_all v ws' ]

-- `release()`, which raises if the counter is at its bound.
unfoldable pub release : Semaphore → Option Semaphore
release s = if leb s.bound s.value then none else elim (wake_first s.queue) [
  | none ↦ some (record s { value = s.value + 1 })
  | some ws ↦ some (record s { queue = ws })
]

-- `acquire()` up to its first suspension: a permit at once, or a new future at the end of the queue.
pub data Attempt : Type 0 where
  acquired suspended : Semaphore → Attempt

unfoldable pub acquire : Semaphore → ℕ → Attempt
unfolding locked
acquire s t =
    if locked s
    then suspended (record s { queue = s.queue ++ record { ticket = t; future = pending } ∷ [] })
    else acquired (record s { value = s.value - 1 })

-- The task's `cancel()`, from a timeout or from outside.
unfoldable pub cancel_future : Future → Future
cancel_future pending = cancelled
cancel_future woken = revoked
cancel_future cancelled = cancelled
cancel_future revoked = revoked

unfoldable pub cancel : ℕ → List Waiter → List Waiter
unfolding cancel_future
cancel t [] = []
cancel t (w ∷ ws) =
    let rest = cancel t ws in
    if w.ticket == t then record w { future = cancel_future w.future } ∷ ws else w ∷ rest

-- `self._waiters.remove(fut)`, with the state of the future that it removes.
unfoldable pub remove : ℕ → List Waiter → Option (Future × List Waiter)
remove t [] = none
remove t (w ∷ ws) =
    let rest = remove t ws in
    if w.ticket == t
    then some (w.future, ws)
    else elim rest [ none ↦ none | some (f, ws') ↦ some (f, w ∷ ws') ]

-- What a task does when it resumes inside `acquire()`. It still sleeps while its future is pending.
pub data Resumption : Type 0 where
  asleep : Resumption
  granted refused : Semaphore → Resumption

abbrev settle : Semaphore → ℕ → List Waiter → Semaphore
settle s v ws = let (v', ws') = wake_all v ws in record s { value = v'; queue = ws' }

abbrev resume_as : Semaphore → Future → List Waiter → Resumption
resume_as s pending ws = asleep
resume_as s woken ws = granted (settle s s.value ws)
resume_as s cancelled ws = refused (settle s s.value ws)
resume_as s revoked ws = refused (settle s (s.value + 1) ws)

unfoldable pub resume : Semaphore → ℕ → Resumption
unfolding remove wake_all
resume s t = elim (remove t s.queue) [ none ↦ asleep | some (f, ws) ↦ resume_as s f ws ]
