-- ===== src/Admission/System/Safety.antt =====
-- What the admission controller guarantees to the engine, whatever the interleaving.
use inference_x.Prelude.{ℕ, ◌≤◌, String, ◌≡◌, refl, ◌∙◌, Option, none, some, List, [], ◌∷◌, arith}
use inference_x.Prelude.Dict
use inference_x.Admission.{Config}
use inference_x.Admission.Semaphore
use inference_x.Admission.Admit.Books.{SemOk, there}
use inference_x.Admission.System.{
  Task, Event, boot, run, stage_holds, stage_reserves, stage_queues, of_model, held, reserved,
  queued,
}
use inference_x.Admission.Semaphore.Permits.{at_hand}
use inference_x.Admission.Counter.{current}
use inference_x.Admission.{effective_max_num_seqs}
use inference_x.Admission.System.Books.{Clean, reachable-Inv}

-- From the books: what is held of a model is at most its ceiling.
held-le :
    (c : Config) (m : String) (n h : ℕ) (o : Option Semaphore.Semaphore)
    → SemOk c m o h
    → effective_max_num_seqs c m ≡ some n
    → h ≤ n
held-le c m n h none ok e = ground (arith, ok, e)
held-le c m n h (some s) ok e = ground (arith, ok.0, ok.1, e)

of_model-idle :
    (w : Task → ℕ) (ts : List Task) (m : String) → of_model (λ x. 1) ts m ≡ 0 → of_model w ts m ≡ 0
of_model-idle w [] m e = refl
of_model-idle w (x ∷ xs) m e = ground (arith, of_model-idle w xs m)

module _ (c : Config) (es : List Event) (m : String) where
  -- When the model has a sequence ceiling (a tier is resolved), at every moment its requests that have
  -- been admitted and not released are at most that ceiling.
  pub running-le-ceiling :
      (n : ℕ) → effective_max_num_seqs c m ≡ some n → held (run c boot es).tasks m ≤ n
  running-le-ceiling n e = held-le c m n _ _ ((reachable-Inv c es).books.sems m) e

  -- The reserved tokens of a model are the sum over its admitted requests, and its batch waiters are
  -- its batch requests that wait.
  pub counters_exact :
      (current (run c boot es).controller.tracker m ≡ reserved (run c boot es).tasks m)
      × (current (run c boot es).controller.batch_waiters m ≡ queued (run c boot es).tasks m)
  counters_exact = ((reachable-Inv c es).books.tokens m, (reachable-Inv c es).books.waiters m)

  -- When no request of the model is in flight, nothing of it is left behind: no reserved token, no
  -- waiter, and every permit of its semaphore is free or with a future that was woken.
  pub nothing_leaks :
      (s : Semaphore.Semaphore)
      → of_model (λ x. 1) (run c boot es).tasks m ≡ 0
      → Dict.get (run c boot es).controller.semaphores m ≡ some s
      → (current (run c boot es).controller.tracker m ≡ 0)
        × (current (run c boot es).controller.batch_waiters m ≡ 0)
        × (at_hand s ≡ s.bound)
  nothing_leaks s idle e =
      let books = (reachable-Inv c es).books in
      let none_held = of_model-idle (λ x. stage_holds x.stage) (run c boot es).tasks m idle in
      let none_reserved =
        of_model-idle (λ x. stage_reserves x.stage) (run c boot es).tasks m idle in
      let none_queued =
        of_model-idle (λ x. stage_queues x.request.priority x.stage) (run c boot es).tasks m idle in
      let ok = there c m _ _ s (books.sems m) e in
      (
        books.tokens m ∙ none_reserved,
        books.waiters m ∙ none_queued,
        omega (arith, ok.1, none_held),
      )

-- No call of `admit` or `release`, in any history, meets the ValueError of a semaphore that is
-- released too often.
pub no_over_release : (c : Config) (es : List Event) → Clean (run c boot es).log
no_over_release c es = (reachable-Inv c es).clean
